-- ===== src/Risk/Counting.antt =====
-- app/services/agent_risk_aggregate.py: what the counters of the projection count, and the score
-- against `score_findings` of app/services/risk_service.py.
use enterprise_agent_securit.Prelude.{
  ℕ, String, ◌+◌, ◌≡◌, refl, ap, ◌∙◌, true, false, not, ◌&&◌, List, [], ◌∷◌, arith, eq_iff, eq_refl,
  filter, count, length, if◌then◌else◌, ◌==◌, Bool-cases, inl, inr,
}
use enterprise_agent_securit.Dict
use enterprise_agent_securit.Dict.{get-empty, get-put, get-put_self}
use enterprise_agent_securit.Text.{is_empty}
use enterprise_agent_securit.Watermark.{BaselineWatermark}
use enterprise_agent_securit.Finding.{Severity, Finding, is_active}
use enterprise_agent_securit.Risk.{level_for_score, score_findings, severity_weights}
use enterprise_agent_securit.Risk.Aggregate.{
  Counts, SeverityCounts, AgentRiskAggregate, apply_finding, accept, recalculate, init, contribute,
  contribute_all, weighted, zero_counts, increment, count_of, text_in,
}
use enterprise_agent_securit.Risk.Projection.{accepted, apply_finding_cases, init-Reflects}
use enterprise_agent_securit.Risk.Equivalence.{deliver, deliver-Reflects}

abbrev pub active : List Finding → List Finding
active = filter (λ f. is_active f.status)

increment-weighted :
    (v : Severity) (c : SeverityCounts) → weighted (increment v c) ≡ weighted c + severity_weights v
unfolding increment weighted
increment-weighted Severity.low c = omega arith
increment-weighted Severity.medium c = omega arith
increment-weighted Severity.high c = omega arith
increment-weighted Severity.critical c = omega arith

contribute_all-weighted :
    (v : List String) (c : Counts) (fs : List Finding)
    → weighted (contribute_all v c fs).counts_by_severity
      ≡ weighted c.counts_by_severity + score_findings (active fs)
unfolding contribute_all contribute score_findings
contribute_all-weighted v c [] = omega arith
contribute_all-weighted v c (f ∷ fs) = ground (
  arith,
  contribute_all-weighted v (contribute v c f) fs,
  increment-weighted f.severity c.counts_by_severity,
)

contribute_all-finding_count :
    (v : List String) (c : Counts) (fs : List Finding)
    → (contribute_all v c fs).finding_count ≡ c.finding_count + length (active fs)
unfolding contribute_all contribute
contribute_all-finding_count v c [] = omega arith
contribute_all-finding_count v c (f ∷ fs) =
    ground (arith, contribute_all-finding_count v (contribute v c f) fs)

module _ (v : List String) (rule : String)
    (known : not (is_empty rule) && text_in rule v ≡ true) where
  contribute-counts_by_rule :
      (c : Counts) (f : Finding)
      → count_of (Dict.get rule (contribute v c f).counts_by_rule) ≡ (
          if is_active f.status && f.rule_id == rule
          then count_of (Dict.get rule c.counts_by_rule) + 1
          else count_of (Dict.get rule c.counts_by_rule))
  unfolding contribute
  contribute-counts_by_rule c f = elim (Bool-cases (f.rule_id == rule)) [
    | inl same ↦
        rw ((eq_iff f.rule_id rule).0 same, known, eq_refl rule)
          (ground (
            arith,
            get-put_self rule (count_of (Dict.get rule c.counts_by_rule) + 1) c.counts_by_rule,
          ))
    | inr other ↦ ground (
      arith,
      other,
      get-put f.rule_id rule (count_of (Dict.get f.rule_id c.counts_by_rule) + 1) c.counts_by_rule,
    )
  ]

  contribute_all-counts_by_rule :
      (c : Counts) (fs : List Finding)
      → count_of (Dict.get rule (contribute_all v c fs).counts_by_rule)
        ≡ count_of (Dict.get rule c.counts_by_rule) + count (λ f. f.rule_id == rule) (active fs)
  unfolding contribute_all
  contribute_all-counts_by_rule c [] = omega arith
  contribute_all-counts_by_rule c (f ∷ fs) =
      ground
        (arith, contribute_all-counts_by_rule (contribute v c f) fs, contribute-counts_by_rule c f)

deliver-rule_vocabulary :
    (ds : List (Finding × ℕ)) (a : AgentRiskAggregate) (fs : List Finding)
    → (deliver ds a fs).0.rule_vocabulary ≡ a.rule_vocabulary
unfolding deliver accept recalculate
deliver-rule_vocabulary [] a fs = refl
deliver-rule_vocabulary ((f, now) ∷ ds) a fs =
    deliver-rule_vocabulary ds (apply_finding f now a).1 (accepted (apply_finding f now a).0 f fs)
    ∙ apply_finding_cases (λ r. r.1.rule_vocabulary ≡ a.rule_vocabulary) f now a refl refl refl refl
        (λ same past next after. ground arith)

-- After any deliveries to a fresh projection, its score is the score of the active findings among
-- those it accepted, its level is the level of that score, and its finding count is their number.
pub projection_scores :
    (w : BaselineWatermark) (v : List String) (created : ℕ) (ds : List (Finding × ℕ))
    → let (a, fs) = deliver ds (init w v created) [] in
      (a.risk_score ≡ score_findings (active fs))
      × (a.risk_level ≡ level_for_score (score_findings (active fs)))
      × (a.counts.finding_count ≡ length (active fs))
unfolding weighted
projection_scores w v created ds =
    let (a, fs) = deliver ds (init w v created) [] in
    let h = deliver-Reflects w ds (init w v created) [] (init-Reflects w v created) in
    let scored : weighted a.counts.counts_by_severity ≡ score_findings (active fs) = omega (
      arith,
      ap (λ c. weighted c.counts_by_severity) h.counted,
      contribute_all-weighted a.rule_vocabulary zero_counts fs,
    ) in
    (
      h.score ∙ scored,
      h.level ∙ ap level_for_score scored,
      omega (
        arith,
        ap (λ c. c.finding_count) h.counted,
        contribute_all-finding_count a.rule_vocabulary zero_counts fs,
      ),
    )

-- After any deliveries to a fresh projection, the counter of a rule of the vocabulary is the number
-- of active findings among the accepted ones that carry the rule.
pub projection_rule_counts :
    (w : BaselineWatermark) (v : List String) (created : ℕ) (ds : List (Finding × ℕ))
    (rule : String)
    → is_empty rule ≡ false
    → text_in rule v ≡ true
    → let (a, fs) = deliver ds (init w v created) [] in
      count_of (Dict.get rule a.counts.counts_by_rule) ≡ count (λ f. f.rule_id == rule) (active fs)
unfolding init Dict.get
projection_rule_counts w v created ds rule named known =
    let (a, fs) = deliver ds (init w v created) [] in
    let h = deliver-Reflects w ds (init w v created) [] (init-Reflects w v created) in
    let same = deliver-rule_vocabulary ds (init w v created) [] in
    let counted =
      contribute_all-counts_by_rule a.rule_vocabulary rule (rw (named, same, known) refl)
        zero_counts fs in
    omega (arith, ap (λ c. count_of (Dict.get rule c.counts_by_rule)) h.counted, counted)
