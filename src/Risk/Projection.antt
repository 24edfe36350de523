-- ===== src/Risk/Projection.antt =====
-- app/services/agent_risk_aggregate.py: the projection as a function of the findings it accepted.
use enterprise_agent_securit.Prelude.{
  ℕ, String, ◌+◌, ◌≤◌, ◌<◌, ◌≡◌, refl, Bool, true, false, List, [], ◌∷◌, ◌++◌, Result, ok, err,
  arith, eq_iff, filter, length, length-append, All, ltb, if◌then◌else◌, ◌==◌, leb, Bool-cases, inl,
  inr,
}
use enterprise_agent_securit.Watermark.{BaselineWatermark, unassigned_sequence}
use enterprise_agent_securit.Finding.{Finding, recorded_or_created}
use enterprise_agent_securit.Risk.{level_for_score}
use enterprise_agent_securit.Risk.Aggregate.{
  AgentRiskAggregate, ProjectionError, Counts, zero_counts, init, apply_finding, accept,
  is_post_baseline, at_or_before, agent_mismatch, unassigned_finding, max_sequence, contribute,
  contribute_all, weighted, recalculate, stale,
}

pub contribute_all-append :
    (v : List String) (c : Counts) (fs : List Finding) (f : Finding)
    → contribute_all v c (fs ++ f ∷ []) ≡ contribute v (contribute_all v c fs) f
unfolding contribute_all
contribute_all-append v c [] f = refl
contribute_all-append v c (g ∷ fs) f = contribute_all-append v (contribute v c g) fs f

max_sequence-append :
    (least : ℕ) (fs : List Finding) (f : Finding)
    → max_sequence least (fs ++ f ∷ []) ≡ (
        if ltb (max_sequence least fs) f.evidence_sequence
        then f.evidence_sequence
        else max_sequence least fs)
unfolding max_sequence
max_sequence-append least [] f = refl
max_sequence-append least (g ∷ fs) f =
    max_sequence-append (if ltb least g.evidence_sequence then g.evidence_sequence else least) fs f

pub le-max_sequence : (least : ℕ) (fs : List Finding) → least ≤ max_sequence least fs
unfolding max_sequence
le-max_sequence least [] = omega arith
le-max_sequence least (f ∷ fs) = ground (
  arith,
  le-max_sequence (if ltb least f.evidence_sequence then f.evidence_sequence else least) fs,
)

pub filter-All {ℓ} :
    {A : Type ℓ} (p : A → Bool) (xs : List A) → All (λ x. p x ≡ true) xs → filter p xs ≡ xs
filter-All p [] h = refl
filter-All p (x ∷ xs) h = rw (h.0, filter-All p xs h.1)

All-append {ℓ κ} :
    {A : Type ℓ} (P : A → Type κ) (xs : List A) (y : A) → All P xs → P y → All P (xs ++ y ∷ [])
All-append P [] y h p = (p, tt)
All-append P (x ∷ xs) y h p = (h.0, All-append P xs y h.1 p)

-- the findings carry the sequence numbers that follow `n`, without a gap
abbrev pub Contiguous : ℕ → List Finding → Type 0
Contiguous n [] = Unit
Contiguous n (f ∷ fs) = (f.evidence_sequence ≡ n + 1) × Contiguous (n + 1) fs

Contiguous-append :
    (n : ℕ) (fs : List Finding) (f : Finding)
    → Contiguous n fs
    → f.evidence_sequence ≡ n + length fs + 1
    → Contiguous n (fs ++ f ∷ [])
Contiguous-append n [] f h e = (omega (arith, e), tt)
Contiguous-append n (g ∷ fs) f h e = (h.0, Contiguous-append (n + 1) fs f h.1 (omega (arith, e)))

-- The projection is what the accepted findings `fs` amount to, under the baseline `w`.
pub record Reflects (w : BaselineWatermark) (a : AgentRiskAggregate) (fs : List Finding)
    : Type 0 where
  pub agent : a.agent_id ≡ w.agent_id
  pub baseline : a.baseline_evidence_sequence ≡ w.baseline_evidence_sequence
  pub since : a.baseline_at ≡ w.baseline_at
  pub cursor : a.last_applied_sequence ≡ max_sequence w.baseline_evidence_sequence fs
  pub counted : a.counts ≡ contribute_all a.rule_vocabulary zero_counts fs
  pub score : a.risk_score ≡ weighted a.counts.counts_by_severity
  pub level : a.risk_level ≡ level_for_score (weighted a.counts.counts_by_severity)
  pub position : a.last_applied_sequence ≡ w.baseline_evidence_sequence + length fs
  pub contiguous : Contiguous w.baseline_evidence_sequence fs
  pub evidence : All (λ f. is_post_baseline w.agent_id w f ≡ true) fs

-- the findings accepted so far, with one more if the call returned True
abbrev pub accepted : Result ProjectionError Bool → Finding → List Finding → List Finding
accepted (ok true) f fs = fs ++ f ∷ []
accepted (ok false) f fs = fs
accepted (err e) f fs = fs

pub init-Reflects :
    (w : BaselineWatermark) (v : List String) (now : ℕ) → Reflects w (init w v now) []
unfolding init weighted level_for_score max_sequence contribute_all
init-Reflects w v now = record {
  agent = refl;
  baseline = refl;
  since = refl;
  cursor = refl;
  counted = refl;
  score = refl;
  level = refl;
  position = omega arith;
  contiguous = tt;
  evidence = tt;
}

-- To prove something of what `apply_finding` returns and leaves.
pub apply_finding_cases {ℓ} :
    (P : Result ProjectionError Bool × AgentRiskAggregate → Type ℓ) (f : Finding) (now : ℕ)
    (a : AgentRiskAggregate)
    → P (err agent_mismatch, a)
    → P (err unassigned_finding, a)
    → P (ok false, a)
    → P (ok false, record a { state = stale; assessed_at = now })
    → (f.agent_id ≡ a.agent_id
        → a.baseline_evidence_sequence < f.evidence_sequence
        → f.evidence_sequence ≡ a.last_applied_sequence + 1
        → at_or_before (recorded_or_created f) a.baseline_at ≡ false
        → P (accept f now a))
    → P (apply_finding f now a)
unfolding apply_finding
apply_finding_cases P f now a mismatch unassigned skipped gap next =
    elim (Bool-cases (f.agent_id == a.agent_id)) [
      | inr e ↦ rw (e, apply_finding) mismatch
      | inl same ↦ elim (Bool-cases (leb f.evidence_sequence unassigned_sequence)) [
        | inl e ↦ rw (same, e, apply_finding) unassigned
        | inr e ↦ elim (Bool-cases (leb f.evidence_sequence a.baseline_evidence_sequence)) [
          | inl e1 ↦ rw (same, e, e1, apply_finding) skipped
          | inr e1 ↦ elim (Bool-cases (leb f.evidence_sequence a.last_applied_sequence)) [
            | inl e2 ↦ rw (same, e, e1, e2, apply_finding) skipped
            | inr e2 ↦ elim (Bool-cases (at_or_before (recorded_or_created f) a.baseline_at)) [
              | inl e3 ↦ rw (same, e, e1, e2, e3, apply_finding) gap
              | inr e3 ↦ elim (Bool-cases (ltb (a.last_applied_sequence + 1) f.evidence_sequence)) [
                | inl e4 ↦ rw (same, e, e1, e2, e3, e4, apply_finding) gap
                | inr e4 ↦
                    rw (same, e, e1, e2, e3, e4, apply_finding)
                      (next (ground (arith, eq_iff f.agent_id a.agent_id)) (ground arith)
                        (ground arith) e3)
              ]
            ]
          ]
        ]
      ]
    ]

-- What `accept` leaves behind, once the cursor is known to move past the baseline.
accept_lem :
    (f : Finding) (now : ℕ) (a : AgentRiskAggregate)
    → a.baseline_evidence_sequence < f.evidence_sequence
    → a.risk_score ≡ weighted a.counts.counts_by_severity
    → a.risk_level ≡ level_for_score (weighted a.counts.counts_by_severity)
    → accept f now a ≡ (
      ok true,
      recalculate (record a {
        last_applied_sequence = f.evidence_sequence;
        counts = contribute a.rule_vocabulary a.counts f;
        posture_version = a.posture_version + 1;
        assessed_at = now;
      }),
    )
unfolding accept contribute recalculate weighted level_for_score
accept_lem f now a past score level = ground arith

module _ (w : BaselineWatermark) (f : Finding) (now : ℕ) (a : AgentRiskAggregate)
    (fs : List Finding) (h : Reflects w a fs) where
  accept-Reflects :
      f.agent_id ≡ a.agent_id
      → a.baseline_evidence_sequence < f.evidence_sequence
      → f.evidence_sequence ≡ a.last_applied_sequence + 1
      → at_or_before (recorded_or_created f) a.baseline_at ≡ false
      → Reflects w (accept f now a).1 (accepted (accept f now a).0 f fs)
  unfolding recalculate
  accept-Reflects same past next after = rw (accept_lem f now a past h.score h.level) (record {
    agent = h.agent;
    baseline = h.baseline;
    since = h.since;
    cursor = ground (arith, h.cursor, max_sequence-append w.baseline_evidence_sequence fs f);
    counted = rw (h.counted, contribute_all-append a.rule_vocabulary zero_counts fs f) refl;
    score = refl;
    level = refl;
    position = omega (arith, next, h.position, length-append fs (f ∷ []));
    contiguous = Contiguous-append _ fs f h.contiguous (omega (arith, next, h.position));
    evidence =
        All-append _ fs f h.evidence
          (ground (arith, eq_iff f.agent_id w.agent_id, h.agent, h.baseline, h.since));
  })

  pub apply_finding-Reflects :
      Reflects w (apply_finding f now a).1 (accepted (apply_finding f now a).0 f fs)
  apply_finding-Reflects =
      apply_finding_cases (λ r. Reflects w r.1 (accepted r.0 f fs)) f now a h h h gap
        accept-Reflects
    where
      gap : Reflects w (record a { state = stale; assessed_at = now }) fs
      gap = record {
        agent = h.agent;
        baseline = h.baseline;
        since = h.since;
        cursor = h.cursor;
        counted = h.counted;
        score = h.score;
        level = h.level;
        position = h.position;
        contiguous = h.contiguous;
        evidence = h.evidence;
      }
