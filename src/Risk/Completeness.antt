-- ===== src/Risk/Completeness.antt =====
-- app/services/risk_aggregator.py: what a projection that is not stale has seen.
use enterprise_agent_securit.Prelude.{
  ℕ, ◌≡◌, ◌≤◌, ◌⊎◌, refl, Option, none, some, List, [], ◌∷◌, arith, eq_iff, Option-cases, inl, inr,
  All,
}
use enterprise_agent_securit.Dict
use enterprise_agent_securit.Dict.{get-put_self}
use enterprise_agent_securit.Finding.{Finding}
use enterprise_agent_securit.Risk.Aggregate.{
  AgentRiskAggregate, stale, apply_finding, accept, recalculate,
}
use enterprise_agent_securit.Risk.Rebuild
use enterprise_agent_securit.Risk.Projection.{apply_finding_cases}
use enterprise_agent_securit.Risk.Aggregator.{RiskAggregator, stale_if_raised, ingest_finding}
use enterprise_agent_securit.Risk.Operations.{run-keeps_unrecovered, run, ingest}

-- the deliveries, one after another, each with its time
unfoldable pub ingest_all : List (Finding × ℕ) → RiskAggregator → RiskAggregator
ingest_all [] s = s
ingest_all ((f, now) ∷ deliveries) s = ingest_all deliveries (ingest_finding f now s).1

-- the finding is excluded by the baseline, or the cursor has reached it
abbrev pub Covers : AgentRiskAggregate → Finding → Type 0
Covers a f =
    (f.evidence_sequence ≤ a.baseline_evidence_sequence)
    ⊎ (f.evidence_sequence ≤ a.last_applied_sequence)

-- the projection of an agent, if there is one, is stale or covers a finding
abbrev pub StaleOrCovers : Finding → Option AgentRiskAggregate → Type 0
StaleOrCovers f none = Unit
StaleOrCovers f (some a) = (a.state ≡ stale) ⊎ Covers a f

kept-StaleOrCovers :
    (g f : Finding) (now : ℕ) (a : AgentRiskAggregate)
    → StaleOrCovers g (some a)
    → StaleOrCovers g (some (stale_if_raised now (apply_finding f now a)).1)
unfolding stale_if_raised Rebuild.mark_stale accept recalculate
kept-StaleOrCovers g f now a h =
    apply_finding_cases (λ r. StaleOrCovers g (some (stale_if_raised now r).1)) f now a (inl refl)
      (inl refl) h (inl refl) (λ same past next after. ground arith)

ingested-StaleOrCovers :
    (f : Finding) (now : ℕ) (a : AgentRiskAggregate)
    → StaleOrCovers f (some (stale_if_raised now (apply_finding f now a)).1)
unfolding stale_if_raised Rebuild.mark_stale apply_finding accept recalculate
ingested-StaleOrCovers f now a = ground (arith, eq_iff f.agent_id a.agent_id)

ingest_finding-StaleOrCovers :
    (f : Finding) (now : ℕ) (s : RiskAggregator)
    → StaleOrCovers f (Dict.get f.agent_id (ingest_finding f now s).1.projections)
unfolding ingest_finding
ingest_finding-StaleOrCovers f now s = elim (Option-cases (Dict.get f.agent_id s.projections)) [
  | inl e ↦ rw (e, ingest_finding, e) tt
  | inr (a, e) ↦
      rw
        (
          e,
          ingest_finding,
          get-put_self f.agent_id (stale_if_raised now (apply_finding f now a)).1 s.projections,
        )
        (ingested-StaleOrCovers f now a)
]

ingest_all-StaleOrCovers :
    (f : Finding) (ds : List (Finding × ℕ)) (s : RiskAggregator)
    → StaleOrCovers f (Dict.get f.agent_id s.projections)
    → StaleOrCovers f (Dict.get f.agent_id (ingest_all ds s).projections)
unfolding ingest_all run Rebuild.mark_stale
ingest_all-StaleOrCovers f [] s h = h
ingest_all-StaleOrCovers f ((g, now) ∷ ds) s h =
    ingest_all-StaleOrCovers f ds (ingest_finding g now s).1 (
      run-keeps_unrecovered (StaleOrCovers f) f.agent_id (kept-StaleOrCovers f)
        (λ now a p. inl refl) (ingest g now) s refl h)

-- No finding that is ingested is lost silently: after any deliveries, for each finding delivered,
-- the projection of its agent, if there is one, is stale, or excludes the finding by its baseline,
-- or has a cursor that reached it.
pub delivered_is_covered :
    (ds : List (Finding × ℕ)) (s : RiskAggregator)
    → All (λ d. StaleOrCovers d.0 (Dict.get d.0.agent_id (ingest_all ds s).projections)) ds
unfolding ingest_all
delivered_is_covered [] s = tt
delivered_is_covered ((f, now) ∷ ds) s = (
  ingest_all-StaleOrCovers f ds (ingest_finding f now s).1 (ingest_finding-StaleOrCovers f now s),
  delivered_is_covered ds (ingest_finding f now s).1,
)
