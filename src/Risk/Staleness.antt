-- ===== src/Risk/Staleness.antt =====
-- app/services/risk_aggregator.py: a stale projection, and the reads of the posture.
use enterprise_agent_securit.Prelude.{
  ℕ, String, ◌≡◌, refl, false, Option, none, some, List, [], ◌∷◌, ok, arith, Option-cases, inl, inr,
  All, filter,
}
use enterprise_agent_securit.Dict
use enterprise_agent_securit.Dict.{get-empty}
use enterprise_agent_securit.Watermark.{BaselineWatermark}
use enterprise_agent_securit.Finding.{Finding}
use enterprise_agent_securit.Risk.Aggregate.{
  AgentRiskAggregate, PostureState, stale, apply_finding, accept, recalculate, cursor_violated,
  is_post_baseline,
}
use enterprise_agent_securit.Risk.Rebuild
use enterprise_agent_securit.Risk.Projection.{apply_finding_cases, le-max_sequence}
use enterprise_agent_securit.Risk.Aggregator.{
  AgentRiskPosture, RiskAggregator, stale_if_raised, get_posture, snapshot, posture_of,
  uninitialized_posture,
}
use enterprise_agent_securit.Risk.Operations.{
  Operation, run, run_all, recovers, run-keeps, run-keeps_unrecovered,
}

abbrev pub state_of : Option AgentRiskAggregate → Option PostureState
state_of none = none
state_of (some a) = some a.state

ingested-stale :
    (f : Finding) (now : ℕ) (a : AgentRiskAggregate)
    → some a.state ≡ some stale
    → some (stale_if_raised now (apply_finding f now a)).1.state ≡ some stale
unfolding stale_if_raised Rebuild.mark_stale accept recalculate
ingested-stale f now a h =
    apply_finding_cases (λ r. some (stale_if_raised now r).1.state ≡ some stale) f now a refl refl h
      refl (λ same past next after. ground arith)

-- A stale projection stays stale through any operations on the aggregator, none of which reconciles
-- that agent, resets it to a baseline, or clears the aggregator: no finding makes it healthy again.
pub stale_until_recovered :
    (agent_id : String) (ops : List Operation) (s : RiskAggregator)
    → All (λ op. recovers agent_id op ≡ false) ops
    → state_of (Dict.get agent_id s.projections) ≡ some stale
    → state_of (Dict.get agent_id (run_all ops s).projections) ≡ some stale
unfolding run_all Rebuild.mark_stale
stale_until_recovered agent_id [] s none_recovers h = h
stale_until_recovered agent_id (op ∷ ops) s none_recovers h =
    stale_until_recovered agent_id ops (run op s) none_recovers.1 (
      run-keeps_unrecovered (λ o. state_of o ≡ some stale) agent_id ingested-stale
        (λ now a _. marked now a) op s none_recovers.0 h)
  where
    marked : (now : ℕ) (a : AgentRiskAggregate) → some (Rebuild.mark_stale now a).state ≡ some stale
    marked now a = refl

-- the cursor of a projection is not before its baseline
abbrev pub CursorHolds : Option AgentRiskAggregate → Type 0
CursorHolds none = Unit
CursorHolds (some a) = cursor_violated a ≡ false

applied-CursorHolds :
    (f : Finding) (now : ℕ) (a : AgentRiskAggregate)
    → cursor_violated a ≡ false
    → cursor_violated (stale_if_raised now (apply_finding f now a)).1 ≡ false
unfolding stale_if_raised Rebuild.mark_stale accept recalculate
applied-CursorHolds f now a h =
    apply_finding_cases (λ r. cursor_violated (stale_if_raised now r).1 ≡ false) f now a h h h h
      (λ same past next after. ground arith)

rebuilt-CursorHolds :
    (fs : List Finding) (w : BaselineWatermark) (now : ℕ) (a : AgentRiskAggregate)
    → cursor_violated (Rebuild.rebuild_from_findings fs w now a).1 ≡ false
unfolding Rebuild.rebuild_from_findings recalculate
rebuilt-CursorHolds fs w now a = ground (
  arith,
  le-max_sequence w.baseline_evidence_sequence (filter (is_post_baseline a.agent_id w) fs),
)

run_all-CursorHolds :
    (agent_id : String) (ops : List Operation) (s : RiskAggregator)
    → CursorHolds (Dict.get agent_id s.projections)
    → CursorHolds (Dict.get agent_id (run_all ops s).projections)
unfolding run_all Rebuild.mark_stale Rebuild.reset_to_baseline
run_all-CursorHolds agent_id [] s h = h
run_all-CursorHolds agent_id (op ∷ ops) s h = run_all-CursorHolds agent_id ops (run op s) (
    run-keeps CursorHolds agent_id applied-CursorHolds (λ now a p. p) rebuilt-CursorHolds
      (λ w now a. ground arith) tt op s h)

-- Whatever operations an aggregator that starts empty has run, the posture of every agent can be
-- read: the cursor invariant that the snapshot checks again holds, so the read does not raise.
pub get_posture_available :
    (v : List String) (ops : List Operation) (agent_id : String) (now : ℕ)
    → (p : AgentRiskPosture) × (get_posture agent_id now
          (run_all ops (record { projections = []; rule_vocabulary = v }))
        ≡ ok p)
unfolding get_posture snapshot Dict.get
get_posture_available v ops agent_id now = elim (Option-cases (Dict.get agent_id s.projections)) [
  | inl e ↦ (uninitialized_posture agent_id now, rw (e, get_posture) refl)
  | inr (a, e) ↦ (posture_of a, rw (e, get_posture, snapshot, holds a e) refl)
]
  where
    s : RiskAggregator
    s = run_all ops (record { projections = []; rule_vocabulary = v })

    holds :
        (a : AgentRiskAggregate)
        → Dict.get agent_id s.projections ≡ some a
        → cursor_violated a ≡ false
    holds a e =
        rw e at
          (run_all-CursorHolds agent_id ops (record { projections = []; rule_vocabulary = v }) tt)
