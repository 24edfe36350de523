-- ===== src/Findings/Delivery.antt =====
-- app/services/runtime_service.py, what a request does with its findings under the posture lock of
-- its agent: app/services/findings_service.py records them and app/services/risk_aggregator.py
-- projects those that are new. The lock keeps other requests of the agent out in between.
use enterprise_agent_securit.Prelude.{
  ℕ, String, ◌≡◌, ◌≤◌, ◌+◌, refl, sym, ◌∙◌, Bool, true, false, some, List, [], ◌∷◌, arith, All,
  length, Result, ok, err, eq_iff,
}
use mathlib.Core.Path.{subst}
use enterprise_agent_securit.Dict
use enterprise_agent_securit.Dict.{get-put_self}
use enterprise_agent_securit.Finding.{Finding, recorded_or_created}
use enterprise_agent_securit.Findings.{FindingsService, get_agent_sequence, record_new_findings}
use enterprise_agent_securit.Findings.Batches.{RecordedAt, record_new_findings-NumbersOn}
use enterprise_agent_securit.Risk.Aggregate.{
  AgentRiskAggregate, PostureState, ProjectionError, apply_finding, accept, recalculate,
  at_or_before,
}
use enterprise_agent_securit.Risk.Aggregator.{
  RiskAggregator, ingest_finding, mark_stale, stale_if_raised,
}
use enterprise_agent_securit.Risk.Projection.{Contiguous}

-- an exception marks the posture of the agent of the request stale
unfoldable pub or_mark_stale :
    String → ℕ → Result ProjectionError Bool × RiskAggregator → RiskAggregator
or_mark_stale agent_id now (ok applied, r) = r
or_mark_stale agent_id now (err e, r) = mark_stale agent_id now r

unfoldable pub project_findings : String → List Finding → ℕ → RiskAggregator → RiskAggregator
unfolding or_mark_stale
project_findings agent_id [] now r = r
project_findings agent_id (f ∷ fs) now r =
    project_findings agent_id fs now (or_mark_stale agent_id now (ingest_finding f now r))

-- the block under the posture lock: the findings recorded, the store and the projections
unfoldable pub record_evidence :
    String
    → List Finding
    → ℕ
    → ℕ
    → FindingsService
    → RiskAggregator
    → List Finding × FindingsService × RiskAggregator
unfolding project_findings
record_evidence agent_id fs now later s r =
    let (recorded, s1) = record_new_findings fs now s in
    (recorded, s1, project_findings agent_id recorded later r)

-- The projection has applied every finding of its agent that the store has numbered, up to `n`, and
-- its baseline is before `now`.
pub record InStep (agent_id : String) (n now : ℕ) (a : AgentRiskAggregate) : Type 0 where
  pub agent : a.agent_id ≡ agent_id
  pub applied : a.last_applied_sequence ≡ n
  pub baseline : a.baseline_evidence_sequence ≤ n
  pub before : at_or_before now a.baseline_at ≡ false

accept-next :
    (n : ℕ) (later : ℕ) (f : Finding) (a : AgentRiskAggregate)
    → a.baseline_evidence_sequence ≤ n
    → f.evidence_sequence ≡ n + 1
    → let (r, b) = accept f later a in
      (r ≡ ok true)
      × (b.agent_id ≡ a.agent_id)
      × (b.last_applied_sequence ≡ n + 1)
      × (b.baseline_evidence_sequence ≡ a.baseline_evidence_sequence)
      × (b.baseline_at ≡ a.baseline_at)
      × (b.state ≡ a.state)
unfolding accept recalculate
accept-next n later f a h number = ground arith

apply_finding-accept :
    (f : Finding) (later : ℕ) (a : AgentRiskAggregate)
    → f.agent_id ≡ a.agent_id
    → f.evidence_sequence ≡ a.last_applied_sequence + 1
    → a.baseline_evidence_sequence ≤ a.last_applied_sequence
    → at_or_before (recorded_or_created f) a.baseline_at ≡ false
    → apply_finding f later a ≡ accept f later a
unfolding apply_finding
apply_finding-accept f later a same number baseline after =
    ground (arith, eq_iff f.agent_id a.agent_id)

-- the next finding is accepted
apply_finding-next :
    (agent_id : String) (n now later : ℕ) (f : Finding) (a : AgentRiskAggregate)
    → InStep agent_id n now a
    → f.agent_id ≡ agent_id
    → f.recorded_at ≡ some now
    → f.evidence_sequence ≡ n + 1
    → let (r, b) = apply_finding f later a in
      (r ≡ ok true) × InStep agent_id (n + 1) now b × (b.state ≡ a.state)
apply_finding-next agent_id n now later f a h same at number =
    let after : at_or_before (recorded_or_created f) a.baseline_at ≡ false = rw (at) h.before in
    let e = accept-next n later f a h.baseline number in
    rw
      (apply_finding-accept f later a (same ∙ sym h.agent) (omega (arith, number, h.applied))
        (ground (arith, h.applied, h.baseline)) after)
      (
        e.0,
        record {
          agent = e.1 ∙ h.agent;
          applied = e.2;
          baseline = omega (arith, e.3, h.baseline);
          before = rw (e.4) h.before;
        },
        e.5,
      )

-- The agent has a projection, in step with the number `n`, in the given state.
abbrev pub HasInStep : String → ℕ → ℕ → PostureState → RiskAggregator → Type 0
HasInStep agent_id n now state r =
    (a : AgentRiskAggregate) × (Dict.get agent_id r.projections ≡ some a)
    × InStep agent_id n now a
    × (a.state ≡ state)

stale_if_raised-applied :
    (later : ℕ) (r : Result ProjectionError Bool) (b : AgentRiskAggregate)
    → r ≡ ok true
    → stale_if_raised later (r, b) ≡ (ok true, b)
unfolding stale_if_raised
stale_if_raised-applied later r b e = rw (e) refl

ingest_finding-HasInStep :
    (n now later : ℕ) (posture : PostureState) (f : Finding) (r : RiskAggregator)
    → f.recorded_at ≡ some now
    → f.evidence_sequence ≡ n + 1
    → HasInStep f.agent_id n now posture r
    → HasInStep f.agent_id
        (n + 1)
        now
        posture
        (or_mark_stale f.agent_id later (ingest_finding f later r))
unfolding ingest_finding or_mark_stale
ingest_finding-HasInStep n now later posture f r at number (a, e, h, same) =
    let next = apply_finding-next f.agent_id n now later f a h refl at number in
    rw
      (
        e,
        ingest_finding,
        stale_if_raised-applied later (apply_finding f later a).0 (apply_finding f later a).1
            next.0,
        or_mark_stale,
      )
      (
        (apply_finding f later a).1,
        get-put_self f.agent_id (apply_finding f later a).1 r.projections,
        next.1,
        next.2 ∙ same,
      )

project_findings-HasInStep :
    (agent_id : String) (n m now later : ℕ) (posture : PostureState) (fs : List Finding)
    (r : RiskAggregator)
    → Contiguous n fs
    → RecordedAt agent_id now fs
    → m ≡ n + length fs
    → HasInStep agent_id n now posture r
    → HasInStep agent_id m now posture (project_findings agent_id fs later r)
unfolding project_findings
project_findings-HasInStep agent_id n m now later posture [] r c w total h =
    let e : n ≡ m = omega (arith, total) in subst (λ k. HasInStep agent_id k now posture r) e h
project_findings-HasInStep agent_id n m now later posture (f ∷ fs) r c w total h =
    project_findings-HasInStep agent_id (n + 1) m now later posture fs
      (or_mark_stale agent_id later (ingest_finding f later r)) c.1 w.1 (omega (arith, total))
      (subst
        (λ k.
          HasInStep k n now posture r
          → HasInStep k (n + 1) now posture (or_mark_stale k later (ingest_finding f later r)))
        w.0.0 (ingest_finding-HasInStep n now later posture f r w.0.1 c.0) h)

-- If the projection of an agent has applied every finding of the agent that is numbered so far, and
-- its baseline is before the present moment, it has after a request recorded and projected its
-- findings of that agent, in the same state: those recorded have the next numbers of the agent, none
-- is skipped or taken for a gap.
pub record_evidence-HasInStep :
    (agent_id : String) (fs : List Finding) (now later : ℕ) (posture : PostureState)
    (s : FindingsService) (r : RiskAggregator)
    → All (λ f. f.agent_id ≡ agent_id) fs
    → HasInStep agent_id (get_agent_sequence agent_id s) now posture r
    → let (recorded, after, projected) = record_evidence agent_id fs now later s r in
      Contiguous (get_agent_sequence agent_id s) recorded
      × (get_agent_sequence agent_id after ≡ get_agent_sequence agent_id s + length recorded)
      × HasInStep agent_id (get_agent_sequence agent_id after) now posture projected
unfolding record_evidence
record_evidence-HasInStep agent_id fs now later posture s r same h =
    let b = record_new_findings-NumbersOn agent_id fs now s same in
    (
      b.contiguous,
      b.advanced,
      project_findings-HasInStep agent_id (get_agent_sequence agent_id s) _ now later posture _ r
          b.contiguous b.recorded b.advanced h,
    )
