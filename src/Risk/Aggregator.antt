-- ===== src/Risk/Aggregator.antt =====
-- app/services/risk_aggregator.py: the projections of the agents, by agent identifier, and the
-- snapshot of app/services/agent_risk_aggregate.py that a posture read returns.
use enterprise_agent_securit.Prelude.{
  ℕ, String, Bool, false, Option, none, some, List, [], Result, ok, err, if◌then◌else◌,
}
use enterprise_agent_securit.Dict
use enterprise_agent_securit.Dict.{Dict}
use enterprise_agent_securit.Enforcement.{RiskLevel}
use enterprise_agent_securit.Watermark.{BaselineWatermark}
use enterprise_agent_securit.Finding.{Finding}
use enterprise_agent_securit.Risk.Aggregate
use enterprise_agent_securit.Risk.Aggregate.{
  AgentRiskAggregate, ProjectionError, projection_invariant, PostureState, Counts, zero_counts,
  uninitialized, cursor_violated, apply_finding,
}
use enterprise_agent_securit.Risk.Rebuild
use enterprise_agent_securit.Risk.Rebuild.{rebuild_from_findings}

pub record AgentRiskPosture : Type 0 where
  pub agent_id : String
  pub state : PostureState
  pub risk_score : ℕ
  pub risk_level : RiskLevel
  pub counts : Counts
  pub baseline_at : Option ℕ
  pub baseline_evidence_sequence : ℕ
  pub last_applied_sequence : ℕ
  pub posture_version : ℕ
  pub assessed_at : ℕ

abbrev pub posture_of : AgentRiskAggregate → AgentRiskPosture
posture_of a = record {
  agent_id = a.agent_id;
  state = a.state;
  risk_score = a.risk_score;
  risk_level = a.risk_level;
  counts = a.counts;
  baseline_at = a.baseline_at;
  baseline_evidence_sequence = a.baseline_evidence_sequence;
  last_applied_sequence = a.last_applied_sequence;
  posture_version = a.posture_version;
  assessed_at = a.assessed_at;
}

unfoldable pub snapshot : AgentRiskAggregate → Result ProjectionError AgentRiskPosture
snapshot a = if cursor_violated a then err projection_invariant else ok (posture_of a)

-- the posture of an agent without a projection
abbrev pub uninitialized_posture : String → ℕ → AgentRiskPosture
uninitialized_posture agent_id now = record {
  agent_id = agent_id;
  state = uninitialized;
  risk_score = 0;
  risk_level = RiskLevel.low;
  counts = zero_counts;
  baseline_at = none;
  baseline_evidence_sequence = 0;
  last_applied_sequence = 0;
  posture_version = 1;
  assessed_at = now;
}

pub record RiskAggregator : Type 0 where
  pub projections : Dict AgentRiskAggregate
  pub rule_vocabulary : List String

unfoldable pub get_posture : String → ℕ → RiskAggregator → Result ProjectionError AgentRiskPosture
unfolding snapshot
get_posture agent_id now s = elim (Dict.get agent_id s.projections) [
  | none ↦ ok (uninitialized_posture agent_id now)
  | some aggregate ↦ snapshot aggregate
]

-- the `except` clause of `ingest_finding`: `mark_stale` before the exception goes on
unfoldable pub stale_if_raised :
    ℕ
    → Result ProjectionError Bool × AgentRiskAggregate
    → Result ProjectionError Bool × AgentRiskAggregate
unfolding Rebuild.mark_stale
stale_if_raised now (ok applied, a) = (ok applied, a)
stale_if_raised now (err e, a) = (err e, Rebuild.mark_stale now a)

abbrev pub set_projection : String → AgentRiskAggregate → RiskAggregator → RiskAggregator
set_projection agent_id a s = record s { projections = Dict.put agent_id a s.projections }

unfoldable pub ingest_finding :
    Finding → ℕ → RiskAggregator → Result ProjectionError Bool × RiskAggregator
unfolding stale_if_raised apply_finding
ingest_finding f now s = elim (Dict.get f.agent_id s.projections) [
  | none ↦ (ok false, s)
  | some a ↦
      let r = stale_if_raised now (apply_finding f now a) in (r.0, set_projection f.agent_id r.1 s)
]

unfoldable pub mark_stale : String → ℕ → RiskAggregator → RiskAggregator
unfolding Rebuild.mark_stale
mark_stale agent_id now s = elim (Dict.get agent_id s.projections) [
  | none ↦ s
  | some a ↦ set_projection agent_id (Rebuild.mark_stale now a) s
]

abbrev pub or_created :
    Option AgentRiskAggregate → BaselineWatermark → List String → ℕ → AgentRiskAggregate
or_created none w rule_vocabulary now = Aggregate.init w rule_vocabulary now
or_created (some a) w rule_vocabulary now = a

-- the snapshot that follows a call which may raise
abbrev pub answer :
    Result ProjectionError (Unit {0}) × AgentRiskAggregate → Result ProjectionError AgentRiskPosture
unfolding snapshot
answer (ok _, a) = snapshot a
answer (err e, a) = err e

unfoldable pub reconcile_agent :
    String
    → List Finding
    → BaselineWatermark
    → ℕ
    → RiskAggregator
    → Result ProjectionError AgentRiskPosture × RiskAggregator
unfolding rebuild_from_findings Aggregate.init
reconcile_agent agent_id findings w now s =
    let a = or_created (Dict.get agent_id s.projections) w s.rule_vocabulary now in
    let r = rebuild_from_findings findings w now a in (answer r, set_projection agent_id r.1 s)

unfoldable pub reset_to_baseline :
    BaselineWatermark
    → ℕ
    → RiskAggregator
    → Result ProjectionError AgentRiskPosture × RiskAggregator
unfolding Rebuild.reset_to_baseline Aggregate.init
reset_to_baseline w now s =
    let a = or_created (Dict.get w.agent_id s.projections) w s.rule_vocabulary now in
    let r = Rebuild.reset_to_baseline w now a in (answer r, set_projection w.agent_id r.1 s)

unfoldable pub has_projection : String → RiskAggregator → Bool
has_projection agent_id s = Dict.contains agent_id s.projections

unfoldable pub clear : RiskAggregator → RiskAggregator
clear s = record s { projections = [] }
