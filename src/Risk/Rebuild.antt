-- ===== src/Risk/Rebuild.antt =====
-- app/services/agent_risk_aggregate.py: reconstruction, reset, and the stale mark.
use enterprise_agent_securit.Prelude.{ℕ, ◌+◌, List, Result, ok, err, filter, if◌then◌else◌}
use enterprise_agent_securit.Watermark.{BaselineWatermark}
use enterprise_agent_securit.Enforcement.{RiskLevel}
use enterprise_agent_securit.Finding.{Finding}
use enterprise_agent_securit.Risk.Aggregate.{
  AgentRiskAggregate, ProjectionError, projection_invariant, healthy, stale, zero_counts,
  is_post_baseline, max_sequence, contribute_all, recalculate, cursor_violated, or_now,
}

unfoldable pub rebuild_from_findings :
    List Finding
    → BaselineWatermark
    → ℕ
    → AgentRiskAggregate
    → Result ProjectionError (Unit {0}) × AgentRiskAggregate
unfolding recalculate
rebuild_from_findings findings w now a =
    let post_baseline = filter (is_post_baseline a.agent_id w) findings in
    let rebuilt = recalculate (record a {
      baseline_at = w.baseline_at;
      baseline_evidence_sequence = w.baseline_evidence_sequence;
      last_applied_sequence = max_sequence w.baseline_evidence_sequence post_baseline;
      counts = contribute_all a.rule_vocabulary zero_counts post_baseline;
      state = healthy;
      posture_version = a.posture_version + 1;
      assessed_at = now;
    }) in
    (if cursor_violated rebuilt then err projection_invariant else ok tt, rebuilt)

unfoldable pub reset_to_baseline :
    BaselineWatermark
    → ℕ
    → AgentRiskAggregate
    → Result ProjectionError (Unit {0}) × AgentRiskAggregate
reset_to_baseline w now a =
    let reset : AgentRiskAggregate = record a {
      baseline_at = w.baseline_at;
      baseline_evidence_sequence = w.baseline_evidence_sequence;
      last_applied_sequence = w.baseline_evidence_sequence;
      counts = zero_counts;
      risk_score = 0;
      risk_level = RiskLevel.low;
      state = healthy;
      posture_version = a.posture_version + 1;
      assessed_at = or_now w.baseline_at now;
    } in
    (if cursor_violated reset then err projection_invariant else ok tt, reset)

unfoldable pub mark_stale : ℕ → AgentRiskAggregate → AgentRiskAggregate
mark_stale now a = record a {
  state = stale;
  assessed_at = now;
  posture_version = a.posture_version + 1;
}
