-- ===== src/Examples/Projection.antt =====
-- app/services/agent_risk_aggregate.py: a projection that accepts findings, ignores a second delivery
-- and goes stale on a gap.
use enterprise_agent_securit.Prelude.{
  ℕ, String, ◌≡◌, ◌+◌, refl, true, some, List, [], ◌∷◌, ok, All, length,
}
use enterprise_agent_securit.Dict
use enterprise_agent_securit.Watermark.{BaselineWatermark}
use enterprise_agent_securit.Finding.{Finding, FindingCategory, Severity, open_finding, resolved}
use enterprise_agent_securit.Risk.{score_findings, level_for_score}
use enterprise_agent_securit.Risk.Aggregate.{
  AgentRiskAggregate, init, apply_finding, accept, contribute, increment, weighted, recalculate,
  healthy, stale,
}
use enterprise_agent_securit.Risk.Rebuild.{rebuild_from_findings}
use enterprise_agent_securit.Risk.Projection.{Contiguous}
use enterprise_agent_securit.Risk.Equivalence.{deliver, projection_equivalence, accepted-Contiguous}
use enterprise_agent_securit.Risk.Counting.{active, projection_scores}
use enterprise_agent_securit.Risk.Aggregator.{RiskAggregator}
use enterprise_agent_securit.Risk.Operations.{Operation, ingest, mark, reset, run_all}
use enterprise_agent_securit.Risk.Staleness.{state_of, stale_until_recovered}
use enterprise_agent_securit.Risk.Completeness.{ingest_all, StaleOrCovers, delivered_is_covered}

abbrev baseline : BaselineWatermark
baseline = record {
  agent_id = "a1";
  baseline_at = some 100;
  baseline_evidence_sequence = 3;
  baseline_agent_sequence = 0;
}

abbrev first_finding : Finding
first_finding = record {
  finding_id = "f1";
  session_id = "s1";
  agent_id = "a1";
  rule_id = "exfiltration";
  rule_name = "Exfiltration";
  severity = Severity.high;
  category = FindingCategory.unknown;
  status = open_finding;
  description = "";
  created_at = 120;
  recorded_at = some 121;
  evidence_event_sequences = [];
  recovery_generation = 0;
  evidence_sequence = 4;
}

abbrev resolved_finding : Finding
resolved_finding = record first_finding {
  finding_id = "f2";
  status = resolved;
  evidence_sequence = 5;
}

-- the sequence number 7 leaves a gap
abbrev early_finding : Finding
early_finding = record first_finding { finding_id = "f4"; evidence_sequence = 7 }

abbrev deliveries : List (Finding × ℕ)
deliveries =
    (first_finding, 130)
    ∷ (first_finding, 131)
    ∷ (resolved_finding, 132)
    ∷ (early_finding, 133)
    ∷ []

abbrev vocabulary : List String
vocabulary = "exfiltration" ∷ []

abbrev fresh : AgentRiskAggregate
fresh = init baseline vocabulary 110

abbrev projected : AgentRiskAggregate × List Finding
projected = deliver deliveries fresh []

projection_equivalence_example : rebuild_from_findings projected.1 baseline 140 projected.0 ≡ (
  ok tt,
  record (projected.0) {
    state = healthy;
    posture_version = projected.0.posture_version + 1;
    assessed_at = 140;
  },
)
projection_equivalence_example = projection_equivalence baseline vocabulary 110 140 deliveries

accepted-Contiguous_example :
    Contiguous 3 projected.1 × (projected.0.last_applied_sequence ≡ 3 + length projected.1)
accepted-Contiguous_example = accepted-Contiguous baseline vocabulary 110 deliveries

applies : (apply_finding first_finding 130 fresh).0 ≡ ok true
unfolding apply_finding accept contribute increment recalculate weighted level_for_score init
    Dict.get Dict.put
applies = refl

projection_scores_example :
    (projected.0.risk_score ≡ score_findings (active projected.1))
    × (projected.0.risk_level ≡ level_for_score (score_findings (active projected.1)))
    × (projected.0.counts.finding_count ≡ length (active projected.1))
projection_scores_example = projection_scores baseline vocabulary 110 deliveries

abbrev stale_aggregator : RiskAggregator
stale_aggregator = record {
  projections = ("a1", record (projected.0) { state = stale }) ∷ [];
  rule_vocabulary = vocabulary;
}

abbrev operations : List Operation
operations = ingest resolved_finding 150 ∷ mark "a2" 151 ∷ []

starts_stale : state_of (Dict.get "a1" stale_aggregator.projections) ≡ some stale
unfolding Dict.get
starts_stale = refl

stale_until_recovered_example :
    state_of (Dict.get "a1" (run_all operations stale_aggregator).projections) ≡ some stale
stale_until_recovered_example =
    stale_until_recovered "a1" operations stale_aggregator (refl, (refl, tt)) starts_stale

abbrev first_operations : List Operation
first_operations = reset baseline 110 ∷ ingest first_finding 130 ∷ []

delivered_is_covered_example :
    All
      (λ d.
        StaleOrCovers d.0
          (Dict.get d.0.agent_id (ingest_all deliveries stale_aggregator).projections))
      deliveries
delivered_is_covered_example = delivered_is_covered deliveries stale_aggregator
