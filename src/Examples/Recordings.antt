-- ===== src/Examples/Recordings.antt =====
-- app/services/findings_service.py: findings of an agent that are recorded, derived again and projected.
use enterprise_agent_securit.Prelude.{◌≡◌, ◌+◌, refl, none, some, List, [], ◌∷◌, length, arith}
use enterprise_agent_securit.Dict
use enterprise_agent_securit.Finding.{Finding, FindingCategory, Severity, open_finding}
use enterprise_agent_securit.Findings.{
  FindingsService, clear, get_agent_sequence, record_new_findings,
}
use enterprise_agent_securit.Findings.Numbering.{IsNumbered}
use enterprise_agent_securit.Findings.Operations.{
  Operation, record_one, record_many, record_new, run_all, run_all-IsNumbered,
}
use enterprise_agent_securit.Findings.Repeats.{record_new_findings_twice}
use enterprise_agent_securit.Findings.Delivery.{
  record_evidence, HasInStep, record_evidence-HasInStep,
}
use enterprise_agent_securit.Risk.Aggregate.{AgentRiskAggregate, healthy, init}
use enterprise_agent_securit.Risk.Aggregator.{RiskAggregator}
use enterprise_agent_securit.Risk.Projection.{Contiguous}

abbrev denial : Finding
denial = record {
  finding_id = "s1:EXCESSIVE_DENIALS";
  session_id = "s1";
  agent_id = "agent";
  rule_id = "EXCESSIVE_DENIALS";
  rule_name = "Excessive denials";
  severity = Severity.high;
  category = FindingCategory.unauthorized_tool;
  status = open_finding;
  description = "denied five times";
  created_at = 90;
  recorded_at = none;
  evidence_event_sequences = 1 ∷ 2 ∷ [];
  recovery_generation = 0;
  evidence_sequence = 0;
}

abbrev leak : Finding
leak = record denial { finding_id = "s1:LEAK"; category = FindingCategory.secret_leakage }

abbrev derived_again : Finding
derived_again = record denial { description = "denied six times"; created_at = 95 }

abbrev nothing : FindingsService
nothing = record { findings = []; recorded_at = []; agent_sequences = [] }

abbrev calls : List Operation
calls =
    record_new (denial ∷ leak ∷ []) 100
    ∷ record_new (derived_again ∷ []) 101
    ∷ record_one leak 102
    ∷ record_many (denial ∷ []) 103
    ∷ []

run_all-IsNumbered_example : IsNumbered (run_all calls (clear nothing))
run_all-IsNumbered_example =
    run_all-IsNumbered (λ i. "agent") calls nothing
      ((refl, (refl, tt)), ((refl, tt), ((refl, tt), ((refl, tt), tt))))

record_new_findings_twice_example :
    record_new_findings
      (derived_again ∷ [])
      101
      (record_new_findings (denial ∷ leak ∷ []) 100 nothing).1
    ≡ ([], (record_new_findings (denial ∷ leak ∷ []) 100 nothing).1)
record_new_findings_twice_example =
    record_new_findings_twice (denial ∷ leak ∷ []) (derived_again ∷ []) 100 101 nothing
      (omega arith, tt)

abbrev projection : AgentRiskAggregate
projection =
    init
      (record {
        agent_id = "agent";
        baseline_evidence_sequence = 0;
        baseline_agent_sequence = 0;
        baseline_at = some 50;
      })
      ("EXCESSIVE_DENIALS" ∷ []) 60

abbrev projections : RiskAggregator
projections = record { projections = ("agent", projection) ∷ []; rule_vocabulary = [] }

abbrev evidence : List Finding × FindingsService × RiskAggregator
evidence = record_evidence "agent" (denial ∷ leak ∷ []) 100 101 nothing projections

record_evidence-HasInStep_example :
    Contiguous (get_agent_sequence "agent" nothing) evidence.0
    × (get_agent_sequence "agent" evidence.1
        ≡ get_agent_sequence "agent" nothing + length evidence.0)
    × HasInStep "agent" (get_agent_sequence "agent" evidence.1) 100 healthy evidence.2
unfolding init get_agent_sequence Dict.get
record_evidence-HasInStep_example =
    record_evidence-HasInStep "agent" (denial ∷ leak ∷ []) 100 101 healthy nothing projections
      (refl, (refl, tt))
      (
        projection,
        refl,
        record { agent = refl; applied = refl; baseline = omega arith; before = refl },
        refl,
      )
