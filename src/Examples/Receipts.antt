-- ===== src/Examples/Receipts.antt =====
-- app/services/execution_evidence_service.py and app/services/execution_reconciler.py: a store that
-- retains one terminal receipt.
use enterprise_agent_securit.Prelude.{◌≡◌, refl, none, some, List, [], ◌∷◌, arith}
use enterprise_agent_securit.Dict
use enterprise_agent_securit.Sorting.{sorted, insert_sorted}
use enterprise_agent_securit.Lists.{take}
use enterprise_agent_securit.Evidence.{ExecutionReceipt, started, succeeded, is_malformed}
use enterprise_agent_securit.Evidence.Service.{
  ExecutionEvidenceService, Outcome, record_terminal, get_by_grant, record_started, started_receipt,
  close, prune_terminal, evict_each, evict, terminal_receipt,
}
use enterprise_agent_securit.Evidence.Reconciler.{reconcile_unresolved}
use enterprise_agent_securit.Evidence.Operations.{
  Operation, start, finish, run, run_all, new_service,
}
use enterprise_agent_securit.Evidence.Writes.{IsBounded}
use enterprise_agent_securit.Evidence.Bounds.{evidence-IsBounded}
use enterprise_agent_securit.Evidence.Retention.{IsOpen}
use enterprise_agent_securit.Evidence.Deadlines.{
  retention_spares_receipt, running_execution_is_spared,
}

abbrev first : ExecutionReceipt
first = record {
  receipt_id = "r1";
  grant_id = "g1";
  session_id = "s1";
  agent_id = "a1";
  request_id = "q1";
  tool_id = "browser";
  tool_version = "1.0";
  implementation_id = "browser.main";
  binding_hash = "b1";
  capability_profile_id = "p1";
  capability_digest = "d1";
  declared_timeout_seconds = 30;
  status = started;
  started_at = 10;
  completed_at = none;
  reconciled_at = none;
  duration_ms = none;
  error_type = none;
  error_code = none;
  reconciliation_reason = none;
  output_digest = none;
}

abbrev second : ExecutionReceipt
second = record first { receipt_id = "r2"; grant_id = "g2"; started_at = 11 }

abbrev third : ExecutionReceipt
third = record first { receipt_id = "r3"; grant_id = "g3"; started_at = 12 }

abbrev success : Outcome
success = record {
  status = succeeded;
  completed_at = 20;
  duration_ms = 9;
  error_type = none;
  error_code = none;
  output_digest = none;
}

abbrev starts : List Operation
starts = start first (some 100) ∷ start second (some 101) ∷ start third (some 102) ∷ []

abbrev outcomes : List Operation
outcomes = finish "r2" success ∷ finish "r3" success ∷ []

evidence-IsBounded_example : IsBounded 1 (
    run_all
      (start first (some 100) ∷ start second none ∷ finish "r1" success ∷ finish "r2" success ∷ [])
      (new_service 1))
evidence-IsBounded_example =
    evidence-IsBounded 1
      (start first (some 100) ∷ start second none ∷ finish "r1" success ∷ finish "r2" success ∷ [])

first-IsOpen : IsOpen "r1" first (some 100) (run_all starts (new_service 1))
unfolding run_all run new_service record_started started_receipt is_malformed Dict.get Dict.put
first-IsOpen = record { stored = refl; timed = refl; running = refl }

abbrev later : ExecutionEvidenceService
later = run_all outcomes (run_all starts (new_service 1))

retention_spares_receipt_example :
    IsOpen "r1" first (some 100) later × (get_by_grant "g1" later ≡ some first)
retention_spares_receipt_example =
    retention_spares_receipt 1 starts outcomes "r1" first (some 100) first-IsOpen (refl, (refl, tt))

running_execution_is_spared_example :
    IsOpen "r1" first (some 100) (reconcile_unresolved 10 40 139 (run_all starts (new_service 1))).1
running_execution_is_spared_example =
    running_execution_is_spared 1 10 40 139 100 starts "r1" first first-IsOpen (omega arith)

abbrev finished : ExecutionEvidenceService
finished = run_all (start first (some 100) ∷ finish "r1" success ∷ []) (new_service 1)

first_finished : Dict.get "r1" finished.receipts ≡ some (terminal_receipt success first)
unfolding run_all run new_service record_started started_receipt is_malformed Dict.get Dict.put
    Dict.remove Dict.values record_terminal close prune_terminal evict_each evict sorted
    insert_sorted take
first_finished = refl
