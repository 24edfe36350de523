-- ===== src/Evidence/Operations.antt =====
-- app/services/execution_evidence_service.py: the calls of the store as values.
use enterprise_agent_securit.Prelude.{ℕ, String, Option, List, [], ◌∷◌}
use enterprise_agent_securit.Evidence.{ExecutionReceipt, ReconciliationReason}
use enterprise_agent_securit.Evidence.Service.{
  ExecutionEvidenceService, Outcome, record_started, record_terminal, record_reconciled,
}

pub data Operation : Type 0 where
  start : ExecutionReceipt → Option ℕ → Operation
  finish : String → Outcome → Operation
  reconcile : String → ℕ → ReconciliationReason → Operation

unfoldable pub run : Operation → ExecutionEvidenceService → ExecutionEvidenceService
run (start r monotonic_start) s = (record_started r monotonic_start s).1
run (finish i o) s = (record_terminal i o s).1
run (reconcile i at reason) s = (record_reconciled i at reason s).1

unfoldable pub run_all : List Operation → ExecutionEvidenceService → ExecutionEvidenceService
run_all [] s = s
run_all (op ∷ ops) s = run_all ops (run op s)

-- `ExecutionEvidenceService(retention_policy)`
unfoldable pub new_service : ℕ → ExecutionEvidenceService
new_service max_terminal_receipts = record {
  evidence_failure_count = 0;
  reconciled_unknown_count = 0;
  max_terminal_receipts = max_terminal_receipts;
  receipts = [];
  grant_to_receipt = [];
  monotonic_starts = [];
}
