-- ===== src/Evidence/Service.antt =====
-- app/services/execution_evidence_service.py: the store of the receipts, with the bound of
-- app/models/execution_evidence_retention.py. Each method runs under the lock and is one step.
use enterprise_agent_securit.Prelude.{
  ℕ, String, ◌+◌, ◌-◌, Bool, not, Option, none, some, List, [], ◌∷◌, Result, ok, err, is_some,
  filter, length, count, if◌then◌else◌,
}
use enterprise_agent_securit.Dict
use enterprise_agent_securit.Dict.{Dict}
use enterprise_agent_securit.Sorting.{sorted}
use enterprise_agent_securit.Lists.{take}
use enterprise_agent_securit.Evidence.{
  ExecutionReceipt, ExecutionStatus, started, unknown, ReconciliationReason, is_started,
  is_allowed_terminal, is_malformed,
}

-- `ExecutionReceiptNotFoundError`, `…DuplicateError`, `…TransitionError`, and the error of a receipt
-- that its fields refuse
pub data EvidenceError : Type 0 where
  not_found duplicate transition malformed : EvidenceError

pub record ExecutionEvidenceService : Type 0 where
  pub evidence_failure_count : ℕ
  pub reconciled_unknown_count : ℕ
  pub max_terminal_receipts : ℕ
  pub receipts : Dict ExecutionReceipt
  pub grant_to_receipt : Dict String
  pub monotonic_starts : Dict ℕ

abbrev pub is_terminal : ExecutionReceipt → Bool
is_terminal r = not (is_started r.status)

unfoldable pub open_receipt_count : ExecutionEvidenceService → ℕ
open_receipt_count s = count (λ r. is_started r.status) (Dict.values s.receipts)

unfoldable pub terminal_receipt_count : ExecutionEvidenceService → ℕ
terminal_receipt_count s = count is_terminal (Dict.values s.receipts)

unfoldable pub evict : ExecutionReceipt → ExecutionEvidenceService → ExecutionEvidenceService
evict r s = record s {
  receipts = Dict.remove r.receipt_id s.receipts;
  grant_to_receipt = Dict.remove r.grant_id s.grant_to_receipt;
  monotonic_starts = Dict.remove r.receipt_id s.monotonic_starts;
}

unfoldable pub evict_each :
    List ExecutionReceipt → ExecutionEvidenceService → ExecutionEvidenceService
unfolding evict
evict_each [] s = s
evict_each (r ∷ rs) s = evict_each rs (evict r s)

-- the loop is empty where the terminal receipts are not more than the bound
unfoldable pub prune_terminal : ExecutionEvidenceService → ExecutionEvidenceService
unfolding evict_each take sorted
prune_terminal s =
    let terminal = filter is_terminal (Dict.values s.receipts) in
    evict_each
      (take (length terminal - s.max_terminal_receipts) (sorted (λ r. r.started_at) terminal)) s

-- `self._monotonic_starts[receipt_id] = monotonic_start`, if there is one
abbrev pub put_start : String → Option ℕ → Dict ℕ → Dict ℕ
put_start receipt_id none d = d
put_start receipt_id (some start) d = Dict.put receipt_id start d

-- the arguments of `record_started` are the fields of a receipt in the state STARTED
unfoldable pub started_receipt : ExecutionReceipt → ExecutionReceipt
started_receipt r = record r {
  status = started;
  completed_at = none;
  reconciled_at = none;
  duration_ms = none;
  error_type = none;
  error_code = none;
  reconciliation_reason = none;
  output_digest = none;
}

unfoldable pub record_started :
    ExecutionReceipt
    → Option ℕ
    → ExecutionEvidenceService
    → Result EvidenceError ExecutionReceipt × ExecutionEvidenceService
unfolding started_receipt is_malformed
record_started r monotonic_start s =
    let failed = record s { evidence_failure_count = s.evidence_failure_count + 1 } in
    if is_some (Dict.get r.receipt_id s.receipts)
    then (err duplicate, failed)
    else if is_some (Dict.get r.grant_id s.grant_to_receipt)
    then (err duplicate, failed)
    else if is_malformed r
    then (err malformed, s)
    else (
      ok (started_receipt r),
      record s {
        receipts = Dict.put r.receipt_id (started_receipt r) s.receipts;
        grant_to_receipt = Dict.put r.grant_id r.receipt_id s.grant_to_receipt;
        monotonic_starts = put_start r.receipt_id monotonic_start s.monotonic_starts;
      },
    )

-- what the executor observed
pub record Outcome : Type 0 where
  pub status : ExecutionStatus
  pub completed_at : ℕ
  pub duration_ms : ℕ
  pub error_type : Option String
  pub error_code : Option String
  pub output_digest : Option String

abbrev pub terminal_receipt : Outcome → ExecutionReceipt → ExecutionReceipt
terminal_receipt o existing = record existing {
  status = o.status;
  completed_at = some o.completed_at;
  reconciled_at = none;
  duration_ms = some o.duration_ms;
  error_type = o.error_type;
  error_code = o.error_code;
  reconciliation_reason = none;
  output_digest = o.output_digest;
}

abbrev pub reconciled_receipt : ℕ → ReconciliationReason → ExecutionReceipt → ExecutionReceipt
reconciled_receipt reconciled_at reason existing = record existing {
  status = unknown;
  completed_at = none;
  reconciled_at = some reconciled_at;
  duration_ms = none;
  error_type = none;
  error_code = none;
  reconciliation_reason = some reason;
  output_digest = none;
}

-- the receipt replaced by a terminal one, its start forgotten, and the bound enforced
unfoldable pub close :
    String → ExecutionReceipt → ExecutionEvidenceService → ExecutionEvidenceService
unfolding prune_terminal
close receipt_id r s = prune_terminal (record s {
  receipts = Dict.put receipt_id r s.receipts;
  monotonic_starts = Dict.remove receipt_id s.monotonic_starts;
})

unfoldable pub record_terminal :
    String
    → Outcome
    → ExecutionEvidenceService
    → Result EvidenceError ExecutionReceipt × ExecutionEvidenceService
unfolding close
record_terminal receipt_id o s =
    if not (is_allowed_terminal o.status)
    then (err transition, s)
    else (elim (Dict.get receipt_id s.receipts) [
      | none ↦ (err not_found, s)
      | some existing ↦
          if is_terminal existing
          then (err transition, s)
          else (ok (terminal_receipt o existing), close receipt_id (terminal_receipt o existing) s)
    ])

unfoldable pub record_reconciled :
    String
    → ℕ
    → ReconciliationReason
    → ExecutionEvidenceService
    → Result EvidenceError ExecutionReceipt × ExecutionEvidenceService
unfolding close
record_reconciled receipt_id reconciled_at reason s = elim (Dict.get receipt_id s.receipts) [
  | none ↦ (err not_found, s)
  | some existing ↦
      let r = reconciled_receipt reconciled_at reason existing in
      let counted = record s { reconciled_unknown_count = s.reconciled_unknown_count + 1 } in
      if is_terminal existing then (err transition, s) else (ok r, close receipt_id r counted)
]

unfoldable pub get_by_grant : String → ExecutionEvidenceService → Option ExecutionReceipt
get_by_grant grant_id s = elim (Dict.get grant_id s.grant_to_receipt) [
  | none ↦ none
  | some receipt_id ↦ Dict.get receipt_id s.receipts
]

unfoldable pub list_open : ExecutionEvidenceService → List ExecutionReceipt
list_open s = filter (λ r. is_started r.status) (Dict.values s.receipts)
