-- ===== src/Evidence/Reconciler.antt =====
-- app/services/execution_reconciler.py: open receipts are resolved to UNKNOWN once their deadline has
-- passed. The receipts are listed in one step and each is reconciled in a step of its own.
use enterprise_agent_securit.Prelude.{
  ℕ, ◌+◌, Option, none, some, List, [], ◌∷◌, Result, ok, err, leb, if◌then◌else◌,
}
use enterprise_agent_securit.Dict
use enterprise_agent_securit.Evidence.{
  ExecutionReceipt, ReconciliationReason, process_restart, execution_timeout, evidence_unavailable,
}
use enterprise_agent_securit.Evidence.Service.{
  ExecutionEvidenceService, EvidenceError, record_reconciled, list_open,
}

-- an error of the store is no reconciliation, whichever it is
abbrev pub reconciled : Result EvidenceError ExecutionReceipt → Option ExecutionReceipt
reconciled (ok r) = some r
reconciled (err e) = none

unfoldable pub reconcile_one :
    ExecutionReceipt
    → ℕ
    → ReconciliationReason
    → ExecutionEvidenceService
    → Option ExecutionReceipt × ExecutionEvidenceService
unfolding record_reconciled
reconcile_one r now_utc reason s =
    let (answer, after) = record_reconciled r.receipt_id now_utc reason s in
    (reconciled answer, after)

abbrev pub append_some {ℓ} : {A : Type ℓ} → Option A → List A → List A
append_some none xs = xs
append_some (some x) xs = x ∷ xs

unfoldable pub startup_each :
    ℕ
    → List ExecutionReceipt
    → ExecutionEvidenceService
    → List ExecutionReceipt × ExecutionEvidenceService
unfolding reconcile_one
startup_each now_utc [] s = ([], s)
startup_each now_utc (r ∷ rs) s =
    let (rec, s1) = reconcile_one r now_utc process_restart s in
    let (rest, s2) = startup_each now_utc rs s1 in (append_some rec rest, s2)

unfoldable pub reconcile_on_startup :
    ℕ → ExecutionEvidenceService → List ExecutionReceipt × ExecutionEvidenceService
unfolding startup_each list_open
reconcile_on_startup now_utc s = startup_each now_utc (list_open s) s

-- why a receipt is to be reconciled, if it is: no start is known, or the deadline has passed
unfoldable pub verdict : ℕ → ℕ → ExecutionReceipt → Option ℕ → Option ReconciliationReason
verdict grace monotonic_now r none = some evidence_unavailable
verdict grace monotonic_now r (some start) =
    if leb (start + r.declared_timeout_seconds + grace) monotonic_now
    then some execution_timeout
    else none

unfoldable pub reconcile_receipt :
    ℕ
    → ℕ
    → ℕ
    → ExecutionReceipt
    → ExecutionEvidenceService
    → Option ExecutionReceipt × ExecutionEvidenceService
unfolding verdict reconcile_one
reconcile_receipt grace now_utc monotonic_now r s =
    elim (verdict grace monotonic_now r (Dict.get r.receipt_id s.monotonic_starts)) [
      | none ↦ (none, s)
      | some reason ↦ reconcile_one r now_utc reason s
    ]

unfoldable pub unresolved_each :
    ℕ
    → ℕ
    → ℕ
    → List ExecutionReceipt
    → ExecutionEvidenceService
    → List ExecutionReceipt × ExecutionEvidenceService
unfolding reconcile_receipt
unresolved_each grace now_utc monotonic_now [] s = ([], s)
unresolved_each grace now_utc monotonic_now (r ∷ rs) s =
    let (rec, s1) = reconcile_receipt grace now_utc monotonic_now r s in
    let (rest, s2) = unresolved_each grace now_utc monotonic_now rs s1 in (append_some rec rest, s2)

unfoldable pub reconcile_unresolved :
    ℕ → ℕ → ℕ → ExecutionEvidenceService → List ExecutionReceipt × ExecutionEvidenceService
unfolding unresolved_each list_open
reconcile_unresolved grace now_utc monotonic_now s =
    unresolved_each grace now_utc monotonic_now (list_open s) s
