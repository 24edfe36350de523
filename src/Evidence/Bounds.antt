-- ===== src/Evidence/Bounds.antt =====
-- app/services/execution_evidence_service.py: the bound on the retained evidence, over any sequence of
-- calls.
use enterprise_agent_securit.Prelude.{
  ℕ, String, ◌+◌, refl, sym, ◌∙◌, Option, List, [], ◌∷◌, arith, Bool-cases, Option-cases, inl, inr,
}
use mathlib.Core.Option.{none-ne-some}
use enterprise_agent_securit.Dict
use enterprise_agent_securit.Dict.{
  Dict, get-put, get-put_self, get-remove, get-remove_self, put_cases, get-empty,
}
use enterprise_agent_securit.Evidence.{
  ExecutionReceipt, ReconciliationReason, is_malformed, is_allowed_terminal,
}
use enterprise_agent_securit.Evidence.Service.{
  ExecutionEvidenceService, Outcome, is_terminal, record_started, started_receipt, put_start,
  record_terminal, record_reconciled, terminal_receipt, reconciled_receipt, terminal_receipt_count,
}
use enterprise_agent_securit.Evidence.Operations.{
  Operation, start, finish, reconcile, run, run_all, new_service,
}
use enterprise_agent_securit.Evidence.Writes.{IsBounded, close-IsBounded, started-IsBounded}

-- a counter of events is none of what the bound is about
counted-IsBounded :
    (max failures unknowns : ℕ) (s : ExecutionEvidenceService)
    → IsBounded max s
    → IsBounded max
        (record s { evidence_failure_count = failures; reconciled_unknown_count = unknowns })
unfolding terminal_receipt_count
counted-IsBounded max failures unknowns s h = record {
  indexed = record {
    unique = h.indexed.unique;
    keyed = h.indexed.keyed;
    granted = h.indexed.granted;
  };
  bound = h.bound;
  retained = h.retained;
}

record_started-IsBounded :
    (max : ℕ) (r : ExecutionReceipt) (m : Option ℕ) (s : ExecutionEvidenceService)
    → IsBounded max s
    → IsBounded max (record_started r m s).1
unfolding record_started started_receipt
record_started-IsBounded max r m s h = elim (Option-cases (Dict.get r.receipt_id s.receipts)) [
  | inr (x, e) ↦ rw (e) (counted-IsBounded max _ s.reconciled_unknown_count s h)
  | inl e ↦ elim (Option-cases (Dict.get r.grant_id s.grant_to_receipt)) [
    | inr (i, e1) ↦ rw (e, e1) (counted-IsBounded max _ s.reconciled_unknown_count s h)
    | inl e1 ↦ elim (Bool-cases (is_malformed r)) [
      | inl e2 ↦ rw (e, e1, e2) h
      | inr e2 ↦
          rw (e, e1, e2)
            (started-IsBounded max (started_receipt r) (put_start r.receipt_id m s.monotonic_starts)
              s h e e1 refl)
    ]
  ]
]

record_terminal-IsBounded :
    (max : ℕ) (i : String) (o : Outcome) (s : ExecutionEvidenceService)
    → IsBounded max s
    → IsBounded max (record_terminal i o s).1
unfolding record_terminal
record_terminal-IsBounded max i o s h = elim (Bool-cases (is_allowed_terminal o.status)) [
  | inr e ↦ rw (e) h
  | inl e ↦ elim (Option-cases (Dict.get i s.receipts)) [
    | inl e1 ↦ rw (e, e1) h
    | inr (x, e1) ↦ elim (Bool-cases (is_terminal x)) [
      | inl e2 ↦ rw (e, e1, e2) h
      | inr e2 ↦
          rw (e, e1, e2)
            (close-IsBounded max i x (terminal_receipt o x) s h.indexed h.bound e1 refl refl)
    ]
  ]
]

pub record_reconciled-IsBounded :
    (max : ℕ) (i : String) (at : ℕ) (reason : ReconciliationReason) (s : ExecutionEvidenceService)
    → IsBounded max s
    → IsBounded max (record_reconciled i at reason s).1
unfolding record_reconciled
record_reconciled-IsBounded max i at reason s h = elim (Option-cases (Dict.get i s.receipts)) [
  | inl e ↦ rw (record_reconciled, e) h
  | inr (x, e) ↦ elim (Bool-cases (is_terminal x)) [
    | inl e1 ↦ rw (record_reconciled, e, e1) h
    | inr e1 ↦
        let counted = record s { reconciled_unknown_count = s.reconciled_unknown_count + 1 } in
        let c =
          counted-IsBounded max s.evidence_failure_count (s.reconciled_unknown_count + 1) s h in
        rw (record_reconciled, e, e1)
          (close-IsBounded max i x (reconciled_receipt at reason x) counted c.indexed h.bound e refl
            refl)
  ]
]

pub run-IsBounded :
    (max : ℕ) (op : Operation) (s : ExecutionEvidenceService)
    → IsBounded max s
    → IsBounded max (run op s)
unfolding run
run-IsBounded max (start r m) s h = record_started-IsBounded max r m s h
run-IsBounded max (finish i o) s h = record_terminal-IsBounded max i o s h
run-IsBounded max (reconcile i at reason) s h = record_reconciled-IsBounded max i at reason s h

pub run_all-IsBounded :
    (max : ℕ) (ops : List Operation) (s : ExecutionEvidenceService)
    → IsBounded max s
    → IsBounded max (run_all ops s)
unfolding run_all
run_all-IsBounded max [] s h = h
run_all-IsBounded max (op ∷ ops) s h =
    run_all-IsBounded max ops (run op s) (run-IsBounded max op s h)

-- After any calls on a new store, the terminal receipts it retains are at most the bound of its
-- policy, every receipt stands under its own identifier, and the grant of every retained receipt
-- points to that receipt.
pub evidence-IsBounded :
    (max : ℕ) (ops : List Operation) → IsBounded max (run_all ops (new_service max))
unfolding new_service terminal_receipt_count Dict.values
evidence-IsBounded max ops = run_all-IsBounded max ops (new_service max) (record {
  indexed = record {
    unique = tt;
    keyed = λ i r e. absurd (none-ne-some r (sym (get-empty i) ∙ e));
    granted = λ i r e. absurd (none-ne-some r (sym (get-empty i) ∙ e));
  };
  bound = refl;
  retained = omega arith;
})
