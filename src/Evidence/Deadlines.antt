-- ===== src/Evidence/Deadlines.antt =====
-- app/services/execution_evidence_service.py and app/services/execution_reconciler.py: which calls end
-- an execution's open receipt, and that reconciliation waits for its deadline.
use enterprise_agent_securit.Prelude.{
  ℕ, String, ◌≡◌, ◌≢◌, ◌+◌, refl, sym, ap, ◌∙◌, true, false, Option, none, some, List, [], ◌∷◌, All,
  arith, eq_iff, ◌==◌, Bool-cases, Option-cases, inl, inr, false≢true, ◌⊎◌, ◌<◌, err,
}
use mathlib.Core.Option.{none-ne-some, some-injective}
use enterprise_agent_securit.Dict
use enterprise_agent_securit.Dict.{
  Dict, get-put, get-put_self, get-remove, get-remove_self, put_cases, get-empty,
}
use enterprise_agent_securit.Lists.{filter-kept}
use enterprise_agent_securit.Dict.Unique.{get-All}
use enterprise_agent_securit.Evidence.{ExecutionReceipt, ReconciliationReason, is_started}
use enterprise_agent_securit.Evidence.Service.{
  get_by_grant, list_open, ExecutionEvidenceService, transition, Outcome, is_terminal,
  record_terminal, record_reconciled,
}
use enterprise_agent_securit.Evidence.Steps.{not_self, IsIndexed}
use enterprise_agent_securit.Evidence.Operations.{Operation, run, run_all, new_service}
use enterprise_agent_securit.Evidence.Writes.{IsBounded}
use enterprise_agent_securit.Evidence.Bounds.{
  run_all-IsBounded, run-IsBounded, evidence-IsBounded, record_reconciled-IsBounded,
}
use enterprise_agent_securit.Evidence.Reconciler.{
  reconcile_one, verdict, reconcile_receipt, unresolved_each, reconcile_unresolved,
}
use enterprise_agent_securit.Evidence.Retention.{
  IsOpen, closes, run-IsOpen, record_reconciled-IsOpen,
}

run_all-IsOpen :
    (max : ℕ) (i : String) (r : ExecutionReceipt) (m : Option ℕ) (ops : List Operation)
    (s : ExecutionEvidenceService)
    → All (λ op. closes i op ≡ false) ops
    → IsBounded max s
    → IsOpen i r m s
    → IsOpen i r m (run_all ops s)
unfolding run_all
run_all-IsOpen max i r m [] s c b h = h
run_all-IsOpen max i r m (op ∷ ops) s c b h =
    run_all-IsOpen max i r m ops (run op s) c.1 (run-IsBounded max op s b)
      (run-IsOpen i r m op s c.0 b.indexed h)

-- An open receipt is never lost to retention: however many receipts other calls start, finish,
-- reconcile and evict, as long as none of them finishes or reconciles this one, it stays stored and
-- open with its monotonic start, and its grant still finds it.
pub retention_spares_receipt :
    (max : ℕ) (before after : List Operation) (i : String) (r : ExecutionReceipt) (m : Option ℕ)
    → IsOpen i r m (run_all before (new_service max))
    → All (λ op. closes i op ≡ false) after
    → let s = run_all after (run_all before (new_service max)) in
      IsOpen i r m s × (get_by_grant r.grant_id s ≡ some r)
unfolding get_by_grant
retention_spares_receipt max before after i r m h c =
    let b = evidence-IsBounded max before in
    let o = run_all-IsOpen max i r m after (run_all before (new_service max)) c b h in
    let b1 = run_all-IsBounded max after (run_all before (new_service max)) b in
    (o, rw (get_by_grant, b1.indexed.granted i r o.stored) o.stored)

-- the receipt that was listed is this one, or has another identifier
abbrev Same : String → ExecutionReceipt → ExecutionReceipt → Type 0
Same i r x = (x.receipt_id ≢ i) ⊎ (x ≡ r)

listed-Same :
    (i : String) (r : ExecutionReceipt) (s : ExecutionEvidenceService)
    → IsIndexed s
    → Dict.get i s.receipts ≡ some r
    → All (Same i r) (list_open s)
unfolding list_open
listed-Same i r s h stored =
    filter-kept (Same i r) (λ x. is_started x.status) (Dict.values s.receipts)
      (get-All (Same i r) s.receipts h.unique one)
  where
    one : (k : String) (x : ExecutionReceipt) → Dict.get k s.receipts ≡ some x → Same i r x
    one k x e = elim (Bool-cases (k == i)) [
      | inl e1 ↦ inr (
          some-injective x r (sym e ∙ ap (λ l. Dict.get l s.receipts) ((eq_iff k i).0 e1) ∙ stored))
      | inr e1 ↦ inl (λ same. false≢true (sym e1 ∙ (eq_iff k i).1 (sym (h.keyed k x e) ∙ same)))
    ]

module _ (grace now_utc monotonic_now begun : ℕ) (i : String) (r : ExecutionReceipt)
    (early : monotonic_now < begun + r.declared_timeout_seconds + grace) where
  early_verdict : verdict grace monotonic_now r (some begun) ≡ none
  unfolding verdict
  early_verdict = ground (arith, early)

  reconcile_receipt-IsOpen :
      (max : ℕ) (x : ExecutionReceipt) (s : ExecutionEvidenceService)
      → Same i r x
      → IsBounded max s
      → IsOpen i r (some begun) s
      → IsOpen i r (some begun) (reconcile_receipt grace now_utc monotonic_now x s).1
        × IsBounded max (reconcile_receipt grace now_utc monotonic_now x s).1
  unfolding reconcile_receipt reconcile_one
  reconcile_receipt-IsOpen max x s same b h =
      elim (Option-cases
        (verdict grace monotonic_now x (Dict.get x.receipt_id s.monotonic_starts))) [
          | inl e ↦ rw (reconcile_receipt, e) (h, b)
          | inr (reason, e) ↦ elim same [
            | inl apart ↦
                rw (reconcile_receipt, e)
                  (
                    record_reconciled-IsOpen i r (some begun) x.receipt_id now_utc reason s
                        (not_self x.receipt_id i apart) b.indexed h,
                    record_reconciled-IsBounded max x.receipt_id now_utc reason s b,
                  )
            | inr this ↦ absurd (none-ne-some reason (sym (waits x s this b h) ∙ e))
          ]
        ]
    where
      waits :
          (x : ExecutionReceipt) (s : ExecutionEvidenceService)
          → x ≡ r
          → IsBounded max s
          → IsOpen i r (some begun) s
          → verdict grace monotonic_now x (Dict.get x.receipt_id s.monotonic_starts) ≡ none
      waits x s this b h =
          let named = ap (λ z. z.receipt_id) this ∙ b.indexed.keyed i r h.stored in
          ap (λ k. verdict grace monotonic_now x (Dict.get k s.monotonic_starts)) named
          ∙ ap (verdict grace monotonic_now x) h.timed
          ∙ ap (λ z. verdict grace monotonic_now z (some begun)) this
          ∙ early_verdict

  unresolved_each-IsOpen :
      (max : ℕ) (xs : List ExecutionReceipt) (s : ExecutionEvidenceService)
      → All (Same i r) xs
      → IsBounded max s
      → IsOpen i r (some begun) s
      → IsOpen i r (some begun) (unresolved_each grace now_utc monotonic_now xs s).1
  unfolding unresolved_each
  unresolved_each-IsOpen max [] s l b h = h
  unresolved_each-IsOpen max (x ∷ xs) s l b h =
      let k = reconcile_receipt-IsOpen max x s l.0 b h in
      unresolved_each-IsOpen max xs (reconcile_receipt grace now_utc monotonic_now x s).1 l.1 k.1
        k.0

-- `reconcile_unresolved` spares an execution that is still within its own limit: after any calls on a
-- new store, an open receipt whose monotonic start is recorded, and whose start, declared timeout and
-- recovery grace together are after the present moment, is open, with the same fields and start, when
-- `reconcile_unresolved` has run. Nothing is said of `reconcile_on_startup`, which declares every open
-- receipt UNKNOWN, nor of a receipt with no recorded start.
pub running_execution_is_spared :
    (max grace now_utc monotonic_now begun : ℕ) (ops : List Operation) (i : String)
    (r : ExecutionReceipt)
    → IsOpen i r (some begun) (run_all ops (new_service max))
    → monotonic_now < begun + r.declared_timeout_seconds + grace
    → IsOpen i r
        (some begun)
        (reconcile_unresolved grace now_utc monotonic_now (run_all ops (new_service max))).1
unfolding reconcile_unresolved
running_execution_is_spared max grace now_utc monotonic_now begun ops i r h early =
    let b = evidence-IsBounded max ops in
    unresolved_each-IsOpen grace now_utc monotonic_now begun i r early max
      (list_open (run_all ops (new_service max))) (run_all ops (new_service max))
      (listed-Same i r (run_all ops (new_service max)) b.indexed h.stored) b h

-- A recorded outcome is final: recording another outcome of a receipt that is terminal, or
-- reconciling it, raises the error of a transition and changes nothing.
pub outcome_is_final :
    (i : String) (r : ExecutionReceipt) (o : Outcome) (now : ℕ) (reason : ReconciliationReason)
    (s : ExecutionEvidenceService)
    → Dict.get i s.receipts ≡ some r
    → is_terminal r ≡ true
    → (record_terminal i o s ≡ (err transition, s))
      × (record_reconciled i now reason s ≡ (err transition, s))
unfolding record_terminal record_reconciled
outcome_is_final i r o now reason s stored ended =
    (ground (arith, stored, ended), rw (record_reconciled, stored, ended) refl)
