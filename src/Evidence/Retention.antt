-- ===== src/Evidence/Retention.antt =====
-- app/services/execution_evidence_service.py and app/services/execution_reconciler.py: open receipts
-- stay until their outcome is recorded or they are reconciled.
use enterprise_agent_securit.Prelude.{
  ℕ, String, ◌≡◌, ◌+◌, ◌-◌, refl, sym, ap, ◌∙◌, Bool, true, false, Option, none, some, List, [],
  ◌∷◌, eq_iff, ◌==◌, Bool-cases, Option-cases, inl, inr, filter, length, false≢true,
}
use mathlib.Core.Option.{none-ne-some, some-injective}
use enterprise_agent_securit.Dict
use enterprise_agent_securit.Dict.{
  Dict, get-put, get-put_self, get-remove, get-remove_self, put_cases, get-empty,
}
use enterprise_agent_securit.Sorting.{sorted}
use enterprise_agent_securit.Lists.{take}
use enterprise_agent_securit.Evidence.{
  ExecutionReceipt, ReconciliationReason, is_malformed, is_allowed_terminal,
}
use enterprise_agent_securit.Evidence.Service.{
  ExecutionEvidenceService, Outcome, is_terminal, evict, evict_each, prune_terminal, close,
  record_started, started_receipt, put_start, record_terminal, record_reconciled, terminal_receipt,
  reconciled_receipt,
}
use enterprise_agent_securit.Evidence.Steps.{IsIndexed, Evictable, oldest-Evictable, evict-others}
use enterprise_agent_securit.Evidence.Operations.{Operation, start, finish, reconcile, run}
use enterprise_agent_securit.Evidence.Writes.{replaced-IsIndexed}

-- whether a call is about the outcome of a receipt
abbrev pub closes : String → Operation → Bool
closes i (start r m) = false
closes i (finish j o) = j == i
closes i (reconcile j at reason) = j == i

-- the receipt is stored and open, with its monotonic start
pub record IsOpen (i : String) (r : ExecutionReceipt) (m : Option ℕ) (s : ExecutionEvidenceService)
    : Type 0 where
  pub stored : Dict.get i s.receipts ≡ some r
  pub timed : Dict.get i s.monotonic_starts ≡ m
  pub running : is_terminal r ≡ false

module _ (i : String) (r : ExecutionReceipt) (m : Option ℕ) where
  evict-IsOpen :
      (x : ExecutionReceipt) (s : ExecutionEvidenceService)
      → Dict.get x.receipt_id s.receipts ≡ some x
      → is_terminal x ≡ true
      → IsOpen i r m s
      → IsOpen i r m (evict x s)
  unfolding evict
  evict-IsOpen x s stored ended h = record {
    stored = rw (get-remove x.receipt_id i s.receipts, apart) h.stored;
    timed = rw (get-remove x.receipt_id i s.monotonic_starts, apart) h.timed;
    running = h.running;
  }
    where
      apart : (x.receipt_id == i) ≡ false
      apart = elim (Bool-cases (x.receipt_id == i)) [
        | inr e ↦ e
        | inl e ↦
            let same = some-injective x r (
              sym stored
              ∙ ap (λ k. Dict.get k s.receipts) ((eq_iff x.receipt_id i).0 e)
              ∙ h.stored) in
            absurd (false≢true (sym h.running ∙ ap is_terminal (sym same) ∙ ended))
      ]

  evict_each-IsOpen :
      (xs : List ExecutionReceipt) (s : ExecutionEvidenceService)
      → Evictable s xs
      → IsOpen i r m s
      → IsOpen i r m (evict_each xs s)
  unfolding evict_each
  evict_each-IsOpen [] s e h = h
  evict_each-IsOpen (x ∷ xs) s e h =
      evict_each-IsOpen xs (evict x s)
        (record {
          distinct = e.distinct.1;
          stored = evict-others x s xs e.distinct.0 e.stored.1;
          terminal = e.terminal.1;
        })
        (evict-IsOpen x s e.stored.0 e.terminal.0 h)

  prune_terminal-IsOpen :
      (s : ExecutionEvidenceService)
      → IsIndexed s
      → IsOpen i r m s
      → IsOpen i r m (prune_terminal s)
  unfolding prune_terminal
  prune_terminal-IsOpen s h o =
      let terminal = filter is_terminal (Dict.values s.receipts) in
      let n = length terminal - s.max_terminal_receipts in
      evict_each-IsOpen (take n (sorted (λ x. x.started_at) terminal)) s (oldest-Evictable n s h) o

  close-IsOpen :
      (j : String) (y x : ExecutionReceipt) (s : ExecutionEvidenceService)
      → (j == i) ≡ false
      → IsIndexed s
      → Dict.get j s.receipts ≡ some y
      → x.receipt_id ≡ y.receipt_id
      → x.grant_id ≡ y.grant_id
      → IsOpen i r m s
      → IsOpen i r m (close j x s)
  unfolding close
  close-IsOpen j y x s apart h e named grant o =
      prune_terminal-IsOpen _
        (replaced-IsIndexed j y x (Dict.remove j s.monotonic_starts) s h e named grant)
        (record {
          stored = rw (get-put j i x s.receipts, apart) o.stored;
          timed = rw (get-remove j i s.monotonic_starts, apart) o.timed;
          running = o.running;
        })

  get-put_start :
      (j : String) (begun : Option ℕ) (d : Dict ℕ)
      → (j == i) ≡ false
      → Dict.get i (put_start j begun d) ≡ Dict.get i d
  get-put_start j none d apart = refl
  get-put_start j (some n) d apart = rw (get-put j i n d, apart) refl

  pub record_started-IsOpen :
      (x : ExecutionReceipt) (begun : Option ℕ) (s : ExecutionEvidenceService)
      → IsOpen i r m s
      → IsOpen i r m (record_started x begun s).1
  unfolding record_started
  record_started-IsOpen x begun s o = elim (Option-cases (Dict.get x.receipt_id s.receipts)) [
    | inr (y, e) ↦ rw (e) (record { stored = o.stored; timed = o.timed; running = o.running })
    | inl e ↦ elim (Option-cases (Dict.get x.grant_id s.grant_to_receipt)) [
      | inr (j, e1) ↦
          rw (e, e1) (record { stored = o.stored; timed = o.timed; running = o.running })
      | inl e1 ↦ elim (Bool-cases (is_malformed x)) [
        | inl e2 ↦ rw (e, e1, e2) o
        | inr e2 ↦
            rw (e, e1, e2)
              (record {
                stored =
                    rw (get-put x.receipt_id i (started_receipt x) s.receipts, apart e) o.stored;
                timed = get-put_start x.receipt_id begun s.monotonic_starts (apart e) ∙ o.timed;
                running = o.running;
              })
      ]
    ]
  ]
    where
      apart : Dict.get x.receipt_id s.receipts ≡ none → (x.receipt_id == i) ≡ false
      apart e = elim (Bool-cases (x.receipt_id == i)) [
        | inr e1 ↦ e1
        | inl e1 ↦ absurd (
            none-ne-some r
              (sym e ∙ ap (λ k. Dict.get k s.receipts) ((eq_iff x.receipt_id i).0 e1) ∙ o.stored))
      ]

  pub record_terminal-IsOpen :
      (j : String) (o : Outcome) (s : ExecutionEvidenceService)
      → (j == i) ≡ false
      → IsIndexed s
      → IsOpen i r m s
      → IsOpen i r m (record_terminal j o s).1
  unfolding record_terminal
  record_terminal-IsOpen j o s apart h open_now = elim (Bool-cases (is_allowed_terminal o.status)) [
    | inr e ↦ rw (e) open_now
    | inl e ↦ elim (Option-cases (Dict.get j s.receipts)) [
      | inl e1 ↦ rw (e, e1) open_now
      | inr (y, e1) ↦ elim (Bool-cases (is_terminal y)) [
        | inl e2 ↦ rw (e, e1, e2) open_now
        | inr e2 ↦
            rw (e, e1, e2) (close-IsOpen j y (terminal_receipt o y) s apart h e1 refl refl open_now)
      ]
    ]
  ]

  pub record_reconciled-IsOpen :
      (j : String) (at : ℕ) (reason : ReconciliationReason) (s : ExecutionEvidenceService)
      → (j == i) ≡ false
      → IsIndexed s
      → IsOpen i r m s
      → IsOpen i r m (record_reconciled j at reason s).1
  unfolding record_reconciled
  record_reconciled-IsOpen j at reason s apart h o = elim (Option-cases (Dict.get j s.receipts)) [
    | inl e ↦ rw (record_reconciled, e) o
    | inr (y, e) ↦ elim (Bool-cases (is_terminal y)) [
      | inl e1 ↦ rw (record_reconciled, e, e1) o
      | inr e1 ↦
          rw (record_reconciled, e, e1)
            (close-IsOpen j y (reconciled_receipt at reason y)
              (record s { reconciled_unknown_count = s.reconciled_unknown_count + 1 }) apart
              (record { unique = h.unique; keyed = h.keyed; granted = h.granted }) e refl refl
              (record { stored = o.stored; timed = o.timed; running = o.running }))
    ]
  ]

  pub run-IsOpen :
      (op : Operation) (s : ExecutionEvidenceService)
      → closes i op ≡ false
      → IsIndexed s
      → IsOpen i r m s
      → IsOpen i r m (run op s)
  unfolding run
  run-IsOpen (start x begun) s c h o = record_started-IsOpen x begun s o
  run-IsOpen (finish j x) s c h o = record_terminal-IsOpen j x s c h o
  run-IsOpen (reconcile j at reason) s c h o = record_reconciled-IsOpen j at reason s c h o
