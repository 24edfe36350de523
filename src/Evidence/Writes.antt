-- ===== src/Evidence/Writes.antt =====
-- app/services/execution_evidence_service.py: what the writes of the store keep of its indexes and its
-- bound.
use enterprise_agent_securit.Prelude.{
  ℕ, String, ◌≡◌, ◌≤◌, ◌-◌, refl, sym, ap, ◌∙◌, false, none, some, List, [], ◌∷◌, ◌++◌, arith,
  eq_iff, ◌==◌, Bool-cases, inl, inr, count, filter, length, count-append,
}
use mathlib.Core.Path.{subst}
use mathlib.Core.Option.{none-ne-some}
use enterprise_agent_securit.Dict
use enterprise_agent_securit.Dict.{
  Dict, get-put, get-put_self, get-remove, get-remove_self, put_cases, get-empty,
}
use enterprise_agent_securit.Dict.Unique.{put-IsUnique}
use enterprise_agent_securit.Sorting.{sorted}
use enterprise_agent_securit.Lists.{take}
use enterprise_agent_securit.Evidence.{ExecutionReceipt}
use enterprise_agent_securit.Evidence.Service.{
  ExecutionEvidenceService, is_terminal, evict, evict_each, prune_terminal, close,
  terminal_receipt_count,
}
use enterprise_agent_securit.Evidence.Steps.{IsIndexed, prune_terminal-IsIndexed}

evict_each-max :
    (rs : List ExecutionReceipt) (s : ExecutionEvidenceService)
    → (evict_each rs s).max_terminal_receipts ≡ s.max_terminal_receipts
unfolding evict_each evict
evict_each-max [] s = refl
evict_each-max (r ∷ rs) s = evict_each-max rs (evict r s)

prune_terminal-max :
    (s : ExecutionEvidenceService)
    → (prune_terminal s).max_terminal_receipts ≡ s.max_terminal_receipts
unfolding prune_terminal
prune_terminal-max s =
    let terminal = filter is_terminal (Dict.values s.receipts) in
    evict_each-max
      (take (length terminal - s.max_terminal_receipts) (sorted (λ r. r.started_at) terminal)) s

-- The indexes agree, and the terminal receipts are at most `max`, the bound of the store.
pub record IsBounded (max : ℕ) (s : ExecutionEvidenceService) : Type 0 where
  pub indexed : IsIndexed s
  pub bound : s.max_terminal_receipts ≡ max
  pub retained : terminal_receipt_count s ≤ max

-- the receipt is replaced by one with its identifier and its grant
pub replaced-IsIndexed :
    (i : String) (x r : ExecutionReceipt) (starts : Dict ℕ) (s : ExecutionEvidenceService)
    → IsIndexed s
    → Dict.get i s.receipts ≡ some x
    → r.receipt_id ≡ x.receipt_id
    → r.grant_id ≡ x.grant_id
    → IsIndexed (record s { receipts = Dict.put i r s.receipts; monotonic_starts = starts })
replaced-IsIndexed i x r starts s h stored named grant = record {
  unique = put-IsUnique i r s.receipts h.unique;
  keyed = λ j y e.
      put_cases (y.receipt_id ≡ j) i j r y s.receipts e
        (λ same eq. ap (λ z. z.receipt_id) (sym eq) ∙ named ∙ h.keyed i x stored ∙ same)
        (λ apart old. h.keyed j y old);
  granted = λ j y e.
      put_cases (Dict.get y.grant_id s.grant_to_receipt ≡ some j) i j r y s.receipts e
        (λ same eq.
          ap (λ g. Dict.get g s.grant_to_receipt) (sym (ap (λ z. z.grant_id) eq) ∙ grant)
          ∙ h.granted i x stored
          ∙ ap some same)
        (λ apart old. h.granted j y old);
}

pub close-IsBounded :
    (max : ℕ) (i : String) (x r : ExecutionReceipt) (s : ExecutionEvidenceService)
    → IsIndexed s
    → s.max_terminal_receipts ≡ max
    → Dict.get i s.receipts ≡ some x
    → r.receipt_id ≡ x.receipt_id
    → r.grant_id ≡ x.grant_id
    → IsBounded max (close i r s)
unfolding close terminal_receipt_count
close-IsBounded max i x r s h bound stored named grant =
    let replaced = record s {
      receipts = Dict.put i r s.receipts;
      monotonic_starts = Dict.remove i s.monotonic_starts;
    } in
    let p =
      prune_terminal-IsIndexed replaced
        (replaced-IsIndexed i x r (Dict.remove i s.monotonic_starts) s h stored named grant) in
    record {
      indexed = p.0;
      bound = prune_terminal-max replaced ∙ bound;
      retained = omega (arith, p.1, bound);
    }

-- a key that is new comes last
values-put {ℓ} :
    {V : Type ℓ} (k : String) (v : V) (d : Dict V)
    → Dict.get k d ≡ none
    → Dict.values (Dict.put k v d) ≡ Dict.values d ++ v ∷ []
unfolding Dict.values Dict.put Dict.get
values-put k v [] e = refl
values-put k v ((j, w) ∷ d) e = elim (Bool-cases (j == k)) [
  | inl same ↦ absurd (none-ne-some w (sym (rw (same) at e)))
  | inr apart ↦
      let e1 : Dict.get k d ≡ none = rw (apart) at e in
      rw (apart) (ap (λ l. w ∷ l) (values-put k v d e1))
]

-- a receipt with a new identifier and a new grant
pub started-IsBounded :
    (max : ℕ) (r : ExecutionReceipt) (starts : Dict ℕ) (s : ExecutionEvidenceService)
    → IsBounded max s
    → Dict.get r.receipt_id s.receipts ≡ none
    → Dict.get r.grant_id s.grant_to_receipt ≡ none
    → is_terminal r ≡ false
    → IsBounded max (record s {
      receipts = Dict.put r.receipt_id r s.receipts;
      grant_to_receipt = Dict.put r.grant_id r.receipt_id s.grant_to_receipt;
      monotonic_starts = starts;
    })
unfolding terminal_receipt_count
started-IsBounded max r starts s h fresh unbound started = record {
  indexed = record {
    unique = put-IsUnique r.receipt_id r s.receipts h.indexed.unique;
    keyed = λ j y e.
        put_cases (y.receipt_id ≡ j) r.receipt_id j r y s.receipts e
          (λ same eq. ap (λ z. z.receipt_id) (sym eq) ∙ same)
          (λ apart old. h.indexed.keyed j y old);
    granted = λ j y e.
        put_cases
          (Dict.get y.grant_id (Dict.put r.grant_id r.receipt_id s.grant_to_receipt) ≡ some j)
          r.receipt_id j r y s.receipts e
          (λ same eq.
            subst
              (λ z.
                Dict.get z.grant_id (Dict.put r.grant_id r.receipt_id s.grant_to_receipt) ≡ some j)
              eq (get-put_self r.grant_id r.receipt_id s.grant_to_receipt ∙ ap some same))
          (λ apart old. other j y (h.indexed.granted j y old));
  };
  bound = h.bound;
  retained = ground (arith, counted, h.retained);
}
  where
    counted :
        count is_terminal (Dict.values (Dict.put r.receipt_id r s.receipts))
        ≡ count is_terminal (Dict.values s.receipts)
    counted =
        rw
          (
            values-put r.receipt_id r s.receipts fresh,
            count-append is_terminal (Dict.values s.receipts) (r ∷ []),
            started,
          )
          (omega arith)

    other :
        (j : String) (y : ExecutionReceipt)
        → Dict.get y.grant_id s.grant_to_receipt ≡ some j
        → Dict.get y.grant_id (Dict.put r.grant_id r.receipt_id s.grant_to_receipt) ≡ some j
    other j y e = elim (Bool-cases (r.grant_id == y.grant_id)) [
      | inl same ↦ absurd (
          none-ne-some j (
            sym unbound
            ∙ ap (λ g. Dict.get g s.grant_to_receipt) ((eq_iff r.grant_id y.grant_id).0 same)
            ∙ e))
      | inr apart ↦ rw (get-put r.grant_id y.grant_id r.receipt_id s.grant_to_receipt, apart) e
    ]
