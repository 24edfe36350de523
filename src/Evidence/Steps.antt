-- ===== src/Evidence/Steps.antt =====
-- app/services/execution_evidence_service.py: the indexes of the store, and that eviction keeps them.
use enterprise_agent_securit.Prelude.{
  ℕ, String, ◌≡◌, ◌≢◌, ◌≤◌, ◌+◌, ◌-◌, refl, sym, ap, ◌∙◌, Bool, true, false, Option, none, some,
  List, [], ◌∷◌, All, arith, eq_iff, ◌==◌, Bool-cases, inl, inr, count, filter, length, false≢true,
}
use mathlib.Core.Path.{subst}
use mathlib.Core.Option.{none-ne-some, some-injective}
use enterprise_agent_securit.Dict
use enterprise_agent_securit.Dict.{
  Dict, get-put, get-put_self, get-remove, get-remove_self, put_cases,
}
use enterprise_agent_securit.Dict.Unique.{IsUnique, remove-IsUnique, get-All}
use enterprise_agent_securit.Sorting.{sorted, sorted-All, length-sorted}
use enterprise_agent_securit.Lists.{
  take, filter-kept, filter-passes, take-kept, length-take, length-filter, Distinct,
  filter-Distinct, take-Distinct, sorted-Distinct, values-Distinct,
}
use enterprise_agent_securit.Evidence.{ExecutionReceipt}
use enterprise_agent_securit.Evidence.Service.{
  ExecutionEvidenceService, is_terminal, evict, evict_each, prune_terminal,
}

-- The receipts stand under their identifiers, and every grant of a receipt points to it.
pub record IsIndexed (s : ExecutionEvidenceService) : Type 0 where
  pub unique : IsUnique s.receipts
  pub keyed :
      (i : String) (r : ExecutionReceipt) → Dict.get i s.receipts ≡ some r → r.receipt_id ≡ i
  pub granted :
      (i : String) (r : ExecutionReceipt)
      → Dict.get i s.receipts ≡ some r
      → Dict.get r.grant_id s.grant_to_receipt ≡ some i

pub not_self : (i j : String) → i ≢ j → (i == j) ≡ false
not_self i j h = elim (Bool-cases (i == j)) [ inl e ↦ absurd (h ((eq_iff i j).0 e)) | inr e ↦ e ]

pub get-removed {ℓ} :
    {V : Type ℓ} (P : Type ℓ) (k j : String) (v : V) (d : Dict V)
    → Dict.get j (Dict.remove k d) ≡ some v
    → ((k == j) ≡ false → Dict.get j d ≡ some v → P)
    → P
get-removed P k j v d e kept = elim (Bool-cases (k == j)) [
  | inl same ↦
      let e1 : ◌≡◌ {A = Option _} none (some v) = rw (get-remove k j d, same) at e in
      absurd (none-ne-some v e1)
  | inr apart ↦ let e1 : Dict.get j d ≡ some v = rw (get-remove k j d, apart) at e in kept apart e1
]

pub evict-IsIndexed :
    (r : ExecutionReceipt) (s : ExecutionEvidenceService)
    → Dict.get r.receipt_id s.receipts ≡ some r
    → IsIndexed s
    → IsIndexed (evict r s)
unfolding evict
evict-IsIndexed r s stored h = record {
  unique = remove-IsUnique r.receipt_id s.receipts h.unique;
  keyed = λ i x e.
      get-removed (x.receipt_id ≡ i) r.receipt_id i x s.receipts e (λ apart old. h.keyed i x old);
  granted = λ i x e.
      get-removed (Dict.get x.grant_id (Dict.remove r.grant_id s.grant_to_receipt) ≡ some i)
        r.receipt_id i x s.receipts e
        (λ apart old.
          rw (get-remove r.grant_id x.grant_id s.grant_to_receipt, other_grant i x apart old)
            (h.granted i x old));
}
  where
    other_grant :
        (i : String) (x : ExecutionReceipt)
        → (r.receipt_id == i) ≡ false
        → Dict.get i s.receipts ≡ some x
        → (r.grant_id == x.grant_id) ≡ false
    other_grant i x apart old = elim (Bool-cases (r.grant_id == x.grant_id)) [
      | inr e ↦ e
      | inl e ↦
          let same = some-injective r.receipt_id i (
            sym (h.granted r.receipt_id r stored)
            ∙ ap (λ g. Dict.get g s.grant_to_receipt) ((eq_iff r.grant_id x.grant_id).0 e)
            ∙ h.granted i x old) in
          absurd (false≢true (sym apart ∙ (eq_iff r.receipt_id i).1 same))
    ]

-- receipts that may be evicted one after another
pub record Evictable (s : ExecutionEvidenceService) (rs : List ExecutionReceipt) : Type 0 where
  pub distinct : Distinct (λ r. r.receipt_id) rs
  pub stored : All (λ r. Dict.get r.receipt_id s.receipts ≡ some r) rs
  pub terminal : All (λ r. is_terminal r ≡ true) rs

pub evict-others :
    (x : ExecutionReceipt) (s : ExecutionEvidenceService) (rs : List ExecutionReceipt)
    → All (λ r. x.receipt_id ≢ r.receipt_id) rs
    → All (λ r. Dict.get r.receipt_id s.receipts ≡ some r) rs
    → All (λ r. Dict.get r.receipt_id (evict x s).receipts ≡ some r) rs
unfolding evict
evict-others x s [] d h = tt
evict-others x s (r ∷ rs) d h = (
  rw (get-remove x.receipt_id r.receipt_id s.receipts, not_self x.receipt_id r.receipt_id d.0) h.0,
  evict-others x s rs d.1 h.1,
)

remove-absent {ℓ} :
    {V : Type ℓ} (k : String) (d : Dict V) → Dict.get k d ≡ none → Dict.remove k d ≡ d
unfolding Dict.remove Dict.get
remove-absent k [] e = refl
remove-absent k ((j, w) ∷ d) e = elim (Bool-cases (j == k)) [
  | inl same ↦ absurd (none-ne-some w (sym (rw (same) at e)))
  | inr apart ↦
      let e1 : Dict.get k d ≡ none = rw (apart) at e in rw (apart, remove-absent k d e1) refl
]

-- a removed value is counted once
count-remove {ℓ} :
    {V : Type ℓ} (p : V → Bool) (k : String) (v : V) (d : Dict V)
    → IsUnique d
    → Dict.get k d ≡ some v
    → p v ≡ true
    → count p (Dict.values d) ≡ count p (Dict.values (Dict.remove k d)) + 1
unfolding Dict.values Dict.remove Dict.get
count-remove p k v [] u e t = absurd (none-ne-some v e)
count-remove p k v ((j, w) ∷ d) u e t = elim (Bool-cases (j == k)) [
  | inl same ↦
      let e1 : some w ≡ some v = rw (same) at e in
      let absent : Dict.get k d ≡ none =
        subst (λ i. Dict.get i d ≡ none) ((eq_iff j k).0 same) u.0 in
      let passes : p w ≡ true = ap p (some-injective w v e1) ∙ t in
      rw (same, remove-absent k d absent, passes) (omega arith)
  | inr apart ↦
      let e1 : Dict.get k d ≡ some v = rw (apart) at e in
      let rest = count-remove p k v d u.1 e1 t in rw (apart) (ground (arith, rest))
]

evict_each-IsIndexed :
    (rs : List ExecutionReceipt) (s : ExecutionEvidenceService)
    → Evictable s rs
    → IsIndexed s
    → IsIndexed (evict_each rs s)
      × (count is_terminal (Dict.values s.receipts)
          ≡ count is_terminal (Dict.values (evict_each rs s).receipts) + length rs)
unfolding evict_each evict
evict_each-IsIndexed [] s e h = (h, omega arith)
evict_each-IsIndexed (r ∷ rs) s e h =
    let rest =
      evict_each-IsIndexed rs (evict r s)
        (record {
          distinct = e.distinct.1;
          stored = evict-others r s rs e.distinct.0 e.stored.1;
          terminal = e.terminal.1;
        })
        (evict-IsIndexed r s e.stored.0 h) in
    (
      rest.0,
      omega (
        arith,
        rest.1,
        count-remove is_terminal r.receipt_id r s.receipts h.unique e.stored.0 e.terminal.0,
      ),
    )

-- what the loop of the eviction is given
pub oldest-Evictable :
    (n : ℕ) (s : ExecutionEvidenceService)
    → IsIndexed s
    → Evictable s
        (take n (sorted (λ r. r.started_at) (filter is_terminal (Dict.values s.receipts))))
oldest-Evictable n s h = record {
  distinct = take-Distinct name n _ (
      sorted-Distinct name key _
        (filter-Distinct name is_terminal _ (values-Distinct name s.receipts h.unique h.keyed)));
  stored = take-kept _ n _ (
      sorted-All key (λ r. Dict.get r.receipt_id s.receipts ≡ some r) _
        (filter-kept _ is_terminal _ (get-All _ s.receipts h.unique stored_one)));
  terminal = take-kept _ n _ (
      sorted-All key (λ r. is_terminal r ≡ true) _
        (filter-passes is_terminal (Dict.values s.receipts)));
}
  where
    name : ExecutionReceipt → String
    name r = r.receipt_id

    key : ExecutionReceipt → ℕ
    key r = r.started_at

    stored_one :
        (k : String) (r : ExecutionReceipt)
        → Dict.get k s.receipts ≡ some r
        → Dict.get r.receipt_id s.receipts ≡ some r
    stored_one k r e = subst (λ i. Dict.get i s.receipts ≡ some r) (sym (h.keyed k r e)) e

-- Eviction keeps the indexes and leaves no more terminal receipts than the bound.
pub prune_terminal-IsIndexed :
    (s : ExecutionEvidenceService)
    → IsIndexed s
    → IsIndexed (prune_terminal s)
      × (count is_terminal (Dict.values (prune_terminal s).receipts) ≤ s.max_terminal_receipts)
unfolding prune_terminal
prune_terminal-IsIndexed s h =
    let terminal = filter is_terminal (Dict.values s.receipts) in
    let n = length terminal - s.max_terminal_receipts in
    let r = evict_each-IsIndexed _ s (oldest-Evictable n s h) h in
    let same = length-sorted (λ r. r.started_at) terminal in
    let taken = length-take n (sorted (λ r. r.started_at) terminal) (omega (arith, same)) in
    (r.0, omega (arith, r.1, taken, length-filter is_terminal (Dict.values s.receipts)))
