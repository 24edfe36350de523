-- ===== src/Lists.antt =====
-- What filtering, cutting and sorting, as the Python code does them, keep of a list.
use enterprise_agent_securit.Prelude.{
  ℕ, String, ◌≡◌, ◌≢◌, ◌≤◌, refl, sym, Bool, true, List, [], ◌∷◌, ◌++◌, zero, suc, leb, arith,
  Bool-cases, inl, inr, All, filter, count, length, some, ◌∙◌, ap,
}
use mathlib.Core.Option.{none-ne-some}
use enterprise_agent_securit.Dict
use enterprise_agent_securit.Dict.{Dict}
use enterprise_agent_securit.Dict.Unique.{IsUnique, get-All, get-head, get-tail}
use enterprise_agent_securit.Sorting.{sorted, insert_sorted, sorted-All, insert_sorted-All}

pub filter-kept {ℓ κ} :
    {A : Type ℓ} (P : A → Type κ) (p : A → Bool) (xs : List A) → All P xs → All P (filter p xs)
filter-kept P p [] h = tt
filter-kept P p (x ∷ xs) h = elim (Bool-cases (p x)) [
  | inl e ↦ rw (e) (h.0, filter-kept P p xs h.1)
  | inr e ↦ rw (e) (filter-kept P p xs h.1)
]

pub append_one {ℓ κ} :
    {A : Type ℓ} (P : A → Type κ) (xs : List A) (y : A) → All P xs → P y → All P (xs ++ y ∷ [])
append_one P [] y h p = (p, tt)
append_one P (x ∷ xs) y h p = (h.0, append_one P xs y h.1 p)

pub weaken {ℓ κ κ'} :
    {A : Type ℓ} (P : A → Type κ) (Q : A → Type κ') (xs : List A)
    → ((x : A) → P x → Q x)
    → All P xs
    → All Q xs
weaken P Q [] f h = tt
weaken P Q (x ∷ xs) f h = (f x h.0, weaken P Q xs f h.1)

-- `xs[:n]`
unfoldable pub take {ℓ} : {A : Type ℓ} → ℕ → List A → List A
take n [] = []
take zero (x ∷ xs) = []
take (suc n) (x ∷ xs) = x ∷ take n xs

pub take-kept {ℓ κ} :
    {A : Type ℓ} (P : A → Type κ) (n : ℕ) (xs : List A) → All P xs → All P (take n xs)
unfolding take
take-kept P n [] h = tt
take-kept P zero (x ∷ xs) h = tt
take-kept P (suc n) (x ∷ xs) h = (h.0, take-kept P n xs h.1)

pub length-take {ℓ} : {A : Type ℓ} (n : ℕ) (xs : List A) → n ≤ length xs → length (take n xs) ≡ n
unfolding take
length-take n [] h = omega (arith, h)
length-take zero (x ∷ xs) h = refl
length-take (suc n) (x ∷ xs) h = omega (arith, length-take n xs (omega (arith, h)))

pub length-filter {ℓ} :
    {A : Type ℓ} (p : A → Bool) (xs : List A) → length (filter p xs) ≡ count p xs
length-filter p [] = refl
length-filter p (x ∷ xs) = ground (arith, length-filter p xs)

pub filter-passes {ℓ} :
    {A : Type ℓ} (p : A → Bool) (xs : List A) → All (λ x. p x ≡ true) (filter p xs)
filter-passes p [] = tt
filter-passes p (x ∷ xs) = elim (Bool-cases (p x)) [
  | inl e ↦ rw (e) (e, filter-passes p xs)
  | inr e ↦ rw (e) (filter-passes p xs)
]

-- no two items of a list have the same name
module _ {ℓ} {A : Type ℓ} (name : A → String) where
  abbrev pub Distinct : List A → Type 0
  Distinct [] = Unit
  Distinct (x ∷ xs) = All (λ y. name x ≢ name y) xs × Distinct xs

  pub filter-Distinct : (p : A → Bool) (xs : List A) → Distinct xs → Distinct (filter p xs)
  filter-Distinct p [] h = tt
  filter-Distinct p (x ∷ xs) h = elim (Bool-cases (p x)) [
    | inl e ↦ rw (e) (filter-kept (λ y. name x ≢ name y) p xs h.0, filter-Distinct p xs h.1)
    | inr e ↦ rw (e) (filter-Distinct p xs h.1)
  ]

  pub take-Distinct : (n : ℕ) (xs : List A) → Distinct xs → Distinct (take n xs)
  unfolding take
  take-Distinct n [] h = tt
  take-Distinct zero (x ∷ xs) h = tt
  take-Distinct (suc n) (x ∷ xs) h =
      (take-kept (λ y. name x ≢ name y) n xs h.0, take-Distinct n xs h.1)

  insert-Distinct :
      (key : A → ℕ) (x : A) (xs : List A)
      → All (λ y. name x ≢ name y) xs
      → Distinct xs
      → Distinct (insert_sorted key x xs)
  unfolding insert_sorted
  insert-Distinct key x [] h d = (tt, tt)
  insert-Distinct key x (y ∷ ys) h d = elim (Bool-cases (leb (key x) (key y))) [
    | inl e ↦ rw (e) (h, d)
    | inr e ↦ rw (e) (
      insert_sorted-All key (λ z. name y ≢ name z) x ys (λ same. h.0 (sym same)) d.0,
      insert-Distinct key x ys h.1 d.1,
    )
  ]

  pub sorted-Distinct : (key : A → ℕ) (xs : List A) → Distinct xs → Distinct (sorted key xs)
  unfolding sorted
  sorted-Distinct key [] h = tt
  sorted-Distinct key (x ∷ xs) h =
      insert-Distinct key x (sorted key xs) (sorted-All key (λ y. name x ≢ name y) xs h.0)
        (sorted-Distinct key xs h.1)

  -- the values of a dict whose keys are the names
  pub values-Distinct :
      (d : Dict A)
      → IsUnique d
      → ((k : String) (v : A) → Dict.get k d ≡ some v → name v ≡ k)
      → Distinct (Dict.values d)
  unfolding Dict.values Dict.get
  values-Distinct [] u h = tt
  values-Distinct ((j, w) ∷ d) u h = (
    get-All (λ v. name w ≢ name v) d u.1 (λ k v e. apart k v e),
    values-Distinct d u.1 (λ k v e. h k v (get-tail j k w v d u.0 e)),
  )
    where
      apart : (k : String) (v : A) → Dict.get k d ≡ some v → name w ≢ name v
      apart k v e same =
          let keys : j ≡ k =
            sym (h j w (get-head j w d)) ∙ same ∙ h k v (get-tail j k w v d u.0 e) in
          none-ne-some v (sym u.0 ∙ ap (λ l. Dict.get l d) keys ∙ e)
