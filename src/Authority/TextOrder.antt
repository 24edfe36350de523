-- ===== src/Authority/TextOrder.antt =====
-- The order of Python's texts, by the numbers of their characters: what sorting the parameters of
-- app/models/execution_binding.py uses of it.
use Prim.Native.Nat.{Ordering, compare as compare_ℕ}
use Prim.Native.Char.{code}
use Prim.Native.String
use Prim.Native.String.compare
use Prim.Native.String.{then}
use enterprise_agent_securit.Prelude.{ℕ, String, ◌≡◌, refl, sym, ◌∙◌, ap, arith, ◌⊎◌, inl, inr}

abbrev pub Before : String → String → Type 0
Before s t = String.compare s t ≡ Ordering.lt

abbrev pub swap : Ordering → Ordering
swap Ordering.lt = Ordering.gt
swap Ordering.eq = Ordering.eq
swap Ordering.gt = Ordering.lt

swap_numbers : (m n : ℕ) → compare_ℕ n m ≡ swap (compare_ℕ m n)
swap_numbers m n = ground arith

then-swap : (o p : Ordering) → then (swap o) (swap p) ≡ swap (then o p)
then-swap Ordering.lt p = refl
then-swap Ordering.eq p = refl
then-swap Ordering.gt p = refl

pub swap_texts : (s t : String) → String.compare t s ≡ swap (String.compare s t)
swap_texts String.[] String.[] = refl
swap_texts String.[] (String.◌∷◌ d t) = compare.cons-nil d t ∙ ap swap (sym (compare.nil-cons d t))
swap_texts (String.◌∷◌ c s) String.[] = compare.nil-cons c s ∙ ap swap (sym (compare.cons-nil c s))
swap_texts (String.◌∷◌ c s) (String.◌∷◌ d t) =
    compare.cons-cons d c t s
    ∙ ap (λ o. then o (String.compare t s)) (swap_numbers (code c) (code d))
    ∙ ap (then (swap (compare_ℕ (code c) (code d)))) (swap_texts s t)
    ∙ then-swap (compare_ℕ (code c) (code d)) (String.compare s t)
    ∙ ap swap (sym (compare.cons-cons c d s t))

then_lt :
    (o p : Ordering)
    → then o p ≡ Ordering.lt
    → (o ≡ Ordering.lt) ⊎ ((o ≡ Ordering.eq) × (p ≡ Ordering.lt))
then_lt Ordering.lt p e = inl refl
then_lt Ordering.eq p e = inr (refl, e)
then_lt Ordering.gt p e = ground (arith, e)

trans_numbers_1 :
    (l m n : ℕ)
    → compare_ℕ l m ≡ Ordering.lt
    → compare_ℕ m n ≡ Ordering.lt
    → compare_ℕ l n ≡ Ordering.lt
trans_numbers_1 l m n h k = ground (arith, h, k)

trans_numbers_2 :
    (l m n : ℕ)
    → compare_ℕ l m ≡ Ordering.lt
    → compare_ℕ m n ≡ Ordering.eq
    → compare_ℕ l n ≡ Ordering.lt
trans_numbers_2 l m n h k = ground (arith, h, k)

trans_numbers_3 :
    (l m n : ℕ)
    → compare_ℕ l m ≡ Ordering.eq
    → compare_ℕ m n ≡ Ordering.lt
    → compare_ℕ l n ≡ Ordering.lt
trans_numbers_3 l m n h k = ground (arith, h, k)

trans_numbers_4 :
    (l m n : ℕ)
    → compare_ℕ l m ≡ Ordering.eq
    → compare_ℕ m n ≡ Ordering.eq
    → compare_ℕ l n ≡ Ordering.eq
trans_numbers_4 l m n h k = ground (arith, h, k)

not_after {ℓ} : (P : Type ℓ) → Ordering.gt ≡ Ordering.lt → P
not_after P e = ground (arith, e)

pub Before-trans : (s t u : String) → Before s t → Before t u → Before s u
Before-trans String.[] String.[] u h k = k
Before-trans String.[] (String.◌∷◌ d t) String.[] h k = not_after _ (sym (compare.cons-nil d t) ∙ k)
Before-trans String.[] (String.◌∷◌ d t) (String.◌∷◌ e u) h k = compare.nil-cons e u
Before-trans (String.◌∷◌ c s) String.[] u h k = not_after _ (sym (compare.cons-nil c s) ∙ h)
Before-trans (String.◌∷◌ c s) (String.◌∷◌ d t) String.[] h k =
    not_after _ (sym (compare.cons-nil d t) ∙ k)
Before-trans (String.◌∷◌ c s) (String.◌∷◌ d t) (String.◌∷◌ e u) h k =
    compare.cons-cons c e s u
    ∙ joined
        (then_lt (compare_ℕ (code c) (code d)) (String.compare s t)
          (sym (compare.cons-cons c d s t) ∙ h))
        (then_lt (compare_ℕ (code d) (code e)) (String.compare t u)
          (sym (compare.cons-cons d e t u) ∙ k))
        (Before-trans s t u)
  where
    first :
        compare_ℕ (code c) (code e) ≡ Ordering.lt
        → then (compare_ℕ (code c) (code e)) (String.compare s u) ≡ Ordering.lt
    first e1 = rw (e1) refl

    joined :
        (compare_ℕ (code c) (code d) ≡ Ordering.lt)
          ⊎ ((compare_ℕ (code c) (code d) ≡ Ordering.eq) × (String.compare s t ≡ Ordering.lt))
        → (compare_ℕ (code d) (code e) ≡ Ordering.lt)
          ⊎ ((compare_ℕ (code d) (code e) ≡ Ordering.eq) × (String.compare t u ≡ Ordering.lt))
        → (Before s t → Before t u → Before s u)
        → then (compare_ℕ (code c) (code e)) (String.compare s u) ≡ Ordering.lt
    joined (inl a) (inl b) ih = first (trans_numbers_1 (code c) (code d) (code e) a b)
    joined (inl a) (inr b) ih = first (trans_numbers_2 (code c) (code d) (code e) a b.0)
    joined (inr a) (inl b) ih = first (trans_numbers_3 (code c) (code d) (code e) a.0 b)
    joined (inr a) (inr b) ih = rw (trans_numbers_4 (code c) (code d) (code e) a.0 b.0) (ih a.1 b.1)
