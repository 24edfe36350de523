-- ===== src/Dict/Unique.antt =====
-- A Python `dict` has each key once: what that gives for the association lists that stand for dicts.
use enterprise_agent_securit.Prelude.{
  String, ◌≡◌, refl, none, some, [], ◌∷◌, arith, eq_iff, eq_refl, ◌==◌, Bool-cases, inl, inr, All,
}
use enterprise_agent_securit.Dict.{Dict, get, put, remove, values, get-put, get-remove}

module _ {ℓ} {V : Type ℓ} where
  abbrev pub IsUnique : Dict V → Type ℓ
  IsUnique [] = Unit
  IsUnique ((k, v) ∷ d) = (get k d ≡ none) × IsUnique d

  pub put-IsUnique : (k : String) (v : V) (d : Dict V) → IsUnique d → IsUnique (put k v d)
  unfolding put get
  put-IsUnique k v [] h = (refl, tt)
  put-IsUnique k v ((j, w) ∷ d) h = elim (Bool-cases (j == k)) [
    | inl e ↦ rw (e) h
    | inr e ↦
        rw (e)
          (ground (arith, get-put k j v d, eq_iff k j, eq_iff j k, h.0), put-IsUnique k v d h.1)
  ]

  pub remove-IsUnique : (k : String) (d : Dict V) → IsUnique d → IsUnique (remove k d)
  unfolding remove get
  remove-IsUnique k [] h = h
  remove-IsUnique k ((j, w) ∷ d) h = elim (Bool-cases (j == k)) [
    | inl e ↦ rw (e) (remove-IsUnique k d h.1)
    | inr e ↦ rw (e) (ground (arith, get-remove k j d, h.0), remove-IsUnique k d h.1)
  ]

  pub get-head : (j : String) (w : V) (d : Dict V) → get j ((j, w) ∷ d) ≡ some w
  unfolding get
  get-head j w d = ground (arith, eq_refl j)

  pub get-tail :
      (j k : String) (w v : V) (d : Dict V)
      → get j d ≡ none
      → get k d ≡ some v
      → get k ((j, w) ∷ d) ≡ some v
  unfolding get
  get-tail j k w v d absent e = ground (arith, absent, eq_iff j k, e)

  pub get-All {κ} :
      (P : V → Type κ) (d : Dict V)
      → IsUnique d
      → ((k : String) (v : V) → get k d ≡ some v → P v)
      → All P (values d)
  unfolding values
  get-All P [] u h = tt
  get-All P ((j, w) ∷ d) u h =
      (h j w (get-head j w d), get-All P d u.1 (λ k v e. h k v (get-tail j k w v d u.0 e)))
