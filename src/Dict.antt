-- ===== src/Dict.antt =====
-- Python's `dict` with string keys, in insertion order: `d.get(k)`, `d[k] = v`, `d.pop(k, None)`,
-- and the loop that deletes every key whose value passes a test.
use enterprise_agent_securit.Prelude.{
  String, ◌≡◌, refl, Bool, false, Option, none, some, List, [], ◌∷◌, arith, ◌==◌, eq_iff, eq_refl,
  if◌then◌else◌, is_some, Option-cases, Bool-cases, inl, inr,
}
use mathlib.Core.Option.{some-injective}
pub mod Unique

abbrev pub Dict {ℓ} : Type ℓ → Type ℓ
Dict V = List (String × V)

module _ {ℓ} {V : Type ℓ} where
  unfoldable pub get : String → Dict V → Option V
  get k [] = none
  get k ((j, v) ∷ d) = if j == k then some v else get k d

  -- an existing key keeps its place, a new one goes to the end
  unfoldable pub put : String → V → Dict V → Dict V
  put k v [] = (k, v) ∷ []
  put k v ((j, w) ∷ d) = if j == k then (j, v) ∷ d else (j, w) ∷ put k v d

  unfoldable pub remove : String → Dict V → Dict V
  remove k [] = []
  remove k ((j, v) ∷ d) = let rest = remove k d in if j == k then rest else (j, v) ∷ rest

  -- `for k in [k for k, v in d.items() if p(v)]: del d[k]`
  unfoldable pub drop_where : (V → Bool) → Dict V → Dict V
  drop_where p [] = []
  drop_where p ((k, v) ∷ d) =
      let rest = drop_where p d in if p v then remove k rest else (k, v) ∷ rest

  -- `d.values()`
  unfoldable pub values : Dict V → List V
  values [] = []
  values ((k, v) ∷ d) = v ∷ values d

  -- `k in d`
  abbrev pub contains : String → Dict V → Bool
  contains k d = is_some (get k d)

  -- what a deletion loop leaves of one entry
  abbrev pub unless : (V → Bool) → Option V → Option V
  unless p none = none
  unless p (some v) = if p v then none else some v

  pub get-empty : (k : String) → get k [] ≡ none
  unfolding get
  get-empty k = refl

  pub get-put :
      (k j : String) (v : V) (d : Dict V) → get j (put k v d) ≡ (if k == j then some v else get j d)
  unfolding get put
  get-put k j v [] = refl
  get-put k j v ((i, w) ∷ d) = ground (arith, eq_iff k j, eq_iff i k, eq_iff i j, get-put k j v d)

  pub get-put_self : (k : String) (v : V) (d : Dict V) → get k (put k v d) ≡ some v
  get-put_self k v d = simp (get-put, eq_refl)

  -- what a lookup finds after an entry is written: that entry, or what was there before
  pub put_cases {κ} :
      (P : Type κ) (k j : String) (v w : V) (d : Dict V)
      → get j (put k v d) ≡ some w
      → (k ≡ j → v ≡ w → P)
      → ((k == j) ≡ false → get j d ≡ some w → P)
      → P
  put_cases P k j v w d e this other = elim (Bool-cases (k == j)) [
    | inl same ↦
        let e1 : some v ≡ some w = rw (get-put k j v d, same) at e in
        this ((eq_iff k j).0 same) (some-injective v w e1)
    | inr apart ↦ let e1 : get j d ≡ some w = rw (get-put k j v d, apart) at e in other apart e1
  ]

  pub get-remove :
      (k j : String) (d : Dict V) → get j (remove k d) ≡ (if k == j then none else get j d)
  unfolding get remove
  get-remove k j [] = ground arith
  get-remove k j ((i, w) ∷ d) = ground (arith, eq_iff k j, eq_iff i k, eq_iff i j, get-remove k j d)

  pub get-remove_self : (k : String) (d : Dict V) → get k (remove k d) ≡ none
  get-remove_self k d = simp (get-remove, eq_refl)

  pub get-drop_where :
      (p : V → Bool) (j : String) (d : Dict V) → get j (drop_where p d) ≡ unless p (get j d)
  unfolding get drop_where
  get-drop_where p j [] = refl
  get-drop_where p j ((i, w) ∷ d) =
      ground (arith, get-drop_where p j d, get-remove i j (drop_where p d), eq_iff i j)

-- `for k in [k for k, v in d.items() if p(v)]: e[k] = f(d[k])`, a loop over the items of `d`.
module _ {ℓ κ} {V : Type ℓ} {W : Type κ} (p : V → Bool) (f : V → W) (d : Dict V) where
  copy_one : String → Option V → Dict W → Dict W
  copy_one k none e = e
  copy_one k (some v) e = if p v then put k (f v) e else e

  copy_items : Dict V → Dict W → Dict W
  unfolding copy_one
  copy_items [] e = e
  copy_items ((k, v) ∷ items) e = copy_items items (copy_one k (get k d) e)

  pub copy_where : Dict W → Dict W
  unfolding copy_items
  copy_where e = copy_items d e

  -- what the loop leaves of one entry
  abbrev pub override : Option V → Option W → Option W
  override none o = o
  override (some v) o = if p v then some (f v) else o

  get-copy_one :
      (k j : String) (e : Dict W)
      → get j (copy_one k (get k d) e) ≡ (if k == j then override (get j d) (get j e) else get j e)
  unfolding copy_one
  get-copy_one k j e = elim (Option-cases (get k d)) [
    | inl n ↦ ground (arith, eq_iff k j)
    | inr (v, m) ↦ ground (arith, eq_iff k j, get-put k j (f v) e)
  ]

  get-copy_items :
      (j : String) (items : Dict V) (e : Dict W)
      → get j (copy_items items e)
        ≡ (if is_some (get j items) then override (get j d) (get j e) else get j e)
  unfolding copy_items get
  get-copy_items j [] e = refl
  get-copy_items j ((k, v) ∷ items) e =
      ground
        (arith, get-copy_items j items (copy_one k (get k d) e), get-copy_one k j e, eq_iff k j)

  pub get-copy_where :
      (j : String) (e : Dict W) → get j (copy_where e) ≡ override (get j d) (get j e)
  unfolding copy_where
  get-copy_where j e = ground (arith, get-copy_items j d e)

pub ruleset dict_laws = (get-empty, get-put, get-remove, get-drop_where)
