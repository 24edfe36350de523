-- ===== src/Authority/Canonical.antt =====
-- app/models/execution_binding.py: the order in which a request names its parameters is not in its
-- binding.
use Prim.Native.Nat.{Ordering}
use Prim.Native.String
use text.Mathlib.TextEquality.{path_by_compare}
use text.Mathlib.TextPositions.{compare_refl}
use mathlib.Core.Option.{none-ne-some, some-injective}
use mathlib.Core.Path.{subst}
use enterprise_agent_securit.Prelude.{
  String, ◌≡◌, ◌⊎◌, ◌≢◌, refl, sym, ◌∙◌, ap, true, false, Option, none, some, [], ◌∷◌, ok, arith,
  ◌==◌, eq_iff, eq_refl, All, Bool-cases, Option-cases, inl, inr, false≢true,
}
use enterprise_agent_securit.Dict
use enterprise_agent_securit.Dict.{Dict, get-empty}
use enterprise_agent_securit.Dict.Unique.{IsUnique}
use enterprise_agent_securit.Authority.Binding.{
  pair_leb, insert_pair, sort_pairs, from_operation, bind_canonical,
}
use enterprise_agent_securit.Authority.RoundTrip.{
  Named, as_values, canonicalize-as_values, sort-IsSortOf,
}
use enterprise_agent_securit.Authority.TextOrder.{Before, Before-trans, swap_texts, swap}

-- the names are in the order of texts, and none is there twice
abbrev IsOrdered : Dict String → Type 0
IsOrdered [] = Unit
IsOrdered (p ∷ ps) = All (λ q. Before p.0 q.0) ps × IsOrdered ps

-- a name comes before those it stands before
get-after :
    (j k v : String) (d : Dict String)
    → All (λ q. Before j q.0) d
    → Dict.get k d ≡ some v
    → Before j k
unfolding Dict.get
get-after j k v [] h e = absurd (none-ne-some v e)
get-after j k v ((i, w) ∷ d) h e = elim (Bool-cases (i == k)) [
  | inl same ↦ subst (Before j) ((eq_iff i k).0 same) h.0
  | inr apart ↦ let e1 : Dict.get k d ≡ some v = rw (apart) at e in get-after j k v d h.1 e1
]

never_before_itself {ℓ} : (P : Type ℓ) (s : String) → Before s s → P
never_before_itself P s h =
    let e : Ordering.eq ≡ Ordering.lt = sym (compare_refl s) ∙ h in ground (arith, e)

get-head_absent : (j : String) (d : Dict String) → All (λ q. Before j q.0) d → Dict.get j d ≡ none
get-head_absent j d h = elim (Option-cases (Dict.get j d)) [
  | inl e ↦ e
  | inr (v, e) ↦ never_before_itself _ j (get-after j j v d h e)
]

-- an entry of a dict that has the same lookups as one that starts with `j`
first_or_after :
    (i j w v : String) (d : Dict String)
    → All (λ q. Before j q.0) d
    → Dict.get i ((j, v) ∷ d) ≡ some w
    → (j ≡ i) ⊎ Before j i
unfolding Dict.get
first_or_after i j w v d h e = elim (Bool-cases (j == i)) [
  | inl same ↦ inl ((eq_iff j i).0 same)
  | inr apart ↦ let e1 : Dict.get i d ≡ some w = rw (apart) at e in inr (get-after j i w d h e1)
]

get-first : (j v : String) (d : Dict String) → Dict.get j ((j, v) ∷ d) ≡ some v
unfolding Dict.get
get-first j v d = ground (arith, eq_refl j)

-- two ordered dicts with the same lookups start with the same name
same_first :
    (i w j v : String) (d e : Dict String)
    → IsOrdered ((i, w) ∷ d)
    → IsOrdered ((j, v) ∷ e)
    → ((k : String) → Dict.get k ((i, w) ∷ d) ≡ Dict.get k ((j, v) ∷ e))
    → i ≡ j
same_first i w j v d e od oe same =
    elim (first_or_after i j w v e oe.0 (sym (same i) ∙ get-first i w d)) [
      | inl eq ↦ sym eq
      | inr ji ↦ elim (first_or_after j i v w d od.0 (same j ∙ get-first j v e)) [
        | inl eq ↦ eq
        | inr ij ↦ never_before_itself _ i (Before-trans i j i ij ji)
      ]
    ]

get-tail_same :
    (j v : String) (d e : Dict String)
    → All (λ q. Before j q.0) d
    → All (λ q. Before j q.0) e
    → ((k : String) → Dict.get k ((j, v) ∷ d) ≡ Dict.get k ((j, v) ∷ e))
    → (k : String) → Dict.get k d ≡ Dict.get k e
unfolding Dict.get
get-tail_same j v d e bd be same k = elim (Bool-cases (j == k)) [
  | inl eq ↦
      subst (λ l. Dict.get l d ≡ Dict.get l e) ((eq_iff j k).0 eq)
        (get-head_absent j d bd ∙ sym (get-head_absent j e be))
  | inr apart ↦ let e1 : Dict.get k d ≡ Dict.get k e = rw (apart) at (same k) in e1
]

ordered_unique :
    (d e : Dict String)
    → IsOrdered d
    → IsOrdered e
    → ((k : String) → Dict.get k d ≡ Dict.get k e)
    → d ≡ e
ordered_unique [] [] od oe same = refl
ordered_unique [] ((j, v) ∷ e) od oe same =
    absurd (none-ne-some v (sym (get-empty j) ∙ same j ∙ get-first j v e))
ordered_unique ((i, w) ∷ d) [] od oe same =
    absurd (none-ne-some w (sym (get-empty i) ∙ sym (same i) ∙ get-first i w d))
ordered_unique ((i, w) ∷ d) ((j, v) ∷ e) od oe same =
    let names = same_first i w j v d e od oe same in
    let values = some-injective w v (
      sym (get-first i w d) ∙ same i ∙ ap (λ k. Dict.get k ((j, v) ∷ e)) names ∙ get-first j v e) in
    let heads : ◌≡◌ {A = String × String} (i, w) (j, v) = λ t. (names t, values t) in
    let same' : (k : String) → Dict.get k ((j, v) ∷ d) ≡ Dict.get k ((j, v) ∷ e) =
      λ k. ap (λ p. Dict.get k (p ∷ d)) (sym heads) ∙ same k in
    let bd = subst (λ l. All (λ q. Before l q.0) d) names od.0 in
    λ t. heads t ∷ ordered_unique d e od.1 oe.1 (get-tail_same j v d e bd oe.0 same') t

Before-all :
    (i j : String) (d : Dict String)
    → Before i j
    → All (λ q. Before j q.0) d
    → All (λ q. Before i q.0) d
Before-all i j [] h k = tt
Before-all i j (q ∷ d) h k = (Before-trans i j q.0 h k.0, Before-all i j d h k.1)

insert-All :
    (i : String) (p : String × String) (d : Dict String)
    → Before i p.0
    → All (λ q. Before i q.0) d
    → All (λ q. Before i q.0) (insert_pair p d)
unfolding insert_pair
insert-All i p [] h k = (h, tt)
insert-All i p (q ∷ d) h k = elim (Bool-cases (pair_leb p q)) [
  | inl t ↦ rw (t) (h, k)
  | inr t ↦ rw (t) (k.0, insert-All i p d h k.1)
]

Ordering-cases : (o : Ordering) → (o ≡ Ordering.lt) ⊎ ((o ≡ Ordering.eq) ⊎ (o ≡ Ordering.gt))
Ordering-cases Ordering.lt = inl refl
Ordering-cases Ordering.eq = inr (inl refl)
Ordering-cases Ordering.gt = inr (inr refl)

pair_leb-Before : (i w j v : String) → i ≢ j → pair_leb (i, w) (j, v) ≡ true → Before i j
unfolding pair_leb
pair_leb-Before i w j v apart h = elim (Ordering-cases (String.compare i j)) [
  | inl e ↦ e
  | inr (inl e) ↦ absurd (apart (path_by_compare i j e))
  | inr (inr e) ↦ absurd (false≢true (rw (pair_leb, e) at h))
]

pair_leb-after : (i w j v : String) → i ≢ j → pair_leb (i, w) (j, v) ≡ false → Before j i
unfolding pair_leb
pair_leb-after i w j v apart h = elim (Ordering-cases (String.compare i j)) [
  | inl e ↦ absurd (false≢true (sym (rw (pair_leb, e) at h)))
  | inr (inl e) ↦ absurd (apart (path_by_compare i j e))
  | inr (inr e) ↦ swap_texts i j ∙ ap swap e
]

insert-IsOrdered :
    (j v : String) (d : Dict String)
    → Dict.get j d ≡ none
    → IsOrdered d
    → IsOrdered (insert_pair (j, v) d)
unfolding insert_pair Dict.get
insert-IsOrdered j v [] e h = (tt, tt)
insert-IsOrdered j v ((i, w) ∷ d) e h = elim (Bool-cases (i == j)) [
  | inl same ↦ absurd (none-ne-some w (sym (rw (same) at e)))
  | inr apart ↦
      let absent : Dict.get j d ≡ none = rw (apart) at e in
      let differ : i ≢ j = λ eq. false≢true (sym apart ∙ (eq_iff i j).1 eq) in
      elim (Bool-cases (pair_leb (j, v) (i, w))) [
        | inl t ↦
            let before = pair_leb-Before j v i w (λ eq. differ (sym eq)) t in
            rw (t) ((before, Before-all j i d before h.0), h)
        | inr t ↦
            let after = pair_leb-after j v i w (λ eq. differ (sym eq)) t in
            rw (t) (insert-All i (j, v) d after h.0, insert-IsOrdered j v d absent h.1)
      ]
]

sort_pairs-IsOrdered : (d : Dict String) → IsUnique d → IsOrdered (sort_pairs d)
unfolding sort_pairs
sort_pairs-IsOrdered [] u = tt
sort_pairs-IsOrdered ((j, v) ∷ d) u =
    insert-IsOrdered j v (sort_pairs d) ((sort-IsSortOf d u.1).same j ∙ u.0)
      (sort_pairs-IsOrdered d u.1)

-- Requests that name their parameters in another order, or build the mapping otherwise, have the same
-- binding: for two mappings of texts under non-empty names, each given once, that agree on every name,
-- and the same tool, version and explicit resource, `from_operation` has the same result, a binding or
-- the error.
pub binding_ignores_order :
    (tool_id tool_version : String) (resource : Option String) (d e : Dict String)
    → IsUnique d
    → IsUnique e
    → Named d
    → Named e
    → ((k : String) → Dict.get k d ≡ Dict.get k e)
    → from_operation tool_id tool_version (some (as_values d)) resource
      ≡ from_operation tool_id tool_version (some (as_values e)) resource
unfolding from_operation
binding_ignores_order tool_id tool_version resource d e ud ue nd ne same =
    let sorts : sort_pairs d ≡ sort_pairs e =
      ordered_unique (sort_pairs d) (sort_pairs e) (sort_pairs-IsOrdered d ud)
        (sort_pairs-IsOrdered e ue)
        (λ k. (sort-IsSortOf d ud).same k ∙ same k ∙ sym ((sort-IsSortOf e ue).same k)) in
    ap (bind_canonical tool_id tool_version resource)
      (canonicalize-as_values d nd ∙ ap ok sorts ∙ sym (canonicalize-as_values e ne))
