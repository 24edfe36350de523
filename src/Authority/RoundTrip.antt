-- ===== src/Authority/RoundTrip.antt =====
-- app/models/execution_binding.py: what a binding says of the operation it was made from.
use enterprise_agent_securit.Prelude.{
  String, ◌≡◌, refl, ◌∙◌, ap, true, false, Option, none, some, [], ◌∷◌, ok, arith, if◌then◌else◌,
  ◌==◌, eq_iff, eq_refl, All, Bool-cases, inl, inr,
}
use enterprise_agent_securit.Dict
use enterprise_agent_securit.Dict.{Dict}
use enterprise_agent_securit.Dict.Unique.{IsUnique}
use enterprise_agent_securit.Text.{is_empty}
use enterprise_agent_securit.Authority.{ExecutionBinding}
use enterprise_agent_securit.Authority.Binding.{
  ParameterValue, text, pair_leb, insert_pair, sort_pairs, collect_pairs, canonicalize_parameters,
  resource_parameter, names_are_valid, resource_agrees, make_binding, contradicts, or_declared,
  bind_canonical, from_operation,
}

get-insert :
    (k j v : String) (d : Dict String)
    → Dict.get j d ≡ none
    → Dict.get k (insert_pair (j, v) d) ≡ (if j == k then some v else Dict.get k d)
unfolding insert_pair Dict.get
get-insert k j v [] e = refl
get-insert k j v ((i, w) ∷ d) e = elim (Bool-cases (pair_leb (j, v) (i, w))) [
  | inl p ↦ rw (p) refl
  | inr p ↦ elim (Bool-cases (i == j)) [
    | inl same ↦ ground (arith, e, same)
    | inr apart ↦
        let absent : Dict.get j d ≡ none = rw (apart) at e in
        rw (p)
          (ground (arith, get-insert k j v d absent, apart, eq_iff i k, eq_iff j k, eq_iff i j))
  ]
]

insert-IsUnique :
    (j v : String) (d : Dict String)
    → Dict.get j d ≡ none
    → IsUnique d
    → IsUnique (insert_pair (j, v) d)
unfolding insert_pair Dict.get
insert-IsUnique j v [] e u = (refl, tt)
insert-IsUnique j v ((i, w) ∷ d) e u = elim (Bool-cases (pair_leb (j, v) (i, w))) [
  | inl p ↦ rw (p) (e, u)
  | inr p ↦ elim (Bool-cases (i == j)) [
    | inl same ↦ ground (arith, e, same)
    | inr apart ↦
        let absent : Dict.get j d ≡ none = rw (apart) at e in
        rw (p) (
          ground (arith, get-insert i j v d absent, apart, eq_iff i j, eq_iff j i, u.0),
          insert-IsUnique j v d absent u.1,
        )
  ]
]

-- no name is empty
abbrev pub Named : Dict String → Type 0
Named d = All (λ p. is_empty p.0 ≡ false) d

insert-Named :
    (p : String × String) (d : Dict String)
    → is_empty p.0 ≡ false
    → Named d
    → Named (insert_pair p d)
unfolding insert_pair
insert-Named p [] e h = (e, tt)
insert-Named p (q ∷ d) e h = elim (Bool-cases (pair_leb p q)) [
  | inl t ↦ rw (t) (e, h)
  | inr t ↦ rw (t) (h.0, insert-Named p d e h.1)
]

sort-Named : (d : Dict String) → Named d → Named (sort_pairs d)
unfolding sort_pairs
sort-Named [] h = tt
sort-Named (p ∷ d) h = insert-Named p (sort_pairs d) h.0 (sort-Named d h.1)

-- sorting keeps every lookup
pub record IsSortOf (d sorted : Dict String) : Type 0 where
  pub unique : IsUnique sorted
  pub same : (k : String) → Dict.get k sorted ≡ Dict.get k d

pub sort-IsSortOf : (d : Dict String) → IsUnique d → IsSortOf d (sort_pairs d)
unfolding sort_pairs Dict.get
sort-IsSortOf [] u = record { unique = tt; same = λ k. refl }
sort-IsSortOf ((j, v) ∷ d) u =
    let h = sort-IsSortOf d u.1 in
    let absent = h.same j ∙ u.0 in
    record {
      unique = insert-IsUnique j v (sort_pairs d) absent h.unique;
      same = λ k. ground (arith, get-insert k j v (sort_pairs d) absent, h.same k);
    }

names_are_valid_lem : (d : Dict String) → IsUnique d → Named d → names_are_valid d ≡ true
unfolding names_are_valid
names_are_valid_lem [] u h = refl
names_are_valid_lem ((j, v) ∷ d) u h = ground (arith, u.0, h.0, names_are_valid_lem d u.1 h.1)

-- the mapping of a request whose values are all texts
unfoldable pub as_values : Dict String → Dict ParameterValue
as_values [] = []
as_values ((name, value) ∷ d) = (name, text value) ∷ as_values d

collect-as_values : (d : Dict String) → Named d → collect_pairs (as_values d) ≡ ok d
unfolding collect_pairs as_values
collect-as_values [] h = refl
collect-as_values ((j, v) ∷ d) h = rw (collect-as_values d h.1, h.0) refl

pub canonicalize-as_values :
    (d : Dict String) → Named d → canonicalize_parameters (some (as_values d)) ≡ ok (sort_pairs d)
unfolding canonicalize_parameters
canonicalize-as_values d h = rw (collect-as_values d h) refl

agrees :
    (resource declared : Option String)
    → contradicts resource declared ≡ false
    → resource_agrees declared (or_declared resource declared) ≡ true
agrees resource none h = refl
agrees none (some p) h = ground (arith, eq_refl p)
agrees (some r) (some p) h = ground arith

make_binding_lem :
    (tool_id tool_version : String) (resource : Option String) (c : Dict String)
    → is_empty tool_id ≡ false
    → is_empty tool_version ≡ false
    → IsUnique c
    → Named c
    → resource_agrees (Dict.get resource_parameter c) resource ≡ true
    → make_binding tool_id tool_version resource c
      ≡ ok (record {
        tool_id = tool_id;
        tool_version = tool_version;
        resource = resource;
        parameters = sort_pairs c;
      })
unfolding make_binding
make_binding_lem tool_id tool_version resource c id version u n a =
    rw (id, version, names_are_valid_lem c u n, (sort-IsSortOf c u).same resource_parameter, a) refl

-- An operation with non-empty identifiers, whose parameters are texts under non-empty names, each
-- given once, and whose explicit resource does not contradict the parameter "path", has a binding. The
-- binding has the tool and the version, reading any name in its parameters gives what the operation's
-- mapping gives, and its resource is the explicit one, or else the parameter "path".
pub binding_reads_back :
    (tool_id tool_version : String) (d : Dict String) (resource : Option String)
    → is_empty tool_id ≡ false
    → is_empty tool_version ≡ false
    → IsUnique d
    → Named d
    → contradicts resource (Dict.get resource_parameter d) ≡ false
    → (b : ExecutionBinding) × (from_operation tool_id tool_version (some (as_values d)) resource
        ≡ ok b)
      × (b.tool_id ≡ tool_id)
      × (b.tool_version ≡ tool_version)
      × ((k : String) → Dict.get k b.parameters ≡ Dict.get k d)
      × (b.resource ≡ or_declared resource (Dict.get resource_parameter d))
unfolding from_operation bind_canonical
binding_reads_back tool_id tool_version d resource id version u n consistent =
    let c = sort_pairs d in
    let h = sort-IsSortOf d u in
    let h1 = sort-IsSortOf c h.unique in
    let declared = h.same resource_parameter in
    let r = or_declared resource (Dict.get resource_parameter c) in
    let accepted : contradicts resource (Dict.get resource_parameter c) ≡ false =
      rw (declared) consistent in
    (
      record {
        tool_id = tool_id;
        tool_version = tool_version;
        resource = r;
        parameters = sort_pairs c;
      },
      rw
          (
            canonicalize-as_values d n,
            accepted,
            make_binding_lem tool_id tool_version r c id version h.unique (sort-Named d n)
                (agrees resource (Dict.get resource_parameter c) accepted),
          )
          refl,
      refl,
      refl,
      λ k. h1.same k ∙ h.same k,
      ap (or_declared resource) declared,
    )
