-- ===== src/Registry/Selection.antt =====
-- app/registry/tool_registry.py: which registered version a request is resolved to.
use enterprise_agent_securit.Prelude.{
  String, ◌≡◌, ◌↔◌, refl, sym, ◌∙◌, ap, false, Option, none, some, List, [], ◌∷◌, Result, ok, err,
  arith, eq_iff, eq_refl, ◌==◌, All, Bool-cases, inl, inr,
}
use mathlib.Core.Path.{subst}
use mathlib.Core.Option.{some-injective}
use enterprise_agent_securit.Dict
use enterprise_agent_securit.Dict.{Dict, get-put, get-remove, get-empty}
use enterprise_agent_securit.Text.{strip}
use enterprise_agent_securit.Registry.{
  ToolDescriptor, ToolRegistry, RegistryError, version_mismatch, versions_of, add_descriptor,
  register, metadata_is_invalid, match_version, find_version, resolve_in, resolve, clear,
}
use enterprise_agent_securit.Registry.Resolution.{
  Operation, run_all, IsTrimmed, IsKeyed, run_all-Families, clear-Families,
}

-- what a lookup of the version gives
abbrev found : Option ToolDescriptor → Result RegistryError ToolDescriptor
found none = err version_mismatch
found (some d) = ok d

find_version_lem :
    (version : String) (vs : Dict ToolDescriptor)
    → IsKeyed vs
    → find_version version vs ≡ found (Dict.get (strip version) vs)
unfolding find_version match_version Dict.get
find_version_lem version [] h = refl
find_version_lem version ((k, d) ∷ vs) h = elim (Bool-cases (k == strip version)) [
  | inl e ↦ rw (find_version, match_version, h.0.0, e) refl
  | inr e ↦ rw (find_version, match_version, h.0.0, e) (find_version_lem version vs h.1)
]

-- a stored descriptor has the version it is stored under
get-version :
    (k : String) (d : ToolDescriptor) (vs : Dict ToolDescriptor)
    → IsKeyed vs
    → Dict.get k vs ≡ some d
    → d.version ≡ k
unfolding Dict.get
get-version k d [] h e = ground (arith, e)
get-version k d ((j, x) ∷ vs) h e = elim (Bool-cases (j == k)) [
  | inl same ↦
      let e1 : some x ≡ some d = rw (same) at e in
      ap (λ z. z.version) (sym (some-injective x d e1)) ∙ h.0.1 ∙ (eq_iff j k).0 same
  | inr apart ↦ let e1 : Dict.get k vs ≡ some d = rw (apart) at e in get-version k d vs h.1 e1
]

answered : Result RegistryError ToolDescriptor → Option ToolDescriptor
answered (ok d) = some d
answered (err e) = none

found_ok : (o : Option ToolDescriptor) (d : ToolDescriptor) → found o ≡ ok d → o ≡ some d
unfolding answered
found_ok none d e = ap answered e
found_ok (some x) d e = ap answered e

resolve_in_lem :
    (version : String) (vs : Dict ToolDescriptor) (d : ToolDescriptor)
    → IsKeyed vs
    → (resolve_in (some version) vs ≡ ok d) ↔ (Dict.get (strip version) vs ≡ some d)
unfolding resolve_in Dict.get
resolve_in_lem version [] d h = (ground arith, ground arith)
resolve_in_lem version (v ∷ vs) d h =
    let e = find_version_lem version (v ∷ vs) h in
    (λ r. found_ok (Dict.get (strip version) (v ∷ vs)) d (sym e ∙ r), λ g. e ∙ ap found g)

-- Registered versions that have no white space around them are told apart: after any calls on a new
-- registry that register only such versions, a request for a version is resolved to a descriptor
-- exactly when the family holds that descriptor under the trimmed version, and then the descriptor
-- has the trimmed version.
pub resolve_by_version :
    (ops : List Operation) (s : ToolRegistry) (t version : String) (d : ToolDescriptor)
    → All IsTrimmed ops
    → ((resolve t (some version) (run_all ops (clear s)) ≡ ok d) ↔ (
        (Dict.get (strip version) (versions_of t (run_all ops (clear s))) ≡ some d)
        × (d.version ≡ strip version)))
unfolding resolve versions_of
resolve_by_version ops s t version d trimmed =
    let h = run_all-Families ops (clear s) trimmed (clear-Families s) t in
    let r = resolve_in_lem version (versions_of t (run_all ops (clear s))) d h in
    (
      λ e. (r.0 e, get-version (strip version) d (versions_of t (run_all ops (clear s))) h (r.0 e)),
      λ g. r.1 g.0,
    )

first_wins :
    (a b : ToolDescriptor) (version : String) (s : ToolRegistry)
    → metadata_is_invalid a ≡ false
    → metadata_is_invalid b ≡ false
    → b.tool_id ≡ a.tool_id
    → (a.version == b.version) ≡ false
    → strip a.version ≡ strip version
    → let r = register b (register a (clear s)).1 in
      (r.0 ≡ ok tt) × (resolve a.tool_id (some version) r.1 ≡ ok a)
unfolding register add_descriptor versions_of clear Dict.get Dict.put resolve resolve_in
    find_version match_version
first_wins a b version s va vb tb apart sa =
    rw
      (
        va,
        vb,
        tb,
        eq_refl a.tool_id,
        apart,
        eq_refl a.tool_id,
        resolve_in,
        find_version,
        match_version,
        sa,
        eq_refl (strip version),
      )
      (refl, refl)

-- Otherwise the order of the registrations decides: of two valid descriptors of a family whose versions
-- differ only in white space, both are registered in a new registry, and a request for such a version
-- is resolved to the one that was registered first.
pub registration_order_decides :
    (a b : ToolDescriptor) (version : String) (s : ToolRegistry)
    → metadata_is_invalid a ≡ false
    → metadata_is_invalid b ≡ false
    → a.tool_id ≡ b.tool_id
    → (a.version == b.version) ≡ false
    → strip a.version ≡ strip version
    → strip b.version ≡ strip version
    → let ab = (register b (register a (clear s)).1) in
      let ba = (register a (register b (clear s)).1) in
      (ab.0 ≡ ok tt)
      × (ba.0 ≡ ok tt)
      × (resolve a.tool_id (some version) ab.1 ≡ ok a)
      × (resolve a.tool_id (some version) ba.1 ≡ ok b)
registration_order_decides a b version s va vb same apart sa sb =
    let apart' : (b.version == a.version) ≡ false =
      ground (arith, eq_iff a.version b.version, eq_iff b.version a.version, apart) in
    let ab = first_wins a b version s va vb (sym same) apart sa in
    let ba = first_wins b a version s vb va same apart' sb in
    (
      ab.0,
      ba.0,
      ab.1,
      subst (λ t. resolve t (some version) (register a (register b (clear s)).1).1 ≡ ok b)
          (sym same) ba.1,
    )
