-- ===== src/Authority/Binding.antt =====
-- app/models/execution_binding.py: the canonical description of an operation. A mapping of parameters
-- is a dict whose names are texts; a value that is not a text is one constructor. Texts are ordered by
-- their characters' numbers, as in Python.
use Prim.Native.Nat.{Ordering}
use Prim.Native.String
use enterprise_agent_securit.Prelude.{
  String, Bool, true, false, not, ◌&&◌, ◌||◌, Option, none, some, [], ◌∷◌, Result, ok, err, is_some,
  if◌then◌else◌, ◌==◌, opt_eq,
}
use enterprise_agent_securit.Dict
use enterprise_agent_securit.Dict.{Dict}
use enterprise_agent_securit.Text.{is_empty}
use enterprise_agent_securit.Authority.{ExecutionBinding}

-- `ExecutionBindingValidationError`
pub data BindingError : Type 0 where
  validation_error : BindingError

pub data ParameterValue : Type 0 where
  text : String → ParameterValue
  other : ParameterValue

-- `a <= b` on pairs of texts
unfoldable pub pair_leb : String × String → String × String → Bool
pair_leb (a, b) (c, d) = elim (String.compare a c) [
  | Ordering.lt ↦ true
  | Ordering.gt ↦ false
  | Ordering.eq ↦ (elim (String.compare b d) [ Ordering.gt ↦ false | _ ↦ true ])
]

unfoldable pub insert_pair : String × String → Dict String → Dict String
unfolding pair_leb
insert_pair p [] = p ∷ []
insert_pair p (q ∷ qs) =
    let rest = insert_pair p qs in if pair_leb p q then p ∷ q ∷ qs else q ∷ rest

-- `sorted(pairs)`
unfoldable pub sort_pairs : Dict String → Dict String
unfolding insert_pair
sort_pairs [] = []
sort_pairs (p ∷ ps) = insert_pair p (sort_pairs ps)

abbrev pub cons_ok :
    String × String → Result BindingError (Dict String) → Result BindingError (Dict String)
cons_ok p (ok ps) = ok (p ∷ ps)
cons_ok p (err e) = err e

-- the loop that collects the pairs
unfoldable pub collect_pairs : Dict ParameterValue → Result BindingError (Dict String)
collect_pairs [] = ok []
collect_pairs ((name, other) ∷ ps) = err validation_error
collect_pairs ((name, text value) ∷ ps) =
    let rest = collect_pairs ps in
    if is_empty name then err validation_error else cons_ok (name, value) rest

abbrev pub sorted_ok : Result BindingError (Dict String) → Result BindingError (Dict String)
unfolding sort_pairs
sorted_ok (ok ps) = ok (sort_pairs ps)
sorted_ok (err e) = err e

unfoldable pub canonicalize_parameters :
    Option (Dict ParameterValue) → Result BindingError (Dict String)
unfolding collect_pairs sort_pairs
canonicalize_parameters none = ok []
canonicalize_parameters (some parameters) = sorted_ok (collect_pairs parameters)

abbrev pub resource_parameter : String
resource_parameter = "path"

-- `not any(not name for name in names)` and `len(names) == len(set(names))`
unfoldable pub names_are_valid : Dict String → Bool
names_are_valid [] = true
names_are_valid ((name, value) ∷ ps) =
    let rest = names_are_valid ps in not (is_empty name) && not (is_some (Dict.get name ps)) && rest

-- a declared resource is the one of the binding
abbrev pub resource_agrees : Option String → Option String → Bool
resource_agrees none resource = true
resource_agrees (some declared) resource = opt_eq resource (some declared)

-- the constructor with its validators
unfoldable pub make_binding :
    String → String → Option String → Dict String → Result BindingError ExecutionBinding
unfolding names_are_valid sort_pairs
make_binding tool_id tool_version resource parameters =
    if is_empty tool_id || is_empty tool_version
    then err validation_error
    else if not (names_are_valid parameters)
    then err validation_error
    else if not (resource_agrees (Dict.get resource_parameter (sort_pairs parameters)) resource)
    then err validation_error
    else ok (record {
      tool_id = tool_id;
      tool_version = tool_version;
      resource = resource;
      parameters = sort_pairs parameters;
    })

-- `resource is not None and declared is not None and resource != declared`
abbrev pub contradicts : Option String → Option String → Bool
contradicts (some resource) (some declared) = not (resource == declared)
contradicts _ _ = false

-- `resource if resource is not None else declared`
abbrev pub or_declared : Option String → Option String → Option String
or_declared (some resource) declared = some resource
or_declared none declared = declared

-- after the parameters were canonicalized
unfoldable pub bind_canonical :
    String
    → String
    → Option String
    → Result BindingError (Dict String)
    → Result BindingError ExecutionBinding
unfolding make_binding
bind_canonical tool_id tool_version resource (err e) = err e
bind_canonical tool_id tool_version resource (ok canonical) =
    let declared = Dict.get resource_parameter canonical in
    if contradicts resource declared
    then err validation_error
    else make_binding tool_id tool_version (or_declared resource declared) canonical

unfoldable pub from_operation :
    String
    → String
    → Option (Dict ParameterValue)
    → Option String
    → Result BindingError ExecutionBinding
unfolding canonicalize_parameters bind_canonical
from_operation tool_id tool_version parameters resource =
    bind_canonical tool_id tool_version resource (canonicalize_parameters parameters)
