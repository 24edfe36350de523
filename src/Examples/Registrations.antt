-- ===== src/Examples/Registrations.antt =====
-- app/registry/tool_registry.py and app/models/execution_binding.py: versions of a browser tool, and the
-- binding of a request for it.
use enterprise_agent_securit.Prelude.{
  String, ◌≡◌, ◌↔◌, refl, true, false, none, some, List, [], ◌∷◌, ok, eq_iff, ◌==◌, Bool-cases, inl,
  inr,
}
use mathlib.Core.Path.{subst}
use enterprise_agent_securit.Dict
use enterprise_agent_securit.Dict.{Dict}
use enterprise_agent_securit.Text.{strip, is_blank, is_space, lstrip, rstrip}
use enterprise_agent_securit.Registry.{
  ToolDescriptor, ToolRegistry, instance_handle, register, resolve, versions_of, clear,
  metadata_is_invalid,
}
use enterprise_agent_securit.Registry.Resolution.{
  Operation, register_tool, unregister_tool, run_all,
}
use enterprise_agent_securit.Registry.Selection.{resolve_by_version, registration_order_decides}
use enterprise_agent_securit.Authority.{ExecutionBinding}
use enterprise_agent_securit.Dict.Unique.{IsUnique}
use enterprise_agent_securit.Authority.Binding.{
  from_operation, or_declared, contradicts, resource_parameter,
}
use enterprise_agent_securit.Authority.Canonical.{binding_ignores_order}
use enterprise_agent_securit.Authority.RoundTrip.{as_values, binding_reads_back}

abbrev first : ToolDescriptor
first = record {
  tool_id = "browser";
  name = "Browser";
  version = "1.0";
  handle = instance_handle;
  implementation_id = none;
  enabled = true;
}

abbrev second : ToolDescriptor
second = record first { version = "2.0" }

abbrev spaced : ToolDescriptor
spaced = record first { version = "1.0 " }

abbrev unused : ToolRegistry
unused = record { descriptors = [] }

abbrev calls : List Operation
calls = register_tool first ∷ register_tool second ∷ unregister_tool "browser" (some "1.0") ∷ []

abbrev registered : ToolRegistry
registered = run_all calls (clear unused)

first_trimmed : strip first.version ≡ first.version
unfolding strip lstrip rstrip is_space
first_trimmed = refl

second_trimmed : strip second.version ≡ second.version
unfolding strip lstrip rstrip is_space
second_trimmed = refl

resolve_by_version_example : (resolve "browser" (some " 2.0") registered ≡ ok second) ↔ (
    (Dict.get (strip " 2.0") (versions_of "browser" registered) ≡ some second)
    × (second.version ≡ strip " 2.0"))
resolve_by_version_example =
    resolve_by_version calls unused "browser" " 2.0" second
      (first_trimmed, (second_trimmed, (tt, tt)))

first_is_valid : metadata_is_invalid first ≡ false
unfolding metadata_is_invalid is_blank is_space
first_is_valid = refl

spaced_is_valid : metadata_is_invalid spaced ≡ false
unfolding metadata_is_invalid is_blank is_space
spaced_is_valid = refl

spaced_trimmed : strip spaced.version ≡ strip "1.0"
unfolding strip lstrip rstrip is_space
spaced_trimmed = refl

registration_order_decides_example :
    ((register spaced (register first (clear unused)).1).0 ≡ ok tt)
    × ((register first (register spaced (clear unused)).1).0 ≡ ok tt)
    × (resolve "browser" (some "1.0") (register spaced (register first (clear unused)).1).1
        ≡ ok first)
    × (resolve "browser" (some "1.0") (register first (register spaced (clear unused)).1).1
        ≡ ok spaced)
registration_order_decides_example =
    registration_order_decides first spaced "1.0" unused first_is_valid spaced_is_valid refl refl
      refl spaced_trimmed

abbrev parameters : Dict String
parameters = ("url", "example.org") ∷ ("path", "/tmp/page") ∷ ("mode", "read") ∷ []

parameters-IsUnique : IsUnique parameters
unfolding Dict.get
parameters-IsUnique = (refl, (refl, (refl, tt)))

-- the same parameters in another order
abbrev reordered : Dict String
reordered = ("mode", "read") ∷ ("url", "example.org") ∷ ("path", "/tmp/page") ∷ []

reordered-IsUnique : IsUnique reordered
unfolding Dict.get
reordered-IsUnique = (refl, (refl, (refl, tt)))

same_lookups : (k : String) → Dict.get k parameters ≡ Dict.get k reordered
unfolding Dict.get
same_lookups k = elim (Bool-cases ("path" == k)) [
  | inl e ↦ subst (λ l. Dict.get l parameters ≡ Dict.get l reordered) ((eq_iff "path" k).0 e) refl
  | inr e ↦ elim (Bool-cases ("mode" == k)) [
    | inl e1 ↦
        subst (λ l. Dict.get l parameters ≡ Dict.get l reordered) ((eq_iff "mode" k).0 e1) refl
    | inr e1 ↦ rw (e, e1) refl
  ]
]

binding_ignores_order_example :
    from_operation "browser" "1.0" (some (as_values parameters)) none
    ≡ from_operation "browser" "1.0" (some (as_values reordered)) none
binding_ignores_order_example =
    binding_ignores_order "browser" "1.0" none parameters reordered parameters-IsUnique
      reordered-IsUnique (refl, (refl, (refl, tt))) (refl, (refl, (refl, tt))) same_lookups

no_contradiction : contradicts none (Dict.get resource_parameter parameters) ≡ false
no_contradiction = refl

binding_reads_back_example :
    (b : ExecutionBinding) × (from_operation "browser" "1.0" (some (as_values parameters)) none
      ≡ ok b)
    × (b.tool_id ≡ "browser")
    × (b.tool_version ≡ "1.0")
    × ((k : String) → Dict.get k b.parameters ≡ Dict.get k parameters)
    × (b.resource ≡ or_declared none (Dict.get resource_parameter parameters))
binding_reads_back_example =
    binding_reads_back "browser" "1.0" parameters none refl refl parameters-IsUnique
      (refl, (refl, (refl, tt))) no_contradiction
