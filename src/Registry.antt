-- ===== src/Registry.antt =====
-- app/registry/tool_registry.py: the registered versions of each tool family. Each method runs under the
-- lock and is one step. Of app/models/tool_descriptor.py, a descriptor has the metadata that the registry
-- reads and whether it was made from an instance or a factory; the tools themselves are not run here.
use enterprise_agent_securit.Prelude.{
  ℕ, String, Bool, true, false, ◌||◌, Option, none, some, List, [], ◌∷◌, Result, ok, err, is_some,
  if◌then◌else◌, ◌==◌,
}
use enterprise_agent_securit.Dict
use enterprise_agent_securit.Dict.{Dict}
use enterprise_agent_securit.Text.{is_blank, strip}
pub mod Resolution
pub mod Selection

pub data Handle : Type 0 where
  instance_handle factory_handle : Handle

pub record ToolDescriptor : Type 0 where
  pub tool_id : String
  pub name : String
  pub version : String
  pub handle : Handle
  pub implementation_id : Option String
  pub enabled : Bool

pub data RegistryError : Type 0 where
  duplicate_registration not_registered metadata_invalid version_mismatch : RegistryError
  ambiguous_version value_error : RegistryError

pub record ToolRegistry : Type 0 where
  pub descriptors : Dict (Dict ToolDescriptor)

-- whether `_validate_tool_metadata` raises
unfoldable pub metadata_is_invalid : ToolDescriptor → Bool
metadata_is_invalid d = is_blank d.tool_id || is_blank d.name

-- `self._descriptors.get(tool_id, {})`
abbrev pub versions_or_empty : Option (Dict ToolDescriptor) → Dict ToolDescriptor
versions_or_empty none = []
versions_or_empty (some versions) = versions

unfoldable pub versions_of : String → ToolRegistry → Dict ToolDescriptor
versions_of tool_id s = versions_or_empty (Dict.get tool_id s.descriptors)

-- the descriptor is stored under the family and its own version; a family that is new has no version
-- yet, so that none is refused
unfoldable pub add_descriptor :
    String → ToolDescriptor → ToolRegistry → Result RegistryError (Unit {0}) × ToolRegistry
unfolding versions_of
add_descriptor tool_id d s =
    if is_some (Dict.get d.version (versions_of tool_id s))
    then (err duplicate_registration, s)
    else (
      ok tt,
      record {
        descriptors = Dict.put tool_id (Dict.put d.version d (versions_of tool_id s)) s.descriptors;
      },
    )

-- the descriptor is the one made from the tool
unfoldable pub register :
    ToolDescriptor → ToolRegistry → Result RegistryError (Unit {0}) × ToolRegistry
unfolding metadata_is_invalid add_descriptor
register d s =
    if metadata_is_invalid d then (err metadata_invalid, s) else add_descriptor d.tool_id d s

-- `sampled` says that no metadata was given and the descriptor's is that of a sample of the factory
unfoldable pub register_factory :
    String → Bool → ToolDescriptor → ToolRegistry → Result RegistryError (Unit {0}) × ToolRegistry
unfolding metadata_is_invalid add_descriptor
register_factory tool_id sampled d s =
    if is_blank tool_id
    then (err value_error, s)
    else if (if sampled then metadata_is_invalid d else false)
    then (err metadata_invalid, s)
    else add_descriptor tool_id d s

unfoldable pub match_version : String → String → Bool
unfolding strip
match_version actual requested = strip actual == strip requested

-- the first registered version that matches
unfoldable pub find_version : String → Dict ToolDescriptor → Result RegistryError ToolDescriptor
unfolding match_version
find_version version [] = err version_mismatch
find_version version ((registered, d) ∷ versions) = elim (match_version registered version) [
  | true ↦ ok d
  | false ↦ find_version version versions
]

-- without a version, the family must hold one
unfoldable pub only_version : Dict ToolDescriptor → Result RegistryError ToolDescriptor
only_version [] = err not_registered
only_version ((registered, d) ∷ []) = ok d
only_version (first ∷ second ∷ versions) = err ambiguous_version

unfoldable pub resolve_in :
    Option String → Dict ToolDescriptor → Result RegistryError ToolDescriptor
unfolding find_version only_version
resolve_in version [] = err not_registered
resolve_in none (v ∷ versions) = only_version (v ∷ versions)
resolve_in (some version) (v ∷ versions) = find_version version (v ∷ versions)

unfoldable pub resolve : String → Option String → ToolRegistry → Result RegistryError ToolDescriptor
unfolding resolve_in versions_of
resolve tool_id version s = resolve_in version (versions_of tool_id s)

unfoldable pub exists_tool : String → ToolRegistry → Bool
unfolding versions_of
exists_tool tool_id s = elim (versions_of tool_id s) [ [] ↦ false | v ∷ versions ↦ true ]

-- the family without a version, or without itself where no version is left
unfoldable pub put_versions : String → Dict ToolDescriptor → ToolRegistry → ToolRegistry
put_versions tool_id [] s = record { descriptors = Dict.remove tool_id s.descriptors }
put_versions tool_id (v ∷ versions) s = record {
  descriptors = Dict.put tool_id (v ∷ versions) s.descriptors;
}

unfoldable pub unregister :
    String → Option String → ToolRegistry → Result RegistryError (Unit {0}) × ToolRegistry
unfolding versions_of put_versions exists_tool
unregister tool_id none s =
    if exists_tool tool_id s
    then (ok tt, record { descriptors = Dict.remove tool_id s.descriptors })
    else (err not_registered, s)
unregister tool_id (some version) s =
    if is_some (Dict.get version (versions_of tool_id s))
    then (ok tt, put_versions tool_id (Dict.remove version (versions_of tool_id s)) s)
    else (err not_registered, s)

unfoldable pub clear : ToolRegistry → ToolRegistry
clear s = record { descriptors = [] }
