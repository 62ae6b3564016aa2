-- ===== src/Tests/Registry.antt =====
-- src/Registry.cpp: a module with two components.
use xpcf.Base.{
  ℕ, ◌≡◌, refl, List, [], ◌∷◌, some, true, false, nat_eq, nat_keys, string_keys, if◌then◌else◌,
}
use xpcf.Map
use xpcf.Map.{map_contains}
use xpcf.Exec.{Result, ok, err, module_error}
use xpcf.Collection.{contains}
use xpcf.Registry.{
  InterfaceMetadata, ComponentMetadata, ModuleMetadata, Registry, add_component, remove_component,
  get_component_metadata, declare_module_metadata,
}
use xpcf.Registry.Grows.{Knows, declare_module_metadata-Knows}
use xpcf.Registry.Modules.{remove_component_lem}
use xpcf.Tests.Nodes.{no_aliases}

abbrev component : ℕ → ComponentMetadata
component u = record { uuid = u; name = "C"; description = ""; interfaces = [] }

abbrev pub module_7 : ModuleMetadata
module_7 = record {
  uuid = 7;
  component_uuids = 1 ∷ 2 ∷ [];
  components = 1 ∷ 2 ∷ [];
  module_component_map = Map.insert (Map.insert Map.empty 1 (component 1)) 2 (component 2);
}

-- Component 3 cannot be created.
abbrev introspect : ModuleMetadata → ℕ → Result (List InterfaceMetadata)
introspect m u =
    if nat_eq u 3
    then err module_error
    else ok (record { uuid = 9; name = "I"; description = "" } ∷ [])

abbrev pub registry : Registry
registry = record {
  modules_vector = [];
  interfaces_vector = [];
  component_module_uuid_map = Map.insert Map.empty 2 6;
  interfaces_map = Map.empty;
  modules_map = Map.empty;
  auto_alias = true;
  aliases = no_aliases;
  autobinds = [];
  objects = Map.insert Map.empty 100 module_7;
}

declare_module_metadata-Knows_example :
    Knows registry (declare_module_metadata introspect (some 100) registry).1
declare_module_metadata-Knows_example = declare_module_metadata-Knows introspect (some 100) registry

has_1 : map_contains module_7.module_component_map 1 ≡ true
unfolding Map.lookup Map.insert Map.empty
has_1 = refl

remove_component_lem_example :
    (contains 1 (remove_component 1 module_7).component_uuids ≡ false)
    × (get_component_metadata 1 (remove_component 1 module_7) ≡ get_component_metadata 1 module_7)
    × (add_component (component 1) (remove_component 1 module_7) ≡ remove_component 1 module_7)
remove_component_lem_example = remove_component_lem (component 1) module_7 has_1
