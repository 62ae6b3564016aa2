-- ===== src/Registry.antt =====
-- src/Registry.cpp and src/ModuleMetadata.cpp: which module holds a component, and which interfaces
-- are known. A module's metadata is an object that maps and callers share, so it has an address.
pub mod Grows
pub mod Modules
pub mod Nodes
use xpcf.Base.{
  ℕ, String, Bool, true, false, not, ◌&&◌, List, [], ◌∷◌, ◌++◌, Option, none, some, if◌then◌else◌,
  nat_keys,
}
use xpcf.Map
use xpcf.Map.{Map, map_contains}
use xpcf.Exec.{
  Result, ok, err, check, Exec, or_throw, continue, lift, module_not_found, null_pointer,
}
use xpcf.Alias.{
  AliasContext, AliasType, interface_type, component_type, alias_exists, declare_alias,
}
use xpcf.Collection.{add, remove}

pub record InterfaceMetadata : Type 0 where
  pub uuid : ℕ
  pub name : String
  pub description : String

-- `ComponentMetadata`, which is an InterfaceMetadata with the interfaces of the component
pub record ComponentMetadata : Type 0 where
  pub uuid : ℕ
  pub name : String
  pub description : String
  pub interfaces : List ℕ

-- `ModuleMetadata`. The vector of pointers is given by the components' uuids, which differ.
pub record ModuleMetadata : Type 0 where
  pub uuid : ℕ
  pub component_uuids : List ℕ
  pub components : List ℕ
  pub module_component_map : Map ℕ ComponentMetadata

unfoldable pub add_component : ComponentMetadata → ModuleMetadata → ModuleMetadata
unfolding add
add_component info m = if map_contains m.module_component_map info.uuid then m else record m {
  component_uuids = add info.uuid m.component_uuids;
  module_component_map = Map.insert m.module_component_map info.uuid info;
  components = add info.uuid m.components;
}

-- The entry of the map stays.
unfoldable pub remove_component : ℕ → ModuleMetadata → ModuleMetadata
unfolding remove
remove_component component_uuid m =
    if map_contains m.module_component_map component_uuid
    then record m {
      component_uuids = (remove component_uuid m.component_uuids).1;
      components = (remove component_uuid m.components).1;
    }
    else m

unfoldable pub get_component_metadata : ℕ → ModuleMetadata → Option ComponentMetadata
get_component_metadata component_uuid m = Map.lookup m.module_component_map component_uuid

-- `ComponentMetadata::addInterface` on a component of the module
unfoldable pub add_interface : ℕ → ℕ → ModuleMetadata → ModuleMetadata
unfolding add
add_interface component_uuid interface_uuid m =
    elim (Map.lookup m.module_component_map component_uuid) [
      | none ↦ m
      | some info ↦ record m {
        module_component_map =
            Map.insert m.module_component_map component_uuid
              (record info { interfaces = add interface_uuid info.interfaces });
      }
    ]

-- `RegistryContext` with the alias manager, the calls of the binder, newest first, and the objects
-- that the pointers point to.
pub record Registry : Type 0 where
  pub modules_vector : List ℕ
  pub interfaces_vector : List InterfaceMetadata
  pub component_module_uuid_map : Map ℕ ℕ
  pub interfaces_map : Map ℕ InterfaceMetadata
  pub modules_map : Map ℕ ℕ
  pub auto_alias : Bool
  pub aliases : AliasContext
  pub autobinds : List (ℕ × ℕ)
  pub objects : Map ℕ ModuleMetadata

-- `RegistryContext::clear`
unfoldable pub clear : Registry → Registry
clear r = record r {
  modules_vector = [];
  interfaces_vector = [];
  component_module_uuid_map = Map.empty;
  interfaces_map = Map.empty;
  modules_map = Map.empty;
}

unfoldable pub get_module_uuid : ℕ → Registry → Result ℕ
get_module_uuid component_uuid r =
    or_throw (Map.lookup r.component_module_uuid_map component_uuid) module_not_found

-- The module's address.
unfoldable pub find_module_metadata : ℕ → Registry → Result ℕ
find_module_metadata module_uuid r =
    or_throw (Map.lookup r.modules_map module_uuid) module_not_found

-- `none` is a null pointer.
unfoldable pub find_component_metadata : ℕ → Registry → Result (Option ComponentMetadata)
unfolding get_module_uuid find_module_metadata get_component_metadata
find_component_metadata component_uuid r = check (get_module_uuid component_uuid r) (λ module_uuid.
    check (find_module_metadata module_uuid r) (λ address.
      check (or_throw (Map.lookup r.objects address) null_pointer)
        (λ object. ok (get_component_metadata component_uuid object))))

unfoldable pub find_interface_metadata : ℕ → Registry → Option InterfaceMetadata
find_interface_metadata interface_uuid r = Map.lookup r.interfaces_map interface_uuid

-- `addMetadata` of a module that is not null
unfoldable pub add_module_metadata : ℕ → ModuleMetadata → Registry → Registry
unfolding add
add_module_metadata address m r = if map_contains r.modules_map m.uuid then r else record r {
  modules_vector = add address r.modules_vector;
  modules_map = Map.insert r.modules_map m.uuid address;
}

unfoldable pub add_interface_metadata : InterfaceMetadata → Registry → Registry
unfolding add
add_interface_metadata info r = if map_contains r.interfaces_map info.uuid then r else record r {
  interfaces_vector = add info r.interfaces_vector;
  interfaces_map = Map.insert r.interfaces_map info.uuid info;
}

-- The alias of a name that has none, if they are made automatically.
unfoldable pub auto_alias_of : AliasType → String → ℕ → Registry → Registry
unfolding alias_exists declare_alias
auto_alias_of type name uuid r =
    if r.auto_alias && not (alias_exists type name r.aliases)
    then record r { aliases = (declare_alias type name uuid r.aliases).1 }
    else r

-- `componentInfo->addInterface` through the pointer
unfoldable pub note_interface : ℕ → ℕ → ℕ → Registry → Registry
unfolding add_interface
note_interface address component_uuid interface_uuid r = elim (Map.lookup r.objects address) [
  | none ↦ r
  | some m ↦ record r {
    objects = Map.insert r.objects address (add_interface component_uuid interface_uuid m);
  }
]

-- The first module of a component is kept.
unfoldable pub map_component : ℕ → ℕ → Registry → Registry
map_component component_uuid module_uuid r =
    if map_contains r.component_module_uuid_map component_uuid then r else record r {
      component_module_uuid_map = Map.insert r.component_module_uuid_map component_uuid module_uuid;
    }

unfoldable pub name_component : Option ComponentMetadata → ℕ → Registry → Registry
unfolding auto_alias_of
name_component none component_uuid r = r
name_component (some info) component_uuid r =
    auto_alias_of component_type info.name component_uuid r

-- What `createComponent` and the component's interfaces say; `err` where it throws.
module _ (introspect : ModuleMetadata → ℕ → Result (List InterfaceMetadata)) where
  -- One turn of the inner loop of `declareModuleMetadata`.
  pub declare_component_interface : ℕ → ℕ → InterfaceMetadata → Registry → Registry
  unfolding auto_alias_of add_interface_metadata note_interface
  declare_component_interface address component_uuid info r = add_interface_metadata info (
      note_interface address component_uuid info.uuid (
        auto_alias_of interface_type info.name info.uuid
          (record r { autobinds = (info.uuid, component_uuid) ∷ r.autobinds })))

  pub declare_component_interfaces : ℕ → ℕ → List InterfaceMetadata → Registry → Registry
  unfolding declare_component_interface
  declare_component_interfaces address component_uuid [] r = r
  declare_component_interfaces address component_uuid (info ∷ infos) r =
      declare_component_interfaces address component_uuid infos
        (declare_component_interface address component_uuid info r)

  -- One turn of the outer loop.
  pub declare_module_component : ℕ → ModuleMetadata → ℕ → Exec Registry (Unit {0})
  unfolding declare_component_interfaces map_component name_component
  declare_module_component address m component_uuid r =
      let named : Registry =
        name_component (Map.lookup m.module_component_map component_uuid) component_uuid
          (map_component component_uuid m.uuid r) in
      elim (introspect m component_uuid) [
        | err e ↦ (err e, named)
        | ok infos ↦ (ok tt, declare_component_interfaces address component_uuid infos named)
      ]

  pub declare_module_components : ℕ → ModuleMetadata → List ℕ → Exec Registry (Unit {0})
  unfolding declare_module_component
  declare_module_components address m [] r = (ok tt, r)
  declare_module_components address m (u ∷ us) r =
      continue (declare_module_component address m u r)
        (λ _. declare_module_components address m us)

  unfoldable pub declare_module_metadata : Option ℕ → Exec Registry (Unit {0})
  unfolding declare_module_components add_module_metadata
  declare_module_metadata none r = (err null_pointer, r)
  declare_module_metadata (some address) r = elim (Map.lookup r.objects address) [
    | none ↦ (err null_pointer, r)
    | some m ↦ declare_module_components address m m.components (add_module_metadata address m r)
  ]
