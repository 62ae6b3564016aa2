-- ===== src/Component.antt =====
-- ComponentBase, src/ComponentBase.cpp: the interfaces that a component implements, what it wants to
-- be injected with, and its references. Pointers held as `utils::any` are of a type Any.
pub mod Calls
pub mod Declared
pub mod Queries
pub mod References
use xpcf.Base.{
  ℕ, ◌+◌, ◌-◌, ◌%◌, ◌^◌, String, Bool, true, false, List, [], ◌∷◌, Option, none, some,
  if◌then◌else◌, nat_eq, length, nat_keys, named_keys,
}
use xpcf.Map
use xpcf.Map.{Map, map_contains}
use xpcf.Exec.{
  Result, ok, err, Exec, or_throw, injectable_declaration, injection, interface_not_implemented,
}
use xpcf.Collection.{add}
use xpcf.Factory.Resolve.{Injectable}

-- XPCF_ObjectInterface with its InterfaceMetadata
pub record ObjectInterface (Any : Type 0) : Type 0 where
  pub name : String
  pub description : String
  pub component : Any

pub record ComponentBase (Any : Type 0) : Type 0 where
  pub interfaces_uuid : List ℕ
  pub interfaces : Map ℕ (ObjectInterface Any)
  pub injectables_collection : List Injectable
  pub injectables_map : Map ℕ Any
  pub multi_injectables_map : Map ℕ Any
  pub named_injectables_map : Map (ℕ × String) Any
  pub usage_ref_count : ℕ
  -- how often `unloadComponent` was called
  pub unloads : ℕ

abbrev pub injectable_of : ℕ → Option String → Bool → Bool → Injectable
injectable_of interface_uuid name multi optional = record {
  uuid = interface_uuid;
  name = name;
  optional = optional;
  multi = multi;
}

module _ {Any : Type 0} where
  -- The first declaration of an interface is kept.
  unfoldable pub declare_interface : ℕ → ObjectInterface Any → ComponentBase Any → ComponentBase Any
  unfolding add
  declare_interface interface_uuid object c =
      if map_contains c.interfaces interface_uuid then c else record c {
        interfaces = Map.insert c.interfaces interface_uuid object;
        interfaces_uuid = add interface_uuid c.interfaces_uuid;
      }

  -- The members before the constructor's body.
  abbrev pub blank : ComponentBase Any
  blank = record {
    interfaces_uuid = [];
    interfaces = Map.empty;
    injectables_collection = [];
    injectables_map = Map.empty;
    multi_injectables_map = Map.empty;
    named_injectables_map = Map.empty;
    usage_ref_count = 0;
    unloads = 0;
  }

  -- The constructor, with the uuids of IComponentIntrospect and IInjectable.
  unfoldable pub construct : ℕ → ObjectInterface Any → ℕ → ObjectInterface Any → ComponentBase Any
  unfolding declare_interface
  construct introspect_uuid introspect injectable_uuid injectable =
      declare_interface injectable_uuid injectable
        (declare_interface introspect_uuid introspect blank)

  unfoldable pub query_interface : ℕ → ComponentBase Any → Result Any
  query_interface interface_uuid c = elim (Map.lookup c.interfaces interface_uuid) [
    | none ↦ err interface_not_implemented
    | some object ↦ ok object.component
  ]

  unfoldable pub implements : ℕ → ComponentBase Any → Bool
  implements interface_uuid c = map_contains c.interfaces interface_uuid

  unfoldable pub get_metadata : ℕ → ComponentBase Any → Result (ObjectInterface Any)
  get_metadata interface_uuid c =
      or_throw (Map.lookup c.interfaces interface_uuid) interface_not_implemented

  -- `getNbInterfaces`, the 32 bits of a size
  unfoldable pub get_nb_interfaces : ComponentBase Any → ℕ
  get_nb_interfaces c = length c.interfaces_uuid % 2 ^ 32

  unfoldable pub declare_injectable : ℕ → Any → Bool → Exec (ComponentBase Any) (Unit {0})
  unfolding add
  declare_injectable interface_uuid injectable optional c =
      if map_contains c.injectables_map interface_uuid then (err injectable_declaration, c) else (
        ok tt,
        record c {
          injectables_map = Map.insert c.injectables_map interface_uuid injectable;
          injectables_collection =
              add (injectable_of interface_uuid none false optional) c.injectables_collection;
        },
      )

  unfoldable pub declare_named_injectable :
      ℕ → Any → String → Bool → Exec (ComponentBase Any) (Unit {0})
  unfolding add
  declare_named_injectable interface_uuid injectable name optional c =
      if map_contains c.named_injectables_map (interface_uuid, name)
      then (err injectable_declaration, c)
      else (
        ok tt,
        record c {
          named_injectables_map =
              Map.insert c.named_injectables_map (interface_uuid, name) injectable;
          injectables_collection =
              add (injectable_of interface_uuid (some name) false optional)
                c.injectables_collection;
        },
      )

  unfoldable pub declare_multi_injectable : ℕ → Any → Bool → Exec (ComponentBase Any) (Unit {0})
  unfolding add
  declare_multi_injectable interface_uuid injectable optional c =
      if map_contains c.multi_injectables_map interface_uuid
      then (err injectable_declaration, c)
      else (
        ok tt,
        record c {
          multi_injectables_map = Map.insert c.multi_injectables_map interface_uuid injectable;
          injectables_collection =
              add (injectable_of interface_uuid none true optional) c.injectables_collection;
        },
      )

  unfoldable pub retrieve_injectable : ℕ → ComponentBase Any → Result Any
  retrieve_injectable interface_uuid c =
      or_throw (Map.lookup c.injectables_map interface_uuid) injection

  unfoldable pub retrieve_named_injectable : ℕ → String → ComponentBase Any → Result Any
  retrieve_named_injectable interface_uuid name c =
      or_throw (Map.lookup c.named_injectables_map (interface_uuid, name)) injection

  unfoldable pub retrieve_multi_injectable : ℕ → ComponentBase Any → Result Any
  retrieve_multi_injectable interface_uuid c =
      or_throw (Map.lookup c.multi_injectables_map interface_uuid) injection

  unfoldable pub inject_exists : ℕ → ComponentBase Any → Bool
  inject_exists interface_uuid c = map_contains c.injectables_map interface_uuid

  unfoldable pub named_inject_exists : ℕ → String → ComponentBase Any → Bool
  named_inject_exists interface_uuid name c =
      map_contains c.named_injectables_map (interface_uuid, name)

  -- The count is one of 32 bits.
  unfoldable pub add_component_ref : ComponentBase Any → ComponentBase Any
  add_component_ref c = record c { usage_ref_count = (c.usage_ref_count + 1) % 2 ^ 32 }

  unfoldable pub release_component_ref : ComponentBase Any → ComponentBase Any
  release_component_ref c =
      let count = (c.usage_ref_count + 2 ^ 32 - 1) % 2 ^ 32 in
      record c {
        usage_ref_count = count;
        unloads = if nat_eq count 0 then c.unloads + 1 else c.unloads;
      }
