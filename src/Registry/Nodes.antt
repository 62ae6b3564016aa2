-- ===== src/Registry/Nodes.antt =====
-- The XML nodes of src/Registry.cpp: `declareModule`, `declareComponent` and `declareInterfaceNode`.
pub mod Loops
pub mod Keeps
pub mod Known
pub mod Lists
pub mod Found
pub mod Again
use xpcf.Base.{ℕ, String, Option, none, some, if◌then◌else◌, nat_keys, [], List, ◌∷◌}
use xpcf.Map
use xpcf.Map.{map_contains}
use xpcf.Exec.{
  Result, ok, err, Exec, rethrow, continue, process_xml_node, logic_error, undefined, configuration,
}
use xpcf.Xml.{Xml}
use xpcf.Alias.{component_type, interface_type}
use xpcf.Registry.{
  ComponentMetadata, ModuleMetadata, Registry, add_component, add_module_metadata,
  add_interface_metadata, auto_alias_of, note_interface, map_component,
}

-- `moduleInfo->addComponent` through the pointer
unfoldable pub note_component : ℕ → ComponentMetadata → Registry → Registry
unfolding add_component
note_component address info r = elim (Map.lookup r.objects address) [
  | none ↦ r
  | some m ↦ record r { objects = Map.insert r.objects address (add_component info m) }
]

abbrev pub new_component : ℕ → String → String → ComponentMetadata
new_component u n d = record { uuid = u; name = n; description = d; interfaces = [] }

abbrev pub new_module : ℕ → ModuleMetadata
new_module u = record {
  uuid = u;
  component_uuids = [];
  components = [];
  module_component_map = Map.empty;
}

module _ (X : Xml) where
  open X use {Element, attribute, children, to_uuid}

  -- A missing attribute leaves the empty text.
  abbrev pub attribute_text : Element → String → String
  attribute_text elt name = elim (attribute elt name) [ none ↦ "" | some text ↦ text ]

  -- The uuid of a node; where it is malformed, the message takes the attribute again, which may be
  -- missing.
  abbrev pub uuid_of : Element → Result ℕ
  uuid_of elt = elim (to_uuid (attribute_text elt "uuid")) [
    | some uuid ↦ ok uuid
    | none ↦ elim (attribute elt "uuid") [ none ↦ err undefined | some _ ↦ err configuration ]
  ]

  -- `declareInterfaceNode` once the uuid is read, for a component of the module at an address.
  unfoldable pub declare_interface_of : ℕ → ℕ → Element → ℕ → Exec Registry (Unit {0})
  unfolding note_interface auto_alias_of add_interface_metadata
  declare_interface_of address component_uuid elt u r =
      let noted = note_interface address component_uuid u r in
      let bound : Registry = record noted { autobinds = (u, component_uuid) ∷ noted.autobinds } in
      if map_contains bound.interfaces_map u
      then (ok tt, bound)
      else elim (attribute elt "description") [
        | none ↦ (err logic_error, bound)
        | some description ↦ (
          ok tt,
          add_interface_metadata
              (record { uuid = u; name = attribute_text elt "name"; description = description })
              (auto_alias_of interface_type (attribute_text elt "name") u bound),
        )
      ]

  unfoldable pub declare_interface_node : ℕ → ℕ → Element → Exec Registry (Unit {0})
  unfolding declare_interface_of
  declare_interface_node address component_uuid elt r = rethrow (elim (uuid_of elt) [
    | err e ↦ (err e, r)
    | ok u ↦ declare_interface_of address component_uuid elt u r
  ])

  -- `declareComponent` for a uuid that has no module yet.
  unfoldable pub declare_new_component : ℕ → ℕ → Element → ℕ → Exec Registry (Unit {0})
  unfolding map_component auto_alias_of note_component declare_interface_node
  declare_new_component address module_uuid elt u r =
      let mapped = map_component u module_uuid r in
      elim (attribute elt "description") [
        | none ↦ (err logic_error, mapped)
        | some description ↦
            process_xml_node (declare_interface_node address u) (children elt "interface") (
              note_component address (new_component u (attribute_text elt "name") description)
                (auto_alias_of component_type (attribute_text elt "name") u mapped))
      ]

  unfoldable pub declare_component : ℕ → ℕ → Element → Exec Registry (Unit {0})
  unfolding declare_new_component
  declare_component address module_uuid elt r = rethrow (elim (uuid_of elt) [
    | err e ↦ (err e, r)
    | ok u ↦
        if map_contains r.component_module_uuid_map u
        then (ok tt, r)
        else declare_new_component address module_uuid elt u r
  ])

  -- `declareModule` once the uuid is read: the new ModuleMetadata, at an address, is kept if the module
  -- is not known, and the components are declared on it in any case.
  unfoldable pub declare_module_of : ℕ → Element → ℕ → Exec Registry (Unit {0})
  unfolding add_module_metadata declare_component
  declare_module_of address elt u r =
      process_xml_node (declare_component address u) (children elt "component") (
        add_module_metadata address (new_module u)
          (record r { objects = Map.insert r.objects address (new_module u) }))

  unfoldable pub declare_module : ℕ → Element → Exec Registry (Unit {0})
  unfolding declare_module_of
  declare_module address elt r =
      rethrow (elim (uuid_of elt) [ err e ↦ (err e, r) | ok u ↦ declare_module_of address elt u r ])
