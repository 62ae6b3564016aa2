-- ===== src/Manager/Paths.antt =====
-- Which file configures a component: `declareConfiguration`, `declareProperties` and `getConfigPath` of
-- src/PropertyManager.cpp. A path is its text.
pub mod Steps
pub mod Laws
use xpcf.Base.{
  ℕ, String, Bool, true, false, Option, none, some, List, [], ◌∷◌, if◌then◌else◌, string_keys,
  nat_keys, ◌==◌,
}
use xpcf.Map
use xpcf.Map.{Map}
use xpcf.Exec.{
  Result, ok, err, Exec, continue, rethrow, configuration, undefined, or_throw, process_xml_node,
}
use xpcf.Xml.{Xml}
use xpcf.Alias.{AliasContext, component_type, alias_exists, resolve_component_alias}
use xpcf.Registry.{Registry, get_module_uuid}

-- `PropertyContext`
pub record PropertyContext : Type 0 where
  pub module_config_map : Map ℕ String
  pub component_config_map : Map ℕ String

unfoldable pub clear : PropertyContext → PropertyContext
clear c = record { module_config_map = Map.empty; component_config_map = Map.empty }

abbrev pub own : ℕ → String → PropertyContext → PropertyContext
own component path c = record c {
  component_config_map = Map.insert c.component_config_map component path;
}

-- What `declareComponent` and `declareConfigure` do once the component is known, by its module and the
-- module's path. The first file that configures a component of a module is the module's.
unfoldable pub declare_in_module :
    ℕ → Option String → String → ℕ → PropertyContext → PropertyContext
declare_in_module m none path component c = record c {
  module_config_map = Map.insert c.module_config_map m path;
}
declare_in_module m (some old) path component c = if old == path then c else own component path c

-- `catch (const ModuleNotFoundException &)`, the only exception of `getModuleUUID`
unfoldable pub declare_found : Result ℕ → String → ℕ → PropertyContext → PropertyContext
unfolding declare_in_module
declare_found (err _) path component c = own component path c
declare_found (ok m) path component c =
    declare_in_module m (Map.lookup c.module_config_map m) path component c

unfoldable pub declare_path : Registry → String → ℕ → PropertyContext → PropertyContext
unfolding declare_found
declare_path r path component c = declare_found (get_module_uuid component r) path component c

-- `getConfigPath`; an empty path where there is none
unfoldable pub get_config_path : Registry → ℕ → PropertyContext → String
get_config_path r component c = elim (Map.lookup c.component_config_map component) [
  | some path ↦ path
  | none ↦ elim (get_module_uuid component r) [
    | err _ ↦ ""
    | ok m ↦ elim (Map.lookup c.module_config_map m) [ none ↦ "" | some path ↦ path ]
  ]
]

module _ (X : Xml) (r : Registry) (aliases : AliasContext) (path : String) where
  open X use {Element, attribute, children, to_uuid}

  -- `declareComponent`; a missing attribute leaves the empty text.
  unfoldable pub declare_component : Element → Exec PropertyContext (Unit {0})
  declare_component elt c = elim (attribute elt "uuid") [
    | some text ↦ elim (to_uuid text) [
      | some uuid ↦ (ok tt, declare_path r path uuid c)
      | none ↦ (err configuration, c)
    ]
    | none ↦ elim (to_uuid "") [
      | some uuid ↦ (ok tt, declare_path r path uuid c)
      -- `what.append(xmlElt->Attribute("uuid"))`
      | none ↦ (err undefined, c)
    ]
  ]

  abbrev pub or_empty_text : Option String → String
  or_empty_text none = ""
  or_empty_text (some text) = text

  abbrev pub component_of : String → Result ℕ
  component_of text =
      if alias_exists component_type text aliases
      then resolve_component_alias text aliases
      else or_throw (to_uuid text) configuration

  -- `declareConfigure`
  unfoldable pub declare_configure : Element → Exec PropertyContext (Unit {0})
  declare_configure elt c = elim (component_of (or_empty_text (attribute elt "component"))) [
    | ok uuid ↦ (ok tt, declare_path r path uuid c)
    | err e ↦ rethrow (err e, c)
  ]

  unfoldable pub declare_configuration : Element → Exec PropertyContext (Unit {0})
  unfolding declare_component
  declare_configuration elt c =
      rethrow (process_xml_node declare_component (children elt "component") c)

  unfoldable pub declare_properties : Element → Exec PropertyContext (Unit {0})
  unfolding declare_configure
  declare_properties elt c =
      rethrow (process_xml_node declare_configure (children elt "configure") c)
