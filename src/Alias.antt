-- ===== src/Alias.antt =====
-- src/AliasManager.cpp and interfaces/private/xpcf/AliasManager.h: names for interfaces, components
-- and modules. `declare_alias` keeps the first uuid of a name, the nodes of a configuration file
-- replace it. Log lines and messages are left out.
pub mod Laws
pub mod Nodes
use xpcf.Base.{ℕ, String, Bool, true, false, Option, none, some, if◌then◌else◌, string_keys}
use xpcf.Map
use xpcf.Map.{Map, map_contains}
use xpcf.Exec.{
  Result, ok, err, Error, exception, configuration, Exec, or_throw, lift, rethrow, ◌>>=◌,
  process_xml_node,
}
use xpcf.Xml.{Xml}

pub data AliasType : Type 0 where
  interface_type component_type module_type : AliasType

pub record AliasContext : Type 0 where
  pub component_resolver_map : Map String ℕ
  pub interface_resolver_map : Map String ℕ
  pub module_resolver_map : Map String ℕ

-- `AliasContext::clear`, which the manager's `clear` calls
unfoldable pub clear : AliasContext → AliasContext
clear c = record {
  component_resolver_map = Map.empty;
  interface_resolver_map = Map.empty;
  module_resolver_map = Map.empty;
}

-- The map that a type of alias is kept in.
abbrev pub resolver_map : AliasType → AliasContext → Map String ℕ
resolver_map interface_type c = c.interface_resolver_map
resolver_map component_type c = c.component_resolver_map
resolver_map module_type c = c.module_resolver_map

-- the free function `addAlias`
add_alias : Map String ℕ → String → ℕ → Bool → Result (Map String ℕ)
add_alias element_map name uuid force_replace =
    if force_replace
    then ok (Map.insert element_map name uuid)
    else if map_contains element_map name
    then err exception
    else ok (Map.insert element_map name uuid)

-- The three functions of `m_addAliasFunction`.
add_alias_function : AliasType → String → ℕ → Bool → Exec AliasContext (Unit {0})
unfolding add_alias
add_alias_function interface_type name uuid force c =
    elim (add_alias c.interface_resolver_map name uuid force) [
      | ok m ↦ (ok tt, record c { interface_resolver_map = m })
      | err e ↦ (err e, c)
    ]
add_alias_function component_type name uuid force c =
    elim (add_alias c.component_resolver_map name uuid force) [
      | ok m ↦ (ok tt, record c { component_resolver_map = m })
      | err e ↦ (err e, c)
    ]
add_alias_function module_type name uuid force c =
    elim (add_alias c.module_resolver_map name uuid force) [
      | ok m ↦ (ok tt, record c { module_resolver_map = m })
      | err e ↦ (err e, c)
    ]

unfoldable pub declare_alias : AliasType → String → ℕ → Exec AliasContext (Unit {0})
unfolding add_alias_function
declare_alias type name uuid = add_alias_function type name uuid false

unfoldable pub declare_explicit_alias : AliasType → String → ℕ → Exec AliasContext (Unit {0})
unfolding add_alias_function
declare_explicit_alias type name uuid = add_alias_function type name uuid true

unfoldable pub alias_exists : AliasType → String → AliasContext → Bool
alias_exists interface_type name c = map_contains c.interface_resolver_map name
alias_exists component_type name c = map_contains c.component_resolver_map name
alias_exists module_type name c = map_contains c.module_resolver_map name

-- `resolveAlias`: an unknown name throws.
resolve_alias : String → Map String ℕ → Result ℕ
resolve_alias name element_map = or_throw (Map.lookup element_map name) exception

unfoldable pub resolve_component_alias : String → AliasContext → Result ℕ
unfolding resolve_alias
resolve_component_alias name c = resolve_alias name c.component_resolver_map

unfoldable pub resolve_interface_alias : String → AliasContext → Result ℕ
unfolding resolve_alias
resolve_interface_alias name c = resolve_alias name c.interface_resolver_map

unfoldable pub resolve_module_alias : String → AliasContext → Result ℕ
unfolding resolve_alias
resolve_module_alias name c = resolve_alias name c.module_resolver_map

-- `aliasTypeConvertMap`
alias_type_convert : Map String AliasType
alias_type_convert =
    Map.insert
      (Map.insert (Map.insert Map.empty "interface" interface_type) "component" component_type)
      "module" module_type

module _ (X : Xml) where
  open X use {Element, attribute, children, to_uuid}

  -- The body of the `try` of `declareAliasNode`.
  declare_alias_body : Option String → Option String → Option String → Exec AliasContext (Unit {0})
  declare_alias_body (some name) (some type_str) (some uuid_str) = do
    type ← lift (or_throw (Map.lookup alias_type_convert type_str) exception)
    uuid ← lift (or_throw (to_uuid uuid_str) configuration)
    declare_explicit_alias type name uuid
  declare_alias_body _ _ _ = lift (err exception)

  declare_alias_node : Element → Exec AliasContext (Unit {0})
  unfolding declare_alias_body
  declare_alias_node elt c =
      rethrow
        (declare_alias_body (attribute elt "name") (attribute elt "type") (attribute elt "uuid") c)

  unfoldable pub declare_aliases : Element → Exec AliasContext (Unit {0})
  unfolding declare_alias_node alias_type_convert
  declare_aliases elt c = rethrow (process_xml_node declare_alias_node (children elt "alias") c)
