-- ===== src/Configurable.antt =====
-- src/ConfigurableBase.cpp: a component that has a map of properties and a property manager.
pub mod Restore
use xpcf.Base.{
  ℕ, String, Bool, true, false, not, Option, none, some, nat_eq, nat_keys, string_keys,
  if◌then◌else◌, List, [],
}
use xpcf.Map
use xpcf.Exec.{Result, ok, err, Exec, continue, undefined, logic_error, throw}
use xpcf.Alias.{AliasContext}
use xpcf.Property.{ErrorCode, success, error_invalid_argument, AccessSpecifier, Value, structure}
use xpcf.Property.Store.{Object, wrapper, Store}
use xpcf.Property.Wrapper.{Wrapper}
use xpcf.Property.Maps
use xpcf.Property.Maps.{add_property, at, wrap, put_node}
use xpcf.Manager.Platform.{Platform}
use xpcf.Manager.Configure
use xpcf.Manager.Configure.{if_success, unnamed, named}
use xpcf.Manager.Serialize.{serialize_file}

-- `m_propsMgr`: not injected, injected with its alias manager, or one that `serialize` made for itself.
pub data PropsManager : Type 0 where
  absent temporary : PropsManager
  injected : AliasContext → PropsManager

-- What the calls over <component> nodes are given, which do not use it.
abbrev no_aliases : AliasContext
no_aliases = record {
  component_resolver_map = Map.empty;
  interface_resolver_map = Map.empty;
  module_resolver_map = Map.empty;
}

module _ {F D : Type 0} where
  -- `declareProperty` and `declarePropertySequence` on a map, for the object that wraps the variable;
  -- `none` is a null pointer.
  unfoldable pub declare_property :
      ℕ → ℕ → Option String → (String → Object F D) → Exec (Store F D) ErrorCode
  unfolding wrap
  declare_property node new name make s = wrap node new name make s

  -- `declarePropertyNode`: a new map at an address, and the property for it.
  unfoldable pub declare_property_node :
      ℕ → ℕ → ℕ → Option String → AccessSpecifier → Exec (Store F D) ErrorCode
  unfolding declare_property Maps.empty
  declare_property_node root map new name iotype s =
      declare_property root new name
        (λ n. wrapper (record { name = n; access = iotype; value = structure (some map) }))
        (put_node map Maps.empty s)

  unfoldable pub get_property : ℕ → String → Store F D → Option ℕ
  unfolding at
  get_property root name s = at root name s

  unfoldable pub has_properties : ℕ → Store F D → Bool
  has_properties root s = elim (s.node root).collection [ [] ↦ false | _ ↦ true ]

  module _ (P : Platform F D) (uuid fuel root : ℕ) where
    open P use {xml}
    open xml use {Element, attribute}

    -- A manager that `serialize` made is taken away again, unless the call threw.
    abbrev pub left_behind : Result ErrorCode → PropsManager
    left_behind (ok code) = absent
    left_behind (err e) = temporary

    -- `serialize`, with what the file holds before and after it, and the manager.
    unfoldable pub serialize :
        Option Element → Store F D → PropsManager → Result ErrorCode × Option Element × PropsManager
    unfolding serialize_file
    serialize loaded s absent =
        let (r, file) = serialize_file P s fuel uuid root loaded in (r, file, left_behind r)
    serialize loaded s manager =
        let (r, file) = serialize_file P s fuel uuid root loaded in (r, file, manager)

    module _ (on_configured : Exec (Store F D) ErrorCode) where
      -- The manager that `serialize` made has no alias manager to ask for the name of a <configure>.
      abbrev without_aliases : Element → Exec (Store F D) ErrorCode
      without_aliases elt s = elim (attribute elt "component") [
        | none ↦ (err logic_error, s)
        | some _ ↦ (err undefined, s)
      ]

      abbrev manager_configure :
          PropsManager → (Element → Bool) → Option Element → Exec (Store F D) ErrorCode
      manager_configure absent predicate loaded s = (err undefined, s)
      manager_configure (injected aliases) predicate loaded s =
          Configure.configure P aliases predicate uuid fuel root loaded s
      manager_configure temporary predicate none s = (ok success, s)
      manager_configure temporary predicate (some elt) s =
          continue
            (Configure.in_first P no_aliases predicate uuid fuel root "component"
              (Configure.configure_component P no_aliases predicate uuid fuel root)
              (Configure.first (xml.children elt "configuration")) s)
            (λ c. if_success c (
              Configure.in_first P no_aliases predicate uuid fuel root "configure" without_aliases
                (Configure.first (xml.children elt "properties"))))

      -- `configure` without and with the name of an instance; a null pointer is refused.
      unfoldable pub configure : PropsManager → Option Element → Exec (Store F D) ErrorCode
      configure manager loaded s =
          continue (manager_configure manager (unnamed P) loaded s)
            (λ c. if_success c on_configured)

      unfoldable pub configure_instance :
          PropsManager → Option String → Option Element → Exec (Store F D) ErrorCode
      configure_instance absent xpath loaded s = (err undefined, s)
      configure_instance manager none loaded s = (ok error_invalid_argument, s)
      configure_instance manager (some name) loaded s =
          continue (manager_configure manager (named P name) loaded s)
            (λ c. if_success c on_configured)
