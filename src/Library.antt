-- ===== src/Library.antt =====
-- `loadLibrary` of src/Factory.cpp: an XML file is read into the registry, the aliases, the bindings and
-- the paths of the properties, in this order.
pub mod Laws
use xpcf.Base.{
  ℕ, suc, String, Bool, true, false, not, ◌&&◌, Option, none, some, List, [], ◌∷◌, if◌then◌else◌,
  string_keys, ◌==◌,
}
use xpcf.Exec.{
  Result, ok, err, Exec, rethrow, continue, process_xml_node, configuration, runtime_error,
}
use xpcf.Xml.{Xml}
use xpcf.Alias.{declare_aliases}
use xpcf.Registry.{Registry}
use xpcf.Registry.Nodes.{declare_module}
use xpcf.Property.{ErrorCode, success, fail}
use xpcf.Manager.Paths.{PropertyContext, declare_configuration, declare_properties}
use xpcf.Factory.{FactoryContext}
use xpcf.Factory.Bind.{autobind}
use xpcf.Factory.Nodes.{declare_factory}

-- The contexts of a factory and of its registry, alias manager and property manager; the aliases stand
-- in the registry. `next` is the address of the next ModuleMetadata.
pub record Library (Method : Type 0) : Type 0 where
  pub registry : Registry
  pub properties : PropertyContext
  pub bindings : FactoryContext Method
  pub next : ℕ

module _ {Method : Type 0} where
  -- The calls of the binder, newest first.
  unfoldable pub autobind_all : List (ℕ × ℕ) → FactoryContext Method → FactoryContext Method
  unfolding autobind
  autobind_all [] c = c
  autobind_all ((interface_uuid, component_uuid) ∷ calls) c =
      autobind interface_uuid component_uuid (autobind_all calls c)

  module _ (X : Xml) (name : X.Element → String) (path : String) where
    open X use {Element, attribute, children}

    -- The registry calls the binder while it reads a module, and does not look at the bindings.
    unfoldable pub load_module : Element → Exec (Library Method) (Unit {0})
    unfolding declare_module autobind_all
    load_module elt s =
        let (r, g) = declare_module X s.next elt (record s.registry { autobinds = [] }) in
        (
          r,
          record s {
            registry = g;
            bindings = autobind_all g.autobinds s.bindings;
            next = suc s.next;
          },
        )

    unfoldable pub load_aliases : Element → Exec (Library Method) (Unit {0})
    unfolding declare_aliases
    load_aliases elt s =
        let (r, a) = declare_aliases X elt s.registry.aliases in
        (r, record s { registry = record s.registry { aliases = a } })

    unfoldable pub load_factory : Element → Exec (Library Method) (Unit {0})
    unfolding declare_factory
    load_factory elt s =
        let (r, c) = declare_factory X s.registry.aliases elt s.bindings in
        (r, record s { bindings = c })

    unfoldable pub load_configuration : Element → Exec (Library Method) (Unit {0})
    unfolding declare_configuration
    load_configuration elt s =
        let (r, p) = declare_configuration X s.registry s.registry.aliases path elt s.properties in
        (r, record s { properties = p })

    unfoldable pub load_properties : Element → Exec (Library Method) (Unit {0})
    unfolding declare_properties
    load_properties elt s =
        let (r, p) = declare_properties X s.registry s.registry.aliases path elt s.properties in
        (r, record s { properties = p })

    -- `enableAutoAlias` with what the root says.
    abbrev pub with_auto_alias : Option String → Library Method → Library Method
    with_auto_alias value s = record s {
      registry = record s.registry {
        auto_alias = elim value [ none ↦ false | some v ↦ v == "true" ];
      };
    }

    -- The nodes of the root, kind by kind.
    unfoldable pub load_root : Element → Exec (Library Method) (Unit {0})
    unfolding load_module load_aliases load_factory load_configuration load_properties
    load_root elt s = continue (process_xml_node load_module (children elt "module") s) (λ _ s1.
        continue (process_xml_node load_aliases (children elt "aliases") s1) (λ _ s2.
          continue (process_xml_node load_factory (children elt "factory") s2) (λ _ s3.
            continue (process_xml_node load_configuration (children elt "configuration") s3)
              (λ _. process_xml_node load_properties (children elt "properties")))))

    -- The two `catch`.
    abbrev pub loaded_or : Result (Unit {0}) × Library Method → Result ErrorCode × Library Method
    loaded_or (ok _, s) = (ok success, s)
    loaded_or (err runtime_error, s) = (ok fail, s)
    loaded_or (err e, s) = rethrow (err e, s)

    -- `loadLibrary`, by whether the file exists, whether it is an .xml file, and the root that tinyxml2
    -- makes of it.
    unfoldable pub load_library : Bool → Bool → Option Element → Exec (Library Method) ErrorCode
    unfolding load_root
    load_library false is_xml root s = (ok fail, s)
    load_library true false root s = (ok fail, s)
    load_library true true none s = (err configuration, s)
    load_library true true (some elt) s =
        if not (name elt == "xpcf-registry") && not (name elt == "xpcf-configuration")
        then (err configuration, s)
        else loaded_or (load_root elt (with_auto_alias (attribute elt "autoAlias") s))
