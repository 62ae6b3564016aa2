-- ===== src/Library/Laws.antt =====
-- What `loadLibrary` of src/Factory.cpp keeps, and how it fails.
use xpcf.Base.{
  String, Bool, true, false, not, ◌&&◌, ◌≡◌, refl, Option, none, some, string_keys, ◌==◌,
  Bool-cases, inl, inr, List, [],
}
use xpcf.Exec.{Result, ok, err, Exec, continue, process_xml_node, runtime_error}
use xpcf.Xml.{Xml}
use xpcf.Registry.{Registry}
use xpcf.Registry.Grows.{Knows, Knows-refl, Knows-trans}
use xpcf.Registry.Nodes.Known.{declare_module-Knows, Knows-other}
use xpcf.Registry.Nodes.Loops.{process-keeps}
use xpcf.Manager.Errors.{LeavesResult, as_configuration-Leaves}
use xpcf.Library.{
  Library, load_module, load_aliases, load_factory, load_configuration, load_properties,
  with_auto_alias, load_root, loaded_or, load_library,
}

module _ {Method : Type 0} where
  record KnowsLibrary (s t : Library Method) : Type 0 where
    knows : Knows s.registry t.registry

  same : (s : Library Method) → KnowsLibrary s s
  same s = record { knows = Knows-refl s.registry }

  then_ : (s t u : Library Method) → KnowsLibrary s t → KnowsLibrary t u → KnowsLibrary s u
  then_ s t u p q = record { knows = Knows-trans p.knows q.knows }

  -- A step after a step.
  continue-keeps :
      {A B : Type 0} (s : Library Method) (p : Result A × Library Method)
      (f : A → Exec (Library Method) B)
      → KnowsLibrary s p.1
      → ((a : A) (t : Library Method) → KnowsLibrary t (f a t).1)
      → KnowsLibrary s (continue p f).1
  continue-keeps s (ok a, t) f h k = then_ s t (f a t).1 h (k a t)
  continue-keeps s (err e, t) f h k = h

  module _ (X : Xml) (name : X.Element → String) (path : String) where
    open X use {Element, attribute, children}

    module-keeps :
        (elt : Element) (s : Library Method) → KnowsLibrary s (load_module X name path elt s).1
    unfolding load_module
    module-keeps elt s =
        let clean : Registry = record s.registry { autobinds = [] } in
        record {
          knows =
              Knows-trans (Knows-other s.registry clean refl refl refl)
                (declare_module-Knows X s.next elt clean);
        }

    aliases-keep :
        (elt : Element) (s : Library Method) → KnowsLibrary s (load_aliases X name path elt s).1
    unfolding load_aliases
    aliases-keep elt s = record { knows = Knows-other s.registry _ refl refl refl }

    factory-keeps :
        (elt : Element) (s : Library Method) → KnowsLibrary s (load_factory X name path elt s).1
    unfolding load_factory
    factory-keeps elt s = record { knows = Knows-refl s.registry }

    configuration-keeps :
        (elt : Element) (s : Library Method)
        → KnowsLibrary s (load_configuration X name path elt s).1
    unfolding load_configuration
    configuration-keeps elt s = record { knows = Knows-refl s.registry }

    properties-keep :
        (elt : Element) (s : Library Method) → KnowsLibrary s (load_properties X name path elt s).1
    unfolding load_properties
    properties-keep elt s = record { knows = Knows-refl s.registry }

    all-keep :
        (f : Element → Exec (Library Method) (Unit {0}))
        → ((elt : Element) (s : Library Method) → KnowsLibrary s (f elt s).1)
        → (xs : List Element) (s : Library Method) → KnowsLibrary s (process_xml_node f xs s).1
    all-keep f h xs s = process-keeps KnowsLibrary f same then_ h xs s

    -- The nodes of one kind, and what follows them.
    abbrev nodes_then :
        (Element → Exec (Library Method) (Unit {0}))
        → String
        → Element
        → Exec (Library Method) (Unit {0})
        → Exec (Library Method) (Unit {0})
    nodes_then f kind elt rest s = continue (process_xml_node f (children elt kind) s) (λ _. rest)

    nodes-keep :
        (f : Element → Exec (Library Method) (Unit {0})) (kind : String) (elt : Element)
        (rest : Exec (Library Method) (Unit {0}))
        → ((x : Element) (s : Library Method) → KnowsLibrary s (f x s).1)
        → ((s : Library Method) → KnowsLibrary s (rest s).1)
        → (s : Library Method) → KnowsLibrary s (nodes_then f kind elt rest s).1
    nodes-keep f kind elt rest h k s =
        continue-keeps {A = Unit {0}} {B = Unit {0}} s (process_xml_node f (children elt kind) s)
          (λ _. rest) (all-keep f h (children elt kind) s) (λ _. k)

    abbrev last_nodes : Element → Exec (Library Method) (Unit {0})
    last_nodes elt = process_xml_node (load_properties X name path) (children elt "properties")

    abbrev late_nodes : Element → Exec (Library Method) (Unit {0})
    late_nodes elt =
        nodes_then (load_configuration X name path) "configuration" elt (last_nodes elt)

    abbrev middle_nodes : Element → Exec (Library Method) (Unit {0})
    middle_nodes elt = nodes_then (load_factory X name path) "factory" elt (late_nodes elt)

    abbrev early_nodes : Element → Exec (Library Method) (Unit {0})
    early_nodes elt = nodes_then (load_aliases X name path) "aliases" elt (middle_nodes elt)

    root-keeps :
        (elt : Element) (s : Library Method) → KnowsLibrary s (load_root X name path elt s).1
    unfolding load_root
    root-keeps elt =
        nodes-keep (load_module X name path) "module" elt (early_nodes elt) module-keeps (
          nodes-keep (load_aliases X name path) "aliases" elt (middle_nodes elt) aliases-keep (
            nodes-keep (load_factory X name path) "factory" elt (late_nodes elt) factory-keeps (
              nodes-keep (load_configuration X name path) "configuration" elt (last_nodes elt)
                configuration-keeps
                (all-keep (load_properties X name path) properties-keep
                  (children elt "properties")))))

    loaded_or-state : (p : Result (Unit {0}) × Library Method) → (loaded_or X name path p).1 ≡ p.1
    loaded_or-state (ok a, s) = refl
    loaded_or-state (err runtime_error, s) = refl
    loaded_or-state (err e, s) = refl

    loaded_or-Leaves :
        (p : Result (Unit {0}) × Library Method) → LeavesResult (loaded_or X name path p).0
    loaded_or-Leaves (ok a, s) = tt
    loaded_or-Leaves (err runtime_error, s) = tt
    loaded_or-Leaves (err e, s) = as_configuration-Leaves e (λ h. cc h)

    -- However the loading of a library ends, and whatever its file holds: no component changes its module,
    -- no interface and no module that was known is replaced. An exception that leaves the call is a
    -- ConfigurationException, or neither of the framework nor a std::runtime_error.
    pub load_library-Knows :
        (exists is_xml : Bool) (root : Option Element) (s : Library Method)
        → let (r, t) = load_library X name path exists is_xml root s in
          Knows s.registry t.registry × LeavesResult r
    unfolding load_library
    load_library-Knows false is_xml root s = (Knows-refl s.registry, tt)
    load_library-Knows true false root s = (Knows-refl s.registry, tt)
    load_library-Knows true true none s = (Knows-refl s.registry, inl refl)
    load_library-Knows true true (some elt) s =
        let set = with_auto_alias X name path (attribute elt "autoAlias") s in
        let result = load_root X name path elt set in
        elim (Bool-cases
          (not (name elt == "xpcf-registry") && not (name elt == "xpcf-configuration"))) [
            | inl e ↦ rw e (Knows-refl s.registry, inl refl)
            | inr e ↦
                let kept : Knows s.registry result.1.registry =
                  Knows-trans (Knows-other s.registry set.registry refl refl refl)
                    (root-keeps elt set).knows in
                rw e (rw (loaded_or-state result) kept, loaded_or-Leaves result)
          ]
