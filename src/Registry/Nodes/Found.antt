-- ===== src/Registry/Nodes/Found.antt =====
-- The components of a module that the XML of src/Registry.cpp declares for the first time.
use xpcf.Base.{
  ℕ, false, ◌≡◌, refl, none, some, if◌then◌else◌, nat_keys, Bool-cases, Option-cases, inl, inr,
  Among,
}
use xpcf.Map
use xpcf.Map.{map_contains, lookup-insert, lookup-insert_self}
use xpcf.Exec.{Result, ok, err, rethrow, process_xml_node, logic_error}
use xpcf.Xml.{Xml}
use xpcf.Alias.{component_type}
use xpcf.Registry.{
  ComponentMetadata, Registry, add_module_metadata, auto_alias_of, map_component,
  find_component_metadata,
}
use xpcf.Registry.Nodes.{
  note_component, new_component, new_module, attribute_text, uuid_of, declare_interface_node,
  declare_new_component, declare_component, declare_module_of, declare_module,
}
use xpcf.Registry.Nodes.Keeps.{components-keep, interfaces-keep}
use xpcf.Registry.Nodes.Loops.{rethrow-state, process-ok, process-one, rethrow-ok}
use xpcf.Registry.Nodes.Known.{steps}
use xpcf.Registry.Nodes.Lists.{
  Lists, interface_steps, map_component-AllBut, auto_alias_of-AllBut, note_component-Lists,
}
use xpcf.Registry.Grows.{Knows}

module _ (X : Xml) (address u : ℕ) (r : Registry) where
  open X use {Element, attribute, children}

  new_component-Lists :
      (elt : Element) (c : ℕ) (s : Registry)
      → map_contains s.component_module_uuid_map c ≡ false
      → (declare_new_component X address u elt c s).0 ≡ ok tt
      → Lists address u r s
      → Lists address u r (declare_new_component X address u elt c s).1
  unfolding declare_new_component
  new_component-Lists elt c s new e h = elim (Option-cases (attribute elt "description")) [
    | inl g ↦
        let failed : (declare_new_component X address u elt c s).0 ≡ err logic_error =
          rw (g, declare_new_component) refl in
        cc (failed, e)
    | inr (d, g) ↦
        let name = attribute_text X elt "name" in
        let named = auto_alias_of component_type name c (map_component c u s) in
        let noted = note_component address (new_component c name d) named in
        rw (g, declare_new_component)
          (interfaces-keep X address (λ s t. Lists address u r s → Lists address u r t)
            (interface_steps address u r) c (children elt "interface") noted
            (note_component-Lists address u r (new_component c name d) named (
              auto_alias_of-AllBut address u r component_type name c c (map_component c u s)
                (map_component-AllBut address u r c s new h))))
  ]

  abbrev component_body : Element → Registry → Result ℕ → Result (Unit {0}) × Registry
  component_body elt s o = rethrow (elim o [
    | err e ↦ (err e, s)
    | ok c ↦
        if map_contains s.component_module_uuid_map c
        then (ok tt, s)
        else declare_new_component X address u elt c s
  ])

  body-Lists :
      (elt : Element) (s : Registry) (o : Result ℕ)
      → (component_body elt s o).0 ≡ ok tt
      → Lists address u r s
      → Lists address u r (component_body elt s o).1
  body-Lists elt s (err z) e h = h
  body-Lists elt s (ok c) e h = elim (Bool-cases (map_contains s.component_module_uuid_map c)) [
    | inl g ↦ rw g h
    | inr g ↦ rw g (
        rw (rethrow-state (declare_new_component X address u elt c s)) (
          new_component-Lists elt c s g
            (rethrow-ok (declare_new_component X address u elt c s) (rw g at e)) h))
  ]

  component-Lists :
      (elt : Element) (s : Registry)
      → (declare_component X address u elt s).0 ≡ ok tt
      → Lists address u r s
      → Lists address u r (declare_component X address u elt s).1
  unfolding declare_component
  component-Lists elt s e h = body-Lists elt s (uuid_of X elt) e h

  -- The component of the node has a module.
  abbrev Mapped : ℕ → Registry → Type 0
  Mapped c s = (v : ℕ) × (Map.lookup s.component_module_uuid_map c ≡ some v)

  new_component-Mapped :
      (elt : Element) (c : ℕ) (s : Registry)
      → map_contains s.component_module_uuid_map c ≡ false
      → Mapped c (declare_new_component X address u elt c s).1
  unfolding declare_new_component map_component
  new_component-Mapped elt c s new =
      let mapped = map_component c u s in
      let mine : Map.lookup mapped.component_module_uuid_map c ≡ some u =
        rw (new, map_component) (lookup-insert_self s.component_module_uuid_map c u) in
      elim (Option-cases (attribute elt "description")) [
        | inl g ↦ rw (g, declare_new_component) (u, mine)
        | inr (d, g) ↦
            let name = attribute_text X elt "name" in
            let named = auto_alias_of component_type name c mapped in
            let noted = note_component address (new_component c name d) named in
            let j = (steps address).interfaces in
            let k : Knows mapped
                (process_xml_node (declare_interface_node X address c) (children elt "interface")
                  noted).1 =
              j.then_ mapped named _ (j.names component_type name c mapped) (
                j.then_ named noted _ ((steps address).lists (new_component c name d) named)
                  (interfaces-keep X address Knows j c (children elt "interface") noted)) in
            rw (g, declare_new_component) (u, k.components_of.at c u mine)
      ]

  component-Mapped :
      (elt : Element) (c : ℕ)
      → uuid_of X elt ≡ ok c
      → (s : Registry) → (declare_component X address u elt s).0 ≡ ok tt
      → Mapped c (declare_component X address u elt s).1
  unfolding declare_component
  component-Mapped elt c is s e = elim (Bool-cases (map_contains s.component_module_uuid_map c)) [
    | inr g ↦
        rw (is, declare_component)
          (rw g (
            rw (rethrow-state (declare_new_component X address u elt c s))
              (new_component-Mapped elt c s g)))
    | inl g ↦ elim (Option-cases (Map.lookup s.component_module_uuid_map c)) [
      | inl n ↦
          let absent : map_contains s.component_module_uuid_map c ≡ false =
            rw (n, map_contains) refl in
          cc (g, absent)
      | inr (v, n) ↦ rw (is, declare_component) (rw g (v, n))
    ]
  ]

-- What `declareModule` starts the loop over the components with.
abbrev start : ℕ → ℕ → Registry → Registry
start address u r =
    add_module_metadata address (new_module u)
      (record r { objects = Map.insert r.objects address (new_module u) })

start-Lists :
    (address u : ℕ) (r : Registry)
    → Map.lookup r.modules_map u ≡ none
    → Lists address u r (start address u r)
unfolding add_module_metadata
start-Lists address u r unknown =
    rw (map_contains, unknown, add_module_metadata)
      (record {
        object = new_module u;
        known = lookup-insert_self r.modules_map u address;
        there = lookup-insert_self r.objects address (new_module u);
        lists = λ c v new given. cc (new, given);
      })

found :
    (address u c v : ℕ) (r t : Registry)
    → Lists address u r t
    → Map.lookup r.component_module_uuid_map c ≡ none
    → Map.lookup t.component_module_uuid_map c ≡ some v
    → (info : ComponentMetadata) × (find_component_metadata c t ≡ ok (some info))
unfolding find_component_metadata
found address u c v r t h new given =
    let (is, has) = h.lists c v new given in
    let mine : Map.lookup t.component_module_uuid_map c ≡ some u = cc (is, given) in
    elim (Option-cases (Map.lookup h.object.module_component_map c)) [
      | inl n ↦
          let absent : map_contains h.object.module_component_map c ≡ false =
            rw (n, map_contains) refl in
          cc (has, absent)
      | inr (info, n) ↦ (info, rw (mine, find_component_metadata) (rw (h.known, h.there, n) refl))
    ]

-- Where a <module> node is read without an exception and no module with its uuid was known, each
-- component that one of its <component> nodes names, and that had no module before, is found with its
-- metadata.
pub find_component_metadata-declared :
    (X : Xml) (address u c : ℕ) (elt x : X.Element) (r : Registry)
    → uuid_of X elt ≡ ok u
    → Map.lookup r.modules_map u ≡ none
    → (declare_module X address elt r).0 ≡ ok tt
    → Among x (X.children elt "component")
    → uuid_of X x ≡ ok c
    → Map.lookup r.component_module_uuid_map c ≡ none
    → (info : ComponentMetadata) × (find_component_metadata c (declare_module X address elt r).1
        ≡ ok (some info))
unfolding declare_module declare_module_of
find_component_metadata-declared X address u c elt x r is unknown done listed named new =
    let nodes = X.children elt "component" in
    let result = process_xml_node (declare_component X address u) nodes (start address u r) in
    let state : (declare_module X address elt r).1 ≡ result.1 =
      rw (is, declare_module) (rethrow-state result) in
    let succeeds : result.0 ≡ ok tt = rethrow-ok result (rw (is, declare_module) at done) in
    let invariant : Lists address u r result.1 =
      process-ok (Lists address u r) (declare_component X address u) (component-Lists X address u r)
        nodes (start address u r) succeeds (start-Lists address u r unknown) in
    let (v, given) : Mapped X address u r c result.1 =
      process-one (Mapped X address u r c) (declare_component X address u) x
        (component-Mapped X address u r x c named)
        (λ ys s (w, e).
          (w, (components-keep X address Knows (steps address) u ys s).components_of.at c w e))
        nodes (start address u r) listed succeeds in
    rw state (found address u c v r result.1 invariant new given)
