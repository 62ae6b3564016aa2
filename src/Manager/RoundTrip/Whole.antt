-- ===== src/Manager/RoundTrip/Whole.antt =====
-- A component through `serialize` to a new file and `configure` from it.
use xpcf.Base.{
  sym, Among, ℕ, true, false, Option, subst, inl, inr, ◌≡◌, refl, ap, ◌∙◌, none, some, [], ◌∷◌,
  string_keys, nat_keys, ==_self,
}
use xpcf.Exec.{Result, ok, err, check, Result-cases}
use xpcf.Alias.{AliasContext, component_type, alias_exists}
use xpcf.Property.{success}
use xpcf.Property.Store.{Store}
use xpcf.Manager.Platform.{Platform, Laws}
use xpcf.Manager.Configure.{
  configure_element, while_success, configure, configure_configure, unnamed,
}
use xpcf.Manager.Serialize.{serialize_map, serialize_document, serialize_file}
use xpcf.Manager.RoundTrip.Shape.{SameShape, Towards}
use xpcf.Manager.RoundTrip.Document.{node-ReadsBack}
use xpcf.Manager.RoundTrip.Below.{Below, AllWritable}

module _ {F D : Type 0} (P : Platform F D) (L : Laws P) where
  open P use {xml, new_element, set_attribute, insert_end_child, uuid_text, save_file}
  open xml use {Element, attribute, children}

  -- The <configure> node before its properties.
  abbrev component_node : ℕ → Element
  component_node uuid = set_attribute "component" (uuid_text uuid) (new_element "configure")

  abbrev whole : Element → Element
  whole done =
      insert_end_child (insert_end_child done (new_element "properties"))
        (new_element "xpcf-configuration")

  whole_children :
      (done : Element)
      → P.name done ≡ "configure"
      → (children (whole done) "configuration" ≡ [])
        × (children (whole done) "properties"
            ≡ insert_end_child done (new_element "properties") ∷ [])
        × (children (insert_end_child done (new_element "properties")) "configure" ≡ done ∷ [])
  whole_children done e = (
    simp (L.children-insert, L.children-new, L.name-insert, L.name-new),
    simp (L.children-insert, L.children-new, L.name-insert, L.name-new),
    rw (L.children-insert done (new_element "properties") "configure", e, L.children-new) refl,
  )

  -- The node of the component itself is read.
  configure_configure-own :
      (aliases : AliasContext) (uuid fuel m : ℕ) (done : Element) (t u : Store F D)
      → attribute done "component" ≡ some (uuid_text uuid)
      → attribute done "name" ≡ none
      → alias_exists component_type (uuid_text uuid) aliases ≡ false
      → configure_element P fuel done (some m) t ≡ (ok success, u)
      → configure_configure P aliases (unnamed P) uuid fuel m done t ≡ (ok success, u)
  unfolding configure_configure
  configure_configure-own aliases uuid fuel m done t u c n free read =
      rw (c, configure_configure) (rw (free, L.uuid-text uuid, n, ==_self uuid) (rw read refl))

  read_whole :
      (aliases : AliasContext) (uuid fuel m : ℕ) (done : Element) (t u : Store F D)
      → P.name done ≡ "configure"
      → configure_configure P aliases (unnamed P) uuid fuel m done t ≡ (ok success, u)
      → configure P aliases (unnamed P) uuid fuel m (some (whole done)) t ≡ (ok success, u)
  unfolding configure while_success
  read_whole aliases uuid fuel m done t u named own =
      let (no_config, props, one) = whole_children done named in
      rw (no_config, props) (rw one (rw own refl))

  -- Reading a file restores the component.
  abbrev IsRestored : (s t : Store F D) → AliasContext → ℕ → ℕ → ℕ → Option Element → Type 0
  IsRestored s t aliases fuel uuid m file =
      (u : Store F D) × (configure P aliases (unnamed P) uuid fuel m file t ≡ (ok success, u))
      × Towards s t u
      × ((k q : ℕ) → Below s m k → Among q (s.node k).collection → u.property q ≡ s.property q)

  -- The document that is written to a new file is read back, if the file holds it as it was.
  document-ReadsBack :
      (s t : Store F D) (aliases : AliasContext) (fuel uuid m : ℕ) (root : Element)
      → AllWritable s m
      → SameShape s t
      → alias_exists component_type (uuid_text uuid) aliases ≡ false
      → serialize_document P s fuel uuid m none ≡ ok root
      → (u : Store F D) × (configure P aliases (unnamed P) uuid fuel m (some root) t
          ≡ (ok success, u))
        × Towards s t u
        × ((k q : ℕ) → Below s m k → Among q (s.node k).collection → u.property q ≡ s.property q)
  unfolding serialize_document
  document-ReadsBack s t aliases fuel uuid m root all shape free made =
      go (serialize_map P s fuel m (component_node uuid)) refl made
    where
      go :
          (r : Result Element)
          → serialize_map P s fuel m (component_node uuid) ≡ r
          → check r (λ done. ok (whole done)) ≡ ok root
          → (u : Store F D) × (configure P aliases (unnamed P) uuid fuel m (some root) t
              ≡ (ok success, u))
            × Towards s t u
            × ((k q : ℕ)
                → Below s m k
                → Among q (s.node k).collection
                → u.property q ≡ s.property q)
      go (err x) e h = cc h
      go (ok done) e h =
          let empty =
            L.children-set_attribute "component" (uuid_text uuid) "property"
              (new_element "configure")
            ∙ L.children-new "configure" "property" in
          let back = node-ReadsBack P L s fuel m (component_node uuid) done all e empty in
          let (u, read, toward, restored) = back.reads t shape in
          let named : P.name done ≡ "configure" =
            back.its_name ∙ simp (L.name-set_attribute, L.name-new) in
          let its_component : attribute done "component" ≡ some (uuid_text uuid) =
            back.attributes "component" ∙ simp (L.attribute-set) in
          let no_name : attribute done "name" ≡ none =
            back.attributes "name" ∙ simp (L.attribute-set, L.attribute-new) in
          let own =
            configure_configure-own aliases uuid fuel m done t u its_component no_name free read in
          (
            u,
            ap (λ x. configure P aliases (unnamed P) uuid fuel m (some x) t) (cc h)
                ∙ read_whole aliases uuid fuel m done t u named own,
            toward,
            λ k q b a. restored q (k, b, a),
          )

  -- A component is written to a new file by a call of serialize that ends with success. Its properties
  -- are found by their names, and they are integers in the range of their types, texts that are not
  -- empty, vectors of these, or structures of such properties, to any depth; the text of the component's
  -- uuid is not an alias; and the file holds the document that was saved as it was, which tinyxml2 does
  -- not promise for every text, and not for one of white space only in a <value> node. Then reading the
  -- file into the same properties, whose names, accesses, types and structures are as they were, whose
  -- vectors hold as many elements as were written, where objects of the class Property are unchanged and
  -- the values of all others are any, ends with success and gives every property of the component and of
  -- its structures the value that was written, and a property that changes becomes what it was when it
  -- was written.
  pub configure-serialize_document :
      (s t : Store F D) (aliases : AliasContext) (fuel uuid m : ℕ) (file : Option Element)
      → AllWritable s m
      → SameShape s t
      → alias_exists component_type (uuid_text uuid) aliases ≡ false
      → ((root : Element)
          → serialize_document P s fuel uuid m none ≡ ok root
          → save_file none root ≡ (true, some root))
      → serialize_file P s fuel uuid m none ≡ (ok success, file)
      → (u : Store F D) × (configure P aliases (unnamed P) uuid fuel m file t ≡ (ok success, u))
        × Towards s t u
        × ((k q : ℕ) → Below s m k → Among q (s.node k).collection → u.property q ≡ s.property q)
  unfolding serialize_file
  configure-serialize_document s t aliases fuel uuid m file all shape free holds written =
      elim (Result-cases (serialize_document P s fuel uuid m none)) [
        | inl (root, e) ↦
            let ends : serialize_file P s fuel uuid m none ≡ (ok success, some root) =
              rw (serialize_file, e) (rw (holds root e) refl) in
            subst (IsRestored s t aliases fuel uuid m) (ap (λ p. p.1) (sym ends ∙ written))
              (document-ReadsBack s t aliases fuel uuid m root all shape free e)
        | inr (x, e) ↦
            let ends : serialize_file P s fuel uuid m none ≡ (err x, none) =
              rw (serialize_file, e) refl in
            let threw : err x ≡ ok success = ap (λ p. p.0) (sym ends ∙ written) in cc threw
      ]
