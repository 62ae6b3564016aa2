-- ===== src/Manager/Again.antt =====
-- `serialize` of src/PropertyManager.cpp to a file that exists: what stands there, and what is read.
use xpcf.Base.{ℕ, Bool, ◌≡◌, refl, ap, ◌∙◌, some, List, [], ◌∷◌, ◌++◌, string_keys}
use mathlib.Core.List.{append-nil}
use xpcf.Exec.{Result, ok, err, check}
use xpcf.Alias.{AliasContext}
use xpcf.Property.Store.{Store}
use xpcf.Manager.Platform.{Platform, Laws}
use xpcf.Manager.Configure.{configure}
use xpcf.Manager.Serialize.{serialize_map, serialize_document}

module _ {F D : Type 0} (P : Platform F D) (L : Laws P) where
  open P use {xml, new_element, set_attribute, insert_end_child, uuid_text}
  open xml use {Element, attribute, children}

  -- The root that is saved is the old one with one more node.
  root_again :
      (s : Store F D) (fuel uuid m : ℕ) (old root : Element)
      → serialize_document P s fuel uuid m (some old) ≡ ok root
      → (x : Element) × (root ≡ insert_end_child x old) × (P.name x ≡ "properties")
  unfolding serialize_document
  root_again s fuel uuid m old root h =
      go
        (serialize_map P s fuel m
          (set_attribute "component" (uuid_text uuid) (new_element "configure")))
        h
    where
      go :
          (r : Result Element)
          → check r
              (λ done. ok (insert_end_child (insert_end_child done (new_element "properties")) old))
            ≡ ok root
          → (x : Element) × (root ≡ insert_end_child x old) × (P.name x ≡ "properties")
      go (err e) h = cc h
      go (ok done) h =
          (insert_end_child done (new_element "properties"), cc h, simp (L.name-insert, L.name-new))

  -- A component that is written to a file which has a <properties> node already is not read from there:
  -- whatever component is configured, under whatever predicate and aliases, the call ends as it did
  -- before the file was written.
  pub configure-serialize_again :
      (s t : Store F D) (aliases : AliasContext) (predicate : Element → Bool)
      (fuel uuid m depth other r : ℕ) (old root p : Element) (ps : List Element)
      → children old "properties" ≡ p ∷ ps
      → serialize_document P s fuel uuid m (some old) ≡ ok root
      → configure P aliases predicate other depth r (some root) t
        ≡ configure P aliases predicate other depth r (some old) t
  unfolding configure
  configure-serialize_again s t aliases predicate fuel uuid m depth other r old root p ps h made =
      let (x, is, named) = root_again s fuel uuid m old root made in
      let config : children root "configuration" ≡ children old "configuration" =
        ap (λ e. children e "configuration") is
        ∙ L.children-insert x old "configuration"
        ∙ rw named (append-nil (children old "configuration")) in
      let props : children root "properties" ≡ p ∷ (ps ++ (x ∷ [])) =
        ap (λ e. children e "properties") is
        ∙ L.children-insert x old "properties"
        ∙ rw (named, h) refl in
      rw (config, props, h) refl
