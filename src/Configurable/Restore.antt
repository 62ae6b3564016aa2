-- ===== src/Configurable/Restore.antt =====
-- A component of src/ConfigurableBase.cpp that declares properties, is saved, and is configured again.
use xpcf.Base.{
  ℕ, String, true, false, ap, ◌∙◌, ◌≡◌, refl, sym, Option, none, some, List, [], ◌∷◌, nat_eq,
  nat_keys, string_keys, ◌==◌, Bool-cases, inl, inr, Among, Among-snoc, subst, ==_self,
}
use xpcf.Map.{map_contains}
use xpcf.Exec.{ok, Exec}
use xpcf.Alias.{AliasContext, component_type, alias_exists}
use xpcf.Property.{ErrorCode, success}
use xpcf.Property.Store.{Object, Store, get_name, put}
use xpcf.Property.Maps
use xpcf.Property.Maps.{add_property, at, wrap, put_node}
use xpcf.Property.Maps.Laws.{IsIndexed, add_property-IsIndexed}
use xpcf.Manager.Platform.{Platform, Laws}
use xpcf.Manager.Serialize.{serialize_document, serialize_file}
use xpcf.Manager.RoundTrip.Shape.{SameShape, Towards, StorableObject}
use xpcf.Manager.RoundTrip.Below.{Below, here, down, IsWritable, AllWritable, structure_of}
use xpcf.Manager.RoundTrip.Whole.{configure-serialize_document}
use xpcf.Configurable.{
  PropsManager, absent, temporary, injected, declare_property, serialize, configure,
}

-- A call of `declareProperty`: the address of the new object, the name, and the object.
pub record Declaration (F D : Type 0) : Type 0 where
  pub address : ℕ
  pub name : String
  pub make : String → Object F D

module _ {F D : Type 0} where
  abbrev pub declare_all : ℕ → List (Declaration F D) → Store F D → Store F D
  declare_all root [] s = s
  declare_all root (d ∷ ds) s =
      declare_all root ds (declare_property root d.address (some d.name) d.make s).1

  -- An object that is not a structure, and that can be written and read.
  pub record IsPlain (o : Object F D) : Type 0 where
    pub filled : (get_name o == "") ≡ false
    pub holds : StorableObject o
    pub flat : structure_of o ≡ none

  -- The new object has the name, stands at an address of its own, and is plain.
  pub record IsDeclarable (root : ℕ) (d : Declaration F D) (s : Store F D) : Type 0 where
    pub apart : (p : ℕ) → Among p (s.node root).collection → nat_eq d.address p ≡ false
    pub plain : IsPlain (d.make d.name)

  abbrev pub AllDeclarable : ℕ → List (Declaration F D) → Store F D → Type 0
  AllDeclarable root [] s = Unit {0}
  AllDeclarable root (d ∷ ds) s =
      IsDeclarable root d s
      × AllDeclarable root ds (declare_property root d.address (some d.name) d.make s).1

  record IsReady (root : ℕ) (s : Store F D) : Type 0 where
    indexed : IsIndexed s root
    plain : (p : ℕ) → Among p (s.node root).collection → IsPlain (s.property p)

  -- `addProperty` of a plain object.
  add-IsPlain :
      (root p : ℕ) (s : Store F D)
      → ((q : ℕ) → Among q (s.node root).collection → IsPlain (s.property q))
      → IsPlain (s.property p)
      → let t = (add_property root p s).1 in
        (q : ℕ) → Among q (t.node root).collection → IsPlain (t.property q)
  unfolding add_property
  add-IsPlain root p s old new =
      elim (Bool-cases (map_contains (s.node root).property_map (get_name (s.property p)))) [
        | inl e ↦ rw (e, add_property) old
        | inr e ↦
            rw (e, add_property)
              (λ q a. elim (Among-snoc q (s.node root).collection p (rw (==_self root) at a)) [
                | inl b ↦ old q b
                | inr same ↦ subst (λ i. IsPlain (s.property i)) (sym same) new
              ])
      ]

  declare_property-IsReady :
      (root : ℕ) (d : Declaration F D) (s : Store F D)
      → IsDeclarable root d s
      → IsReady root s
      → IsReady root (declare_property root d.address (some d.name) d.make s).1
  unfolding declare_property at
  declare_property-IsReady root d s fits h =
      let t = put d.address (d.make d.name) s in
      let kept : (p : ℕ) → Among p (s.node root).collection → t.property p ≡ s.property p =
        λ p a. rw (fits.apart p a) refl in
      let mine : t.property d.address ≡ d.make d.name = rw (==_self d.address) refl in
      let indexed : IsIndexed t root = record {
        finds = λ p a. rw (kept p a) (h.indexed.finds p a);
      } in
      let (still, code, listed) = add_property-IsIndexed root d.address t indexed in
      record {
        indexed = still;
        plain =
            add-IsPlain root d.address t (λ p a. rw (kept p a) (h.plain p a)) (rw mine fits.plain);
      }

  declare_all-IsReady :
      (root : ℕ) (ds : List (Declaration F D)) (s : Store F D)
      → AllDeclarable root ds s
      → IsReady root s
      → IsReady root (declare_all root ds s)
  declare_all-IsReady root [] s fits h = h
  declare_all-IsReady root (d ∷ ds) s (fit, fits) h =
      declare_all-IsReady root ds (declare_property root d.address (some d.name) d.make s).1 fits
        (declare_property-IsReady root d s fit h)

  -- Nothing lies below a component without structures.
  only_here : (root k : ℕ) (s : Store F D) → IsReady root s → Below s root k → k ≡ root
  only_here root k s h (here e) = e
  only_here root k s h (down p a e b) = let flat = (h.plain p a).flat in cc (flat, e)

  ready-IsWritable : (root : ℕ) (s : Store F D) → IsReady root s → AllWritable s root
  ready-IsWritable root s h k p below a =
      let same = only_here root k s h below in
      let listed : Among p (s.node root).collection =
        subst (λ i. Among p (s.node i).collection) same a in
      let plain = h.plain p listed in
      subst (λ i. IsWritable s i p) (sym same)
        (record { named = plain.filled; found = h.indexed.finds p listed; holds = plain.holds })

  new-IsReady : (root : ℕ) (s : Store F D) → IsReady root (put_node root Maps.empty s)
  unfolding Maps.empty
  new-IsReady root s = record {
    indexed = record { finds = λ p a. absurd (rw (==_self root) at a) };
    plain = λ p a. absurd (rw (==_self root) at a);
  }

  -- With any manager, `serialize` does what the property manager does.
  serialized :
      (P : Platform F D) (uuid fuel root : ℕ) (loaded : Option P.xml.Element) (s : Store F D)
      (manager : PropsManager)
      → let (r, file, left) = serialize P uuid fuel root loaded s manager in
        serialize_file P s fuel uuid root loaded ≡ (r, file)
  unfolding serialize
  serialized P uuid fuel root loaded s (injected aliases) = refl
  serialized P uuid fuel root loaded s temporary = refl
  serialized P uuid fuel root loaded s absent = refl

  -- A new component declares variables, each under its name or in vain where the name is taken, and is
  -- written to a new file by a call of serialize that ends with success, whether it has a property
  -- manager or not. The variables are integers in the range of their types, texts that are not empty, or
  -- vectors of these; the text of the component's uuid is not an alias; and the file holds the document
  -- that was saved as it was, which tinyxml2 does not promise for every text, and not for one of white
  -- space only in a <value> node. Then a component with the same properties, whose names, accesses, types
  -- and structures are as they were, whose vectors hold as many elements as were written, where objects
  -- of the class Property are unchanged and the values of all others are any, that is configured from
  -- the file is given every value that was written and calls `onConfigured` on them, with whose answer
  -- the call ends.
  pub configure-declare_all :
      (P : Platform F D)
      → Laws P
      → (uuid fuel root : ℕ) (on_configured : Exec (Store F D) ErrorCode)
        (ds : List (Declaration F D)) (first t : Store F D) (manager left : PropsManager)
        (aliases : AliasContext) (file : Option P.xml.Element)
      → AllDeclarable root ds (put_node root Maps.empty first)
      → let s = declare_all root ds (put_node root Maps.empty first) in
        SameShape s t
        → alias_exists component_type (P.uuid_text uuid) aliases ≡ false
        → ((x : P.xml.Element)
            → serialize_document P s fuel uuid root none ≡ ok x
            → P.save_file none x ≡ (true, some x))
        → serialize P uuid fuel root none s manager ≡ (ok success, file, left)
        → (u : Store F D) × (configure P uuid fuel root on_configured (injected aliases) file t
            ≡ on_configured u)
          × Towards s t u
          × ((q : ℕ) → Among q (s.node root).collection → u.property q ≡ s.property q)
  unfolding configure
  configure-declare_all P laws uuid fuel root on_configured ds first t manager left aliases file
        fits shape free holds written =
      let s = declare_all root ds (put_node root Maps.empty first) in
      let ready =
        declare_all-IsReady root ds (put_node root Maps.empty first) fits
          (new-IsReady root first) in
      let (u, read, toward, same) =
        configure-serialize_document P laws s t aliases fuel uuid root file
          (ready-IsWritable root s ready) shape free holds
          (serialized P uuid fuel root none s manager ∙ ap (λ p. (p.0, p.1)) written) in
      (u, rw read refl, toward, λ q a. same root q (here refl) a)
