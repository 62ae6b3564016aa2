-- ===== src/Manager/RoundTrip/Structure.antt =====
-- A property that is a structure, and what `serializeParameter` makes of a property of any kind.
use xpcf.Base.{
  Among, ℕ, zero, String, ◌≡◌, refl, sym, ap, ◌∙◌, arith, Option, some, inl, inr, nat_keys,
  string_keys, subst,
}
use xpcf.Exec.{Result, ok, err, Exec, check}
use xpcf.Property.{ErrorCode, Value, structure, type_of}
use xpcf.Property.Wrapper.{Wrapper}
use xpcf.Property.Store.{Object, wrapper, sequence, variant, Store, get, get_name, get_type, size}
use xpcf.Manager.Platform.{Platform, Laws}
use xpcf.Manager.Configure.{configure_found, configure_structure}
use xpcf.Manager.Serialize.{serialize_values, serialize_round, type_text}
use xpcf.Manager.RoundTrip.Shape.{SameKind, Shaped, SameShape, Towards-keeps}
use xpcf.Manager.RoundTrip.Elements.{Tagged, tagged, tagged-Tagged, Reads, configure_property-found}
use xpcf.Manager.RoundTrip.Parameter.{ReadsBack, at-nodes}
use xpcf.Manager.RoundTrip.Below.{structure_of, held_structure, Below, IsWritable}

module _ {F D : Type 0} where
  -- A wrapper of the shape of a structure is that structure.
  Shaped-structure :
      (w : Wrapper F D) (o : Object F D) (k : Option ℕ)
      → w.value ≡ structure k
      → Shaped (wrapper w) o
      → o ≡ wrapper w
  Shaped-structure w (sequence e q) k v h = absurd h
  Shaped-structure w (variant p) k v h = absurd h
  Shaped-structure w (wrapper x) k v (n, a, h) = go w.value v h
    where
      go : (y : Value F D) → y ≡ structure k → SameKind y x.value → wrapper x ≡ wrapper w
      go y e h =
          let held : x.value ≡ structure k = subst (λ z. SameKind z x.value) e h in
          ground (arith, n, a, held, v)

module _ {F D : Type 0} (P : Platform F D) (L : Laws P) (s : Store F D)
    (sn : ℕ → P.xml.Element → Result P.xml.Element)
    (cn : P.xml.Element → Option ℕ → Exec (Store F D) ErrorCode) where
  open P use {xml, set_attribute, insert_end_child}
  open xml use {Element, attribute, children}

  -- What is assumed of a structure below: the element keeps its attributes, and is read back.
  pub record NodeReadsBack (k : ℕ) (x y : Element) : Type 0 where
    pub attributes : (k : String) → attribute y k ≡ attribute x k
    pub its_name : P.name y ≡ P.name x
    pub reads :
        (t : Store F D)
        → SameShape s t
        → Reads (cn y (some k)) s t (λ q. (l : ℕ) × Below s k l × Among q (s.node l).collection)

  structure_round :
      (p k : ℕ) (w : Wrapper F D) (x : Element)
      → s.property p ≡ wrapper w
      → w.value ≡ structure (some k)
      → serialize_round P s sn p 0 x ≡ sn k x
  unfolding serialize_round get
  structure_round p k w x e v =
      let here : s.property p ≡ wrapper (record w { value = structure (some k) }) =
        e ∙ ap (λ y. wrapper (record w { value = y })) v in
      rw here refl

  -- The element of a structure is made by one call for its map.
  pub structure-made :
      (p k : ℕ) (w : Wrapper F D) (x : Element)
      → s.property p ≡ wrapper w
      → w.value ≡ structure (some k)
      → serialize_values P s sn p (size (s.property p)) 0 (tagged P (s.property p)) ≡ ok x
      → sn k (tagged P (s.property p)) ≡ ok x
  unfolding serialize_values
  structure-made p k w x e v made =
      let size_one : size (s.property p) ≡ 1 = ap size e in
      sym (structure_round p k w (tagged P (s.property p)) e v)
      ∙ go (serialize_round P s sn p 0 (tagged P (s.property p))) (rw size_one at made)
    where
      go : (r : Result Element) → check r (serialize_values P s sn p zero 1) ≡ ok x → r ≡ ok x
      go (ok y) h = h
      go (err y) h = cc h

  found_structure :
      (p k : ℕ) (w : Wrapper F D) (x : Element) (t : Store F D)
      → t.property p ≡ wrapper w
      → w.value ≡ structure (some k)
      → attribute x "type" ≡ some (type_text (get_type (wrapper w)))
      → configure_found P cn x p t ≡ cn x (some k) t
  unfolding configure_found configure_structure get
  found_structure p k w x t e v type =
      let here : t.property p ≡ wrapper (record w { value = structure (some k) }) =
        e ∙ ap (λ y. wrapper (record w { value = y })) v in
      let tag : attribute x "type" ≡ some "structure" =
        type ∙ ap (λ y. some (type_text (type_of y))) v in
      rw (tag, configure_found) (rw here refl)

  pub structure-ReadsBack :
      (m p k : ℕ) (w : Wrapper F D) (x : Element)
      → s.property p ≡ wrapper w
      → w.value ≡ structure (some k)
      → IsWritable s m p
      → NodeReadsBack k (tagged P (s.property p)) x
      → ReadsBack P L s sn cn m p x
  structure-ReadsBack m p k w x e v fine below = record {
    tags = tags;
    reads = λ t shape.
        let (u, read, toward, done) = below.reads t shape in
        let there : t.property p ≡ wrapper w =
          Shaped-structure w (t.property p) (some k) v
            (subst (λ o. Shaped o (t.property p)) e (shape.objects p)) in
        (
          u,
          configure_property-found P cn m p s x t u tags fine.named
              (at-nodes m (get_name (s.property p)) s t shape.nodes ∙ fine.found)
              (found_structure p k w x t there v
                  (tags.its_type ∙ ap (λ o. some (type_text (get_type o))) e)
                ∙ read),
          toward,
          λ q c. elim c [
            | inl same ↦
                subst (λ b. u.property b ≡ s.property b) (sym same)
                  (Towards-keeps p toward (there ∙ sym e))
            | inr (j, l, is, below, among) ↦
                let same : j ≡ k = ground (arith, is, ap structure_of e, ap held_structure v) in
                done q (l, subst (λ i. Below s i l) same below, among)
          ],
        );
  }
    where
      tags : Tagged P (s.property p) x
      tags =
          let made = tagged-Tagged P L (s.property p) in
          record {
            its_name = below.attributes "name" ∙ made.its_name;
            its_type = below.attributes "type" ∙ made.its_type;
            node_name = below.its_name ∙ made.node_name;
          }
