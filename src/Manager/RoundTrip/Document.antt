-- ===== src/Manager/RoundTrip/Document.antt =====
-- The maps of a component through `serializeParameter` and `configureElement`.
use mathlib.Core.List.{append-nil}
use xpcf.Base.{
  Among, ℕ, zero, suc, String, ◌≡◌, refl, sym, ap, ◌∙◌, Option, List, [], ◌∷◌, ◌++◌, inl, inr,
  string_keys, nat_keys, snoc-append,
}
use xpcf.Exec.{Result, ok, err, Exec, check}
use xpcf.Property.{ErrorCode}
use xpcf.Property.Store.{Store}
use xpcf.Manager.Platform.{Platform, Laws}
use xpcf.Manager.Configure.{configure_property, configure_element, while_success}
use xpcf.Manager.Serialize.{serialize_parameter, serialize_map, each}
use xpcf.Manager.RoundTrip.Shape.{
  SameShape, Towards-refl, Towards-trans, Towards-keeps, Towards-SameShape,
}
use xpcf.Manager.RoundTrip.Elements.{Reads}
use xpcf.Manager.RoundTrip.Parameter.{ReadsBack}
use xpcf.Manager.RoundTrip.Structure.{NodeReadsBack}
use xpcf.Manager.RoundTrip.Component.{NodesReadBack, parameter-ReadsBack}
use xpcf.Manager.RoundTrip.Below.{CoveredBy, down, here, IsWritable, AllWritable, Below-CoveredBy}

module _ {F D : Type 0} (P : Platform F D) (L : Laws P) (s : Store F D) where
  open P use {xml, new_element, set_attribute, insert_end_child, uuid_text}
  open xml use {Element, attribute, children}

  module _ (sn : ℕ → Element → Result Element)
      (cn : Element → Option ℕ → Exec (Store F D) ErrorCode) (m : ℕ) where
    -- The elements that `each` adds, and that they are read back.
    record EachReadsBack (ps : List ℕ) (elt done : Element) : Type 0 where
      added : List Element
      its_children : children done "property" ≡ children elt "property" ++ added
      attributes : (k : String) → attribute done k ≡ attribute elt k
      its_name : P.name done ≡ P.name elt
      reads :
          (t : Store F D)
          → SameShape s t
          → Reads (while_success (configure_property P cn m) added) s t (CoveredBy s ps)

    each-ReadsBack :
        (ps : List ℕ) (elt done : Element)
        → ((p : ℕ) → Among p ps → IsWritable s m p × NodesReadBack P L s sn cn p)
        → each P s (serialize_parameter P s sn) ps elt ≡ ok done
        → EachReadsBack ps elt done
    unfolding while_success
    each-ReadsBack [] elt done fine e = record {
      added = [];
      its_children =
          ap (λ x. children x "property") (same e) ∙ sym (append-nil (children elt "property"));
      attributes = λ k. ap (λ x. attribute x k) (same e);
      its_name = ap P.name (same e);
      reads = λ t shape. (t, refl, Towards-refl s t, λ q c. absurd c);
    }
      where
        same : ok elt ≡ ok done → done ≡ elt
        same h = cc h
    each-ReadsBack (p ∷ ps) elt done fine e =
        go (serialize_parameter P s sn p elt) refl e
          (λ next h. each-ReadsBack ps next done (λ q a. fine q (inr a)) h)
      where
        join :
            (next x : Element)
            → next ≡ insert_end_child x elt
            → ReadsBack P L s sn cn m p x
            → EachReadsBack ps next done
            → EachReadsBack (p ∷ ps) elt done
        join next x is back rest = record {
          added = x ∷ rest.added;
          its_children =
              rest.its_children
              ∙ ap (λ y. children y "property" ++ rest.added) is
              ∙ rw (L.children-insert x elt "property", back.tags.node_name)
                  (snoc-append (children elt "property") rest.added x);
          attributes =
              λ k. rest.attributes k ∙ ap (λ y. attribute y k) is ∙ L.attribute-insert x elt k;
          its_name = rest.its_name ∙ ap P.name is ∙ L.name-insert x elt;
          reads = λ t shape.
              let (u, e1, step, done1) = back.reads t shape in
              let (v, e2, steps, done2) = rest.reads u (Towards-SameShape step shape) in
              (
                v,
                rw e1 e2,
                Towards-trans step steps,
                λ q c. elim c [
                  | inl now ↦ Towards-keeps q steps (done1 q now)
                  | inr later ↦ done2 q later
                ],
              );
        }

        go :
            (r : Result Element)
            → serialize_parameter P s sn p elt ≡ r
            → check r (each P s (serialize_parameter P s sn) ps) ≡ ok done
            → ((next : Element)
                → each P s (serialize_parameter P s sn) ps next ≡ ok done
                → EachReadsBack ps next done)
            → EachReadsBack (p ∷ ps) elt done
        go (err y) q h ih = cc h
        go (ok next) q h ih =
            let (writable, nodes) = fine p (inl refl) in
            let (x, is, back) = parameter-ReadsBack P L s sn cn m p elt next writable nodes q in
            join next x is back (ih next h)

  abbrev pub AllNodes : ℕ → Type 0
  AllNodes fuel =
      (k : ℕ) (x y : Element)
      → AllWritable s k
      → serialize_map P s fuel k x ≡ ok y
      → children x "property" ≡ []
      → NodeReadsBack P L s (serialize_map P s fuel) (configure_element P fuel) k x y

  -- The properties of a map, where the maps below are read back.
  map-ReadsBack :
      (fuel : ℕ)
      → AllNodes fuel
      → (m : ℕ) (elt done : Element) → AllWritable s m
      → serialize_map P s (suc fuel) m elt ≡ ok done
      → EachReadsBack
          (serialize_map P s fuel)
          (configure_element P fuel)
          m
          (s.node m).collection
          elt
          done
  unfolding serialize_map
  map-ReadsBack fuel nodes m elt done all e =
      each-ReadsBack (serialize_map P s fuel) (configure_element P fuel) m (s.node m).collection elt
        done
        (λ p a. (
          all m p (here refl) a,
          λ k x y is made empty. nodes k x y (λ j q b c. all j q (down p a is b) c) made empty,
        ))
        e

  -- So at any depth that the fuel allows.
  pub node-ReadsBack : (fuel : ℕ) → AllNodes fuel
  unfolding serialize_map configure_element
  node-ReadsBack zero k x y all e empty = cc e
  node-ReadsBack (suc fuel) k x y all e empty =
      let each = map-ReadsBack fuel (node-ReadsBack fuel) k x y all e in
      record {
        attributes = each.attributes;
        its_name = each.its_name;
        reads = λ t shape.
            let (u, read, toward, done) = each.reads t shape in
            let only : children y "property" ≡ each.added = each.its_children ∙ rw empty refl in
            (
              u,
              rw only read,
              toward,
              λ q (l, below, among). done q (Below-CoveredBy s q below among),
            );
      }
