-- ===== src/Manager/RoundTrip/Vector.antt =====
-- The two loops over the values of a vector.
use mathlib.Core.List.{append-nil}
use xpcf.Base.{
  ℕ, suc, String, false, ◌≡◌, refl, sym, ap, ◌∙◌, arith, List, [], ◌∷◌, ◌++◌, nat_eq, nat_keys,
  ==_self, length, length-append, snoc-append, All, map,
}
use xpcf.Exec.{Result, ok}
use xpcf.Property.{success, Value}
use xpcf.Property.Sequence.{Sequence}
use xpcf.Property.Store.{Object, sequence, Store, get_type, size, put}
use xpcf.Manager.Platform.{Platform, Laws}
use xpcf.Manager.Configure.{configure_values}
use xpcf.Manager.Serialize.{serialize_values}
use xpcf.Manager.RoundTrip.Values.{text_of, configure_value-text, serialize_round-text}
use xpcf.Manager.RoundTrip.Elements.{Tagged, Tagged-insert}
use xpcf.Property.Frame.{Only, Only-refl, Only-trans, Only-put}
use xpcf.Manager.RoundTrip.Many.{Fits, holding, get_middle, set_middle}

module _ {F D : Type 0} (P : Platform F D) where
  open P use {xml, new_element, set_text, insert_end_child, get_text}
  open xml use {Element, attribute, children}

  abbrev pub value_node : Value F D → Element
  value_node v = set_text (text_of P v) (new_element "value")

  abbrev pub with_nodes : List (Value F D) → Element → Element
  with_nodes [] x = x
  with_nodes (v ∷ vs) x = with_nodes vs (insert_end_child (value_node v) x)

  module _ (L : Laws P) where
    pub Tagged-with_nodes :
        (o : Object F D) (vs : List (Value F D)) (x : Element)
        → Tagged P o x
        → Tagged P o (with_nodes vs x)
    Tagged-with_nodes o [] x h = h
    Tagged-with_nodes o (v ∷ vs) x h =
        Tagged-with_nodes o vs (insert_end_child (value_node v) x)
          (Tagged-insert P L o (value_node v) x h)

    pub attribute-with_nodes :
        (k : String) (vs : List (Value F D)) (x : Element)
        → attribute (with_nodes vs x) k ≡ attribute x k
    attribute-with_nodes k [] x = refl
    attribute-with_nodes k (v ∷ vs) x =
        attribute-with_nodes k vs (insert_end_child (value_node v) x)
        ∙ L.attribute-insert (value_node v) x k

    pub children-with_nodes :
        (vs : List (Value F D)) (x : Element)
        → children (with_nodes vs x) "value" ≡ children x "value" ++ map value_node vs
    children-with_nodes [] x = sym (append-nil (children x "value"))
    children-with_nodes (v ∷ vs) x =
        let name : P.name (value_node v) ≡ "value" =
          L.name-set_text (text_of P v) (new_element "value") ∙ L.name-new "value" in
        children-with_nodes vs (insert_end_child (value_node v) x)
        ∙ rw (L.children-insert (value_node v) x "value", name)
            (snoc-append (children x "value") (map value_node vs) (value_node v))

  -- What is left of a vector that does not have one value is written as nodes.
  pub serialize_values-nodes :
      (s : Store F D) (f : ℕ → Element → Result Element) (p : ℕ) (e : Value F D) (q : Sequence F D)
      (pre vs : List (Value F D)) (x : Element)
      → s.property p ≡ sequence e (holding q (pre ++ vs))
      → All (Fits q.type) vs
      → nat_eq (size (s.property p)) 1 ≡ false
      → serialize_values P s f p (length vs) (length pre) x ≡ ok (with_nodes vs x)
  unfolding serialize_values
  serialize_values-nodes s f p e q pre [] x h fits many = refl
  serialize_values-nodes s f p e q pre (v ∷ vs) x h (fit, fits) many =
      let round =
        serialize_round-text P s f p (length pre) x v fit.0 (ap get_type h ∙ sym fit.1)
          (rw h (get_middle e q pre vs v fit)) in
      let next : suc (length pre) ≡ length (pre ++ (v ∷ [])) =
        omega (arith, length-append pre (v ∷ [])) in
      rw (round, many, next)
        (serialize_values-nodes s f p e q (pre ++ (v ∷ [])) vs (insert_end_child (value_node v) x)
          (h ∙ ap (λ l. sequence e (holding q l)) (sym (snoc-append pre vs v))) fits many)

  -- A vector of one value is written as an attribute.
  pub serialize_values-only :
      (s : Store F D) (f : ℕ → Element → Result Element) (p : ℕ) (e : Value F D) (q : Sequence F D)
      (v : Value F D) (x : Element)
      → s.property p ≡ sequence e (holding q (v ∷ []))
      → Fits q.type v
      → serialize_values P s f p 1 0 x ≡ ok (P.set_attribute "value" (text_of P v) x)
  unfolding serialize_values
  serialize_values-only s f p e q v x h fit =
      let round =
        serialize_round-text P s f p 0 x v fit.0 (ap get_type h ∙ sym fit.1)
          (rw h (get_middle e q [] [] v fit)) in
      rw round (rw h refl)

  -- Reading the nodes writes the values, whatever values of that number stood there.
  pub configure_values-nodes :
      Laws P
      → (t : Store F D) (p : ℕ) (e : Value F D) (q : Sequence F D) (pre vs ws : List (Value F D))
      → t.property p ≡ sequence e (holding q (pre ++ ws))
      → All (Fits q.type) vs
      → length ws ≡ length vs
      → (u : Store F D) × (configure_values P p (length pre) (map value_node vs) t
          ≡ (ok success, u))
        × Only p t u
        × (u.property p ≡ sequence e (holding q (pre ++ vs)))
  unfolding configure_values
  configure_values-nodes L t p e q pre [] [] h fits same = (t, refl, Only-refl p t, h)
  configure_values-nodes L t p e q pre [] (w ∷ ws) h fits same = absurd (omega arith)
  configure_values-nodes L t p e q pre (v ∷ vs) [] h fits same = absurd (omega arith)
  configure_values-nodes L t p e q pre (v ∷ vs) (w ∷ ws) h (fit, fits) same =
      let o : Object F D = sequence e (holding q (pre ++ (v ∷ ws))) in
      let one =
        configure_value-text P p (length pre) t o v fit.0 (ap get_type h ∙ sym fit.1)
          (rw h (set_middle e q pre ws w v fit)) (sym fit.1) in
      let next : suc (length pre) ≡ length (pre ++ (v ∷ [])) =
        omega (arith, length-append pre (v ∷ [])) in
      let there : (put p o t).property p ≡ sequence e (holding q ((pre ++ (v ∷ [])) ++ ws)) =
        rw (==_self p) (ap (λ l. sequence e (holding q l)) (sym (snoc-append pre ws v))) in
      let (u, more, only, done) =
        configure_values-nodes L (put p o t) p e q (pre ++ (v ∷ [])) vs ws there fits
          (omega arith) in
      (
        u,
        rw (L.text-set (text_of P v) "value") (rw (one, next) more),
        Only-trans p (Only-put p t o) only,
        done ∙ ap (λ l. sequence e (holding q l)) (snoc-append pre vs v),
      )
