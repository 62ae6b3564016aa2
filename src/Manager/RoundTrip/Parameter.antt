-- ===== src/Manager/RoundTrip/Parameter.antt =====
-- One property through `serializeParameter` and `configureProperty`.
use xpcf.Base.{
  ℕ, String, ◌≡◌, refl, sym, ap, ◌∙◌, arith, Option, none, [], ◌∷◌, inl, inr, nat_eq, nat_keys,
  string_keys, ==_self, All, map, subst, Bool-cases,
}
use xpcf.Exec.{Result, ok, Exec}
use xpcf.Property.{ErrorCode, success, Value, type_of}
use xpcf.Property.Wrapper.{Wrapper}
use xpcf.Property.Sequence.{Sequence}
use xpcf.Property.Store.{Object, wrapper, sequence, Store, PropertyMap, get_name, get_type, put}
use xpcf.Map
use xpcf.Property.Maps.{at}
use xpcf.Manager.Platform.{Platform, Laws}
use xpcf.Manager.Configure.{configure_property, configure_found}
use xpcf.Manager.RoundTrip.Shape.{Shaped, SameShape, Storable, HasNumberOrText, type-Storable}
use xpcf.Manager.RoundTrip.Values.{text_of, configure_value-text}
use xpcf.Manager.RoundTrip.Elements.{
  Tagged, tagged, tagged-Tagged, tagged-value, tagged-children, Tagged-set_value, Reads,
  configure_property-found, configure_found-nodes, configure_found-attribute,
}
use xpcf.Manager.RoundTrip.Single.{found-single}
use xpcf.Property.Frame.{Only, Only-put}
use xpcf.Manager.RoundTrip.Many.{Shaped-sequence, set_only, Fits, holding}
use xpcf.Manager.RoundTrip.Vector.{
  with_nodes, value_node, configure_values-nodes, Tagged-with_nodes, attribute-with_nodes,
  children-with_nodes,
}
use xpcf.Manager.RoundTrip.Below.{Covers, structure_of, IsWritable}

pub at-nodes :
    {F D : Type 0} (m : ℕ) (n : String) (s t : Store F D) → t.node ≡ s.node → at m n t ≡ at m n s
unfolding at
at-nodes m n s t e = ap (λ (f : ℕ → PropertyMap). Map.lookup (f m).property_map n) e

module _ {F D : Type 0} (P : Platform F D) (L : Laws P) (s : Store F D)
    (sn : ℕ → P.xml.Element → Result P.xml.Element)
    (cn : P.xml.Element → Option ℕ → Exec (Store F D) ErrorCode) where
  open P use {xml, set_attribute, insert_end_child}
  open xml use {Element, attribute, children}

  -- What has to hold of the element that was made for a property.
  pub record ReadsBack (m p : ℕ) (x : Element) : Type 0 where
    pub tags : Tagged P (s.property p) x
    pub reads :
        (t : Store F D) → SameShape s t → Reads (configure_property P cn m x) s t (Covers s p)

  -- An element that sets one property, no structure, to what it is in `s`.
  settled :
      (m p : ℕ) (x : Element)
      → IsWritable s m p
      → structure_of (s.property p) ≡ none
      → Tagged P (s.property p) x
      → ((t : Store F D)
          → SameShape s t
          → (u : Store F D) × (configure_found P cn x p t ≡ (ok success, u))
            × Only p t u
            × (u.property p ≡ s.property p))
      → ReadsBack m p x
  settled m p x w flat tags set = record {
    tags = tags;
    reads = λ t shape.
        let (u, e, only, done) = set t shape in
        (
          u,
          configure_property-found P cn m p s x t u tags w.named
              (at-nodes m (get_name (s.property p)) s t shape.nodes ∙ w.found) e,
          record {
            nodes = only.nodes;
            objects = λ a. elim (Bool-cases (nat_eq p a)) [
              | inl h ↦
                  let same : p ≡ a = ground (arith, h) in
                  inr (subst (λ b. u.property b ≡ s.property b) same done)
              | inr h ↦ inl (only.others a h)
            ];
          },
          λ q c. elim c [
            | inl e ↦ subst (λ b. u.property b ≡ s.property b) (sym e) done
            | inr (k, l, h, below, a) ↦ cc (flat, h)
          ],
        );
  }

  pub single-ReadsBack :
      (m p : ℕ) (w : Wrapper F D)
      → s.property p ≡ wrapper w
      → Storable w.value
      → structure_of (s.property p) ≡ none
      → IsWritable s m p
      → ReadsBack m p (set_attribute "value" (text_of P w.value) (tagged P (s.property p)))
  single-ReadsBack m p w e h flat fine =
      let text = text_of P w.value in
      let from = tagged P (s.property p) in
      let tags = Tagged-set_value P L (s.property p) from text (tagged-Tagged P L (s.property p)) in
      settled m p (set_attribute "value" text from) fine flat tags (λ t shape. (
        put p (wrapper w) t,
        found-single P s cn p w t (set_attribute "value" text from) e h
            (subst (λ o. Shaped o (t.property p)) e (shape.objects p))
            (subst (λ o. Tagged P o (set_attribute "value" text from)) e tags)
            (rw (L.attribute-set "value" "value" text from) refl),
        Only-put p t (wrapper w),
        rw (==_self p) (sym e),
      ))

  -- A vector whose size is not 1.
  pub vector-ReadsBack :
      (m p : ℕ) (e : Value F D) (q : Sequence F D)
      → s.property p ≡ sequence e q
      → HasNumberOrText q.type
      → All (Fits q.type) q.values
      → IsWritable s m p
      → ReadsBack m p (with_nodes P q.values (tagged P (s.property p)))
  vector-ReadsBack m p e q h plain fits fine =
      let from = tagged P (s.property p) in
      let x = with_nodes P q.values from in
      let tags =
        Tagged-with_nodes P L (s.property p) q.values from (tagged-Tagged P L (s.property p)) in
      let plain_here : HasNumberOrText (get_type (s.property p)) = rw h plain in
      let none_there : attribute x "value" ≡ none =
        attribute-with_nodes P L "value" q.values from ∙ tagged-value P L (s.property p) in
      let nodes : children x "value" ≡ map (value_node P) q.values =
        children-with_nodes P L q.values from
        ∙ rw (tagged-children P L (s.property p) "value") refl in
      settled m p x fine (ap structure_of h) tags (λ t shape.
        let (ws, there, size_same) =
          Shaped-sequence e q (t.property p)
            (subst (λ o. Shaped o (t.property p)) h (shape.objects p)) in
        let (u, read, only, done) =
          configure_values-nodes P L t p e q [] q.values ws there fits size_same in
        (
          u,
          configure_found-nodes P (s.property p) plain_here cn x p t tags none_there
              ∙ rw nodes read,
          only,
          done ∙ sym h,
        ))

  -- A vector of one value.
  pub vector_of_one-ReadsBack :
      (m p : ℕ) (e v : Value F D) (q : Sequence F D)
      → s.property p ≡ sequence e (holding q (v ∷ []))
      → Fits q.type v
      → IsWritable s m p
      → ReadsBack m p (set_attribute "value" (text_of P v) (tagged P (s.property p)))
  vector_of_one-ReadsBack m p e v q h fit fine =
      let text = text_of P v in
      let from = tagged P (s.property p) in
      let x = set_attribute "value" text from in
      let tags = Tagged-set_value P L (s.property p) from text (tagged-Tagged P L (s.property p)) in
      let type_here : get_type (s.property p) ≡ type_of v = ap get_type h ∙ sym fit.1 in
      let plain_here : HasNumberOrText (get_type (s.property p)) =
        subst HasNumberOrText (sym type_here) (type-Storable v fit.0) in
      settled m p x fine (ap structure_of h) tags (λ t shape.
        let o : Object F D = sequence e (holding q (v ∷ [])) in
        let alike = subst (λ o. Shaped o (t.property p)) h (shape.objects p) in
        let (ws, there, size_same) = Shaped-sequence e (holding q (v ∷ [])) (t.property p) alike in
        (
          put p o t,
          configure_found-attribute P (s.property p) plain_here cn x p t tags text
                (rw (L.attribute-set "value" "value" text from) refl)
              ∙ configure_value-text P p 0 t o v fit.0 (ap get_type there ∙ sym fit.1)
                  (rw there (set_only e q ws v fit size_same)) (sym fit.1),
          Only-put p t o,
          rw (==_self p) (sym h),
        ))
