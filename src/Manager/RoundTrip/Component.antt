-- ===== src/Manager/RoundTrip/Component.antt =====
-- All properties of a component through `serialize` and `configureElement`.
use xpcf.Base.{
  ℕ, false, ◌≡◌, refl, sym, ap, ◌∙◌, arith, Option, none, some, List, [], ◌∷◌, nat_eq, nat_keys,
  string_keys, length, All, subst,
}
use xpcf.Exec.{Result, ok, err, Exec, check}
use xpcf.Property.{
  ErrorCode, Value, integer, uinteger, long, ulong, charstr, unicodestr, floating, double,
  structure,
}
use xpcf.Property.Store.{Object, wrapper, sequence, variant, Store, size}
use xpcf.Manager.Platform.{Platform, Laws}
use xpcf.Manager.Serialize.{serialize_values, serialize_parameter}
use xpcf.Manager.RoundTrip.Shape.{Storable, StorableHeld, StorableObject, HasNumberOrText}
use xpcf.Manager.RoundTrip.Elements.{tagged, tagged-children}
use xpcf.Manager.RoundTrip.Single.{serialize_values-single}
use xpcf.Manager.RoundTrip.Many.{Fits, holding}
use xpcf.Manager.RoundTrip.Vector.{serialize_values-nodes, serialize_values-only}
use xpcf.Manager.RoundTrip.Parameter.{
  ReadsBack, single-ReadsBack, vector-ReadsBack, vector_of_one-ReadsBack,
}
use xpcf.Manager.RoundTrip.Structure.{NodeReadsBack, structure-made, structure-ReadsBack}
use xpcf.Manager.RoundTrip.Below.{structure_of, held_structure, IsWritable}

ok-eq : {A : Type 0} {a b : A} → ok a ≡ ok b → a ≡ b
ok-eq e = cc e

module _ {F D : Type 0} (P : Platform F D) (L : Laws P) (s : Store F D)
    (sn : ℕ → P.xml.Element → Result P.xml.Element)
    (cn : P.xml.Element → Option ℕ → Exec (Store F D) ErrorCode) where
  open P use {xml, set_attribute, insert_end_child}
  open xml use {Element, attribute, children}

  -- Structures are read back.
  abbrev pub NodesReadBack : ℕ → Type 0
  NodesReadBack p =
      (k : ℕ) (x y : Element)
      → structure_of (s.property p) ≡ some k
      → sn k x ≡ ok y
      → children x "property" ≡ []
      → NodeReadsBack P L s sn cn k x y

  values-ReadsBack :
      (m p : ℕ) (o : Object F D) (x : Element)
      → s.property p ≡ o
      → IsWritable s m p
      → NodesReadBack p
      → serialize_values P s sn p (size (s.property p)) 0 (tagged P (s.property p)) ≡ ok x
      → ReadsBack P L s sn cn m p x
  values-ReadsBack m p (variant v) x e fine nodes made = absurd (subst StorableObject e fine.holds)
  values-ReadsBack m p (sequence d q) x e fine nodes made =
      go q.values refl (subst StorableObject e fine.holds)
    where
      from : Element
      from = tagged P (s.property p)

      held : (vs : List (Value F D)) → q.values ≡ vs → s.property p ≡ sequence d (holding q vs)
      held vs ev = e ∙ ap (λ l. sequence d (holding q l)) ev

      rounds :
          (vs : List (Value F D))
          → q.values ≡ vs
          → serialize_values P s sn p (length vs) 0 from ≡ ok x
      rounds vs ev =
          subst (λ n. serialize_values P s sn p n 0 from ≡ ok x) (ap size e ∙ ap length ev) made

      several :
          (vs : List (Value F D))
          → q.values ≡ vs
          → HasNumberOrText q.type × All (Fits q.type) vs
          → nat_eq (length vs) 1 ≡ false
          → ReadsBack P L s sn cn m p x
      several vs ev (plain, fits) many =
          let written =
            serialize_values-nodes P s sn p d q [] vs from (held vs ev) fits
              (ap (λ n. nat_eq n 1) (ap size e ∙ ap length ev) ∙ many) in
          subst (ReadsBack P L s sn cn m p) (ok-eq (sym written ∙ rounds vs ev))
            (vector-ReadsBack P L s sn cn m p d (holding q vs) (held vs ev) plain fits fine)

      go :
          (vs : List (Value F D))
          → q.values ≡ vs
          → HasNumberOrText q.type × All (Fits q.type) q.values
          → ReadsBack P L s sn cn m p x
      go [] ev h = several [] ev (h.0, tt) refl
      go (v ∷ []) ev h =
          let fits : All (Fits q.type) (v ∷ []) = subst (All (Fits q.type)) ev h.1 in
          let written = serialize_values-only P s sn p d q v from (held (v ∷ []) ev) fits.0 in
          subst (ReadsBack P L s sn cn m p) (ok-eq (sym written ∙ rounds (v ∷ []) ev))
            (vector_of_one-ReadsBack P L s sn cn m p d v q (held (v ∷ []) ev) fits.0 fine)
      go (v ∷ w ∷ vs) ev h =
          several (v ∷ w ∷ vs) ev (h.0, subst (All (Fits q.type)) ev h.1) (ground arith)
  values-ReadsBack m p (wrapper w) x e fine nodes made =
      go w.value refl (subst StorableObject e fine.holds)
    where
      from : Element
      from = tagged P (s.property p)

      one : serialize_values P s sn p 1 0 from ≡ ok x
      one = subst (λ n. serialize_values P s sn p n 0 from ≡ ok x) (ap size e) made

      plain :
          (v : Value F D)
          → w.value ≡ v
          → Storable v
          → held_structure v ≡ none
          → ReadsBack P L s sn cn m p x
      plain v ev h flat =
          let kept : Storable w.value = subst Storable (sym ev) h in
          subst (ReadsBack P L s sn cn m p)
            (ok-eq (sym (serialize_values-single P s sn p w from e kept) ∙ one))
            (single-ReadsBack P L s sn cn m p w e kept
              (ap structure_of e ∙ ap held_structure ev ∙ flat) fine)

      go : (v : Value F D) → w.value ≡ v → StorableHeld w.value → ReadsBack P L s sn cn m p x
      go (structure (some k)) ev h = structure-ReadsBack P L s sn cn m p k w x e ev fine (
          nodes k from x (ap structure_of e ∙ ap held_structure ev)
            (structure-made P L s sn cn p k w x e ev made)
            (tagged-children P L (s.property p) "property"))
      go (structure none) ev h = absurd (subst StorableHeld ev h)
      go (integer z) ev h = plain (integer z) ev (subst StorableHeld ev h) refl
      go (long z) ev h = plain (long z) ev (subst StorableHeld ev h) refl
      go (uinteger z) ev h = plain (uinteger z) ev (subst StorableHeld ev h) refl
      go (ulong z) ev h = plain (ulong z) ev (subst StorableHeld ev h) refl
      go (charstr z) ev h = plain (charstr z) ev (subst StorableHeld ev h) refl
      go (unicodestr z) ev h = absurd (subst StorableHeld ev h)
      go (floating z) ev h = absurd (subst StorableHeld ev h)
      go (double z) ev h = absurd (subst StorableHeld ev h)

  pub parameter-ReadsBack :
      (m p : ℕ) (node node' : Element)
      → IsWritable s m p
      → NodesReadBack p
      → serialize_parameter P s sn p node ≡ ok node'
      → (x : Element) × (node' ≡ insert_end_child x node) × ReadsBack P L s sn cn m p x
  unfolding serialize_parameter
  parameter-ReadsBack m p node node' fine nodes made =
      go (serialize_values P s sn p (size (s.property p)) 0 (tagged P (s.property p))) refl made
    where
      go :
          (r : Result Element)
          → serialize_values P s sn p (size (s.property p)) 0 (tagged P (s.property p)) ≡ r
          → check r (λ done. ok (insert_end_child done node)) ≡ ok node'
          → (x : Element) × (node' ≡ insert_end_child x node) × ReadsBack P L s sn cn m p x
      go (ok x) e h = (x, sym (ok-eq h), values-ReadsBack m p (s.property p) x refl fine nodes e)
      go (err y) e h = cc h
