-- ===== src/Manager/Ends.antt =====
-- That writing and reading the properties of a component end.
use xpcf.Base.{
  ℕ, zero, suc, ◌<◌, Bool, true, false, ◌≡◌, ◌≢◌, refl, arith, Option, none, some, List, [], ◌∷◌,
  Bool-cases, inl, inr, Among, if◌then◌else◌, leb, Option-cases, get_elem?, not, ◌&&◌, ◌||◌, ltb,
}
use xpcf.Exec.{Result, ok, err, check, no_fuel, out_of_range, bad_any_cast, undefined}
use xpcf.Property.{
  PropertyType, none_type, integer_type, uinteger_type, long_type, ulong_type, float_type,
  double_type, charstr_type, unicodestr_type, structure_type, Value, integer, structure, long,
  uinteger, ulong, charstr, floating, double, unicodestr, same_type, is_number, type_of, cast_type,
}
use xpcf.Property.Variant.{any_cast, denies_reading}
use xpcf.Property.Variant
use xpcf.Property.Store.{Object, wrapper, sequence, variant, Store, get, get_type, size}
use xpcf.Manager.Platform.{Platform}
use xpcf.Manager.RoundTrip.Elements.{tagged}
use xpcf.Manager.Serialize.{
  serialize_map, serialize_parameter, serialize_values, serialize_round, serialize_structure,
  serialize_value, each, value_text, reads,
}

-- A result that does not say that the fuel was short.
abbrev pub Ends : {A : Type 0} → Result A → Type 0
Ends (ok _) = Unit {0}
Ends (err e) = e ≢ no_fuel

pub check-Ends :
    {A B : Type 0} (r : Result A) (f : A → Result B)
    → Ends r
    → ((a : A) → Ends (f a))
    → Ends (check r f)
check-Ends (ok a) f h k = k a
check-Ends (err e) f h k = h

pub outside : out_of_range ≢ no_fuel
outside e = cc e

pub if-Ends : {A : Type 0} (b : Bool) (x y : Result A) → Ends x → Ends y → Ends (if b then x else y)
if-Ends true x y h k = h
if-Ends false x y h k = k

module _ {F D : Type 0} where
  any_cast-Ends : (t : PropertyType) (o : Option (Option (Value F D))) → Ends (any_cast t o)
  any_cast-Ends t none = λ x. cc x
  any_cast-Ends t (some none) = λ x. cc x
  any_cast-Ends t (some (some v)) =
      if-Ends {A = Option (Value F D)} (same_type (type_of v) t) (ok (some v)) (err bad_any_cast) tt
        (λ x. cc x)

  held-Ends :
      (o : Option (Value F D))
      → Ends {A = Option (Value F D)} (elim o [ none ↦ err out_of_range | some v ↦ ok (some v) ])
  held-Ends none = λ x. cc x
  held-Ends (some v) = tt

  pub get-Ends : (t : PropertyType) (i : ℕ) (o : Object F D) → Ends (get t i o)
  unfolding get
  get-Ends t i (wrapper w) = elim (Bool-cases (same_type t (type_of w.value))) [
    | inr e ↦ rw e tt
    | inl e ↦ rw e (elim (Bool-cases (same_type t structure_type)) [
      | inl f ↦ rw f tt
      | inr f ↦ rw f (elim (Bool-cases (leb 1 i)) [ inl g ↦ rw g outside | inr g ↦ rw g tt ])
    ])
  ]
  get-Ends t i (sequence e q) = elim (Bool-cases (same_type t q.type)) [
    | inr f ↦ rw f tt
    | inl f ↦
        rw f (elim (Option-cases (get_elem? q.values i)) [
          | inl g ↦ rw g outside
          | inr (v, g) ↦ rw g tt
        ])
  ]
  get-Ends t i (variant p) =
      if-Ends {A = Option (Value F D)}
        (not (same_type p.type (cast_type t))
          || (is_number t && ltb (Variant.size p) i)
          || (not (same_type t structure_type) && denies_reading p.access))
        (ok none) (any_cast t (get_elem? p.queue i)) tt (any_cast-Ends t (get_elem? p.queue i))

module _ {F D : Type 0} (P : Platform F D) (s : Store F D) where
  open P use {xml}
  open xml use {Element}

  -- The map `k` is the structure that a property of `m` holds at some place.
  abbrev pub Holds : ℕ → ℕ → Type 0
  Holds m k =
      (p : ℕ) × (i : ℕ) × Among p (s.node m).collection
      × (get structure_type i (s.property p) ≡ ok (some (structure (some k))))

  value_text-Ends : (t : PropertyType) (v : Option (Value F D)) → Ends (value_text P t v)
  value_text-Ends charstr_type none = λ x. cc x
  value_text-Ends none_type v = tt
  value_text-Ends unicodestr_type v = tt
  value_text-Ends integer_type none = tt
  value_text-Ends uinteger_type none = tt
  value_text-Ends long_type none = tt
  value_text-Ends ulong_type none = tt
  value_text-Ends float_type none = tt
  value_text-Ends double_type none = tt
  value_text-Ends structure_type none = tt
  value_text-Ends t (some (integer z)) = tt
  value_text-Ends t (some (long z)) = tt
  value_text-Ends t (some (uinteger z)) = tt
  value_text-Ends t (some (ulong z)) = tt
  value_text-Ends t (some (charstr z)) = tt
  value_text-Ends t (some (floating z)) = tt
  value_text-Ends t (some (double z)) = tt
  value_text-Ends t (some (unicodestr z)) = tt
  value_text-Ends t (some (structure z)) = tt

  reads-Ends : (t : PropertyType) (i p : ℕ) → Ends (reads P s t i p)
  reads-Ends none_type i p = tt
  reads-Ends unicodestr_type i p = tt
  reads-Ends integer_type i p = get-Ends integer_type i (s.property p)
  reads-Ends t i p = get-Ends t i (s.property p)

  value-Ends : (p i : ℕ) (x : Element) → Ends (serialize_value P s p i x)
  unfolding serialize_value
  value-Ends p i x =
      let t = get_type (s.property p) in
      check-Ends (check (reads P s t i p) (value_text P t)) _
        (check-Ends (reads P s t i p) (value_text P t) (reads-Ends t i p) (value_text-Ends t))
        (λ text. tt)

  module _ (sn : ℕ → Element → Result Element) (p : ℕ)
      (below : (k i : ℕ) (x : Element)
        → get structure_type i (s.property p) ≡ ok (some (structure (some k)))
        → Ends (sn k x)) where
    structure-Ends : (i : ℕ) (x : Element) → Ends (serialize_structure P s sn p i x)
    unfolding serialize_structure
    structure-Ends i x =
        go (get structure_type i (s.property p)) refl (get-Ends structure_type i (s.property p))
      where
        node :
            (v : Option (Value F D))
            → get structure_type i (s.property p) ≡ ok v
            → Ends {A = Element} (elim v [ some (structure (some m)) ↦ sn m x | _ ↦ err undefined ])
        node (some (structure (some m))) e = below m i x e
        node none e = λ y. cc y
        node (some (structure none)) e = λ y. cc y
        node (some (integer z)) e = λ y. cc y
        node (some _) e = λ y. cc y

        go :
            (r : Result (Option (Value F D)))
            → get structure_type i (s.property p) ≡ r
            → Ends r
            → Ends {A = Element}
                (check r (λ v. elim v [ some (structure (some m)) ↦ sn m x | _ ↦ err undefined ]))
        go (err y) e h = h
        go (ok v) e h = node v e

    round-Ends : (i : ℕ) (x : Element) → Ends (serialize_round P s sn p i x)
    unfolding serialize_round
    round-Ends i x = if-Ends _ _ _ (structure-Ends i x) (value-Ends p i x)

    values-Ends : (left i : ℕ) (x : Element) → Ends (serialize_values P s sn p left i x)
    unfolding serialize_values
    values-Ends zero i x = tt
    values-Ends (suc left) i x =
        check-Ends (serialize_round P s sn p i x) (serialize_values P s sn p left (suc i))
          (round-Ends i x) (values-Ends left (suc i))

    parameter-Ends : (x : Element) → Ends (serialize_parameter P s sn p x)
    unfolding serialize_parameter
    parameter-Ends x =
        check-Ends (serialize_values P s sn p (size (s.property p)) 0 (tagged P (s.property p))) _
          (values-Ends (size (s.property p)) 0 (tagged P (s.property p))) (λ done. tt)

  each-Ends :
      (f : ℕ → Element → Result Element) (ps : List ℕ) (x : Element)
      → ((p : ℕ) (y : Element) → Among p ps → Ends (f p y))
      → Ends (each P s f ps x)
  each-Ends f [] x h = tt
  each-Ends f (p ∷ ps) x h =
      check-Ends (f p x) (each P s f ps) (h p x (inl refl))
        (λ y. each-Ends f ps y (λ q z a. h q z (inr a)))

  -- Writing a component ends with a document or an exception: where the maps of the properties can be
  -- ranked so that a structure ranks below the map whose property holds it, a depth above the rank of the
  -- component's map is enough.
  pub serialize_map-Ends :
      (rank : ℕ → ℕ)
      → ((m k : ℕ) → Holds m k → rank k < rank m)
      → (fuel m : ℕ) (x : Element) → rank m < fuel
      → Ends (serialize_map P s fuel m x)
  unfolding serialize_map
  serialize_map-Ends rank falls zero m x h = absurd (omega arith)
  serialize_map-Ends rank falls (suc fuel) m x h =
      each-Ends (serialize_parameter P s (serialize_map P s fuel)) (s.node m).collection x (λ p y a.
        parameter-Ends (serialize_map P s fuel) p
          (λ k i z e.
            let less = falls m k (p, i, a, e) in
            serialize_map-Ends rank falls fuel k z (omega arith))
          y)
