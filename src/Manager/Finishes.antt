-- ===== src/Manager/Finishes.antt =====
-- That configuring the properties of a component ends.
use xpcf.Base.{
  ℕ, zero, suc, ◌<◌, String, Bool, true, false, not, ◌&&◌, ◌≢◌, refl, arith, Option, none, some,
  List, [], ◌∷◌, Bool-cases, Option-cases, inl, inr, Among, if◌then◌else◌, leb, ltb, nat_eq, length,
  string_keys, ◌==◌, ◌^◌,
}
use xpcf.Exec.{
  Result, ok, err, Exec, continue, rethrow, no_fuel, configuration, invalid_argument, logic_error,
  access_denied,
}
use xpcf.Property.{
  ErrorCode, success, PropertyType, Value, type_of, same_type, is_text, structure_type, structure,
  integer_type, uinteger_type, long_type, ulong_type, charstr_type, unicodestr_type, float_type,
  double_type, none_type, long, ulong, charstr, floating, double,
}
use xpcf.Property.Numerals.{
  Read, read_magnitude, stoll, stoull, sign, signed, unsigned, then_sign, codes, skip_spaces,
}
use xpcf.Property.Variant
use xpcf.Property.Variant.{write_at, denies_writing, check_type}
use xpcf.Property.Store.{Object, wrapper, sequence, variant, Store, get, set, set_at, get_type}
use xpcf.Property.Maps.{at}
use xpcf.Manager.Platform.{Platform}
use xpcf.Manager.Ends.{Ends, if-Ends, outside, get-Ends}
use xpcf.Manager.Configure.{
  bad_value, if_success, while_success, convert, convert_value, all_read, configure_value,
  configure_values, configure_structure, configure_found, configure_property, configure_element,
  or_empty, is_empty,
}

rethrow-Ends : {S A : Type 0} (p : Result A × S) → Ends p.0 → Ends (rethrow p).0
rethrow-Ends (ok a, s) h = tt
rethrow-Ends (err no_fuel, s) h = h
rethrow-Ends (err e, s) h = λ x. cc x

bad_value-Ends : {S A : Type 0} (p : Result A × S) → Ends p.0 → Ends (bad_value p).0
bad_value-Ends (ok a, s) h = tt
bad_value-Ends (err invalid_argument, s) h = λ x. cc x
bad_value-Ends (err e, s) h = h

continue-Ends :
    {S A B : Type 0} (p : Result A × S) (f : A → Exec S B)
    → Ends p.0
    → ((a : A) (s : S) → Ends (f a s).0)
    → Ends (continue p f).0
continue-Ends (ok a, s) f h k = k a s
continue-Ends (err e, s) f h k = h

if_success-Ends :
    {S : Type 0} (c : ErrorCode) (more : Exec S ErrorCode)
    → ((s : S) → Ends (more s).0)
    → (s : S) → Ends (if_success c more s).0
if_success-Ends success more h s = h s
if_success-Ends c more h s = tt

while-Ends :
    {S A : Type 0} (f : A → Exec S ErrorCode) (xs : List A)
    → ((x : A) → Among x xs → (s : S) → Ends (f x s).0)
    → (s : S) → Ends (while_success f xs s).0
unfolding while_success
while-Ends f [] h s = tt
while-Ends f (x ∷ xs) h s =
    continue-Ends (f x s) (λ c. if_success c (while_success f xs)) (h x (inl refl) s)
      (λ c. if_success-Ends c (while_success f xs) (while-Ends f xs (λ y a. h y (inr a))))

no_number : invalid_argument ≢ no_fuel
no_number e = cc e

magnitude-Ends : (cs : List ℕ) → Ends (read_magnitude cs)
unfolding read_magnitude
magnitude-Ends [] = no_number
magnitude-Ends (c ∷ cs) = elim (Bool-cases (nat_eq c 48)) [
  | inl e ↦ rw e tt
  | inr e ↦ rw e (search (if-Ends, no_number, tt))
]

then_sign-Ends :
    {A : Type 0} (f : Bool → Read ℕ → Result A) (b : Bool) (r : Result (Read ℕ))
    → Ends r
    → ((n : Read ℕ) → Ends (f b n))
    → Ends (then_sign f b r)
then_sign-Ends f b (ok n) h k = k n
then_sign-Ends f b (err e) h k = h

signed-Ends : (b : Bool) (n : Read ℕ) → Ends (signed b n)
signed-Ends true n = elim (Bool-cases (leb n.value (2 ^ 63))) [
  | inl e ↦ rw e tt
  | inr e ↦ rw e outside
]
signed-Ends false n = elim (Bool-cases (ltb n.value (2 ^ 63))) [
  | inl e ↦ rw e tt
  | inr e ↦ rw e outside
]

unsigned-Ends : (b : Bool) (n : Read ℕ) → Ends (unsigned b n)
unsigned-Ends b n = elim (Bool-cases (leb (2 ^ 64) n.value)) [
  | inl e ↦ rw e outside
  | inr e ↦ rw e tt
]

stoll-Ends : (t : String) → Ends (stoll t)
unfolding stoll
stoll-Ends t =
    let p = sign (skip_spaces (codes t)) in
    then_sign-Ends signed p.0 (read_magnitude p.1) (magnitude-Ends p.1) (signed-Ends p.0)

stoull-Ends : (t : String) → Ends (stoull t)
unfolding stoull
stoull-Ends t =
    let p = sign (skip_spaces (codes t)) in
    then_sign-Ends unsigned p.0 (read_magnitude p.1) (magnitude-Ends p.1) (unsigned-Ends p.0)

refused : access_denied ≢ no_fuel
refused e = cc e

no_text : logic_error ≢ no_fuel
no_text e = cc e

rejected : configuration ≢ no_fuel
rejected e = cc e

module _ {F D : Type 0} where
  write_at-Ends : (i : ℕ) (v : Value F D) (p : Variant.Variant F D) → Ends (write_at i v p).0
  write_at-Ends i v p = elim (Bool-cases (ltb i (Variant.size p))) [
    | inl e ↦ rw e tt
    | inr e ↦ rw e outside
  ]

  set-Ends : (i : ℕ) (v : Value F D) (o : Object F D) → Ends (set i v o).0
  unfolding set
  set-Ends i v (wrapper w) = elim (Bool-cases (same_type (type_of v) (type_of w.value))) [
    | inr e ↦ rw e tt
    | inl e ↦ rw e (elim (Bool-cases (is_text (type_of v))) [
      | inl f ↦ rw f tt
      | inr f ↦ rw f (elim (Bool-cases (leb 1 i)) [ inl g ↦ rw g outside | inr g ↦ rw g tt ])
    ])
  ]
  set-Ends i v (sequence k q) = elim (Bool-cases (same_type (type_of v) q.type)) [
    | inr e ↦ rw e tt
    | inl e ↦
        rw e
          (elim (Bool-cases (ltb i (length q.values))) [ inl g ↦ rw g tt | inr g ↦ rw g outside ])
  ]
  set-Ends i (structure none) (variant p) = λ x. cc x
  set-Ends i v (variant p) = elim (Bool-cases (denies_writing p.access)) [
    | inl e ↦ rw e refused
    | inr e ↦ rw e (write_at-Ends i v (if is_text (type_of v) then check_type (type_of v) p else p))
  ]

  set_at-Ends : (a i : ℕ) (v : Value F D) (s : Store F D) → Ends (set_at a i v s).0
  unfolding set_at
  set_at-Ends a i v s = set-Ends i v (s.property a)

-- Nested <property> nodes rank lower.
abbrev pub Ranks : {F D : Type 0} (P : Platform F D) → (P.xml.Element → ℕ) → Type 0
Ranks P depth = (e x : P.xml.Element) → Among x (P.xml.children e "property") → depth x < depth e

module _ {F D : Type 0} (P : Platform F D) (floats : (t : String) → Ends (P.stof t))
    (doubles : (t : String) → Ends (P.stod t)) where
  open P use {xml, get_text}
  open xml use {Element, attribute, children}

  convert-Ends :
      {A : Type 0} (r : Result (Read A)) (f : A → Value F D) (a i : ℕ) (s : Store F D)
      → Ends r
      → Ends (convert P r f a i s).0
  convert-Ends (ok r) f a i s h =
      continue-Ends (set_at a i (f r.value) s) _ (set_at-Ends a i (f r.value) s) (λ x t. tt)
  convert-Ends (err e) f a i s h = h

  convert_value-Ends :
      (t : PropertyType) (text : String) (a i : ℕ) (s : Store F D)
      → Ends (convert_value P t text a i s).0
  unfolding convert_value
  convert_value-Ends integer_type text a i s = convert-Ends (stoll text) _ a i s (stoll-Ends text)
  convert_value-Ends uinteger_type text a i s =
      convert-Ends (stoull text) _ a i s (stoull-Ends text)
  convert_value-Ends long_type text a i s = convert-Ends (stoll text) long a i s (stoll-Ends text)
  convert_value-Ends ulong_type text a i s =
      convert-Ends (stoull text) ulong a i s (stoull-Ends text)
  convert_value-Ends float_type text a i s = convert-Ends (P.stof text) floating a i s (floats text)
  convert_value-Ends double_type text a i s = convert-Ends (P.stod text) double a i s (doubles text)
  convert_value-Ends charstr_type text a i s =
      continue-Ends (set_at a i (charstr text) s) _ (set_at-Ends a i (charstr text) s) (λ x t. tt)
  convert_value-Ends unicodestr_type text a i s = tt
  convert_value-Ends none_type text a i s = tt
  convert_value-Ends structure_type text a i s = tt

  all_read-Ends : (a : ℕ) (o : Option (List ℕ)) (s : Store F D) → Ends (all_read P a o s).0
  all_read-Ends a none s = tt
  all_read-Ends a (some rest) s =
      elim (Bool-cases
        (not (is_empty rest) && not (same_type (get_type (s.property a)) charstr_type))) [
          | inl e ↦ rw e rejected
          | inr e ↦ rw e tt
        ]

  value-Ends : (t : String) (a i : ℕ) (s : Store F D) → Ends (configure_value P t a i s).0
  unfolding configure_value
  value-Ends t a i s = elim (Bool-cases (t == "")) [
    | inl e ↦ rw e rejected
    | inr e ↦
        let type = get_type (s.property a) in
        rw e (
          bad_value-Ends (continue (convert_value P type t a i s) (all_read P a)) (
            continue-Ends (convert_value P type t a i s) (all_read P a)
              (convert_value-Ends type t a i s) (all_read-Ends a)))
  ]

  values-Ends : (a i : ℕ) (xs : List Element) (s : Store F D) → Ends (configure_values P a i xs s).0
  unfolding configure_values
  values-Ends a i [] s = tt
  values-Ends a i (x ∷ xs) s = elim (Option-cases (get_text x)) [
    | inl e ↦ rw (e, configure_values) no_text
    | inr (t, e) ↦
        rw (e, configure_values)
          (continue-Ends (configure_value P t a i s)
            (λ c. if_success c (configure_values P a (suc i) xs)) (value-Ends t a i s)
            (λ c. if_success-Ends c (configure_values P a (suc i) xs) (values-Ends a (suc i) xs)))
  ]

  found-Ends :
      (f : Element → Option ℕ → Exec (Store F D) ErrorCode) (elt : Element)
      → ((parameters : Option ℕ) (s : Store F D) → Ends (f elt parameters s).0)
      → (p : ℕ) (s : Store F D) → Ends (configure_found P f elt p s).0
  unfolding configure_found configure_structure
  found-Ends f elt h p s = elim (Option-cases (attribute elt "type")) [
    | inl e ↦ rw (e, configure_found) no_text
    | inr (type, e) ↦
        rw (e, configure_found)
          (elim (Bool-cases (type == "")) [
            | inl g ↦ rw g rejected
            | inr g ↦ rw g (elim (Bool-cases (type == "structure")) [
              | inl k ↦
                  rw k (elim (Bool-cases (same_type (get_type (s.property p)) structure_type)) [
                    | inr l ↦ rw l rejected
                    | inl l ↦ rw l (
                        node (get structure_type 0 (s.property p))
                          (get-Ends structure_type 0 (s.property p)))
                  ])
              | inr k ↦ rw k (elim (Option-cases (attribute elt "value")) [
                | inr (v, l) ↦ rw l (value-Ends v p 0 s)
                | inl l ↦ rw l (values-Ends p 0 (children elt "value") s)
              ])
            ])
          ])
  ]
    where
      node :
          (r : Result (Option (Value F D)))
          → Ends r
          → Ends {A = ErrorCode} (
              let q : Result ErrorCode × Store F D = elim r [
                | ok (some (structure k)) ↦ f elt k s
                | ok _ ↦ f elt none s
                | err e ↦ (err e, s)
              ] in
              q.0)
      node (ok (some (structure k))) g = h k s
      node (ok none) g = h none s
      node (ok (some _)) g = h none s
      node (err e) g = g

  property-Ends :
      (f : Element → Option ℕ → Exec (Store F D) ErrorCode) (m : ℕ) (elt : Element)
      → ((parameters : Option ℕ) (s : Store F D) → Ends (f elt parameters s).0)
      → (s : Store F D) → Ends (configure_property P f m elt s).0
  unfolding configure_property
  property-Ends f m elt h s =
      let name = or_empty (attribute elt "name") in
      elim (Bool-cases (name == "")) [
        | inl e ↦ rw e tt
        | inr e ↦ rw e (elim (Option-cases (at m name s)) [
          | inl g ↦ rw g rejected
          | inr (p, g) ↦ rw g (rethrow-Ends (configure_found P f elt p s) (found-Ends f elt h p s))
        ])
      ]

  -- Reading the properties of an element ends with an answer or an exception: where the nested elements
  -- can be ranked, as those of a document can by their depth, a number above the rank is enough. The
  -- conversions of floats and doubles end.
  pub configure_element-Ends :
      (depth : Element → ℕ)
      → Ranks P depth
      → (fuel : ℕ) (elt : Element) (parameters : Option ℕ) (s : Store F D) → depth elt < fuel
      → Ends (configure_element P fuel elt parameters s).0
  unfolding configure_element
  configure_element-Ends depth falls zero elt parameters s h = absurd (omega arith)
  configure_element-Ends depth falls (suc fuel) elt none s h = tt
  configure_element-Ends depth falls (suc fuel) elt (some m) s h =
      while-Ends (configure_property P (configure_element P fuel) m) (children elt "property")
        (λ x a. property-Ends (configure_element P fuel) m x (λ parameters t.
          let less = falls elt x a in
          configure_element-Ends depth falls fuel x parameters t (omega arith)))
        s
