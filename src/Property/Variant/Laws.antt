-- ===== src/Property/Variant/Laws.antt =====
-- What can be read back from a property of src/Property.cpp.
use xpcf.Base.{
  ℕ, String, true, false, ◌≡◌, ◌<◌, refl, arith, Option, none, some, List, [], ◌∷◌, length, ltb,
  get_elem?-set_same, Bool-cases, if◌then◌else◌, subst, sym, ◌==◌, string_keys, inl, inr, ◌⊎◌,
}
use xpcf.Exec.{ok}
use xpcf.Property.{
  PropertyType, none_type, integer_type, charstr_type, unicodestr_type, AccessSpecifier,
  property_inout, Value, charstr, type_of, same_type, is_text, cast_type, unicodestr, integer,
  uinteger, long, ulong, floating, double, structure,
}
use xpcf.Property.Variant.{
  Variant, fresh, clear, check_type, set, get, set_properties, create_instance, size, write_at,
  denies_writing,
}

-- The types that the setters give to a property.
abbrev pub IsTextOrNone : PropertyType → Type 0
IsTextOrNone none_type = Unit {0}
IsTextOrNone charstr_type = Unit {0}
IsTextOrNone unicodestr_type = Unit {0}
IsTextOrNone _ = ⊥

abbrev pub IsOther : PropertyType → Type 0
IsOther none_type = ⊥
IsOther charstr_type = ⊥
IsOther unicodestr_type = ⊥
IsOther _ = Unit {0}

-- No getter of a number or a structure asks for one of these types.
differ : (q t : PropertyType) → IsTextOrNone q → IsOther t → same_type q (cast_type t) ≡ false
differ none_type none_type h k = absurd k
differ none_type charstr_type h k = absurd k
differ none_type unicodestr_type h k = absurd k
differ none_type _ h k = refl
differ charstr_type none_type h k = absurd k
differ charstr_type charstr_type h k = absurd k
differ charstr_type unicodestr_type h k = absurd k
differ charstr_type _ h k = refl
differ unicodestr_type none_type h k = absurd k
differ unicodestr_type charstr_type h k = absurd k
differ unicodestr_type unicodestr_type h k = absurd k
differ unicodestr_type _ h k = refl
differ integer_type t h k = absurd h
differ _ t h k = absurd h

module _ {F D : Type 0} where
  -- Calls of setters; what they throw is caught by the caller.
  abbrev pub sets : List (ℕ × Value F D) → Variant F D → Variant F D
  sets [] p = p
  sets ((i, v) ∷ calls) p = sets calls (set i v p).1

  write_at-type : (i : ℕ) (v : Value F D) (p : Variant F D) → (write_at i v p).1.type ≡ p.type
  write_at-type i v p = elim (Bool-cases (ltb i (size p))) [ inl e ↦ rw e refl | inr e ↦ rw e refl ]

  check-IsTextOrNone :
      (t : PropertyType) (p : Variant F D)
      → IsTextOrNone t
      → IsTextOrNone p.type
      → IsTextOrNone (check_type t p).type
  unfolding check_type
  check-IsTextOrNone t p k h = elim (Bool-cases (same_type p.type t)) [
    | inl e ↦ rw e h
    | inr e ↦ rw e k
  ]

  set-IsTextOrNone :
      (i : ℕ) (v : Value F D) (p : Variant F D)
      → IsTextOrNone p.type
      → IsTextOrNone (set i v p).1.type
  unfolding set
  set-IsTextOrNone i (structure none) p h = h
  set-IsTextOrNone i v p h = elim (Bool-cases (denies_writing p.access)) [
    | inl e ↦ rw e h
    | inr e ↦ rw e (go v)
  ]
    where
      written :
          (x : Value F D) (q : Variant F D)
          → IsTextOrNone q.type
          → IsTextOrNone (write_at i x q).1.type
      written x q k = subst IsTextOrNone (sym (write_at-type i x q)) k

      go :
          (x : Value F D)
          → IsTextOrNone
              (write_at i x (if is_text (type_of x) then check_type (type_of x) p else p)).1.type
      go (charstr t) =
          written (charstr t) (check_type charstr_type p) (check-IsTextOrNone charstr_type p tt h)
      go (unicodestr t) =
          written (unicodestr t) (check_type unicodestr_type p)
            (check-IsTextOrNone unicodestr_type p tt h)
      go (integer z) = written (integer z) p h
      go (long z) = written (long z) p h
      go (uinteger z) = written (uinteger z) p h
      go (ulong z) = written (ulong z) p h
      go (floating z) = written (floating z) p h
      go (double z) = written (double z) p h
      go (structure z) = written (structure z) p h

  sets-IsTextOrNone :
      (calls : List (ℕ × Value F D)) (p : Variant F D)
      → IsTextOrNone p.type
      → IsTextOrNone (sets calls p).type
  sets-IsTextOrNone [] p h = h
  sets-IsTextOrNone ((i, v) ∷ calls) p h =
      sets-IsTextOrNone calls (set i v p).1 (set-IsTextOrNone i v p h)

  get_other :
      (t : PropertyType) (i : ℕ) (p : Variant F D)
      → IsOther t
      → IsTextOrNone p.type
      → get t i p ≡ ok none
  unfolding get
  get_other t i p h k = rw (differ p.type t k h) refl

  clear-IsTextOrNone : (p : Variant F D) → IsTextOrNone p.type → IsTextOrNone (clear p).type
  unfolding clear
  clear-IsTextOrNone p h = elim (Bool-cases (same_type p.type none_type)) [
    | inl e ↦ rw e h
    | inr e ↦ rw e tt
  ]

  made_type :
      (name : Option String) (n : ℕ) (a : AccessSpecifier) (p : Variant F D)
      → IsTextOrNone p.type
      → IsTextOrNone (set_properties name n a p).1.type
  unfolding set_properties
  made_type none n a p h = h
  made_type (some name) n a p h = elim (Bool-cases (name == "")) [
    | inl e ↦ rw e h
    | inr e ↦ rw e (clear-IsTextOrNone p h)
  ]

  -- A property that `CreateInstance` makes with a name never gives back a number or a structure:
  -- whatever values its setters are given, in whatever order, the getters of integers, floats and
  -- structures answer 0 or a null pointer, since no setter of theirs gives it a type.
  pub get-sets :
      (name : Option String) (n i : ℕ) (a : AccessSpecifier) (calls : List (ℕ × Value F D))
      (t : PropertyType)
      → IsOther t
      → get t i (sets calls (create_instance name n a)) ≡ ok none
  unfolding fresh create_instance
  get-sets name n i a calls t h =
      get_other t i (sets calls (set_properties name n a fresh).1) h
        (sets-IsTextOrNone calls (set_properties name n a fresh).1 (made_type name n a fresh tt))

  -- A text is read back where it was written, if the property may be read and written, has room there,
  -- and had no type or that of a text.
  pub get-set_text :
      (p : Variant F D) (i : ℕ) (t : String)
      → p.access ≡ property_inout
      → (p.type ≡ none_type) ⊎ (p.type ≡ charstr_type)
      → i < length p.queue
      → let (r, q) = set i (charstr t) p in
        (r ≡ ok tt) × (get charstr_type i q ≡ ok (some (charstr t)))
  unfolding set get check_type clear
  get-set_text p i t open_ (inl e) inside =
      let room : ltb i (length p.queue) ≡ true = ground arith in
      let back = get_elem?-set_same p.queue i (some (charstr t)) inside in
      rw (open_, e) (rw room (rw back (refl, refl)))
  get-set_text p i t open_ (inr e) inside =
      let room : ltb i (length p.queue) ≡ true = ground arith in
      let back = get_elem?-set_same p.queue i (some (charstr t)) inside in
      rw (open_, e) (rw room (rw back (refl, refl)))
