-- ===== src/Manager/RoundTrip/Shape.antt =====
-- Two states of the properties of a component, which differ in the values of the variables only, and
-- the step from one towards the other.
use xpcf.Base.{
  ℕ, false, ◌≡◌, refl, sym, ap, ◌∙◌, arith, some, All, length, inl, inr, ◌⊎◌, ◌<◌, ◌==◌,
  string_keys, nat_eq, Bool-cases, subst, ◌^◌, ℤ, pos, negsuc,
}
use xpcf.Property.{
  PropertyType, integer_type, uinteger_type, long_type, ulong_type, charstr_type, Value, integer,
  uinteger, long, ulong, charstr, unicodestr, floating, double, structure, type_of,
}
use xpcf.Property.Numerals.{InInt64}
use xpcf.Property.Store.{Object, wrapper, sequence, variant, Store, get_type, put}

abbrev pub InInt32 : ℤ → Type 0
InInt32 (pos n) = n < 2 ^ 31
InInt32 (negsuc n) = n < 2 ^ 31

abbrev pub HasNumberOrText : PropertyType → Type 0
HasNumberOrText integer_type = Unit {0}
HasNumberOrText uinteger_type = Unit {0}
HasNumberOrText long_type = Unit {0}
HasNumberOrText ulong_type = Unit {0}
HasNumberOrText charstr_type = Unit {0}
HasNumberOrText _ = ⊥

module _ {F D : Type 0} where
  -- The structures stay where they are.
  abbrev pub SameKind : Value F D → Value F D → Type 0
  SameKind (structure a) v = v ≡ structure a
  SameKind v w = type_of w ≡ type_of v

  -- The second object is the first but for the values of the variable.
  abbrev pub Shaped : Object F D → Object F D → Type 0
  Shaped (wrapper w) (wrapper v) =
      (v.name ≡ w.name) × (v.access ≡ w.access) × SameKind w.value v.value
  Shaped (sequence e q) (sequence d r) =
      (d ≡ e)
      × (r.name ≡ q.name)
      × (r.access ≡ q.access)
      × (r.type ≡ q.type)
      × (length r.values ≡ length q.values)
  Shaped (variant p) (variant q) = q ≡ p
  Shaped _ _ = ⊥

  pub Shaped-refl : (o : Object F D) → Shaped o o
  Shaped-refl (wrapper w) = (refl, refl, kind w.value)
    where
      kind : (v : Value F D) → SameKind v v
      kind (structure a) = refl
      kind _ = refl
  Shaped-refl (sequence e q) = (refl, refl, refl, refl, refl)
  Shaped-refl (variant p) = refl

  pub Shaped-type : (o p : Object F D) → Shaped o p → get_type p ≡ get_type o
  Shaped-type (wrapper w) (wrapper v) (n, a, k) = held w.value k
    where
      held : (x : Value F D) → SameKind x v.value → type_of v.value ≡ type_of x
      held (structure a) e = ap type_of e
      held (integer _) e = e
      held (long _) e = e
      held (uinteger _) e = e
      held (ulong _) e = e
      held (charstr _) e = e
      held (unicodestr _) e = e
      held (floating _) e = e
      held (double _) e = e
  Shaped-type (sequence e q) (sequence d r) h = h.3
  Shaped-type (variant p) (variant q) h = ap (λ o. o.type) h
  Shaped-type (wrapper w) (sequence d r) h = absurd h
  Shaped-type (wrapper w) (variant q) h = absurd h
  Shaped-type (sequence e q) (wrapper v) h = absurd h
  Shaped-type (sequence e q) (variant r) h = absurd h
  Shaped-type (variant p) (wrapper v) h = absurd h
  Shaped-type (variant p) (sequence d r) h = absurd h

  -- The same maps, and objects of the same shape.
  pub record SameShape (s t : Store F D) : Type 0 where
    pub nodes : t.node ≡ s.node
    pub objects : (a : ℕ) → Shaped (s.property a) (t.property a)

  -- From `t` to `u` objects change to what they are in `s` at most.
  pub record Towards (s t u : Store F D) : Type 0 where
    pub nodes : u.node ≡ t.node
    pub objects : (a : ℕ) → (u.property a ≡ t.property a) ⊎ (u.property a ≡ s.property a)

  pub Towards-refl : (s t : Store F D) → Towards s t t
  Towards-refl s t = record { nodes = refl; objects = λ a. inl refl }

  pub Towards-trans : {s t u v : Store F D} → Towards s t u → Towards s u v → Towards s t v
  Towards-trans {s} {t} {u} {v} p q = record {
    nodes = q.nodes ∙ p.nodes;
    objects = λ a. elim (q.objects a) [
      | inl e ↦ elim (p.objects a) [ inl d ↦ inl (e ∙ d) | inr d ↦ inr (e ∙ d) ]
      | inr e ↦ inr e
    ];
  }

  -- What is restored stays restored.
  pub Towards-keeps :
      {s t u : Store F D} (a : ℕ)
      → Towards s t u
      → t.property a ≡ s.property a
      → u.property a ≡ s.property a
  Towards-keeps a p e = elim (p.objects a) [ inl d ↦ d ∙ e | inr d ↦ d ]

  pub Towards-SameShape : {s t u : Store F D} → Towards s t u → SameShape s t → SameShape s u
  Towards-SameShape {s} {t} {u} p h = record {
    nodes = p.nodes ∙ h.nodes;
    objects = λ a. elim (p.objects a) [
      | inl e ↦ subst (λ o. Shaped (s.property a) o) (sym e) (h.objects a)
      | inr e ↦ subst (λ o. Shaped (s.property a) o) (sym e) (Shaped-refl (s.property a))
    ];
  }

  -- Storing the object that `s` has.
  pub Towards-put : (s t : Store F D) (a : ℕ) → Towards s t (put a (s.property a) t)
  Towards-put s t a = record {
    nodes = refl;
    objects = λ b. elim (Bool-cases (nat_eq a b)) [
      | inl e ↦ let same : a ≡ b = ground (arith, e) in inr (rw e (ap s.property same))
      | inr e ↦ inl (rw e refl)
    ];
  }

  -- The values that are written and read back unchanged: the texts of the others lose something, or
  -- are not read at all.
  abbrev pub Storable : Value F D → Type 0
  Storable (integer z) = InInt32 z
  Storable (uinteger n) = n < 2 ^ 32
  Storable (long z) = InInt64 z
  Storable (ulong n) = n < 2 ^ 64
  Storable (charstr s) = (s == "") ≡ false
  Storable _ = ⊥

  abbrev pub StorableHeld : Value F D → Type 0
  StorableHeld (structure (some k)) = Unit {0}
  StorableHeld v = Storable v

  -- An object whose values are: one variable, a structure, or a vector.
  abbrev pub StorableObject : Object F D → Type 0
  StorableObject (wrapper w) = StorableHeld w.value
  StorableObject (sequence e q) =
      HasNumberOrText q.type × All (λ v. Storable v × (type_of v ≡ q.type)) q.values
  StorableObject (variant p) = ⊥

module _ {F D : Type 0} where
  pub type-Storable : (v : Value F D) → Storable v → HasNumberOrText (type_of v)
  type-Storable (integer z) h = tt
  type-Storable (long z) h = tt
  type-Storable (uinteger z) h = tt
  type-Storable (ulong z) h = tt
  type-Storable (charstr z) h = tt
  type-Storable (unicodestr z) h = absurd h
  type-Storable (floating z) h = absurd h
  type-Storable (double z) h = absurd h
  type-Storable (structure z) h = absurd h
