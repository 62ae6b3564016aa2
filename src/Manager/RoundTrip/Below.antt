-- ===== src/Manager/RoundTrip/Below.antt =====
-- The properties of a component: those of its root and of the structures below it.
use xpcf.Base.{
  ℕ, false, ◌≡◌, refl, Option, none, some, List, [], ◌∷◌, ◌⊎◌, inl, inr, ◌==◌, string_keys, subst,
  Among,
}
use xpcf.Property.{Value, structure}
use xpcf.Property.Store.{Object, wrapper, sequence, variant, Store, get_name}
use xpcf.Property.Maps.{at}
use xpcf.Manager.RoundTrip.Shape.{StorableObject}

module _ {F D : Type 0} where
  abbrev pub held_structure : Value F D → Option ℕ
  held_structure (structure k) = k
  held_structure _ = none

  -- The map of a property that is a structure.
  abbrev pub structure_of : Object F D → Option ℕ
  structure_of (wrapper w) = held_structure w.value
  structure_of (sequence e q) = none
  structure_of (variant p) = none

  -- The map `k` is `m` or lies below it.
  pub data Below (s : Store F D) : ℕ → ℕ → Type 0 where
    here : {m k : ℕ} → k ≡ m → Below s m k
    down :
        {m k l : ℕ} (p : ℕ)
        → Among p (s.node m).collection
        → structure_of (s.property p) ≡ some l
        → Below s l k
        → Below s m k

  -- Its map finds the property by its name, and what it holds can be written and read.
  pub record IsWritable (s : Store F D) (k p : ℕ) : Type 0 where
    pub named : (get_name (s.property p) == "") ≡ false
    pub found : at k (get_name (s.property p)) s ≡ some p
    pub holds : StorableObject (s.property p)

  abbrev pub AllWritable : Store F D → ℕ → Type 0
  AllWritable s m = (k p : ℕ) → Below s m k → Among p (s.node k).collection → IsWritable s k p

  -- A property, and those of its structure.
  abbrev pub Covers : Store F D → ℕ → ℕ → Type 0
  Covers s p q =
      (q ≡ p)
      ⊎ ((k : ℕ) × (l : ℕ) × (structure_of (s.property p) ≡ some k)
          × Below s k l
          × Among q (s.node l).collection)

  abbrev pub CoveredBy : Store F D → List ℕ → ℕ → Type 0
  CoveredBy s [] q = ⊥
  CoveredBy s (p ∷ ps) q = Covers s p q ⊎ CoveredBy s ps q

  Covers-CoveredBy :
      (s : Store F D) (ps : List ℕ) (p q : ℕ) → Among p ps → Covers s p q → CoveredBy s ps q
  Covers-CoveredBy s [] p q a c = absurd a
  Covers-CoveredBy s (x ∷ xs) p q (inl e) c = inl (subst (λ y. Covers s y q) e c)
  Covers-CoveredBy s (x ∷ xs) p q (inr a) c = inr (Covers-CoveredBy s xs p q a c)

  -- What lies below a map is covered by its properties.
  pub Below-CoveredBy :
      (s : Store F D) {m k : ℕ} (q : ℕ)
      → Below s m k
      → Among q (s.node k).collection
      → CoveredBy s (s.node m).collection q
  Below-CoveredBy s {m} q (here e) a =
      Covers-CoveredBy s (s.node m).collection q q (subst (λ j. Among q (s.node j).collection) e a)
        (inl refl)
  Below-CoveredBy s {m} {k} q (down {l = l} p among e below) a =
      Covers-CoveredBy s (s.node m).collection p q among (inr (l, k, e, below, a))
