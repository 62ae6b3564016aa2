-- ===== src/Manager/RoundTrip/Many.antt =====
-- A property of a vector: each of its values is a <value> node, or the attribute if there is one.
use xpcf.Base.{
  true, ◌≡◌, refl, sym, arith, some, List, [], ◌∷◌, ◌++◌, string_keys, nat_keys, length,
  length-append, get_elem?-middle, set-middle, ltb,
}
use xpcf.Exec.{ok}
use xpcf.Property.{
  PropertyType, Value, integer, uinteger, long, ulong, charstr, unicodestr, floating, double,
  structure, type_of, same_type,
}
use xpcf.Property.Sequence.{Sequence}
use xpcf.Property.Store.{Object, wrapper, sequence, variant, get, set}
use xpcf.Manager.RoundTrip.Shape.{Storable, Shaped}

module _ {F D : Type 0} where
  abbrev pub Fits : PropertyType → Value F D → Type 0
  Fits type v = Storable v × (type_of v ≡ type)

  abbrev pub holding : Sequence F D → List (Value F D) → Sequence F D
  holding q vs = record q { values = vs }

  same_kind :
      (v : Value F D)
      → Storable v
      → (type : PropertyType) → type_of v ≡ type
      → same_type (type_of v) type ≡ true
  same_kind (integer z) h type e = rw (sym e) refl
  same_kind (long z) h type e = rw (sym e) refl
  same_kind (uinteger z) h type e = rw (sym e) refl
  same_kind (ulong z) h type e = rw (sym e) refl
  same_kind (charstr z) h type e = rw (sym e) refl
  same_kind (unicodestr z) h type e = absurd h
  same_kind (floating z) h type e = absurd h
  same_kind (double z) h type e = absurd h
  same_kind (structure z) h type e = absurd h

  pub get_middle :
      (e : Value F D) (q : Sequence F D) (pre post : List (Value F D)) (v : Value F D)
      → Fits q.type v
      → get (type_of v) (length pre) (sequence e (holding q (pre ++ (v ∷ post)))) ≡ ok (some v)
  unfolding get
  get_middle e q pre post v (h, k) =
      rw (same_kind v h q.type k) (rw (get_elem?-middle pre post v) refl)

  pub set_middle :
      (e : Value F D) (q : Sequence F D) (pre post : List (Value F D)) (w v : Value F D)
      → Fits q.type v
      → set (length pre) v (sequence e (holding q (pre ++ (w ∷ post))))
        ≡ (ok tt, sequence e (holding q (pre ++ (v ∷ post))))
  unfolding set
  set_middle e q pre post w v (h, k) =
      let inside : ltb (length pre) (length (pre ++ (w ∷ post))) ≡ true =
        ground (arith, length-append pre (w ∷ post)) in
      rw (same_kind v h q.type k) (rw inside (rw (set-middle pre post w v) refl))

  -- An object of the shape of a vector holds as many values, in the same vector.
  pub Shaped-sequence :
      (e : Value F D) (q : Sequence F D) (o : Object F D)
      → Shaped (sequence e q) o
      → (ws : List (Value F D)) × (o ≡ sequence e (holding q ws)) × (length ws ≡ length q.values)
  Shaped-sequence e q (wrapper w) h = absurd h
  Shaped-sequence e q (variant p) h = absurd h
  Shaped-sequence e q (sequence d r) (same, n, a, t, l) =
      (r.values, ground (arith, same, n, a, t), l)

  pub set_only :
      (e : Value F D) (q : Sequence F D) (ws : List (Value F D)) (v : Value F D)
      → Fits q.type v
      → length ws ≡ 1
      → set 0 v (sequence e (holding q ws)) ≡ (ok tt, sequence e (holding q (v ∷ [])))
  set_only e q [] v fit one = absurd (omega arith)
  set_only e q (w ∷ []) v fit one = set_middle e q [] [] w v fit
  set_only e q (w ∷ x ∷ ws) v fit one = absurd (omega arith)
