-- ===== src/Base/Lists.antt =====
-- Sequences with native sizes and positions.
use Prim.Native.Nat.{ℕ, zero, suc, ◌+◌, ◌<◌}
use mathlib.Core.Path.{◌≡◌, refl, ap}
use mathlib.Core.Logic.{◌⊎◌, inl, inr, ◌≢◌}
use mathlib.Core.List.{List, [], ◌∷◌, ◌++◌, reverse, reverse-cons}
use mathlib.Core.Option.{Option, none, some}
use native.Mathlib.Omega.{arith}

module _ {ℓ} {A : Type ℓ} where
  abbrev pub length : List A → ℕ
  length [] = 0
  length (x ∷ xs) = suc (length xs)

  abbrev pub get_elem? : List A → ℕ → Option A
  get_elem? [] i = none
  get_elem? (x ∷ xs) zero = some x
  get_elem? (x ∷ xs) (suc i) = get_elem? xs i

  pub length-append : (xs ys : List A) → length (xs ++ ys) ≡ length xs + length ys
  length-append [] ys = omega arith
  length-append (x ∷ xs) ys = omega (arith, length-append xs ys)

-- A property of every element.
abbrev pub All {ℓ κ} : {A : Type ℓ} → (A → Type κ) → List A → Type κ
All P [] = Unit
All P (x ∷ xs) = P x × All P xs

module _ {ℓ} {A : Type ℓ} where
  -- A write out of range changes nothing.
  abbrev pub set : List A → ℕ → A → List A
  set [] i v = []
  set (x ∷ xs) zero v = v ∷ xs
  set (x ∷ xs) (suc i) v = x ∷ set xs i v

  pub length-set : (xs : List A) (i : ℕ) (v : A) → length (set xs i v) ≡ length xs
  length-set [] i v = omega arith
  length-set (x ∷ xs) zero v = omega arith
  length-set (x ∷ xs) (suc i) v = omega (arith, length-set xs i v)

  pub List-cases : (xs : List A) → (xs ≡ []) ⊎ ((x : A) × (ys : List A) × (xs ≡ x ∷ ys))
  List-cases [] = inl refl
  List-cases (x ∷ xs) = inr (x, xs, refl)

  pub length-reverse : (xs : List A) → length (reverse xs) ≡ length xs
  length-reverse [] = refl
  length-reverse (x ∷ xs) =
      rw (reverse-cons x xs) (omega (arith, length-append (reverse xs) (x ∷ []), length-reverse xs))

  pub get_elem?-set_same :
      (xs : List A) (i : ℕ) (v : A) → i < length xs → get_elem? (set xs i v) i ≡ some v
  get_elem?-set_same [] i v h = absurd (omega arith)
  get_elem?-set_same (x ∷ xs) zero v h = refl
  get_elem?-set_same (x ∷ xs) (suc i) v h = get_elem?-set_same xs i v (omega arith)

  pub get_elem?-set_other :
      (xs : List A) (i j : ℕ) (v : A) → i ≢ j → get_elem? (set xs i v) j ≡ get_elem? xs j
  get_elem?-set_other [] i j v h = refl
  get_elem?-set_other (x ∷ xs) zero zero v h = absurd (h refl)
  get_elem?-set_other (x ∷ xs) zero (suc j) v h = refl
  get_elem?-set_other (x ∷ xs) (suc i) zero v h = refl
  get_elem?-set_other (x ∷ xs) (suc i) (suc j) v h =
      get_elem?-set_other xs i j v (λ e. h (ap suc e))

  pub get_elem?-in_range :
      (xs : List A) (i : ℕ) → i < length xs → (v : A) × (get_elem? xs i ≡ some v)
  get_elem?-in_range [] i h = absurd (omega arith)
  get_elem?-in_range (x ∷ xs) zero h = (x, refl)
  get_elem?-in_range (x ∷ xs) (suc i) h = get_elem?-in_range xs i (omega arith)

  abbrev pub take : ℕ → List A → List A
  take zero xs = []
  take (suc n) [] = []
  take (suc n) (x ∷ xs) = x ∷ take n xs

  abbrev pub drop : ℕ → List A → List A
  drop zero xs = xs
  drop (suc n) [] = []
  drop (suc n) (x ∷ xs) = drop n xs

  pub take-length : (xs : List A) → take (length xs) xs ≡ xs
  take-length [] = refl
  take-length (x ∷ xs) = ap (λ ys. x ∷ ys) (take-length xs)

  pub take-drop-suc :
      (n i : ℕ) (xs : List A) {x : A}
      → get_elem? xs i ≡ some x
      → take (suc n) (drop i xs) ≡ x ∷ take n (drop (suc i) xs)
  take-drop-suc n i [] h = cc h
  take-drop-suc n zero (y ∷ xs) h = ground (arith, h)
  take-drop-suc n (suc i) (y ∷ xs) h = take-drop-suc n i xs h

module _ {ℓ} {A : Type ℓ} where
  pub get_elem?-middle :
      (pre post : List A) (x : A) → get_elem? (pre ++ (x ∷ post)) (length pre) ≡ some x
  get_elem?-middle [] post x = refl
  get_elem?-middle (y ∷ pre) post x = get_elem?-middle pre post x

  pub set-middle :
      (pre post : List A) (x y : A) → set (pre ++ (x ∷ post)) (length pre) y ≡ pre ++ (y ∷ post)
  set-middle [] post x y = refl
  set-middle (z ∷ pre) post x y = ap (λ zs. z ∷ zs) (set-middle pre post x y)

  pub snoc-append : (pre post : List A) (x : A) → (pre ++ (x ∷ [])) ++ post ≡ pre ++ (x ∷ post)
  snoc-append [] post x = refl
  snoc-append (y ∷ pre) post x = ap (λ ys. y ∷ ys) (snoc-append pre post x)

-- An element stands in the list.
abbrev pub Among : {A : Type 0} → A → List A → Type 0
Among p [] = ⊥
Among p (x ∷ xs) = (p ≡ x) ⊎ Among p xs

pub Among-snoc : (p : ℕ) (xs : List ℕ) (y : ℕ) → Among p (xs ++ (y ∷ [])) → Among p xs ⊎ (p ≡ y)
Among-snoc p [] y (inl e) = inr e
Among-snoc p [] y (inr a) = absurd a
Among-snoc p (x ∷ xs) y (inl e) = inl (inl e)
Among-snoc p (x ∷ xs) y (inr a) = elim (Among-snoc p xs y a) [ inl b ↦ inl (inr b) | inr e ↦ inr e ]

pub Among-last : (xs : List ℕ) (y : ℕ) → Among y (xs ++ (y ∷ []))
Among-last [] y = inl refl
Among-last (x ∷ xs) y = inr (Among-last xs y)
