-- ===== src/Collection/Laws.antt =====
-- What a Collection of interfaces/xpcf/collection contains.
use xpcf.Base.{
  ◌≡◌, refl, sym, ap, ◌∙◌, arith, false, ◌||◌, List, [], ◌∷◌, if◌then◌else◌, ◌==◌, Key, inl, inr,
  Bool-cases,
}
use xpcf.Collection.{add, contains, without, remove}

module _ {A : Type 0} ⦃e : Key A⦄ where
  contains-add : (v w : A) (xs : List A) → contains w (add v xs) ≡ (contains w xs || (v == w))
  unfolding contains add
  contains-add v w [] = ground arith
  contains-add v w (x ∷ xs) = ground (arith, contains-add v w xs)

  contains-without :
      (v w : A) (xs : List A)
      → contains w (without v xs) ≡ (if v == w then false else contains w xs)
  unfolding contains without
  contains-without v w [] = ground arith
  contains-without v w (x ∷ xs) =
      let rest = contains-without v w xs in
      elim (Bool-cases (x == v)) [
        | inl p ↦
            let same : (x == w) ≡ (v == w) = ap (λ y. y == w) ((e.equal_iff x v).0 p) in
            rw p (ground (arith, rest, same))
        | inr p ↦ elim (Bool-cases (v == w)) [
          | inl q ↦
              let other : (x == w) ≡ false = ap (λ y. x == y) (sym ((e.equal_iff v w).0 q)) ∙ p in
              rw (p, q) (ground (arith, rest, other, q))
          | inr q ↦ rw (p, q) (ground (arith, rest, q))
        ]
      ]

  -- `remove` says whether the value was there, and takes out all of its copies and nothing else.
  pub remove_lem :
      (v w : A) (xs : List A)
      → let (found, ys) = remove v xs in
        (found ≡ contains v xs) × (contains w ys ≡ (if v == w then false else contains w xs))
  unfolding remove
  remove_lem v w xs = elim (Bool-cases (contains v xs)) [
    | inl h ↦ rw h (refl, contains-without v w xs)
    | inr h ↦ elim (Bool-cases (v == w)) [
      | inl q ↦
          let gone : contains w xs ≡ false =
            ap (λ y. contains y xs) (sym ((e.equal_iff v w).0 q)) ∙ h in
          rw (h, q) (refl, gone)
      | inr q ↦ rw (h, q) (refl, refl)
    ]
  ]
