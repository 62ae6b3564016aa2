-- ===== src/Threading/Circular/Window.antt =====
-- Positions in the ring of a SharedCircularBuffer of interfaces/xpcf/threading, and what a run of
-- slots from one of them on holds.
use xpcf.Base.{
  ℕ, zero, suc, ◌+◌, ◌-◌, ◌≡◌, ◌≢◌, ◌<◌, ◌≤◌, refl, sym, ap, ◌∙◌, arith, List, [], ◌∷◌, ◌++◌,
  Option, none, some, if◌then◌else◌, ltb, nat_eq, length, get_elem?, set, get_elem?-set_same,
  get_elem?-set_other, get_elem?-in_range,
}

module _ (n : ℕ) where
  -- The slot after i, and the one that is d slots further, in a ring of n slots.
  abbrev pub next : ℕ → ℕ
  next i = if nat_eq (i + 1) n then 0 else i + 1

  abbrev pub further : ℕ → ℕ → ℕ
  further i d = if ltb (i + d) n then i + d else i + d - n

  pub next_lem : (i : ℕ) → i < n → next i < n
  next_lem i h = ground arith

  pub further-next : (i d : ℕ) → i < n → d < n → further (next i) d ≡ further i (suc d)
  further-next i d hi hd = ground arith

  pub further_other : (i d : ℕ) → i < n → suc d < n → further i (suc d) ≢ i
  further_other i d hi hd = ground arith

module _ {A : Type 0} where
  abbrev pub put : Option A → List A → List A
  put none xs = xs
  put (some v) xs = v ∷ xs

  -- The k elements from the slot i on.
  abbrev pub window : ℕ → List A → ℕ → ℕ → List A
  window n xs i zero = []
  window n xs i (suc k) = put (get_elem? xs i) (window n xs (next n i) k)

  module _ (n : ℕ) (xs : List A) (fits : length xs ≡ n) where
    pub length-window : (k i : ℕ) → i < n → length (window n xs i k) ≡ k
    length-window zero i hi = refl
    length-window (suc k) i hi =
        let (v, there) = get_elem?-in_range xs i (omega arith) in
        rw there (ap suc (length-window k (next n i) (next_lem n i hi)))

    module _ (v : A) (j : ℕ) where
      -- A write behind the window is not seen in it.
      pub window-set :
          (k d i : ℕ)
          → j ≡ further n i d
          → i < n
          → k ≤ d
          → d < n
          → window n (set xs j v) i k ≡ window n xs i k
      window-set zero d i e hi hk hd = refl
      window-set (suc k) zero i e hi hk hd = absurd (omega arith)
      window-set (suc k) (suc d) i e hi hk hd =
          let rest =
            window-set k d (next n i) (e ∙ sym (further-next n i d hi (omega arith)))
              (next_lem n i hi) (omega arith) (omega arith) in
          let other : j ≢ i = λ same. further_other n i d hi hd (sym e ∙ same) in
          rw (get_elem?-set_other xs j i v other, rest) refl

      -- A write right behind the window, and one slot more.
      pub window-push :
          (k i : ℕ)
          → j ≡ further n i k
          → i < n
          → k < n
          → window n (set xs j v) i (suc k) ≡ window n xs i k ++ (v ∷ [])
      window-push zero i e hi hk =
          let same : j ≡ i = e ∙ ground arith in
          rw (same, get_elem?-set_same xs i v (omega arith)) refl
      window-push (suc k) i e hi hk =
          let rest =
            window-push k (next n i) (e ∙ sym (further-next n i k hi (omega arith)))
              (next_lem n i hi) (omega arith) in
          let other : j ≢ i = λ same. further_other n i k hi hk (sym e ∙ same) in
          let (w, there) = get_elem?-in_range xs i (omega arith) in
          rw (get_elem?-set_other xs j i v other, rest, there) refl
