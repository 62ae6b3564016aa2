-- ===== src/Collection/Iterate.antt =====
-- What a `for` over an enumerator of interfaces/xpcf/collection sees.
use xpcf.Base.{
  ℕ, zero, suc, ◌+◌, ◌-◌, ◌%◌, ◌^◌, ◌<◌, ◌≤◌, ◌≡◌, refl, ap, ◌∙◌, arith, Bool, true, false, List,
  [], Option, none, some, if◌then◌else◌, ltb, length, get_elem?, take, drop, take-length,
  take-drop-suc, get_elem?-in_range, inl, inr, Bool-cases,
}
use xpcf.Exec.{Result, ok, err, check, out_of_range}
use xpcf.Collection.{
  Enumerator, get_enumerator, get_block_enumerator, compute_size, move_next, current, reset, loop,
  for_each,
}

module _ {A : Type 0} (xs : List A) (o : ℕ) (s : Option ℕ) where
  abbrev at : ℕ → Bool → Enumerator
  at position ended = record {
    offset = o;
    block_size = s;
    position = position;
    end_reached = ended;
  }

  loop-ended : (fuel p : ℕ) → 0 < fuel → loop fuel xs (at p true) ≡ ok []
  unfolding loop
  loop-ended zero p h = absurd (omega arith)
  loop-ended (suc fuel) p h = refl

  current_lem : (p : ℕ) {x : A} → get_elem? xs p ≡ some x → current xs (at (suc p) false) ≡ ok x
  unfolding current
  current_lem p there = rw (current, there) refl

  moved :
      (p : ℕ) → p < compute_size xs (at 0 false) → (move_next xs (at p false)).1 ≡ at (suc p) false
  unfolding move_next compute_size
  moved p h =
      let test : ltb p (compute_size xs (at 0 false)) ≡ true = ground arith in
      let next : p + 1 ≡ suc p = omega arith in rw (test, next) refl

  stopped : (p : ℕ) → compute_size xs (at 0 false) ≤ p → (move_next xs (at p false)).1 ≡ at p true
  unfolding move_next compute_size
  stopped p h =
      let test : ltb p (compute_size xs (at 0 false)) ≡ false = ground arith in rw test refl

  -- From an element on, with k more after it.
  loop_lem :
      (k fuel p : ℕ)
      → compute_size xs (at 0 false) ≡ suc (p + k)
      → p + k < length xs
      → suc k < fuel
      → loop fuel xs (at (suc p) false) ≡ ok (take (suc k) (drop p xs))
  unfolding loop
  loop_lem k zero p limit inside h = absurd (omega arith)
  loop_lem zero (suc fuel) p limit inside h =
      let (x, there) = get_elem?-in_range xs p (omega arith) in
      let last = loop-ended fuel (suc p) (omega arith) in
      rw (current_lem p there, stopped (suc p) (omega arith), last, take-drop-suc 0 p xs there) refl
  loop_lem (suc k) (suc fuel) p limit inside h =
      let (x, there) = get_elem?-in_range xs p (omega arith) in
      let rest = loop_lem k fuel (suc p) (omega arith) (omega arith) (omega arith) in
      rw (current_lem p there, moved (suc p) (omega arith), rest, take-drop-suc (suc k) p xs there)
        refl

  -- The whole loop over a block of the sequence.
  for_each_lem :
      (n fuel : ℕ)
      → compute_size xs (at 0 false) ≡ o + n
      → o + n ≤ length xs
      → n + 1 < fuel
      → for_each fuel xs (at o false) ≡ ok (take n (drop o xs))
  unfolding for_each reset
  for_each_lem zero fuel limit inside h =
      rw (stopped o (omega arith)) (loop-ended fuel o (omega arith))
  for_each_lem (suc n) fuel limit inside h =
      rw (moved o (omega arith)) (loop_lem n fuel o (omega arith) (omega arith) (omega arith))

module _ {A : Type 0} (xs : List A) where
  -- A `for` over the enumerator of a collection sees its elements in order and ends.
  pub for_each-get_enumerator :
      (fuel : ℕ) → length xs + 1 < fuel → for_each fuel xs get_enumerator ≡ ok xs
  unfolding get_enumerator compute_size
  for_each-get_enumerator fuel h =
      for_each_lem xs 0 none (length xs) fuel (omega arith) (omega arith) h ∙ ap ok (take-length xs)

  -- `getEnumerator(offset, chunkSize)`, and a `for` over what it returns.
  abbrev pub for_block : ℕ → ℕ → ℕ → Result (List A)
  for_block fuel offset chunk_size =
      check (get_block_enumerator xs offset chunk_size) (for_each fuel xs)

  -- Where the sum of the offset and the size fits 32 bits, a block past the end is refused, and a
  -- `for` over any other sees exactly the block's elements.
  pub for_block_lem :
      (fuel offset chunk_size : ℕ)
      → offset + chunk_size < 2 ^ 32
      → chunk_size + 1 < fuel
      → for_block fuel offset chunk_size ≡ (
          if ltb (length xs) (offset + chunk_size)
          then err out_of_range
          else ok (take chunk_size (drop offset xs)))
  unfolding get_block_enumerator compute_size
  for_block_lem fuel offset chunk_size fits h =
      let same : (offset + chunk_size) % 2 ^ 32 ≡ offset + chunk_size = omega arith in
      elim (Bool-cases (ltb (length xs) (offset + chunk_size))) [
        | inl past ↦ rw (same, past) refl
        | inr inside ↦
            rw (same, inside)
              (for_each_lem xs offset (some (offset + chunk_size)) chunk_size fuel (omega arith)
                (ground arith) h)
      ]

  -- Where the sum does not fit, it wraps: a block that ends far behind the sequence is accepted, and
  -- a `for` over it sees nothing.
  pub for_block-wraps :
      (fuel offset chunk_size : ℕ)
      → offset < 2 ^ 32
      → chunk_size < 2 ^ 32
      → 2 ^ 32 ≤ offset + chunk_size
      → offset + chunk_size - 2 ^ 32 ≤ length xs
      → 0 < fuel
      → for_block fuel offset chunk_size ≡ ok []
  unfolding get_block_enumerator for_each reset compute_size
  for_block-wraps fuel offset chunk_size ho hc over small h =
      let wrapped : (offset + chunk_size) % 2 ^ 32 ≡ offset + chunk_size - 2 ^ 32 = omega arith in
      let accepted : ltb (length xs) (offset + chunk_size - 2 ^ 32) ≡ false = ground arith in
      rw (wrapped, accepted)
        (rw (stopped xs offset (some (offset + chunk_size - 2 ^ 32)) offset (omega arith))
          (loop-ended xs offset (some (offset + chunk_size - 2 ^ 32)) fuel offset h))
