-- ===== src/Collection.antt =====
-- Collection, Enumerator and BlockEnumerator of interfaces/xpcf/collection. The sequence, a vector or
-- a deque, is a list; an enumerator refers to it, so its calls take it as an argument. The overloads
-- for `const char *` do the same with copies of the texts.
pub mod Laws
pub mod Iterate
use xpcf.Base.{
  ℕ, zero, suc, ◌+◌, ◌-◌, ◌%◌, ◌^◌, Bool, true, false, not, List, [], ◌∷◌, ◌++◌, Option, none, some,
  if◌then◌else◌, ltb, ◌==◌, Key, length, get_elem?,
}
use xpcf.Exec.{Result, ok, err, check, out_of_range, no_fuel}

module _ {A : Type 0} where
  unfoldable pub add : A → List A → List A
  add value xs = xs ++ (value ∷ [])

  -- `size()`, which narrows the sequence's size to 32 bits
  unfoldable pub size : List A → ℕ
  size xs = length xs % 2 ^ 32

module _ {A : Type 0} ⦃e : Key A⦄ where
  unfoldable pub contains : A → List A → Bool
  contains value [] = false
  contains value (x ∷ xs) = if x == value then true else contains value xs

  -- `std::remove` and the `erase` of what it leaves behind
  unfoldable pub without : A → List A → List A
  without value [] = []
  without value (x ∷ xs) = let rest = without value xs in if x == value then rest else x ∷ rest

  unfoldable pub remove : A → List A → Bool × List A
  unfolding contains without
  remove value xs = if not (contains value xs) then (false, xs) else (true, without value xs)

-- An enumerator of either class: `block_size` is `m_size` of a BlockEnumerator, and `offset` is zero
-- in a plain one. The position is `m_index + 1`, since `m_index` starts at -1.
pub record Enumerator : Type 0 where
  pub offset : ℕ
  pub block_size : Option ℕ
  pub position : ℕ
  pub end_reached : Bool

-- `getEnumerator()`
unfoldable pub get_enumerator : Enumerator
get_enumerator = record { offset = 0; block_size = none; position = 0; end_reached = false }

unfoldable pub reset : Enumerator → Enumerator
reset it = record it { end_reached = false; position = it.offset }

module _ {A : Type 0} where
  -- `getEnumerator(offset, chunkSize)`; the sum is one of 32-bit numbers.
  unfoldable pub get_block_enumerator : List A → ℕ → ℕ → Result Enumerator
  get_block_enumerator xs offset chunk_size =
      let size = (offset + chunk_size) % 2 ^ 32 in
      if ltb (length xs) size
      then err out_of_range
      else ok (record {
        offset = offset;
        block_size = some size;
        position = offset;
        end_reached = false;
      })

  unfoldable pub compute_size : List A → Enumerator → ℕ
  compute_size xs it = elim it.block_size [ none ↦ length xs | some size ↦ size ]

  unfoldable pub move_next : List A → Enumerator → Bool × Enumerator
  unfolding compute_size
  move_next xs it =
      if ltb it.position (compute_size xs it)
      then (true, record it { position = it.position + 1 })
      else (false, record it { end_reached = true })

  -- `m_sequence.at(m_index)`; -1 is converted to a number past the end.
  unfoldable pub current : List A → Enumerator → Result A
  current xs it = elim it.position [
    | zero ↦ err out_of_range
    | suc index ↦ elim (get_elem? xs index) [ none ↦ err out_of_range | some x ↦ ok x ]
  ]

  -- A range-based `for` by `begin` and `end` of IEnumerator.h: the loop ends where `operator!=` finds
  -- `endReached`. The elements that the body sees, over a bound on the turns.
  unfoldable pub loop : ℕ → List A → Enumerator → Result (List A)
  unfolding current move_next
  loop zero xs it = err no_fuel
  loop (suc fuel) xs it =
      let rest = loop fuel xs (move_next xs it).1 in
      if it.end_reached then ok [] else check (current xs it) (λ x. check rest (λ ys. ok (x ∷ ys)))

  unfoldable pub for_each : ℕ → List A → Enumerator → Result (List A)
  unfolding loop move_next reset
  for_each fuel xs it = loop fuel xs (move_next xs (reset it)).1
