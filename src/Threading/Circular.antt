-- ===== src/Threading/Circular.antt =====
-- SharedCircularBuffer of interfaces/xpcf/threading: a ring of a fixed number of slots, where a push
-- into a full ring overwrites the oldest element.
pub mod Window
pub mod Refine
use xpcf.Base.{
  ℕ, zero, suc, ◌+◌, ◌-◌, Bool, true, false, List, [], ◌∷◌, Option, none, some, if◌then◌else◌,
  nat_eq, ltb, length, get_elem?, set,
}
use xpcf.Threading.Buffer.{Buffer, got}
use xpcf.Threading.Fifo.{last}

pub record Circular (A : Type 0) : Type 0 where
  pub nb_notified : ℕ
  pub slots : List A
  pub released : Bool
  pub push_cursor : ℕ
  pub pop_cursor : ℕ

module _ {A : Type 0} where
  abbrev pub replicate : ℕ → A → List A
  replicate zero a = []
  replicate (suc n) a = a ∷ replicate n a

  -- The constructor; the slots hold default values.
  unfoldable pub init : ℕ → A → Circular A
  init size default = record {
    nb_notified = 0;
    slots = replicate size default;
    released = false;
    push_cursor = 0;
    pop_cursor = 0;
  }

  -- `increaseCursor`
  increase_cursor : Circular A → ℕ → ℕ
  increase_cursor c cursor = if nat_eq (cursor + 1) (length c.slots) then 0 else cursor + 1

  -- The first part of `push`: the write, the cursor and the count.
  write : A → Circular A → Circular A
  unfolding increase_cursor
  write value c = record c {
    slots = set c.slots c.push_cursor value;
    push_cursor =
        increase_cursor (record c { slots = set c.slots c.push_cursor value }) c.push_cursor;
    nb_notified = c.nb_notified + 1;
  }

  -- The second part: where the ring was full, its oldest element is given up.
  drop_oldest : Circular A → Circular A
  unfolding increase_cursor
  drop_oldest c =
      if ltb (length c.slots) c.nb_notified
      then record c { pop_cursor = increase_cursor c c.pop_cursor; nb_notified = c.nb_notified - 1 }
      else c

  unfoldable pub push : A → Circular A → Circular A
  unfolding write drop_oldest
  push value c = drop_oldest (write value c)

  do_pop : Circular A → Option (A × Circular A)
  unfolding increase_cursor
  do_pop c = elim (get_elem? c.slots c.pop_cursor) [
    | none ↦ none
    | some value ↦ some (
      value,
      record c { pop_cursor = increase_cursor c c.pop_cursor; nb_notified = c.nb_notified - 1 },
    )
  ]

  -- What is inherited reads and empties the slots, whatever the cursors are.
  last_slot : Circular A → Option A
  last_slot c = elim (last c.slots) [ none ↦ none | some (value, rest) ↦ some value ]

  clear : Circular A → Circular A
  clear c = record c { nb_notified = 0; slots = [] }

  abbrev pub shared_circular : Buffer A (Circular A)
  unfolding do_pop push last_slot clear
  shared_circular = record {
    nb_notified = λ c. c.nb_notified;
    is_released = λ c. c.released;
    do_pop = do_pop;
    data_back = last_slot;
    data_size = λ c. length c.slots;
    push = λ value c. (got tt, push value c);
    release = λ c. record c { released = true };
    clear = clear;
  }
