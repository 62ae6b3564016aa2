-- ===== src/Threading/Fifo.antt =====
-- SharedFifo and SharedLifo of interfaces/xpcf/threading. The head of the list is the front of the
-- deque. `m_nbNotified` counts elements in memory, so it does not wrap.
pub mod Refine
use xpcf.Base.{ℕ, ◌+◌, ◌-◌, Bool, true, false, List, [], ◌∷◌, Option, none, some, length}
use xpcf.Threading.Buffer.{Buffer, got}

pub record Fifo (A : Type 0) : Type 0 where
  pub nb_notified : ℕ
  pub elements : List A
  pub released : Bool

module _ {A : Type 0} where
  unfoldable pub init : Fifo A
  init = record { nb_notified = 0; elements = []; released = false }

  -- `m_data.back()` and what `m_data.pop_back()` leaves
  unfoldable pub last : List A → Option (A × List A)
  last [] = none
  last (x ∷ xs) = elim (last xs) [ none ↦ some (x, []) | some (y, ys) ↦ some (y, x ∷ ys) ]

  unfoldable pub push : A → Fifo A → Fifo A
  push value f = record f { elements = value ∷ f.elements; nb_notified = f.nb_notified + 1 }

  -- `SharedFifo::doPop`
  unfoldable pub do_pop : Fifo A → Option (A × Fifo A)
  do_pop f = elim (last f.elements) [
    | none ↦ none
    | some (value, rest) ↦
        some (value, record f { elements = rest; nb_notified = f.nb_notified - 1 })
  ]

  -- `SharedLifo::doPop`
  unfoldable pub do_pop_front : Fifo A → Option (A × Fifo A)
  do_pop_front f = elim f.elements [
    | [] ↦ none
    | value ∷ rest ↦ some (value, record f { elements = rest; nb_notified = f.nb_notified - 1 })
  ]

  -- `m_data.back()`
  unfoldable pub data_back : Fifo A → Option A
  unfolding last
  data_back f = elim (last f.elements) [ none ↦ none | some (value, rest) ↦ some value ]

  unfoldable pub release : Fifo A → Fifo A
  release f = record f { released = true }

  -- The elements that `clear` drops are deleted first if they are pointers.
  unfoldable pub clear : Fifo A → Fifo A
  clear f = record f { nb_notified = 0; elements = [] }

  abbrev pub shared_fifo : Buffer A (Fifo A)
  unfolding do_pop data_back push release clear
  shared_fifo = record {
    nb_notified = λ f. f.nb_notified;
    is_released = λ f. f.released;
    do_pop = do_pop;
    data_back = data_back;
    data_size = λ f. length f.elements;
    push = λ value f. (got tt, push value f);
    release = release;
    clear = clear;
  }

  abbrev pub shared_lifo : Buffer A (Fifo A)
  unfolding do_pop_front data_back push release clear
  shared_lifo = record {
    nb_notified = λ f. f.nb_notified;
    is_released = λ f. f.released;
    do_pop = do_pop_front;
    data_back = data_back;
    data_size = λ f. length f.elements;
    push = λ value f. (got tt, push value f);
    release = release;
    clear = clear;
  }
