-- ===== src/Threading/Bounded.antt =====
-- SharedBuffer of interfaces/xpcf/threading/SharedBuffer.h: a SharedFifo of at most a number of
-- elements, where a push waits for room.
pub mod Refine
use xpcf.Base.{
  ℕ, ◌+◌, Bool, true, false, not, ◌&&◌, ◌||◌, Option, none, some, if◌then◌else◌, ltb, leb, nat_eq,
  length,
}
use xpcf.Threading.Buffer.{Buffer, Outcome, blocked, aborted, got}
use xpcf.Threading.Fifo.{Fifo, init, do_pop, data_back, release, clear}
use xpcf.Threading.Fifo

pub record SharedBuffer (A : Type 0) : Type 0 where
  pub fifo : Fifo A
  pub max_size : ℕ
  pub buffered_start_offset : ℕ
  pub started : Bool

module _ {A : Type 0} where
  unfoldable pub make_buffer : ℕ → ℕ → SharedBuffer A
  make_buffer max start_at = record {
    fifo = init;
    max_size = max;
    buffered_start_offset = if ltb max start_at then max else start_at;
    started = nat_eq start_at 0;
  }

  unfoldable pub is_full : SharedBuffer A → Bool
  is_full b = leb b.max_size b.fifo.nb_notified

  -- A push says whether it must wait or was aborted.
  unfoldable pub push : A → SharedBuffer A → Outcome (Unit {0}) × SharedBuffer A
  unfolding is_full Fifo.push
  push value b =
      if not b.fifo.released && is_full b
      then (blocked, b)
      else if b.fifo.released && is_full b
      then (aborted, b)
      else (
        got tt,
        record b {
          fifo = Fifo.push value b.fifo;
          started = b.started || leb b.buffered_start_offset (b.fifo.nb_notified + 1);
        },
      )

  pub do_pop_notify : SharedBuffer A → Option (A × SharedBuffer A)
  unfolding do_pop
  do_pop_notify b = elim (do_pop b.fifo) [
    | none ↦ none
    | some (value, rest) ↦ some (value, record b { fifo = rest })
  ]

  abbrev pub shared_buffer : Buffer A (SharedBuffer A)
  unfolding do_pop_notify push data_back release clear
  shared_buffer = record {
    nb_notified = λ b. b.fifo.nb_notified;
    is_released = λ b. b.fifo.released;
    do_pop = do_pop_notify;
    data_back = λ b. data_back b.fifo;
    data_size = λ b. length b.fifo.elements;
    push = push;
    release = λ b. record b { fifo = release b.fifo };
    clear = λ b. record b { fifo = clear b.fifo };
  }
