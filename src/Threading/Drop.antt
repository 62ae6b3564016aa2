-- ===== src/Threading/Drop.antt =====
-- DropBuffer of interfaces/xpcf/threading/DropBuffer.h: a push replaces what was not yet taken.
pub mod Latest
use xpcf.Base.{ℕ, ◌+◌, List, [], ◌∷◌, if◌then◌else◌, ltb, length}
use xpcf.Threading.Buffer.{Buffer, got}
use xpcf.Threading.Fifo.{Fifo, do_pop_front, data_back, release, clear}

module _ {A : Type 0} where
  unfoldable pub push : A → Fifo A → Fifo A
  push value f =
      let g : Fifo A =
        if ltb 0 f.nb_notified then record f { elements = []; nb_notified = 0 } else f in
      record g { elements = value ∷ g.elements; nb_notified = g.nb_notified + 1 }

  -- `doPop` is written out again as in the class above it.
  abbrev pub drop_buffer : Buffer A (Fifo A)
  unfolding push
  drop_buffer = record {
    nb_notified = λ f. f.nb_notified;
    is_released = λ f. f.released;
    do_pop = do_pop_front;
    data_back = data_back;
    data_size = λ f. length f.elements;
    push = λ value f. (got tt, push value f);
    release = release;
    clear = clear;
  }
