-- ===== src/Threading/Drop/Latest.antt =====
-- DropBuffer of interfaces/xpcf/threading as a place for one element.
use xpcf.Base.{Bool, ◌-◌, ◌≡◌, refl, ap, arith, List, [], ◌∷◌, inl, inr, List-cases, length}
use xpcf.Threading.Buffer.{Outcome, got, Call, run}
use xpcf.Threading.Queue.{Refines, Reads, queue_run}
use xpcf.Threading.Queue.Follow.{run-Refines}
use xpcf.Threading.Fifo.{Fifo, do_pop_front, release, clear}
use xpcf.Threading.Fifo.Refine.{Counted, last_of, data_back_lem}
use xpcf.Threading.Drop.{push, drop_buffer}

module _ {A : Type 0} where
  abbrev pub only : Bool → A → List A → Outcome (Unit {0}) × List A
  only ended x xs = (got tt, x ∷ [])

  push_lem : (x : A) (f : Fifo A) → Counted f → ((push x f).elements ≡ x ∷ []) × Counted (push x f)
  unfolding push
  push_lem x f valid = elim (List-cases f.elements) [
    | inl e ↦ ground (arith, valid, e, ap length e)
    | inr (y, ys, e) ↦ ground (arith, valid, e, ap length e)
  ]

  drop-Refines : Refines drop_buffer only Counted (λ f. f.elements)
  unfolding drop_buffer do_pop_front push release
  drop-Refines = record {
    count = λ f valid. valid;
    takes = λ f x xs valid e. (
      record f { elements = xs; nb_notified = f.nb_notified - 1 },
      rw (do_pop_front, e) refl,
      omega (arith, valid, ap length e),
      refl,
      refl,
    );
    adds = λ x f valid. let (e, v) = push_lem x f valid in (v, e, ground arith, refl);
    ends = λ f valid. (valid, refl, refl);
  }

  drop-Reads : Reads {A = A} drop_buffer last_of Counted (λ f. f.elements)
  unfolding drop_buffer clear
  drop-Reads = record {
    sees = λ f x xs valid e. data_back_lem f x xs e;
    size = λ f valid. refl;
    empties = λ f valid. (refl, refl, refl);
  }

  -- A DropBuffer in any state whose count is that of its elements answers every sequence of the calls
  -- of IFifo and of size() as a list does in which a push replaces all elements by its own: after a
  -- push, the pops hand out that element alone and once, and `back` reads it without taking it, until
  -- it is taken, replaced or cleared. Elements that were there before the first push are taken from
  -- the front, and `back` reads the last of them. Each call is one step.
  pub drop_run_lem :
      (cs : List (Call A)) (f : Fifo A)
      → Counted f
      → run drop_buffer cs f ≡ queue_run last_of only cs f.released f.elements
  unfolding drop_buffer
  drop_run_lem cs f valid =
      run-Refines drop_buffer last_of only Counted (λ g. g.elements) drop-Refines drop-Reads cs f
        valid
