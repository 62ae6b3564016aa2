-- ===== src/Threading/Fifo/Refine.antt =====
-- SharedFifo, SharedLifo and DropBuffer of interfaces/xpcf/threading as sequences.
use mathlib.Core.List.{reverse-reverse, reverse-cons}
use xpcf.Base.{
  Bool, ◌-◌, ◌≡◌, refl, sym, ap, ◌∙◌, arith, List, [], ◌∷◌, ◌++◌, some, reverse, length,
  length-append, length-reverse,
}
use xpcf.Threading.Buffer.{Outcome, got, Call, run}
use xpcf.Threading.Queue.{Refines, Reads, queue_run}
use xpcf.Threading.Queue.Follow.{run-Refines}
use xpcf.Threading.Fifo.{
  Fifo, data_back, last, push, do_pop, do_pop_front, release, clear, shared_fifo, shared_lifo,
}

module _ {A : Type 0} where
  last-append : (xs : List A) (x : A) → last (xs ++ (x ∷ [])) ≡ some (x, xs)
  unfolding last
  last-append [] x = refl
  last-append (y ∷ xs) x = rw (last-append xs x) refl

  -- The count is that of the elements in the deque.
  abbrev pub Counted : Fifo A → Type 0
  Counted f = f.nb_notified ≡ length f.elements

  -- The front of the deque is the end of the queue.
  abbrev pub oldest_first : Fifo A → List A
  oldest_first f = reverse f.elements

  -- A push that never waits, here of a queue and below of a stack.
  abbrev pub add_last : Bool → A → List A → Outcome (Unit {0}) × List A
  add_last ended x xs = (got tt, xs ++ (x ∷ []))

  abbrev pub add_first : Bool → A → List A → Outcome (Unit {0}) × List A
  add_first ended x xs = (got tt, x ∷ xs)

  -- The oldest element of a queue, and that of a stack.
  abbrev pub head_of : A → List A → A
  head_of x xs = x

  abbrev pub last_of : A → List A → A
  last_of x [] = x
  last_of x (y ∷ ys) = last_of y ys

  last_of_lem : (x : A) (xs : List A) → (ys : List A) × (last (x ∷ xs) ≡ some (last_of x xs, ys))
  unfolding last
  last_of_lem x [] = ([], refl)
  last_of_lem x (y ∷ ys) = let (zs, e) = last_of_lem y ys in (x ∷ zs, rw e refl)

  -- The back of the deque, of whatever buffer keeps its elements in a `Fifo`.
  pub data_back_lem :
      (f : Fifo A) (x : A) (xs : List A) → f.elements ≡ x ∷ xs → data_back f ≡ some (last_of x xs)
  unfolding data_back
  data_back_lem f x xs e = rw (data_back, e, (last_of_lem x xs).1) refl

  pub data_back-oldest :
      (f : Fifo A) (x : A) (xs : List A) → oldest_first f ≡ x ∷ xs → data_back f ≡ some x
  unfolding data_back
  data_back-oldest f x xs e =
      let q : f.elements ≡ reverse xs ++ (x ∷ []) =
        sym (reverse-reverse f.elements) ∙ ap reverse e ∙ reverse-cons x xs in
      rw (data_back, q, last-append (reverse xs) x) refl

  -- `doPop` takes the oldest element.
  pub do_pop_lem :
      (f : Fifo A) (x : A) (xs : List A)
      → Counted f
      → oldest_first f ≡ x ∷ xs
      → let g : Fifo A = record f { elements = reverse xs; nb_notified = f.nb_notified - 1 } in
        (do_pop f ≡ some (x, g)) × Counted g × (oldest_first g ≡ xs)
  unfolding do_pop
  do_pop_lem f x xs valid e =
      let q : f.elements ≡ reverse xs ++ (x ∷ []) =
        sym (reverse-reverse f.elements) ∙ ap reverse e ∙ reverse-cons x xs in
      (
        rw (do_pop, q, last-append (reverse xs) x) refl,
        omega (arith, valid, ap length q, length-append (reverse xs) (x ∷ [])),
        reverse-reverse xs,
      )

  fifo-Refines : Refines shared_fifo add_last Counted oldest_first
  unfolding shared_fifo push release
  fifo-Refines = record {
    count = λ f valid. valid ∙ sym (length-reverse f.elements);
    takes = λ f x xs valid e.
        let (took, now, rest) = do_pop_lem f x xs valid e in
        (
          record f { elements = reverse xs; nb_notified = f.nb_notified - 1 },
          took,
          now,
          rest,
          refl,
        );
    adds = λ x f valid. (omega arith, reverse-cons x f.elements, refl, refl);
    ends = λ f valid. (valid, refl, refl);
  }

  fifo-Reads : Reads shared_fifo head_of Counted oldest_first
  unfolding shared_fifo clear
  fifo-Reads = record {
    sees = λ f x xs valid e. data_back-oldest f x xs e;
    size = λ f valid. sym (length-reverse f.elements);
    empties = λ f valid. (refl, refl, refl);
  }

  lifo-Refines : Refines shared_lifo add_first Counted (λ f. f.elements)
  unfolding shared_lifo do_pop_front push release
  lifo-Refines = record {
    count = λ f valid. valid;
    takes = λ f x xs valid e. (
      record f { elements = xs; nb_notified = f.nb_notified - 1 },
      rw (do_pop_front, e) refl,
      omega (arith, valid, ap length e),
      refl,
      refl,
    );
    adds = λ x f valid. (omega arith, refl, refl, refl);
    ends = λ f valid. (valid, refl, refl);
  }

  lifo-Reads : Reads shared_lifo last_of Counted (λ f. f.elements)
  unfolding shared_lifo clear
  lifo-Reads = record {
    sees = λ f x xs valid e. data_back_lem f x xs e;
    size = λ f valid. refl;
    empties = λ f valid. (refl, refl, refl);
  }

  -- A SharedFifo in any state whose count is that of its elements answers every sequence of the calls
  -- of IFifo and of size() as a queue does: a pop takes the elements in the order in which they were
  -- pushed, each once, and `back` reads the one that is next without taking it; on an empty queue both
  -- wait, and are aborted after a release, where `back(value)` answers true and writes nothing;
  -- `empty` and `size` are those of the queue, and `clear` empties it. Each call is one step.
  pub fifo_run_lem :
      (cs : List (Call A)) (f : Fifo A)
      → Counted f
      → run shared_fifo cs f ≡ queue_run head_of add_last cs f.released (oldest_first f)
  unfolding shared_fifo
  fifo_run_lem cs f valid =
      run-Refines shared_fifo head_of add_last Counted oldest_first fifo-Refines fifo-Reads cs f
        valid

  -- A SharedLifo in any state whose count is that of its elements answers every sequence of the calls
  -- of IFifo and of size() as a stack does, but for `back`: a pop takes the element that was pushed
  -- last, while `back()` and `back(value)` read the oldest element. They wait and are aborted as in a
  -- SharedFifo. Each call is one step.
  pub lifo_run_lem :
      (cs : List (Call A)) (f : Fifo A)
      → Counted f
      → run shared_lifo cs f ≡ queue_run last_of add_first cs f.released f.elements
  unfolding shared_lifo
  lifo_run_lem cs f valid =
      run-Refines shared_lifo last_of add_first Counted (λ g. g.elements) lifo-Refines lifo-Reads cs
        f valid
