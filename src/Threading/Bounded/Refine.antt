-- ===== src/Threading/Bounded/Refine.antt =====
-- SharedBuffer of interfaces/xpcf/threading as a queue of bounded length.
use mathlib.Core.List.{reverse-cons}
use xpcf.Base.{
  ℕ, Bool, ◌+◌, ◌≡◌, ◌≤◌, refl, sym, ◌∙◌, arith, true, false, List, [], ◌∷◌, ◌++◌, if◌then◌else◌,
  ltb, leb, ◌||◌, length, length-reverse, reverse, ◌-◌, inl, inr, Bool-cases,
}
use xpcf.Threading.Buffer.{Outcome, blocked, aborted, got, Call, run, after}
use xpcf.Threading.Queue.{Refines, Reads, queue_run}
use xpcf.Threading.Queue.Follow.{run-Refines, after-Refines}
use xpcf.Threading.Fifo.{Fifo, do_pop, release, clear, init}
use xpcf.Threading.Fifo
use xpcf.Threading.Fifo.Refine.{Counted, oldest_first, do_pop_lem, head_of, data_back-oldest}
use xpcf.Threading.Bounded.{SharedBuffer, make_buffer, is_full, push, do_pop_notify, shared_buffer}

module _ {A : Type 0} where
  -- A push where there is no room waits, or is aborted after a release, and changes nothing.
  abbrev pub add_if_room : ℕ → Bool → A → List A → Outcome (Unit {0}) × List A
  add_if_room n ended x xs =
      if ltb (length xs) n
      then (got tt, xs ++ (x ∷ []))
      else (if ended then aborted else blocked, xs)

  abbrev pub IsBounded : ℕ → SharedBuffer A → Type 0
  IsBounded n b = Counted b.fifo × (b.max_size ≡ n) × (b.fifo.nb_notified ≤ n)

  abbrev pub waiting : SharedBuffer A → List A
  waiting b = oldest_first b.fifo

  -- Where a push ends, with room and without.
  abbrev pushed : A → SharedBuffer A → SharedBuffer A
  pushed x b = record b {
    fifo = Fifo.push x b.fifo;
    started = b.started || leb b.buffered_start_offset (b.fifo.nb_notified + 1);
  }

  push_room : (x : A) (b : SharedBuffer A) → is_full b ≡ false → push x b ≡ (got tt, pushed x b)
  unfolding push
  push_room x b h = elim (Bool-cases b.fifo.released) [
    | inl r ↦ rw (h, r) refl
    | inr r ↦ rw (h, r) refl
  ]

  push_full :
      (x : A) (b : SharedBuffer A)
      → is_full b ≡ true
      → push x b ≡ (if b.fifo.released then aborted else blocked, b)
  unfolding push
  push_full x b h = elim (Bool-cases b.fifo.released) [
    | inl r ↦ rw (push, h, r) refl
    | inr r ↦ rw (push, h, r) refl
  ]

  push_lem :
      (n : ℕ) (x : A) (b : SharedBuffer A)
      → IsBounded n b
      → let (o, d) = push x b in
        let (p, ys) = add_if_room n b.fifo.released x (waiting b) in
        IsBounded n d × (waiting d ≡ ys) × (d.fifo.released ≡ b.fifo.released) × (o ≡ p)
  unfolding Fifo.push is_full
  push_lem n x b (counted, bound, fits) =
      let count : b.fifo.nb_notified ≡ length (waiting b) =
        counted ∙ sym (length-reverse b.fifo.elements) in
      elim (Bool-cases (ltb (length (waiting b)) n)) [
        | inl h ↦
            let free : is_full b ≡ false = ground arith in
            rw (push_room x b free, h)
              ((omega arith, bound, ground arith), reverse-cons x b.fifo.elements, refl, refl)
        | inr h ↦
            let full : is_full b ≡ true = ground arith in
            rw (push_full x b full, h) ((counted, bound, fits), refl, refl, refl)
      ]

  shared_buffer-Refines : (n : ℕ) → Refines shared_buffer (add_if_room n) (IsBounded n) waiting
  unfolding shared_buffer do_pop_notify release
  shared_buffer-Refines n = record {
    count = λ b (counted, bound, fits). counted ∙ sym (length-reverse b.fifo.elements);
    takes = λ b x xs (counted, bound, fits) seen.
        let (took, now, rest) = do_pop_lem b.fifo x xs counted seen in
        let f : Fifo A = record b.fifo {
          elements = reverse xs;
          nb_notified = b.fifo.nb_notified - 1;
        } in
        (
          record b { fifo = f },
          rw (do_pop_notify, took) refl,
          (now, bound, omega arith),
          rest,
          refl,
        );
    adds = λ x b valid. push_lem n x b valid;
    ends = λ b valid. (valid, refl, refl);
  }

  shared_buffer-Reads : (n : ℕ) → Reads shared_buffer head_of (IsBounded n) waiting
  unfolding shared_buffer clear
  shared_buffer-Reads n = record {
    sees = λ b x xs valid e. data_back-oldest b.fifo x xs e;
    size = λ b valid. sym (length-reverse b.fifo.elements);
    empties = λ b (counted, bound, fits). ((refl, bound, omega arith), refl, refl);
  }

  -- A SharedBuffer made for `max` elements answers every sequence of the calls of IFifo and of size()
  -- as a queue does that takes an element only while it has fewer than `max`: a push where there is
  -- room returns, and one where there is none waits, or is aborted after a release, and leaves the
  -- queue as it is. Pops and `back` are as in a SharedFifo. After every sequence it holds at most
  -- `max` elements. Each call is one step.
  pub bounded_run_lem :
      (max start_at : ℕ) (cs : List (Call A))
      → (run shared_buffer cs (make_buffer max start_at)
          ≡ queue_run head_of (add_if_room max) cs false [])
        × (length (after shared_buffer cs (make_buffer max start_at)).fifo.elements ≤ max)
  unfolding shared_buffer make_buffer init
  bounded_run_lem max start_at cs =
      let made = make_buffer max start_at in
      let (counted, bound, fits) =
        after-Refines shared_buffer head_of (add_if_room max) (IsBounded max) waiting
          (shared_buffer-Refines max) (shared_buffer-Reads max) cs made (refl, refl, omega arith) in
      (
        run-Refines shared_buffer head_of (add_if_room max) (IsBounded max) waiting
            (shared_buffer-Refines max) (shared_buffer-Reads max) cs made (refl, refl, omega arith),
        omega (arith, counted, fits),
      )
