-- ===== src/Threading/Circular/Refine.antt =====
-- SharedCircularBuffer of interfaces/xpcf/threading as the sequence of the elements pushed last.
use mathlib.Core.List.{head-eq_of_cons-eq, tail-eq_of_cons-eq}
use xpcf.Base.{
  ℕ, Bool, zero, suc, ◌-◌, ◌≡◌, ◌<◌, ◌≤◌, refl, sym, ap, ◌∙◌, arith, false, List, [], ◌∷◌, ◌++◌,
  some, inl, inr, if◌then◌else◌, ltb, Bool-cases, length, set, length-set, get_elem?-in_range,
}
use xpcf.Threading.Buffer.{Outcome, got, Call, run}
use xpcf.Threading.Queue.{Refines, queue_run, AreBasic}
use xpcf.Threading.Queue.Follow.{basic_run-Refines}
use xpcf.Threading.Fifo.Refine.{head_of}
use xpcf.Threading.Circular.Window.{
  next, further, next_lem, further-next, window, length-window, window-push,
}
use xpcf.Threading.Circular.{
  Circular, init, replicate, increase_cursor, write, drop_oldest, push, do_pop, shared_circular,
}

module _ {A : Type 0} where
  -- The cursors are in the ring, and the push cursor is as far behind as there are elements.
  abbrev pub IsRing : ℕ → Circular A → Type 0
  IsRing n c =
      (0 < n)
      × (length c.slots ≡ n)
      × (c.pop_cursor < n)
      × (c.nb_notified ≤ n)
      × (c.push_cursor ≡ further n c.pop_cursor c.nb_notified)

  abbrev pub contents : ℕ → Circular A → List A
  contents n c = window n c.slots c.pop_cursor c.nb_notified

  abbrev drop_first : List A → List A
  drop_first [] = []
  drop_first (x ∷ xs) = xs

  -- What is added to n elements takes the place of the first.
  abbrev within : ℕ → A → List A → List A
  within n x xs = if ltb (length xs) n then xs ++ (x ∷ []) else drop_first xs ++ (x ∷ [])

  abbrev pub add_within : ℕ → Bool → A → List A → Outcome (Unit {0}) × List A
  add_within n ended x xs = (got tt, within n x xs)

  -- The state after a push, where a slot was free and where none was.
  record After (n : ℕ) (x : A) (c d : Circular A) (pop nb : ℕ) : Type 0 where
    slots_after : d.slots ≡ set c.slots c.push_cursor x
    push_after : d.push_cursor ≡ next n c.push_cursor
    pop_after : d.pop_cursor ≡ pop
    nb_after : d.nb_notified ≡ nb
    same_released : d.released ≡ c.released

  push_room :
      (n : ℕ) (x : A) (c : Circular A)
      → length c.slots ≡ n
      → c.nb_notified < n
      → After n x c (push x c) c.pop_cursor (suc c.nb_notified)
  unfolding push write drop_oldest increase_cursor
  push_room n x c fits room =
      let same = length-set c.slots c.push_cursor x in
      record {
        slots_after = ground (arith, same);
        push_after = ground (arith, same);
        pop_after = ground (arith, same);
        nb_after = ground (arith, same);
        same_released = ground (arith, same);
      }

  push_full :
      (n : ℕ) (x : A) (c : Circular A)
      → length c.slots ≡ n
      → c.nb_notified ≡ n
      → After n x c (push x c) (next n c.pop_cursor) n
  unfolding push write drop_oldest increase_cursor
  push_full n x c fits full =
      let same = length-set c.slots c.push_cursor x in
      record {
        slots_after = ground (arith, same);
        push_after = ground (arith, same);
        pop_after = ground (arith, same);
        nb_after = ground (arith, same);
        same_released = ground (arith, same);
      }

  -- What the slots show after either push.
  window-room :
      (n : ℕ) (x : A) (c : Circular A)
      → IsRing n c
      → c.nb_notified < n
      → window n (set c.slots c.push_cursor x) c.pop_cursor (suc c.nb_notified)
        ≡ within n x (contents n c)
  window-room n x c (some_slots, fits, hp, hn, e) room =
      window-push n c.slots fits x c.push_cursor c.nb_notified c.pop_cursor e hp room
      ∙ ground (arith, length-window n c.slots fits c.nb_notified c.pop_cursor hp)

  window-full :
      (n : ℕ) (x : A) (c : Circular A)
      → IsRing n c
      → c.nb_notified ≡ n
      → window n (set c.slots c.push_cursor x) (next n c.pop_cursor) n ≡ within n x (contents n c)
  window-full zero x c (some_slots, fits, hp, hn, e) full = absurd (omega arith)
  window-full (suc m) x c (some_slots, fits, hp, hn, e) full =
      let behind : c.push_cursor ≡ further (suc m) (next (suc m) c.pop_cursor) m =
        e
        ∙ ap (further (suc m) c.pop_cursor) full
        ∙ sym (further-next (suc m) c.pop_cursor m hp (omega arith)) in
      let (v, there) = get_elem?-in_range c.slots c.pop_cursor (omega arith) in
      window-push (suc m) c.slots fits x c.push_cursor m (next (suc m) c.pop_cursor) behind
        (next_lem (suc m) c.pop_cursor hp) (omega arith)
      ∙ rw (full, there)
          (ground (
            arith,
            length-window (suc m) c.slots fits m (next (suc m) c.pop_cursor)
                (next_lem (suc m) c.pop_cursor hp),
          ))

  adds_lem :
      (n : ℕ) (x : A) (c : Circular A)
      → IsRing n c
      → IsRing n (push x c)
        × (contents n (push x c) ≡ within n x (contents n c))
        × ((push x c).released ≡ c.released)
  adds_lem n x c (some_slots, fits, hp, hn, e) =
      let same = length-set c.slots c.push_cursor x in
      elim (Bool-cases (ltb c.nb_notified n)) [
        | inl h ↦
            let a = push_room n x c fits (ground arith) in
            (
              (
                some_slots,
                ap length a.slots_after ∙ same ∙ fits,
                ground (arith, a.pop_after),
                ground (arith, a.nb_after),
                ground (arith, a.push_after, a.pop_after, a.nb_after, e),
              ),
              rw (a.slots_after, a.pop_after, a.nb_after)
                  (window-room n x c (some_slots, fits, hp, hn, e) (ground arith)),
              a.same_released,
            )
        | inr h ↦
            let a = push_full n x c fits (ground arith) in
            (
              (
                some_slots,
                ap length a.slots_after ∙ same ∙ fits,
                ground (arith, a.pop_after),
                ground (arith, a.nb_after),
                ground (arith, a.push_after, a.pop_after, a.nb_after, e),
              ),
              rw (a.slots_after, a.pop_after, a.nb_after)
                  (window-full n x c (some_slots, fits, hp, hn, e) (ground arith)),
              a.same_released,
            )
      ]

  takes_lem :
      (n : ℕ) (c : Circular A) (x : A) (xs : List A)
      → IsRing n c
      → contents n c ≡ x ∷ xs
      → (d : Circular A) × (do_pop c ≡ some (x, d))
        × IsRing n d
        × (contents n d ≡ xs)
        × (d.released ≡ c.released)
  unfolding do_pop increase_cursor
  takes_lem n c x xs (some_slots, fits, hp, hn, e) seen =
      let (v, there) = get_elem?-in_range c.slots c.pop_cursor (omega arith) in
      let d : Circular A = record c {
        pop_cursor = increase_cursor c c.pop_cursor;
        nb_notified = c.nb_notified - 1;
      } in
      let now : d.pop_cursor ≡ next n c.pop_cursor = ground arith in
      let nb : c.nb_notified ≡ suc (length xs) =
        sym (length-window n c.slots fits c.nb_notified c.pop_cursor hp) ∙ ap length seen in
      let both : v ∷ window n c.slots (next n c.pop_cursor) (length xs) ≡ x ∷ xs =
        rw (nb, there) at seen in
      let left : d.nb_notified ≡ length xs = omega arith in
      (
        d,
        rw (do_pop, there) (ap (λ y. some (y, d)) (head-eq_of_cons-eq both)),
        (some_slots, fits, ground arith, ground arith, ground (arith, e)),
        ap (λ i. window n c.slots i d.nb_notified) now
            ∙ ap (window n c.slots (next n c.pop_cursor)) left
            ∙ tail-eq_of_cons-eq both,
        refl,
      )

  circular-Refines : (n : ℕ) → Refines shared_circular (add_within n) (IsRing n) (contents n)
  unfolding shared_circular
  circular-Refines n = record {
    count = λ c (some_slots, fits, hp, hn, e).
        sym (length-window n c.slots fits c.nb_notified c.pop_cursor hp);
    takes = takes_lem n;
    adds = λ x c valid. let (v, w, same) = adds_lem n x c valid in (v, w, same, refl);
    ends = λ c valid. (valid, refl, refl);
  }

  length-replicate : (n : ℕ) (a : A) → length (replicate n a) ≡ n
  length-replicate zero a = refl
  length-replicate (suc n) a = ap suc (length-replicate n a)

  -- A SharedCircularBuffer made for n > 0 elements answers every sequence of `push`, of `pop` in each
  -- of its three forms, of `tryPop` and of `release` as a queue does that keeps the n elements pushed
  -- last: when it is full, a push gives up the oldest element, and no read is outside the slots. The
  -- other calls, `back`, `empty`, `size` and `clear`, are not in the sequence: they act on the slots.
  pub circular_run_lem :
      (n : ℕ) (default : A) (cs : List (Call A))
      → 0 < n
      → AreBasic cs
      → run shared_circular cs (init n default) ≡ queue_run head_of (add_within n) cs false []
  unfolding shared_circular init
  circular_run_lem n default cs h basic =
      basic_run-Refines shared_circular head_of (add_within n) (IsRing n) (contents n)
        (circular-Refines n) cs (init n default) basic
        (h, length-replicate n default, h, omega arith, ground arith)
