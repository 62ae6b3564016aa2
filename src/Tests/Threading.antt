-- ===== src/Tests/Threading.antt =====
-- interfaces/xpcf/threading: histories of calls on the shared buffers.
use xpcf.Base.{ℕ, ◌≤◌, length, ◌≡◌, refl, arith, true, false, List, [], ◌∷◌, none, some}
use xpcf.Threading.Buffer.{
  blocked, aborted, got, no_timeout, timeout, Call, pushes, pops, tries, waits, reads, peeks, tests,
  measures, clears, releases, Answer, nothing, pushed, taken, peeked, is_empty, measured, run,
  after,
}
use xpcf.Threading.Fifo.{Fifo, shared_fifo, shared_lifo}
use xpcf.Threading.Fifo.Refine.{fifo_run_lem, lifo_run_lem}
use xpcf.Threading.Circular.{init, shared_circular}
use xpcf.Threading.Circular.Refine.{circular_run_lem}
use xpcf.Threading.Bounded.{make_buffer, shared_buffer}
use xpcf.Threading.Bounded.Refine.{bounded_run_lem}
use xpcf.Threading.Drop.{drop_buffer}
use xpcf.Threading.Drop.Latest.{drop_run_lem}

-- A buffer in which 1 was pushed before 2.
abbrev two : Fifo ℕ
two = record { nb_notified = 2; elements = 2 ∷ 1 ∷ []; released = false }

abbrev history : List (Call ℕ)
history =
    pushes 3
    ∷ reads
    ∷ pops
    ∷ tries false
    ∷ tries true
    ∷ waits no_timeout
    ∷ waits timeout
    ∷ pops
    ∷ tests
    ∷ pushes 4
    ∷ peeks
    ∷ measures
    ∷ clears
    ∷ releases
    ∷ peeks
    ∷ pops
    ∷ []

-- What each buffer answers from the fifth call that takes an element on.
abbrev ending : List (Answer ℕ)
ending =
    taken aborted
    ∷ taken blocked
    ∷ is_empty true
    ∷ pushed (got tt)
    ∷ peeked (got (false, some 4))
    ∷ measured 1
    ∷ nothing
    ∷ nothing
    ∷ peeked (got (true, none))
    ∷ taken aborted
    ∷ []

fifo_run_lem_example :
    run shared_fifo history two
    ≡ pushed (got tt)
      ∷ taken (got 1)
      ∷ taken (got 1)
      ∷ taken aborted
      ∷ taken (got 2)
      ∷ taken (got 3)
      ∷ ending
fifo_run_lem_example = fifo_run_lem history two refl

-- `back` reads the oldest element, and `pop` takes the newest.
lifo_run_lem_example :
    run shared_lifo history two
    ≡ pushed (got tt)
      ∷ taken (got 1)
      ∷ taken (got 3)
      ∷ taken aborted
      ∷ taken (got 2)
      ∷ taken (got 1)
      ∷ ending
lifo_run_lem_example = lifo_run_lem history two refl

drop_run_lem_example :
    run drop_buffer (reads ∷ pushes 3 ∷ pushes 4 ∷ reads ∷ measures ∷ pops ∷ pops ∷ []) two
    ≡ taken (got 1)
      ∷ pushed (got tt)
      ∷ pushed (got tt)
      ∷ taken (got 4)
      ∷ measured 1
      ∷ taken (got 4)
      ∷ taken blocked
      ∷ []
drop_run_lem_example =
    drop_run_lem (reads ∷ pushes 3 ∷ pushes 4 ∷ reads ∷ measures ∷ pops ∷ pops ∷ []) two refl

-- Three pushes into a ring of two slots.
circular_run_lem_example :
    run {A = ℕ} shared_circular
      (pushes 1 ∷ pushes 2 ∷ pushes 3 ∷ pops ∷ pops ∷ pops ∷ releases ∷ pops ∷ [])
      (init 2 0)
    ≡ pushed (got tt)
      ∷ pushed (got tt)
      ∷ pushed (got tt)
      ∷ taken (got 2)
      ∷ taken (got 3)
      ∷ taken blocked
      ∷ nothing
      ∷ taken aborted
      ∷ []
circular_run_lem_example =
    circular_run_lem 2 0
      (pushes 1 ∷ pushes 2 ∷ pushes 3 ∷ pops ∷ pops ∷ pops ∷ releases ∷ pops ∷ []) (omega arith)
      (tt, (tt, (tt, (tt, (tt, (tt, (tt, (tt, tt))))))))

-- The third push waits, and is aborted after the release.
abbrev crowd : List (Call ℕ)
crowd = pushes 1 ∷ pushes 2 ∷ pushes 3 ∷ releases ∷ pushes 3 ∷ measures ∷ pops ∷ reads ∷ []

bounded_run_lem_example :
    (run shared_buffer crowd (make_buffer 2 0)
      ≡ pushed (got tt)
        ∷ pushed (got tt)
        ∷ pushed blocked
        ∷ nothing
        ∷ pushed aborted
        ∷ measured 2
        ∷ taken (got 1)
        ∷ taken (got 2)
        ∷ [])
    × (length (after shared_buffer crowd (make_buffer 2 0)).fifo.elements ≤ 2)
bounded_run_lem_example = bounded_run_lem 2 0 crowd
