-- ===== src/Threading/Buffer.antt =====
-- The operations that every buffer inherits from interfaces/xpcf/threading/SharedFifo.h. A history of
-- threads is a sequence of calls, each of them one step; a thread that must wait is `blocked`, and
-- makes the same call again when it is woken. The calls that push, read and take run under the mutex;
-- `release`, `clear`, `empty` and `size` do not take it, and are one step here all the same. `for_each`
-- and the notifications are left out. What a subclass overrides is `push` and `do_pop`.
use xpcf.Base.{
  List, [], ◌∷◌, ℕ, Bool, true, false, not, ◌&&◌, ◌||◌, Option, none, some, if◌then◌else◌, nat_eq,
  ltb,
}

-- How a call ends that may wait. `fault` is a read outside the elements, which C++ leaves undefined.
pub data Outcome (A : Type 0) : Type 0 where
  blocked : Outcome A
  -- the thrown `Exception("IFifo::… aborted")`, or the result `false`
  aborted : Outcome A
  got : A → Outcome A
  fault : Outcome A

pub data Status : Type 0 where
  no_timeout timeout : Status

abbrev pub is_timeout : Status → Bool
is_timeout no_timeout = false
is_timeout timeout = true

-- A buffer as the inherited operations see it.
pub record Buffer (A S : Type 0) : Type 0 where
  pub nb_notified : S → ℕ
  pub is_released : S → Bool
  -- `none` for a read outside the elements
  pub do_pop : S → Option (A × S)
  -- `m_data.back()`, the same
  pub data_back : S → Option A
  pub data_size : S → ℕ
  -- a push may have to wait, and may be aborted
  pub push : A → S → Outcome (Unit {0}) × S
  pub release : S → S
  pub clear : S → S

-- The calls of `IFifo`, and `size()`: `reads` is `back()` and `peeks` is `back(value)`.
pub data Call (A : Type 0) : Type 0 where
  pushes : A → Call A
  pops : Call A
  tries : Bool → Call A
  waits : Status → Call A
  reads : Call A
  peeks : Call A
  tests : Call A
  measures : Call A
  clears : Call A
  releases : Call A

-- What a call answers. `back(value)` answers whether the buffer was released, and the value that it
-- wrote, if it wrote one.
pub data Answer (A : Type 0) : Type 0 where
  nothing : Answer A
  pushed : Outcome (Unit {0}) → Answer A
  taken : Outcome A → Answer A
  peeked : Outcome (Bool × Option A) → Answer A
  is_empty : Bool → Answer A
  measured : ℕ → Answer A

module _ {A S : Type 0} (B : Buffer A S) where
  open B use {nb_notified, is_released, do_pop, data_back, data_size, push, release, clear}

  -- A call of `doPop`.
  unfoldable pub take_one : S → Outcome A × S
  take_one s = elim (do_pop s) [ none ↦ (fault, s) | some (a, t) ↦ (got a, t) ]

  -- `pop()` and `pop(value)`, which differ in how they say that they were aborted
  unfoldable pub pop : S → Outcome A × S
  unfolding take_one
  pop s =
      if not (is_released s) && nat_eq (nb_notified s) 0
      then (blocked, s)
      else if is_released s && nat_eq (nb_notified s) 0
      then (aborted, s)
      else take_one s

  -- `tryPop`, with whether `try_lock` succeeds
  unfoldable pub try_pop : Bool → S → Outcome A × S
  unfolding take_one
  try_pop locked s =
      if locked then (if ltb 0 (nb_notified s) then take_one s else (aborted, s)) else (aborted, s)

  -- `pop(value, duration)`, with what the last wait returned
  unfoldable pub pop_for : Status → S → Outcome A × S
  unfolding take_one
  pop_for status s =
      if not (is_released s) && nat_eq (nb_notified s) 0 && not (is_timeout status)
      then (blocked, s)
      else if (is_timeout status || is_released s) && nat_eq (nb_notified s) 0
      then (aborted, s)
      else take_one s

  -- `m_data.back()`
  unfoldable pub read_back : S → Outcome A
  read_back s = elim (data_back s) [ none ↦ fault | some a ↦ got a ]

  -- `back()`
  unfoldable pub back : S → Outcome A
  unfolding read_back
  back s =
      if not (is_released s) && nat_eq (nb_notified s) 0
      then blocked
      else if is_released s && nat_eq (nb_notified s) 0
      then aborted
      else read_back s

  -- `back(value)`, which answers `m_bReleased` whether or not it wrote a value
  unfoldable pub peek : S → Outcome (Bool × Option A)
  peek s =
      if not (is_released s) && nat_eq (nb_notified s) 0
      then blocked
      else if nat_eq (nb_notified s) 0
      then got (is_released s, none)
      else elim (data_back s) [ none ↦ fault | some a ↦ got (is_released s, some a) ]

  -- One call.
  unfoldable pub call : Call A → S → Answer A × S
  unfolding pop try_pop pop_for back peek
  call (pushes value) s = let (o, t) = push value s in (pushed o, t)
  call pops s = let (o, t) = pop s in (taken o, t)
  call (tries locked) s = let (o, t) = try_pop locked s in (taken o, t)
  call (waits status) s = let (o, t) = pop_for status s in (taken o, t)
  call reads s = (taken (back s), s)
  call peeks s = (peeked (peek s), s)
  call tests s = (is_empty (nat_eq (data_size s) 0), s)
  call measures s = (measured (data_size s), s)
  call clears s = (nothing, clear s)
  call releases s = (nothing, release s)

  -- The answers to the calls of all threads, in the order of their steps, and the state after them.
  unfoldable pub run : List (Call A) → S → List (Answer A)
  unfolding call
  run [] s = []
  run (c ∷ cs) s = let (o, t) = call c s in o ∷ run cs t

  unfoldable pub after : List (Call A) → S → S
  unfolding call
  after [] s = s
  after (c ∷ cs) s = after cs (call c s).1
