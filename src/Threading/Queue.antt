-- ===== src/Threading/Queue.antt =====
-- What the buffers of interfaces/xpcf/threading promise: a sequence, the element that is taken next in
-- front, and a flag that says that waiting has ended.
pub mod Follow
use xpcf.Base.{
  inl, inr, Bool-cases, List-cases, ◌∙◌, ap, ◌≡◌, refl, arith, Bool, true, false, List, [], ◌∷◌,
  Option, none, some, if◌then◌else◌, length, nat_eq, ltb,
}
use xpcf.Threading.Buffer.{
  Buffer, Outcome, blocked, aborted, got, no_timeout, timeout, Call, pushes, pops, tries, waits,
  reads, peeks, tests, measures, clears, releases, Answer, nothing, pushed, taken, peeked, is_empty,
  measured, take_one, pop, try_pop, pop_for, read_back, back, peek, call, run, after,
}

module _ {A : Type 0} where
  -- A thread that finds nothing waits, unless it may not wait.
  abbrev pub queue_pop : Bool → List A → Outcome A × List A
  queue_pop ended [] = (if ended then aborted else blocked, [])
  queue_pop ended (x ∷ xs) = (got x, xs)

  -- Reading waits in the same way. `oldest` gives the element that is read.
  module _ (oldest : A → List A → A) where
    abbrev pub queue_back : Bool → List A → Outcome A
    queue_back ended [] = if ended then aborted else blocked
    queue_back ended (x ∷ xs) = got (oldest x xs)

    abbrev pub queue_peek : Bool → List A → Outcome (Bool × Option A)
    queue_peek ended [] = if ended then got (true, none) else blocked
    queue_peek ended (x ∷ xs) = got (ended, some (oldest x xs))

    -- `add` says how a push ends, which may depend on whether waiting has ended.
    module _ (add : Bool → A → List A → Outcome (Unit {0}) × List A) where
      abbrev pub queue_call : Call A → Bool → List A → Answer A × Bool × List A
      queue_call (pushes x) ended xs = let (o, ys) = add ended x xs in (pushed o, ended, ys)
      queue_call pops ended xs = let (o, ys) = queue_pop ended xs in (taken o, ended, ys)
      queue_call (tries true) ended xs = let (o, ys) = queue_pop true xs in (taken o, ended, ys)
      queue_call (tries false) ended xs = (taken aborted, ended, xs)
      queue_call (waits timeout) ended xs = let (o, ys) = queue_pop true xs in (taken o, ended, ys)
      queue_call (waits no_timeout) ended xs =
          let (o, ys) = queue_pop ended xs in (taken o, ended, ys)
      queue_call reads ended xs = (taken (queue_back ended xs), ended, xs)
      queue_call peeks ended xs = (peeked (queue_peek ended xs), ended, xs)
      queue_call tests ended xs = (is_empty (nat_eq (length xs) 0), ended, xs)
      queue_call measures ended xs = (measured (length xs), ended, xs)
      queue_call clears ended xs = (nothing, ended, [])
      queue_call releases ended xs = (nothing, true, xs)

      abbrev pub queue_run : List (Call A) → Bool → List A → List (Answer A)
      queue_run [] ended xs = []
      queue_run (c ∷ cs) ended xs =
          let (o, now, ys) = queue_call c ended xs in o ∷ queue_run cs now ys

  -- A push, each way of taking an element, and a release.
  abbrev pub IsBasic : Call A → Type 0
  IsBasic (pushes x) = Unit {0}
  IsBasic pops = Unit {0}
  IsBasic (tries locked) = Unit {0}
  IsBasic (waits status) = Unit {0}
  IsBasic releases = Unit {0}
  IsBasic _ = ⊥

  abbrev pub AreBasic : List (Call A) → Type 0
  AreBasic [] = Unit {0}
  AreBasic (c ∷ cs) = IsBasic c × AreBasic cs

-- That the detailed buffer keeps a sequence: in a valid state the count is that of the elements, and
-- the operations a subclass overrides do to `view` what the abstract ones do.
pub record Refines {A S : Type 0} (B : Buffer A S)
    (add : Bool → A → List A → Outcome (Unit {0}) × List A) (Valid : S → Type 0) (view : S → List A)
    : Type 0 where
  pub count : (s : S) → Valid s → B.nb_notified s ≡ length (view s)
  pub takes :
      (s : S) (x : A) (xs : List A)
      → Valid s
      → view s ≡ x ∷ xs
      → (t : S) × (B.do_pop s ≡ some (x, t))
        × Valid t
        × (view t ≡ xs)
        × (B.is_released t ≡ B.is_released s)
  pub adds :
      (x : A) (s : S)
      → Valid s
      → let (o, t) = B.push x s in
        let (p, ys) = add (B.is_released s) x (view s) in
        Valid t × (view t ≡ ys) × (B.is_released t ≡ B.is_released s) × (o ≡ p)
  pub ends :
      (s : S)
      → Valid s
      → Valid (B.release s) × (view (B.release s) ≡ view s) × (B.is_released (B.release s) ≡ true)

-- And that what it inherits reads the elements of the sequence, and empties it.
pub record Reads {A S : Type 0} (B : Buffer A S) (oldest : A → List A → A) (Valid : S → Type 0)
    (view : S → List A) : Type 0 where
  pub sees :
      (s : S) (x : A) (xs : List A) → Valid s → view s ≡ x ∷ xs → B.data_back s ≡ some (oldest x xs)
  pub size : (s : S) → Valid s → B.data_size s ≡ length (view s)
  pub empties :
      (s : S)
      → Valid s
      → Valid (B.clear s) × (view (B.clear s) ≡ []) × (B.is_released (B.clear s) ≡ B.is_released s)
