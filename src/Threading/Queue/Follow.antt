-- ===== src/Threading/Queue/Follow.antt =====
-- That a buffer of interfaces/xpcf/threading which refines a sequence answers calls as the sequence.
use xpcf.Base.{
  inl, inr, Bool-cases, List-cases, ◌∙◌, ap, ◌≡◌, refl, arith, Bool, true, false, List, [], ◌∷◌,
  some, nat_eq, ltb,
}
use xpcf.Threading.Buffer.{
  Buffer, Outcome, got, no_timeout, timeout, Call, pushes, pops, tries, waits, reads, peeks, tests,
  measures, clears, releases, pushed, taken, peeked, is_empty, measured, take_one, pop, try_pop,
  pop_for, read_back, back, peek, call, run, after,
}
use xpcf.Threading.Queue.{
  queue_pop, queue_back, queue_peek, queue_call, queue_run, IsBasic, AreBasic, Refines, Reads,
}

module _ {A S : Type 0} (B : Buffer A S) (oldest : A → List A → A)
    (add : Bool → A → List A → Outcome (Unit {0}) × List A) (Valid : S → Type 0) (view : S → List A)
    (r : Refines B add Valid view) where
  open B use {nb_notified, is_released, do_pop, data_back, push, release}

  -- A call that takes an element ends as on the sequence.
  Agrees : Outcome A × S → Bool → Outcome A × List A → Type 0
  Agrees (o, t) ended (p, ys) = Valid t × (is_released t ≡ ended) × (view t ≡ ys) × (o ≡ p)

  take_one-Agrees :
      (s : S) (x : A) (xs : List A)
      → Valid s
      → view s ≡ x ∷ xs
      → Agrees (take_one B s) (is_released s) (got x, xs)
  unfolding Agrees take_one
  take_one-Agrees s x xs valid e =
      let (t, took, v, w, same) = r.takes s x xs valid e in rw (took, take_one) (v, same, w, refl)

  none_left : (s : S) → Valid s → view s ≡ [] → nat_eq (nb_notified s) 0 ≡ true
  none_left s valid e = rw (r.count s valid, e) refl

  some_left :
      (s : S) (x : A) (xs : List A)
      → Valid s
      → view s ≡ x ∷ xs
      → (nat_eq (nb_notified s) 0 ≡ false) × (ltb 0 (nb_notified s) ≡ true)
  some_left s x xs valid e = rw (r.count s valid, e) (ground arith, ground arith)

  pop-Agrees :
      (s : S) → Valid s → Agrees (pop B s) (is_released s) (queue_pop (is_released s) (view s))
  unfolding Agrees pop
  pop-Agrees s valid = elim (List-cases (view s)) [
    | inl e ↦ elim (Bool-cases (is_released s)) [
      | inl ended ↦ rw (none_left s valid e, e, ended) (valid, ended, e, refl)
      | inr waiting ↦ rw (none_left s valid e, e, waiting) (valid, waiting, e, refl)
    ]
    | inr (x, xs, e) ↦
        let took = take_one-Agrees s x xs valid e in
        let left = (some_left s x xs valid e).0 in
        elim (Bool-cases (is_released s)) [
          | inl ended ↦ rw (left, e, ended) (rw ended at took)
          | inr waiting ↦ rw (left, e, waiting) (rw waiting at took)
        ]
  ]

  try_pop-Agrees :
      (s : S) → Valid s → Agrees (try_pop B true s) (is_released s) (queue_pop true (view s))
  unfolding Agrees try_pop
  try_pop-Agrees s valid = elim (List-cases (view s)) [
    | inl e ↦ rw (r.count s valid, e) (valid, refl, e, refl)
    | inr (x, xs, e) ↦ rw ((some_left s x xs valid e).1, e) (take_one-Agrees s x xs valid e)
  ]

  -- A wait that has not timed out is a wait without a limit, and one that has is an attempt.
  pop_for_lem :
      (s : S) → (pop_for B no_timeout s ≡ pop B s) × (pop_for B timeout s ≡ try_pop B true s)
  unfolding pop_for pop try_pop
  pop_for_lem s = elim (Bool-cases (is_released s)) [
    | inl ended ↦ elim (Bool-cases (nat_eq (nb_notified s) 0)) [
      | inl e ↦ rw (ended, e) (refl, ground arith)
      | inr e ↦ rw (ended, e) (refl, ground arith)
    ]
    | inr waiting ↦ elim (Bool-cases (nat_eq (nb_notified s) 0)) [
      | inl e ↦ rw (waiting, e) (refl, ground arith)
      | inr e ↦ rw (waiting, e) (refl, ground arith)
    ]
  ]

  -- A call ends in a valid state and answers as on the sequence.
  Follows : Call A → S → Type 0
  Follows c s =
      let (o, t) = call B c s in
      let (p, ended, ys) = queue_call oldest add c (is_released s) (view s) in
      Valid t × (is_released t ≡ ended) × (view t ≡ ys) × (o ≡ p)

  basic-Follows : (c : Call A) (s : S) → IsBasic c → Valid s → Follows c s
  unfolding Agrees Follows call
  basic-Follows (pushes x) s basic valid =
      let (v, w, same, o) = r.adds x s valid in (v, same, w, ap pushed o)
  basic-Follows pops s basic valid = let (v, w, e, o) = pop-Agrees s valid in (v, w, e, ap taken o)
  basic-Follows (tries true) s basic valid =
      let (v, w, e, o) = try_pop-Agrees s valid in (v, w, e, ap taken o)
  basic-Follows (tries false) s basic valid = (valid, refl, refl, refl)
  basic-Follows (waits timeout) s basic valid =
      let (v, w, e, o) = try_pop-Agrees s valid in rw (pop_for_lem s).1 (v, w, e, ap taken o)
  basic-Follows (waits no_timeout) s basic valid =
      let (v, w, e, o) = pop-Agrees s valid in rw (pop_for_lem s).0 (v, w, e, ap taken o)
  basic-Follows releases s basic valid = let (v, w, same) = r.ends s valid in (v, same, w, refl)
  basic-Follows reads s basic valid = absurd basic
  basic-Follows peeks s basic valid = absurd basic
  basic-Follows tests s basic valid = absurd basic
  basic-Follows measures s basic valid = absurd basic
  basic-Follows clears s basic valid = absurd basic

  -- The answers to a history whose calls all follow the sequence.
  followed :
      (c : Call A) (cs : List (Call A)) (s : S)
      → Follows c s
      → (run B cs (call B c s).1
          ≡ queue_run oldest add cs (is_released (call B c s).1) (view (call B c s).1))
      → run B (c ∷ cs) s ≡ queue_run oldest add (c ∷ cs) (is_released s) (view s)
  unfolding Follows run
  followed c cs s (v, same, w, o) rest =
      ap (λ h. h ∷ run B cs (call B c s).1) o
      ∙ ap (λ later. (queue_call oldest add c (is_released s) (view s)).0 ∷ later)
          (rest ∙ rw (same, w) refl)

  -- Any history of pushes, of attempts to take an element and of releases
  pub basic_run-Refines :
      (cs : List (Call A)) (s : S)
      → AreBasic cs
      → Valid s
      → run B cs s ≡ queue_run oldest add cs (is_released s) (view s)
  unfolding run Follows
  basic_run-Refines [] s basic valid = refl
  basic_run-Refines (c ∷ cs) s (basic, rest) valid =
      let step = basic-Follows c s basic valid in
      followed c cs s step (basic_run-Refines cs (call B c s).1 rest step.0)

  module _ (q : Reads B oldest Valid view) where
    back_lem : (s : S) → Valid s → back B s ≡ queue_back oldest (is_released s) (view s)
    unfolding back read_back
    back_lem s valid = elim (List-cases (view s)) [
      | inl e ↦ elim (Bool-cases (is_released s)) [
        | inl ended ↦ rw (none_left s valid e, e, ended) refl
        | inr waiting ↦ rw (none_left s valid e, e, waiting) refl
      ]
      | inr (x, xs, e) ↦
          let seen : read_back B s ≡ got (oldest x xs) =
            rw (read_back, q.sees s x xs valid e) refl in
          elim (Bool-cases (is_released s)) [
            | inl ended ↦ rw ((some_left s x xs valid e).0, e, ended) seen
            | inr waiting ↦ rw ((some_left s x xs valid e).0, e, waiting) seen
          ]
    ]

    peek_lem : (s : S) → Valid s → peek B s ≡ queue_peek oldest (is_released s) (view s)
    unfolding peek
    peek_lem s valid = elim (List-cases (view s)) [
      | inl e ↦ elim (Bool-cases (is_released s)) [
        | inl ended ↦ rw (none_left s valid e, e, ended) refl
        | inr waiting ↦ rw (none_left s valid e, e, waiting) refl
      ]
      | inr (x, xs, e) ↦ elim (Bool-cases (is_released s)) [
        | inl ended ↦
            rw ((some_left s x xs valid e).0, e, ended, q.sees s x xs valid e)
              (ap (λ b. got (b, some (oldest x xs))) ended)
        | inr waiting ↦
            rw ((some_left s x xs valid e).0, e, waiting, q.sees s x xs valid e)
              (ap (λ b. got (b, some (oldest x xs))) waiting)
      ]
    ]

    call-Follows : (c : Call A) (s : S) → Valid s → Follows c s
    unfolding Follows call
    call-Follows reads s valid = (valid, refl, refl, ap taken (back_lem s valid))
    call-Follows peeks s valid = (valid, refl, refl, ap peeked (peek_lem s valid))
    call-Follows tests s valid =
        (valid, refl, refl, ap (λ n. is_empty (nat_eq n 0)) (q.size s valid))
    call-Follows measures s valid = (valid, refl, refl, ap measured (q.size s valid))
    call-Follows clears s valid = let (v, w, same) = q.empties s valid in (v, same, w, refl)
    call-Follows (pushes x) s valid = basic-Follows (pushes x) s tt valid
    call-Follows pops s valid = basic-Follows pops s tt valid
    call-Follows (tries locked) s valid = basic-Follows (tries locked) s tt valid
    call-Follows (waits status) s valid = basic-Follows (waits status) s tt valid
    call-Follows releases s valid = basic-Follows releases s tt valid

    -- Any history, and the state that it leaves
    pub run-Refines :
        (cs : List (Call A)) (s : S)
        → Valid s
        → run B cs s ≡ queue_run oldest add cs (is_released s) (view s)
    unfolding run Follows
    run-Refines [] s valid = refl
    run-Refines (c ∷ cs) s valid =
        let step = call-Follows c s valid in
        followed c cs s step (run-Refines cs (call B c s).1 step.0)

    pub after-Refines : (cs : List (Call A)) (s : S) → Valid s → Valid (after B cs s)
    unfolding after Follows
    after-Refines [] s valid = valid
    after-Refines (c ∷ cs) s valid = after-Refines cs (call B c s).1 (call-Follows c s valid).0
