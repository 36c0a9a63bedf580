-- ===== src/CheckQueue/Done.antt =====
-- boostthreadcontrol/checkqueue.h: what is left of the work when `Wait` returns.
use learn_framework.Common.{
  ℕ, ◌+◌, ◌-◌, ◌^◌, ◌<◌, ◌≡◌, refl, Bool, true, Option, none, some, List, [], ◌∷◌, arith, inl, inr,
  Bool-cases, Option-cases, length, total, get_elem?,
}
use learn_framework.CheckQueue.{
  Queue, Pc, at_lock, waiting, working, out_of_work, look, take_batch, lock_section, wake_section,
  pop_batch, is_empty, batch_size, clean_up,
}
use learn_framework.CheckQueue.System.{
  System, Event, adds, joins, locks, wakes, executes, start, answer, lock_thread, wake_thread,
  execute_thread, with_thread, step, run,
}
use learn_framework.CheckQueue.Account.{in_flight}
use learn_framework.CheckQueue.Preserve.{renewed}
use learn_framework.CheckQueue.Verdict.{
  added, total_added, session, run_from-Inv, start-Inv, step-Keeps, all_pass, passes,
}

module _ {A : Type 0} where
  -- A critical section that ends in an answer leaves no check.
  abbrev Settles : Queue A × Pc A → Type 0
  Settles x = (r : Bool) → answer x.1 ≡ some r → (x.0.n_todo ≡ 0) × (length x.0.queue ≡ 0)

  take_batch-answer : (q : Queue A) (m : Bool) (n : ℕ) → answer (take_batch q m n).1 ≡ none
  unfolding take_batch
  take_batch-answer q m n = elim (Option-cases (pop_batch n q.queue)) [
    | inl e ↦ rw (e, answer) refl
    | inr (batch, e) ↦ rw (e, answer) refl
  ]

  empty_length : (cs : List A) → is_empty cs ≡ true → length cs ≡ 0
  empty_length [] h = refl
  empty_length (c ∷ cs) h = absurd (ground arith)

  look-Settles : (q : Queue A) (m : Bool) → Settles (look q m)
  unfolding look out_of_work
  look-Settles q m r h = elim (Bool-cases (is_empty q.queue)) [
    | inl none_left ↦ (ground arith, ground (arith, empty_length q.queue none_left))
    | inr more ↦ absurd (ground (arith, take_batch-answer q m (batch_size q)))
  ]

  -- The same of a step.
  abbrev Finishes : System A × Option Bool → Type 0
  Finishes x = (r : Bool) → x.1 ≡ some r → (x.0.shared.n_todo ≡ 0) × (length x.0.shared.queue ≡ 0)

  with_thread-Finishes :
      (s : System A) (i : ℕ) (f : Pc A → System A × Option Bool)
      → ((t : Pc A) → Finishes (f t))
      → Finishes (with_thread s i f)
  with_thread-Finishes s i f h = elim (Option-cases (get_elem? s.threads i)) [
    | inl e ↦ rw (e, with_thread) (λ r answers. absurd cc)
    | inr (t, e) ↦ rw (e, with_thread) (h t)
  ]

  lock_thread-Finishes : (s : System A) (i : ℕ) (t : Pc A) → Finishes (lock_thread s i t)
  unfolding lock_thread lock_section
  lock_thread-Finishes s i (at_lock m n ok) r h = look-Settles (clean_up s.shared n ok) m r h
  lock_thread-Finishes s i _ r h = absurd (ground arith)

  wake_thread-Finishes : (s : System A) (i : ℕ) (t : Pc A) → Finishes (wake_thread s i t)
  unfolding wake_thread wake_section
  wake_thread-Finishes s i (waiting m k) r h =
      look-Settles (record s.shared { n_idle = s.shared.n_idle - 1 }) m r h
  wake_thread-Finishes s i _ r h = absurd (ground arith)

  execute_thread-Finishes :
      (check : A → Bool) (s : System A) (i : ℕ) (t : Pc A) → Finishes (execute_thread check s i t)
  unfolding execute_thread
  execute_thread-Finishes check s i (working m n cs ok) r h = absurd (ground arith)
  execute_thread-Finishes check s i _ r h = absurd (ground arith)

  module _ (check : A → Bool) where
    step-Finishes : (s : System A) (e : Event A) → Finishes (step check s e)
    unfolding step
    step-Finishes s (adds cs) r h = absurd (ground arith)
    step-Finishes s (joins m) r h = absurd (ground arith)
    step-Finishes s (locks i) r h =
        with_thread-Finishes s i (lock_thread s i) (lock_thread-Finishes s i) r h
    step-Finishes s (wakes i) r h =
        with_thread-Finishes s i (wake_thread s i) (wake_thread-Finishes s i) r h
    step-Finishes s (executes i) r h =
        with_thread-Finishes s i (execute_thread check s i) (execute_thread-Finishes check s i) r h

    -- Whatever the threads' order, as long as fewer than 2^32 checks are added in all: when a call
    -- of `Wait` returns, the queue is empty and no thread has a check that it took and did not
    -- count as done.
    pub wait_answer_done :
        (n : ℕ) (es : List (Event A)) (e : Event A) (r : Bool)
        → total_added es + added e < 2 ^ 32
        → (step check (run check (start n) es) e).1 ≡ some r
        → (length (step check (run check (start n) es) e).0.shared.queue ≡ 0)
          × (total in_flight (step check (run check (start n) es) e).0.threads ≡ 0)
    wait_answer_done n es e r h answers =
        let s = run check (start n) es in
        let (no_todo, no_queue) = step-Finishes s e r answers in
        let before =
          run_from-Inv check true (added e + 0) (start n) es
            (start-Inv check n (total_added es + (added e + 0)) (omega arith)) in
        let after = (step-Keeps check (session check (start n) true es) 0 s e before).0 in
        (no_queue, omega (arith, no_todo, after.holds.todo))

    module _ (holds : (a : A) → check a ≡ true) where
      all_pass-true : (cs : List A) → all_pass check cs ≡ true
      unfolding all_pass
      all_pass-true [] = refl
      all_pass-true (c ∷ cs) = rw (holds c) (all_pass-true cs)

      passes-true : (e : Event A) → passes check e ≡ true
      passes-true (adds cs) = all_pass-true cs
      passes-true (joins m) = refl
      passes-true (locks i) = refl
      passes-true (wakes i) = refl
      passes-true (executes i) = refl

      renewed-true : (a : Option Bool) → renewed check true a ≡ true
      renewed-true none = refl
      renewed-true (some r) = refl

      -- Where every check holds, nothing has failed in any run.
      pub session-true : (s : System A) (es : List (Event A)) → session check s true es ≡ true
      unfolding session
      session-true s [] = refl
      session-true s (e ∷ es) =
          rw (passes-true e, renewed-true (step check s e).1) (session-true (step check s e).0 es)
