-- ===== src/CheckQueue/Verdict.antt =====
-- boostthreadcontrol/checkqueue.h: what `Wait` answers, over all interleavings.
use learn_framework.Common.{
  ℕ, ◌+◌, ◌^◌, ◌<◌, ◌≡◌, refl, subst, Bool, true, false, ◌&&◌, Option, some, List, [], ◌∷◌, arith,
  ◌==◌, inl, inr, Option-cases, length, total, total-append, get_elem?,
}
use learn_framework.CheckQueue.{Pc, at_lock, new_queue, add, push_all}
use learn_framework.CheckQueue.System.{
  System, Event, adds, joins, locks, wakes, executes, start, lock_thread, wake_thread,
  execute_thread, with_thread, step, run,
}
use learn_framework.CheckQueue.Account.{
  in_flight, counted, idle, is_fault, is_idle_batch, is_gone, bad, bad_batch, fails, Inv,
  total-notify_added,
}
use learn_framework.CheckQueue.Preserve.{renewed}
use learn_framework.CheckQueue.Steps.{
  Keeps, lock_thread-Keeps, wake_thread-Keeps, execute_thread-Keeps,
}

module _ {A : Type 0} where
  length-push_all : (cs queue : List A) → length (push_all cs queue) ≡ length cs + length queue
  unfolding push_all
  length-push_all [] queue = omega arith
  length-push_all (c ∷ cs) queue = omega (arith, length-push_all cs (c ∷ queue))

  total-push_all :
      (w : A → ℕ) (cs queue : List A) → total w (push_all cs queue) ≡ total w cs + total w queue
  unfolding push_all
  total-push_all w [] queue = omega arith
  total-push_all w (c ∷ cs) queue = omega (arith, total-push_all w cs (c ∷ queue))

  -- How many checks an event adds, and a list of events.
  abbrev pub added : Event A → ℕ
  added (adds cs) = length cs
  added _ = 0

  abbrev pub total_added : List (Event A) → ℕ
  total_added = total added

  module _ (check : A → Bool) where
    unfoldable pub all_pass : List A → Bool
    all_pass [] = true
    all_pass (c ∷ cs) = check c && all_pass cs

    abbrev pub passes : Event A → Bool
    passes (adds cs) = all_pass cs
    passes _ = true

    -- Whether all checks hold that were added since `Wait` last answered, where `b` says so of
    -- those before these events.
    unfoldable pub session : System A → Bool → List (Event A) → Bool
    session s b [] = b
    session s b (e ∷ es) =
        session (step check s e).0 (renewed check (b && passes e) (step check s e).1) es

    fails-all_pass : (cs : List A) → (fails check cs == 0) ≡ all_pass cs
    unfolding all_pass
    fails-all_pass [] = refl
    fails-all_pass (c ∷ cs) = ground (arith, fails-all_pass cs)

    adds-Inv :
        (b : Bool) (spare : ℕ) (s : System A) (cs : List A)
        → Inv check b (length cs + spare) s
        → Inv check (b && all_pass cs) spare (step check s (adds cs)).0
    unfolding step add
    adds-Inv b spare s cs v = record {
      holds = ground (
        arith,
        length-push_all cs s.shared.queue,
        total-push_all (λ a. bad (check a)) cs s.shared.queue,
        fails-all_pass cs,
        total-notify_added in_flight (length cs) s.threads (λ m. refl),
        total-notify_added counted (length cs) s.threads (λ m. refl),
        total-notify_added idle (length cs) s.threads (λ m. refl),
        total-notify_added (bad_batch check) (length cs) s.threads (λ m. refl),
      );
      no_fault =
          omega (arith, v.no_fault, total-notify_added is_fault (length cs) s.threads (λ m. refl));
      busy =
          omega (arith, v.busy, total-notify_added is_idle_batch (length cs) s.threads (λ m. refl));
      stays = omega (arith, v.stays, total-notify_added is_gone (length cs) s.threads (λ m. refl));
    }

    joins-Inv :
        (b : Bool) (spare : ℕ) (s : System A) (m : Bool)
        → Inv check b spare s
        → Inv check b spare (step check s (joins m)).0
    unfolding step
    joins-Inv b spare s m v = record {
      holds = ground (
        arith,
        total-append in_flight s.threads (at_lock m 0 true ∷ []),
        total-append counted s.threads (at_lock m 0 true ∷ []),
        total-append idle s.threads (at_lock m 0 true ∷ []),
        total-append (bad_batch check) s.threads (at_lock m 0 true ∷ []),
      );
      no_fault = omega (arith, v.no_fault, total-append is_fault s.threads (at_lock m 0 true ∷ []));
      busy = omega (arith, v.busy, total-append is_idle_batch s.threads (at_lock m 0 true ∷ []));
      stays = omega (arith, v.stays, total-append is_gone s.threads (at_lock m 0 true ∷ []));
    }

    pub and_true : (b : Bool) → b && true ≡ b
    and_true true = refl
    and_true false = refl

    pub no_more :
        (b : Bool) (spare : ℕ) (s : System A) → Inv check b (0 + spare) s → Inv check b spare s
    no_more b spare s v =
        let e : 0 + spare ≡ spare = omega arith in subst (λ k. Inv check b k s) e v

    pub more_left :
        (b : Bool) (s : System A) (x y z : ℕ)
        → Inv check b (x + y + z) s
        → Inv check b (x + (y + z)) s
    more_left b s x y z v =
        let e : x + y + z ≡ x + (y + z) = omega arith in subst (λ k. Inv check b k s) e v

    with_thread-Keeps :
        (b : Bool) (spare : ℕ) (s : System A) (i : ℕ) (f : Pc A → System A × Option Bool)
        → Inv check b spare s
        → ((t : Pc A) → get_elem? s.threads i ≡ some t → Keeps check b spare (f t))
        → Keeps check b spare (with_thread s i f)
    with_thread-Keeps b spare s i f v k = elim (Option-cases (get_elem? s.threads i)) [
      | inl n ↦ rw (n, with_thread) (v, λ r e. cc)
      | inr (t, e) ↦ rw (e, with_thread) (k t e)
    ]

    pub step-Keeps :
        (b : Bool) (spare : ℕ) (s : System A) (e : Event A)
        → Inv check b (added e + spare) s
        → Inv check (renewed check (b && passes e) (step check s e).1) spare (step check s e).0
          × ((r : Bool) → (step check s e).1 ≡ some r → r ≡ b)
    unfolding step
    step-Keeps b spare s (adds cs) v = (adds-Inv b spare s cs v, λ r e. cc)
    step-Keeps b spare s (joins m) v =
        (rw (and_true b) (joins-Inv b spare s m (no_more b spare s v)), λ r e. cc)
    step-Keeps b spare s (locks i) v = rw (and_true b) (
        with_thread-Keeps b spare s i (lock_thread s i) (no_more b spare s v)
          (λ t h. lock_thread-Keeps check b spare s i t (no_more b spare s v) h))
    step-Keeps b spare s (wakes i) v = rw (and_true b) (
        with_thread-Keeps b spare s i (wake_thread s i) (no_more b spare s v)
          (λ t h. wake_thread-Keeps check b spare s i t (no_more b spare s v) h))
    step-Keeps b spare s (executes i) v = rw (and_true b) (
        with_thread-Keeps b spare s i (execute_thread check s i) (no_more b spare s v)
          (λ t h. execute_thread-Keeps check b spare s i t (no_more b spare s v) h))

    pub start-Inv : (n spare : ℕ) → spare < 2 ^ 32 → Inv check true spare (start n)
    unfolding new_queue
    start-Inv n spare h = record {
      holds = ground arith;
      no_fault = refl;
      busy = refl;
      stays = refl;
    }

    pub run_from-Inv :
        (b : Bool) (spare : ℕ) (s : System A) (es : List (Event A))
        → Inv check b (total_added es + spare) s
        → Inv check (session s b es) spare (run check s es)
    unfolding run session
    run_from-Inv b spare s [] v = no_more b spare s v
    run_from-Inv b spare s (e ∷ es) v =
        run_from-Inv (renewed check (b && passes e) (step check s e).1) spare (step check s e).0 es
          (step-Keeps b (total_added es + spare) s e
            (more_left b s (added e) (total_added es) spare v)).0

    -- Whatever the threads' order, as long as fewer than 2^32 checks are added in all: `nTodo` counts
    -- the checks that are queued or in batches, `nTotal` and `nIdle` the threads in the loop and in a
    -- wait; no thread takes from an empty vector or takes an empty batch, and no worker leaves the
    -- loop; and nothing counted has failed exactly if all checks hold that were added since `Wait`
    -- last answered.
    pub run-Inv :
        (n : ℕ) (es : List (Event A))
        → total_added es < 2 ^ 32
        → Inv check (session (start n) true es) 0 (run check (start n) es)
    run-Inv n es h =
        run_from-Inv true 0 (start n) es (start-Inv n (total_added es + 0) (omega arith))

    -- Whatever the threads' order: whenever a call of `Wait` returns, its answer is whether all checks
    -- hold that were added since `Wait` last returned, as long as fewer than 2^32 are added in all.
    pub wait_answer :
        (n : ℕ) (es : List (Event A)) (e : Event A) (r : Bool)
        → total_added es + added e < 2 ^ 32
        → (step check (run check (start n) es) e).1 ≡ some r
        → r ≡ session (start n) true es
    wait_answer n es e r h answers =
        (step-Keeps (session (start n) true es) 0 (run check (start n) es) e (
            run_from-Inv true (added e + 0) (start n) es
              (start-Inv n (total_added es + (added e + 0)) (omega arith)))).1
          r answers
