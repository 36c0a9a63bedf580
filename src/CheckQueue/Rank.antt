-- ===== src/CheckQueue/Rank.antt =====
-- boostthreadcontrol/checkqueue.h: how many turns the threads of a queue have left.
use learn_framework.Common.{
  ℕ, ◌+◌, ◌-◌, ◌*◌, ◌≤◌, ◌<◌, ◌≡◌, refl, sym, ap, ◌∙◌, Bool, true, false, Option, none, some, List,
  [], ◌∷◌, arith, inl, inr, Bool-cases, Option-cases, length, total, total-set, get_elem?,
  length-drop,
}
use learn_framework.CheckQueue.{
  Queue, Pc, at_lock, waiting, working, returned, faulted, clean_up, informs_master, out_of_work,
  look, lock_section, wake_section, run_checks, is_empty,
}
use learn_framework.CheckQueue.System.{
  System, Event, adds, joins, locks, wakes, executes, notify_one, lock_thread, wake_thread,
  execute_thread, with_thread, put_thread, step, run,
}
use learn_framework.CheckQueue.Batch.{look-take}
use learn_framework.CheckQueue.Steps.{get_elem?-notify_one}

module _ {A : Type 0} where
  -- The turns that a thread may have before it next sleeps, if it finds no more work.
  abbrev pub turns : Pc A → ℕ
  turns (working m n cs ok) = 3
  turns (at_lock m n ok) = 2
  turns (waiting m true) = 1
  turns (waiting m false) = 0
  turns (returned m r) = 0
  turns faulted = 0

  -- Each queued check may send a thread round the loop once more.
  abbrev pub rank : System A → ℕ
  rank s = 3 * length s.shared.queue + total turns s.threads

  -- The thread at this position can make the event, and a sleep ends by a notification alone.
  abbrev pub can_go : Event A → Option (Pc A) → Bool
  can_go (locks i) (some (at_lock m n ok)) = true
  can_go (wakes i) (some (waiting m true)) = true
  can_go (executes i) (some (working m n cs ok)) = true
  can_go _ _ = false

  abbrev pub thread_of : Event A → ℕ
  thread_of (locks i) = i
  thread_of (wakes i) = i
  thread_of (executes i) = i
  thread_of _ = 0

  abbrev pub ready : System A → Event A → Bool
  ready s e = can_go e (get_elem? s.threads (thread_of e))

  turns-notify_one :
      (m : Bool) (ts : List (Pc A)) → total turns (notify_one m ts) ≤ total turns ts + 1
  unfolding notify_one
  turns-notify_one m [] = omega arith
  turns-notify_one m (waiting k false ∷ ts) = ground (arith, turns-notify_one m ts)
  turns-notify_one m (waiting k true ∷ ts) = omega (arith, turns-notify_one m ts)
  turns-notify_one m (t ∷ ts) = omega (arith, turns-notify_one m ts)

  out_of_work-turns :
      (q : Queue A) (m : Bool)
      → (turns (out_of_work q m).1 ≡ 0) × ((out_of_work q m).0.queue ≡ q.queue)
  unfolding out_of_work
  out_of_work-turns q m = ground arith

  look-turns :
      (q : Queue A) (m : Bool)
      → 3 * length (look q m).0.queue + turns (look q m).1 ≤ 3 * length q.queue
  unfolding look
  look-turns q m = elim (Bool-cases (is_empty q.queue)) [
    | inl e ↦
        let (none_left, same_queue) = out_of_work-turns q m in
        rw e (ground (arith, ap length same_queue))
    | inr e ↦
        let (n, lo, hi, fits, eq) = look-take q m e in rw eq (omega (arith, length-drop n q.queue))
  ]

  -- A critical section of thread `i`, whose position was `t`, behind the notifications.
  put_thread-rank :
      (s : System A) (i : ℕ) (t : Pc A) (ts : List (Pc A)) (q : Queue A) (m : Bool)
      → get_elem? ts i ≡ some t
      → q.queue ≡ s.shared.queue
      → total turns ts + 1 ≤ total turns s.threads + turns t
      → rank (put_thread i ts (look q m)).0 < rank s
  put_thread-rank s i t ts q m h eq less =
      omega (arith, look-turns q m, ap length eq, total-set turns ts i t (look q m).1 h)

  clean_up-queue : (q : Queue A) (n : ℕ) (ok : Bool) → (clean_up q n ok).queue ≡ q.queue
  unfolding clean_up
  clean_up-queue q n ok = ground arith

  lock_thread-rank :
      (s : System A) (i : ℕ) (t : Pc A)
      → get_elem? s.threads i ≡ some t
      → can_go (locks i) (some t) ≡ true
      → rank (lock_thread s i t).0 < rank s
  unfolding lock_thread lock_section
  lock_thread-rank s i (at_lock m n ok) h g = elim (Bool-cases (informs_master s.shared m n)) [
    | inl tells ↦ rw tells (
        put_thread-rank s i (at_lock m n ok) (notify_one true s.threads) (clean_up s.shared n ok) m
          (get_elem?-notify_one (λ a. true) true s.threads i m n ok h)
          (clean_up-queue s.shared n ok) (omega (arith, turns-notify_one true s.threads)))
    | inr silent ↦ rw silent (
        put_thread-rank s i (at_lock m n ok) s.threads (clean_up s.shared n ok) m h
          (clean_up-queue s.shared n ok) (omega arith))
  ]
  lock_thread-rank s i (waiting m k) h g = cc
  lock_thread-rank s i (working m n cs ok) h g = cc
  lock_thread-rank s i (returned m r) h g = cc
  lock_thread-rank s i faulted h g = cc

  wake_thread-rank :
      (s : System A) (i : ℕ) (t : Pc A)
      → get_elem? s.threads i ≡ some t
      → can_go (wakes i) (some t) ≡ true
      → rank (wake_thread s i t).0 < rank s
  unfolding wake_thread wake_section
  wake_thread-rank s i (waiting m true) h g =
      put_thread-rank s i (waiting m true) s.threads
        (record s.shared { n_idle = s.shared.n_idle - 1 }) m h refl (omega arith)
  wake_thread-rank s i (waiting m false) h g = cc
  wake_thread-rank s i (at_lock m n ok) h g = cc
  wake_thread-rank s i (working m n cs ok) h g = cc
  wake_thread-rank s i (returned m r) h g = cc
  wake_thread-rank s i faulted h g = cc

  with_thread-rank :
      (s : System A) (i : ℕ) (e : Event A) (f : Pc A → System A × Option Bool)
      → can_go e (get_elem? s.threads i) ≡ true
      → can_go e none ≡ false
      → ((t : Pc A)
          → get_elem? s.threads i ≡ some t
          → can_go e (some t) ≡ true
          → rank (f t).0 < rank s)
      → rank (with_thread s i f).0 < rank s
  with_thread-rank s i e f g no_thread k = elim (Option-cases (get_elem? s.threads i)) [
    | inl n ↦ absurd (ground (arith, ap (can_go e) n))
    | inr (t, found) ↦ rw (found, with_thread) (k t found (sym (ap (can_go e) found) ∙ g))
  ]

  module _ (check : A → Bool) where
    execute_thread-rank :
        (s : System A) (i : ℕ) (t : Pc A)
        → get_elem? s.threads i ≡ some t
        → can_go (executes i) (some t) ≡ true
        → rank (execute_thread check s i t).0 < rank s
    unfolding execute_thread
    execute_thread-rank s i (working m n cs ok) h g = omega (
      arith,
      total-set turns s.threads i (working m n cs ok) (at_lock m n (run_checks check ok cs)) h,
    )
    execute_thread-rank s i (at_lock m n ok) h g = cc
    execute_thread-rank s i (waiting m k) h g = cc
    execute_thread-rank s i (returned m r) h g = cc
    execute_thread-rank s i faulted h g = cc

    -- A turn of a thread uses up some of the rank.
    pub step-rank :
        (s : System A) (e : Event A) → ready s e ≡ true → rank (step check s e).0 < rank s
    unfolding step
    step-rank s (locks i) h =
        with_thread-rank s i (locks i) (lock_thread s i) h refl (lock_thread-rank s i)
    step-rank s (wakes i) h =
        with_thread-rank s i (wakes i) (wake_thread s i) h refl (wake_thread-rank s i)
    step-rank s (executes i) h =
        with_thread-rank s i (executes i) (execute_thread check s i) h refl
          (execute_thread-rank s i)
    step-rank s (adds cs) h = absurd (ground arith)
    step-rank s (joins m) h = absurd (ground arith)

    -- Each event is a turn of a thread that can go on.
    abbrev pub AllReady : System A → List (Event A) → Type 0
    AllReady s [] = Unit
    AllReady s (e ∷ es) = (ready s e ≡ true) × AllReady (step check s e).0 es

    pub run-rank :
        (s : System A) (es : List (Event A))
        → AllReady s es
        → length es + rank (run check s es) ≤ rank s
    unfolding run
    run-rank s [] h = omega arith
    run-rank s (e ∷ es) h = omega (arith, step-rank s e h.0, run-rank (step check s e).0 es h.1)

  pub rank-le : (s : System A) → rank s ≤ 3 * (length s.shared.queue + length s.threads)
  rank-le s = omega (arith, total_turns s.threads)
    where
      total_turns : (ts : List (Pc A)) → total turns ts ≤ 3 * length ts
      total_turns [] = omega arith
      total_turns (working m n cs ok ∷ ts) = omega (arith, total_turns ts)
      total_turns (waiting m true ∷ ts) = omega (arith, total_turns ts)
      total_turns (waiting m false ∷ ts) = omega (arith, total_turns ts)
      total_turns (t ∷ ts) = omega (arith, total_turns ts)
