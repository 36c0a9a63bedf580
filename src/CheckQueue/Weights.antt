-- ===== src/CheckQueue/Weights.antt =====
-- boostthreadcontrol/checkqueue.h: what the calls that begin say of the threads in the loop.
use learn_framework.Common.{
  ℕ, ◌+◌, ◌-◌, ◌≤◌, ◌≡◌, refl, Bool, true, false, Option, none, some, List, [], ◌∷◌, arith, inl,
  inr, Bool-cases, Option-cases, length, total, total-append, total-set, get_elem?,
}
use learn_framework.CheckQueue.{
  Queue, Pc, at_lock, waiting, working, returned, faulted, out_of_work, look, take_batch,
  lock_section, wake_section, informs_master, pop_batch, is_empty, batch_size, clean_up, run_checks,
}
use learn_framework.CheckQueue.System.{
  System, Event, adds, joins, locks, wakes, executes, answer, put_thread, lock_thread, wake_thread,
  execute_thread, with_thread, notify_one, step, run,
}
use learn_framework.CheckQueue.Account.{IsBlind, total-notify_one, total-notify_added}
use learn_framework.CheckQueue.Steps.{get_elem?-notify_one}

module _ {A : Type 0} where
  -- What an event adds to a weight of the threads that is `role m` for each in the loop.
  abbrev pub joined : (Bool → ℕ) → Event A → ℕ
  joined role (joins m) = role m
  joined role _ = 0

  -- A weight of the threads that no thread raises, and lowers by `got` when it answers.
  pub record Fading (w : Pc A → ℕ) (role : Bool → ℕ) (got : Option Bool → ℕ) : Type 0 where
    pub locking : (m : Bool) (n : ℕ) (ok : Bool) → w (at_lock m n ok) ≡ role m
    pub sleeping : (m k : Bool) → w (waiting m k) ≡ role m
    pub busy : (m : Bool) (n : ℕ) (cs : List A) (ok : Bool) → w (working m n cs ok) ≡ role m
    pub gone : (m r : Bool) → w (returned m r) + got (answer {A = A} (returned m r)) ≤ role m
    pub fault_least : (m : Bool) → w faulted ≤ role m
    pub no_answer : got none ≡ 0

  module _ (w : Pc A → ℕ) (role : Bool → ℕ) (got : Option Bool → ℕ) (f : Fading w role got) where
    blind : IsBlind w
    blind m = ground (arith, f.sleeping m true, f.sleeping m false)

    take_batch-weight :
        (q : Queue A) (m : Bool) (n : ℕ)
        → w (take_batch q m n).1 + got (answer (take_batch q m n).1) ≤ role m
    unfolding take_batch
    take_batch-weight q m n = elim (Option-cases (pop_batch n q.queue)) [
      | inl e ↦ rw (e, answer, take_batch) (omega (arith, f.fault_least m, f.no_answer))
      | inr ((batch, rest), e) ↦
          rw (e, answer, take_batch) (omega (arith, f.busy m n batch q.f_all_ok, f.no_answer))
    ]

    look-weight : (q : Queue A) (m : Bool) → w (look q m).1 + got (answer (look q m).1) ≤ role m
    unfolding look out_of_work
    look-weight q m = elim (Bool-cases (is_empty q.queue)) [
      | inl none_left ↦
          ground (arith, none_left, f.gone m q.f_all_ok, f.sleeping m false, f.no_answer)
      | inr more ↦ rw more (take_batch-weight q m (batch_size q))
    ]

    abbrev Fades : System A → System A × Option Bool → Type 0
    Fades s x = total w x.0.threads + got x.1 ≤ total w s.threads

    put_thread-Fades :
        (s : System A) (i : ℕ) (ts : List (Pc A)) (t : Pc A) (r : Queue A × Pc A)
        → get_elem? ts i ≡ some t
        → total w ts ≡ total w s.threads
        → w r.1 + got (answer r.1) ≤ w t
        → Fades s (put_thread i ts r)
    put_thread-Fades s i ts t r h same less = omega (arith, total-set w ts i t r.1 h)

    stays-Fades : (s : System A) → Fades s (s, none)
    stays-Fades s = omega (arith, f.no_answer)

    lock_thread-Fades :
        (s : System A) (i : ℕ) (t : Pc A)
        → get_elem? s.threads i ≡ some t
        → Fades s (lock_thread s i t)
    unfolding lock_thread lock_section
    lock_thread-Fades s i (at_lock m n ok) h =
        let q = clean_up s.shared n ok in
        let less : w (look q m).1 + got (answer (look q m).1) ≤ w (at_lock m n ok) =
          omega (arith, look-weight q m, f.locking m n ok) in
        elim (Bool-cases (informs_master s.shared m n)) [
          | inl yes' ↦ rw yes' (
              put_thread-Fades s i (notify_one true s.threads) (at_lock m n ok) (look q m)
                (get_elem?-notify_one (λ x. true) true s.threads i m n ok h)
                (total-notify_one w true s.threads blind) less)
          | inr no' ↦
              rw no' (put_thread-Fades s i s.threads (at_lock m n ok) (look q m) h refl less)
        ]
    lock_thread-Fades s i (waiting m k) h = stays-Fades s
    lock_thread-Fades s i (working m n cs ok) h = stays-Fades s
    lock_thread-Fades s i (returned m x) h = stays-Fades s
    lock_thread-Fades s i faulted h = stays-Fades s

    wake_thread-Fades :
        (s : System A) (i : ℕ) (t : Pc A)
        → get_elem? s.threads i ≡ some t
        → Fades s (wake_thread s i t)
    unfolding wake_thread wake_section
    wake_thread-Fades s i (waiting m k) h =
        let q : Queue A = record s.shared { n_idle = s.shared.n_idle - 1 } in
        put_thread-Fades s i s.threads (waiting m k) (look q m) h refl
          (omega (arith, look-weight q m, f.sleeping m k))
    wake_thread-Fades s i (at_lock m n ok) h = stays-Fades s
    wake_thread-Fades s i (working m n cs ok) h = stays-Fades s
    wake_thread-Fades s i (returned m x) h = stays-Fades s
    wake_thread-Fades s i faulted h = stays-Fades s

    execute_thread-Fades :
        (check : A → Bool) (s : System A) (i : ℕ) (t : Pc A)
        → get_elem? s.threads i ≡ some t
        → Fades s (execute_thread check s i t)
    unfolding execute_thread
    execute_thread-Fades check s i (working m n cs ok) h =
        let next : Pc A = at_lock m n (run_checks check ok cs) in
        put_thread-Fades s i s.threads (working m n cs ok) (s.shared, next) h refl
          (omega (arith, f.busy m n cs ok, f.locking m n (run_checks check ok cs), f.no_answer))
    execute_thread-Fades check s i (at_lock m n ok) h = stays-Fades s
    execute_thread-Fades check s i (waiting m k) h = stays-Fades s
    execute_thread-Fades check s i (returned m x) h = stays-Fades s
    execute_thread-Fades check s i faulted h = stays-Fades s

    with_thread-Fades :
        (s : System A) (i : ℕ) (g : Pc A → System A × Option Bool)
        → ((t : Pc A) → get_elem? s.threads i ≡ some t → Fades s (g t))
        → Fades s (with_thread s i g)
    with_thread-Fades s i g k = elim (Option-cases (get_elem? s.threads i)) [
      | inl n ↦ rw (n, with_thread) (stays-Fades s)
      | inr (t, e) ↦ rw (e, with_thread) (k t e)
    ]

    -- Only an event that starts a thread raises the weight, by that thread's.
    pub step-weight :
        (check : A → Bool) (s : System A) (e : Event A)
        → total w (step check s e).0.threads + got (step check s e).1
          ≤ total w s.threads + joined role e
    unfolding step
    step-weight check s (adds cs) =
        omega (arith, total-notify_added w (length cs) s.threads blind, f.no_answer)
    step-weight check s (joins m) =
        omega
          (arith, total-append w s.threads (at_lock m 0 true ∷ []), f.locking m 0 true, f.no_answer)
    step-weight check s (locks i) =
        omega (arith, with_thread-Fades s i (lock_thread s i) (lock_thread-Fades s i))
    step-weight check s (wakes i) =
        omega (arith, with_thread-Fades s i (wake_thread s i) (wake_thread-Fades s i))
    step-weight check s (executes i) =
        omega
          (arith, with_thread-Fades s i (execute_thread check s i) (execute_thread-Fades check s i))

    pub run-weight :
        (check : A → Bool) (s : System A) (es : List (Event A))
        → total w (run check s es).threads ≤ total w s.threads + total (joined role) es
    unfolding run
    run-weight check s [] = omega arith
    run-weight check s (e ∷ es) =
        omega (arith, step-weight check s e, run-weight check (step check s e).0 es)
