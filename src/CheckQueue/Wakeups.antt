-- ===== src/CheckQueue/Wakeups.antt =====
-- boostthreadcontrol/checkqueue.h: the threads at work while a `Wait` sleeps, over all interleavings.
use learn_framework.Common.{
  ℕ, ◌+◌, ◌-◌, ◌≤◌, ◌<◌, ◌^◌, ◌≡◌, refl, Bool, true, false, Option, some, List, [], ◌∷◌, arith,
  ◌==◌, suc, ◌&&◌, inl, inr, Bool-cases, Option-cases, length, total, total-append, total-set,
  total-get_elem?, total-le_others, total_mono, get_elem?,
}
use learn_framework.CheckQueue.{
  Queue, Pc, at_lock, waiting, working, returned, faulted, clean_up, informs_master, look,
  lock_section, wake_section, run_checks,
}
use learn_framework.CheckQueue.System.{
  System, Event, adds, joins, locks, wakes, executes, start, notify_one, lock_thread, wake_thread,
  execute_thread, with_thread, step, run,
}
use learn_framework.CheckQueue.Account.{in_flight, Inv, total-notify_added, total-notify_one}
use learn_framework.CheckQueue.Preserve.{renewed}
use learn_framework.CheckQueue.Verdict.{
  added, passes, total_added, step-Keeps, more_left, start-Inv,
}
use learn_framework.CheckQueue.Steps.{get_elem?-notify_one}
use learn_framework.CheckQueue.Asleep.{
  asleep, in_wait, asleep-le, Alert, asleep-notify_master, asleep-notify_added, look-Looks,
  put_thread-Alert,
}

module _ {A : Type 0} where
  module _ (check : A → Bool) where
    -- A clean-up that notifies nobody leaves nobody asleep with nothing to do.
    unnoticed :
        (b : Bool) (spare : ℕ) (s : System A) (i : ℕ) (m : Bool) (n : ℕ) (ok : Bool)
        → Inv check b spare s
        → get_elem? s.threads i ≡ some (at_lock m n ok)
        → Alert s.threads
        → informs_master s.shared m n ≡ false
        → (clean_up s.shared n ok).n_todo ≡ 0
        → total asleep s.threads ≤ 0
    unfolding informs_master clean_up
    unnoticed b spare s i true n ok v h a no' z = elim (Bool-cases (n == 0)) [
      | inl first ↦ ground (arith, v.holds, a.awake)
      | inr later ↦ omega (
        arith,
        total-le_others asleep in_wait s.threads i (at_lock true n ok) asleep-le h,
        a.alone,
      )
    ]
    unnoticed b spare s i false n ok v h a no' z = elim (Bool-cases (n == 0)) [
      | inl first ↦ ground (arith, v.holds, a.awake)
      | inr later ↦ absurd (ground arith)
    ]

    lock_thread-Alert :
        (b : Bool) (spare : ℕ) (s : System A) (i : ℕ) (t : Pc A)
        → Inv check b spare s
        → get_elem? s.threads i ≡ some t
        → Alert s.threads
        → Alert (lock_thread s i t).0.threads
    unfolding lock_thread lock_section informs_master clean_up
    lock_thread-Alert b spare s i (at_lock m n ok) v h a =
        elim (Bool-cases (informs_master s.shared m n)) [
          | inl yes' ↦ rw yes' (
              put_thread-Alert s i t (notify_one true s.threads) m q r
                (get_elem?-notify_one check true s.threads i m n ok h)
                (total-notify_one in_flight true s.threads (λ k. refl))
                (total-notify_one in_wait true s.threads (λ k. refl)) refl todo
                (λ z. omega (
                  arith,
                  asleep-notify_master s.threads,
                  a.alone,
                  total_mono asleep in_wait s.threads asleep-le,
                ))
                a (look-Looks q m))
          | inr no' ↦ rw no' (
              put_thread-Alert s i t s.threads m q r h refl refl refl todo
                (λ z. unnoticed b spare s i m n ok v h a no' z) a (look-Looks q m))
        ]
      where
        t : Pc A
        t = at_lock m n ok

        q : Queue A
        q = clean_up s.shared n ok

        r : Queue A × Pc A
        r = look q m

        todo : q.n_todo + n ≡ length q.queue + total in_flight s.threads
        todo = ground (arith, v.holds, total-get_elem? in_flight s.threads i t h)
    lock_thread-Alert b spare s i (waiting m k) v h a = a
    lock_thread-Alert b spare s i (working m n cs ok) v h a = a
    lock_thread-Alert b spare s i (returned m x) v h a = a
    lock_thread-Alert b spare s i faulted v h a = a

    wake_thread-Alert :
        (b : Bool) (spare : ℕ) (s : System A) (i : ℕ) (t : Pc A)
        → Inv check b spare s
        → get_elem? s.threads i ≡ some t
        → Alert s.threads
        → Alert (wake_thread s i t).0.threads
    unfolding wake_thread wake_section
    wake_thread-Alert b spare s i (waiting m k) v h a =
        let q : Queue A = record s.shared { n_idle = s.shared.n_idle - 1 } in
        put_thread-Alert s i (waiting m k) s.threads m q (look q m) h refl refl refl
          (ground (arith, v.holds)) (λ z. ground (arith, v.holds, a.awake)) a (look-Looks q m)
    wake_thread-Alert b spare s i (at_lock m n ok) v h a = a
    wake_thread-Alert b spare s i (working m n cs ok) v h a = a
    wake_thread-Alert b spare s i (returned m x) v h a = a
    wake_thread-Alert b spare s i faulted v h a = a

    execute_thread-Alert :
        (s : System A) (i : ℕ) (t : Pc A)
        → get_elem? s.threads i ≡ some t
        → Alert s.threads
        → Alert (execute_thread check s i t).0.threads
    unfolding execute_thread
    execute_thread-Alert s i (working m n cs ok) h a =
        let next : Pc A = at_lock m n (run_checks check ok cs) in
        record {
          alone = omega (arith, a.alone, total-set in_wait s.threads i (working m n cs ok) next h);
          awake = omega (
            arith,
            a.awake,
            total-set asleep s.threads i (working m n cs ok) next h,
            total-set in_flight s.threads i (working m n cs ok) next h,
          );
        }
    execute_thread-Alert s i (at_lock m n ok) h a = a
    execute_thread-Alert s i (waiting m k) h a = a
    execute_thread-Alert s i (returned m x) h a = a
    execute_thread-Alert s i faulted h a = a

    with_thread-Alert :
        (s : System A) (i : ℕ) (f : Pc A → System A × Option Bool)
        → Alert s.threads
        → ((t : Pc A) → get_elem? s.threads i ≡ some t → Alert (f t).0.threads)
        → Alert (with_thread s i f).0.threads
    with_thread-Alert s i f a k = elim (Option-cases (get_elem? s.threads i)) [
      | inl n ↦ rw (n, with_thread) a
      | inr (t, e) ↦ rw (e, with_thread) (k t e)
    ]

    -- A call of `Wait` begins only when none runs, as under `ControlMutex`.
    abbrev pub Admits : System A → Event A → Type 0
    Admits s (joins true) = total in_wait s.threads ≡ 0
    Admits s _ = Unit

    abbrev pub OneWait : System A → List (Event A) → Type 0
    OneWait s [] = Unit
    OneWait s (e ∷ es) = Admits s e × OneWait (step check s e).0 es

    joins-Alert :
        (s : System A) (m : Bool)
        → Admits s (joins m)
        → Alert s.threads
        → Alert (step check s (joins m)).0.threads
    unfolding step
    joins-Alert s m d a = record {
      alone = elim (Bool-cases m) [
        | inl yes' ↦ ground (arith, total-append in_wait s.threads (at_lock m 0 true ∷ []))
        | inr no' ↦ ground (arith, a.alone, total-append in_wait s.threads (at_lock m 0 true ∷ []))
      ];
      awake = omega (
        arith,
        a.awake,
        total-append asleep s.threads (at_lock m 0 true ∷ []),
        total-append in_flight s.threads (at_lock m 0 true ∷ []),
      );
    }

    step-Alert :
        (b : Bool) (spare : ℕ) (s : System A) (e : Event A)
        → Inv check b spare s
        → Admits s e
        → Alert s.threads
        → Alert (step check s e).0.threads
    unfolding step
    step-Alert b spare s (adds cs) v d a = record {
      alone = omega (arith, a.alone, total-notify_added in_wait (length cs) s.threads (λ m. refl));
      awake = omega (
        arith,
        a.awake,
        asleep-notify_added (length cs) s.threads,
        total-notify_added in_flight (length cs) s.threads (λ m. refl),
      );
    }
    step-Alert b spare s (joins m) v d a = joins-Alert s m d a
    step-Alert b spare s (locks i) v d a =
        with_thread-Alert s i (lock_thread s i) a (λ t h. lock_thread-Alert b spare s i t v h a)
    step-Alert b spare s (wakes i) v d a =
        with_thread-Alert s i (wake_thread s i) a (λ t h. wake_thread-Alert b spare s i t v h a)
    step-Alert b spare s (executes i) v d a =
        with_thread-Alert s i (execute_thread check s i) a (λ t h. execute_thread-Alert s i t h a)

    pub run-Alert :
        (b : Bool) (s : System A) (es : List (Event A))
        → Inv check b (total_added es + 0) s
        → OneWait s es
        → Alert s.threads
        → Alert (run check s es).threads
    unfolding run
    run-Alert b s [] v d a = a
    run-Alert b s (e ∷ es) v d a =
        let w = more_left check b s (added e) (total_added es) 0 v in
        run-Alert (renewed check (b && passes check e) (step check s e).1) (step check s e).0 es
          (step-Keeps check b (total_added es + 0) s e w).0 d.1
          (step-Alert b (added e + (total_added es + 0)) s e w d.0 a)

    pub start_run-Alert :
        (n : ℕ) (es : List (Event A))
        → total_added es < 2 ^ 32
        → OneWait (start n) es
        → Alert (run check (start n) es).threads
    start_run-Alert n es h d =
        run-Alert true (start n) es (start-Inv check n (total_added es + 0) (omega arith)) d
          (record { alone = omega arith; awake = omega arith })

    -- A thread with checks in its batch.
    pub some_busy :
        (ts : List (Pc A))
        → 1 ≤ total in_flight ts
        → (i : ℕ) × (t : Pc A) × (get_elem? ts i ≡ some t) × (1 ≤ in_flight t)
    some_busy [] h = absurd (omega arith)
    some_busy (t ∷ ts) h = elim (Bool-cases (in_flight t == 0)) [
      | inl idle ↦ let (i, u, e, more) = some_busy ts (ground arith) in (suc i, u, e, more)
      | inr busy ↦ (0, t, refl, ground arith)
    ]

    -- No wake-up is lost, whatever the threads' order, as long as fewer than 2^32 checks are added in
    -- all and a call of `Wait` begins only when none runs: if a `Wait` sleeps and has not been
    -- notified, some thread has checks in its batch, which it executes or is about to clean up after.
    pub sleeping_wait :
        (n : ℕ) (es : List (Event A)) (i : ℕ)
        → total_added es < 2 ^ 32
        → OneWait (start n) es
        → get_elem? (run check (start n) es).threads i ≡ some (waiting true false)
        → (j : ℕ) × (t : Pc A) × (get_elem? (run check (start n) es).threads j ≡ some t)
          × (1 ≤ in_flight t)
    sleeping_wait n es i h d e = some_busy (run check (start n) es).threads (
        omega (
          arith,
          (start_run-Alert n es h d).awake,
          total-get_elem? asleep (run check (start n) es).threads i (waiting true false) e,
        ))
