-- ===== src/CheckQueue/Finish.antt =====
-- boostthreadcontrol/checkqueue.h: the threads take their turns until none can go on.
use learn_framework.Common.{
  ℕ, suc, ◌+◌, ◌*◌, ◌^◌, ◌≤◌, ◌<◌, ◌≡◌, refl, sym, subst, ◌⊎◌, Bool, true, false, some, List, [],
  ◌∷◌, arith, ◌==◌, inl, inr, Bool-cases, length, total, get_elem?,
}
use learn_framework.CheckQueue.{Pc, at_lock, waiting, working, returned, faulted}
use learn_framework.CheckQueue.System.{
  System, Event, adds, joins, locks, wakes, executes, start, step, run,
}
use learn_framework.CheckQueue.Account.{in_flight, Inv}
use learn_framework.CheckQueue.Verdict.{session, total_added, run-Inv}
use learn_framework.CheckQueue.Asleep.{asleep, in_wait, Alert}
use learn_framework.CheckQueue.Rank.{ready, AllReady, run-rank, rank-le}
use learn_framework.CheckQueue.Wakeups.{Admits, OneWait, run-Alert, start_run-Alert, some_busy}

module _ {A : Type 0} where
  -- A thread with checks in its batch can go on.
  busy_ready :
      (s : System A) (i : ℕ) (t : Pc A)
      → get_elem? s.threads i ≡ some t
      → 1 ≤ in_flight t
      → (e : Event A) × (ready s e ≡ true)
  busy_ready s i (at_lock m n ok) h b = (locks i, rw h refl)
  busy_ready s i (working m n cs ok) h b = (executes i, rw h refl)
  busy_ready s i (waiting m k) h b = absurd (omega arith)
  busy_ready s i (returned m r) h b = absurd (omega arith)
  busy_ready s i faulted h b = absurd (omega arith)

  -- A thread in `Wait` can go on, or it sleeps.
  waiter_ready :
      (s : System A) (i : ℕ) (t : Pc A)
      → get_elem? s.threads i ≡ some t
      → 1 ≤ in_wait t
      → asleep t ≡ 0
      → (e : Event A) × (ready s e ≡ true)
  waiter_ready s i (at_lock m n ok) h w a = (locks i, rw h refl)
  waiter_ready s i (working m n cs ok) h w a = (executes i, rw h refl)
  waiter_ready s i (waiting m true) h w a = (wakes i, rw h refl)
  waiter_ready s i (waiting true false) h w a = absurd (omega arith)
  waiter_ready s i (waiting false false) h w a = absurd (omega arith)
  waiter_ready s i (returned m r) h w a = absurd (omega arith)
  waiter_ready s i faulted h w a = absurd (omega arith)

  some_waiter :
      (ts : List (Pc A))
      → 1 ≤ total in_wait ts
      → total asleep ts ≡ 0
      → (i : ℕ) × (t : Pc A) × (get_elem? ts i ≡ some t) × (1 ≤ in_wait t) × (asleep t ≡ 0)
  some_waiter [] h a = absurd (omega arith)
  some_waiter (t ∷ ts) h a = elim (Bool-cases (in_wait t == 0)) [
    | inl out ↦
        let (i, u, e, w, z) = some_waiter ts (ground arith) (ground arith) in (suc i, u, e, w, z)
    | inr inside ↦ (0, t, refl, ground arith, ground arith)
  ]

  -- While a `Wait` runs, some thread can go on.
  wait_ready :
      (s : System A)
      → Alert s.threads
      → 1 ≤ total in_wait s.threads
      → (e : Event A) × (ready s e ≡ true)
  wait_ready s a w = elim (Bool-cases (total asleep s.threads == 0)) [
    | inl up ↦
        let (i, t, h, inside, z) = some_waiter s.threads w (ground arith) in
        waiter_ready s i t h inside z
    | inr sleeping ↦
        let (i, t, h, b) = some_busy (λ x. true) s.threads (ground (arith, a.awake)) in
        busy_ready s i t h b
  ]

  ready_adds_none :
      (s : System A) (e : Event A) (es : List (Event A))
      → ready s e ≡ true
      → (total_added (e ∷ es) ≡ total_added es) × Admits (λ a. true) s e
  ready_adds_none s (locks i) es h = (omega arith, tt)
  ready_adds_none s (wakes i) es h = (omega arith, tt)
  ready_adds_none s (executes i) es h = (omega arith, tt)
  ready_adds_none s (adds cs) es h = absurd (ground arith)
  ready_adds_none s (joins m) es h = absurd (ground arith)

  module _ (check : A → Bool) where
    AllReady-OneWait :
        (s : System A) (es : List (Event A))
        → AllReady check s es
        → OneWait check s es × (total_added es ≡ 0)
    AllReady-OneWait s [] h = (tt, refl)
    AllReady-OneWait s (e ∷ es) h =
        let (same, admits) = ready_adds_none s e es h.0 in
        let (one, zero_added) = AllReady-OneWait (step check s e).0 es h.1 in
        ((admits, one), omega arith)

    -- Let the threads of any reachable queue take their turns in any order, each only where it can go
    -- on and none waking without a notification, and let nobody add checks or begin a `Wait`
    -- meanwhile. They take at most three turns for each queued check and each thread, and at every
    -- moment no `Wait` runs any more or some thread can go on. Fewer than 2^32 checks are added in
    -- all, and a `Wait` has begun only when none ran.
    pub wait_returns :
        (n : ℕ) (es calm : List (Event A))
        → total_added es < 2 ^ 32
        → OneWait check (start n) es
        → AllReady check (run check (start n) es) calm
        → (length calm
            ≤ 3
              * (length (run check (start n) es).shared.queue
                  + length (run check (start n) es).threads))
          × ((total in_wait (run check (run check (start n) es) calm).threads ≡ 0)
              ⊎ ((e : Event A) × (ready (run check (run check (start n) es) calm) e ≡ true)))
    wait_returns n es calm h d r = (
      omega (arith, run-rank check s calm r, rank-le s),
      elim (Bool-cases (total in_wait (run check s calm).threads == 0)) [
        | inl over ↦ inl (ground arith)
        | inr running ↦ inr (wait_ready (run check s calm) alert (ground arith))
      ],
    )
      where
        s : System A
        s = run check (start n) es

        none_added : OneWait check s calm × (total_added calm ≡ 0)
        none_added = AllReady-OneWait s calm r

        spare : total_added calm + 0 ≡ 0
        spare = omega (arith, none_added.1)

        alert : Alert (run check s calm).threads
        alert =
            run-Alert check (session check (start n) true es) s calm
              (subst (λ k. Inv check (session check (start n) true es) k s) (sym spare)
                (run-Inv check n es h))
              none_added.0 (start_run-Alert check n es h d)
