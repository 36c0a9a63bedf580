-- ===== src/CheckQueue/Asleep.antt =====
-- boostthreadcontrol/checkqueue.h: the calls of `Wait` that sleep, and what a critical section and
-- the notifications do to them.
use learn_framework.Common.{
  ℕ, ◌+◌, ◌-◌, ◌≤◌, ◌≡◌, refl, Bool, true, false, some, List, [], ◌∷◌, arith, ◌==◌, if◌then◌else◌,
  inl, inr, Bool-cases, length, total, total-set, total-get_elem?, total_mono, get_elem?,
}
use learn_framework.CheckQueue.{
  Queue, Pc, at_lock, waiting, working, returned, faulted, out_of_work, look, is_empty,
}
use learn_framework.CheckQueue.System.{System, notify_one, notify_all, notify_added, put_thread}
use learn_framework.CheckQueue.Account.{in_flight}
use learn_framework.CheckQueue.Batch.{look-take}

module _ {A : Type 0} where
  -- A `Wait` that sleeps and has not been notified.
  abbrev pub asleep : Pc A → ℕ
  asleep (waiting true false) = 1
  asleep (waiting true true) = 0
  asleep (waiting false k) = 0
  asleep (at_lock m n ok) = 0
  asleep (working m n cs ok) = 0
  asleep (returned m r) = 0
  asleep faulted = 0

  -- A call of `Wait` that has not returned.
  abbrev pub in_wait : Pc A → ℕ
  in_wait (waiting m k) = if m then 1 else 0
  in_wait (at_lock m n ok) = if m then 1 else 0
  in_wait (working m n cs ok) = if m then 1 else 0
  in_wait (returned m r) = 0
  in_wait faulted = 0

  pub asleep-le : (t : Pc A) → asleep t ≤ in_wait t
  asleep-le (waiting true true) = omega arith
  asleep-le (waiting true false) = omega arith
  asleep-le (waiting false k) = omega arith
  asleep-le (at_lock m n ok) = omega arith
  asleep-le (working m n cs ok) = omega arith
  asleep-le (returned m r) = omega arith
  asleep-le faulted = omega arith

  -- At most one `Wait` runs, and if it sleeps, some checks are in a batch.
  pub record Alert (ts : List (Pc A)) : Type 0 where
    pub alone : total in_wait ts ≤ 1
    pub awake : total asleep ts ≤ total in_flight ts

  pub asleep-notify_master :
      (ts : List (Pc A)) → total asleep (notify_one true ts) ≡ total asleep ts - 1
  unfolding notify_one
  asleep-notify_master [] = refl
  asleep-notify_master (waiting true false ∷ ts) = omega arith
  asleep-notify_master (waiting false false ∷ ts) = omega (arith, asleep-notify_master ts)
  asleep-notify_master (t ∷ ts) = omega (arith, asleep-notify_master ts)

  asleep-notify_worker : (ts : List (Pc A)) → total asleep (notify_one false ts) ≡ total asleep ts
  unfolding notify_one
  asleep-notify_worker [] = refl
  asleep-notify_worker (waiting true false ∷ ts) = omega (arith, asleep-notify_worker ts)
  asleep-notify_worker (waiting false false ∷ ts) = omega arith
  asleep-notify_worker (t ∷ ts) = omega (arith, asleep-notify_worker ts)

  asleep-notify_workers : (ts : List (Pc A)) → total asleep (notify_all false ts) ≡ total asleep ts
  unfolding notify_all
  asleep-notify_workers [] = refl
  asleep-notify_workers (waiting true false ∷ ts) = omega (arith, asleep-notify_workers ts)
  asleep-notify_workers (waiting false false ∷ ts) = omega (arith, asleep-notify_workers ts)
  asleep-notify_workers (t ∷ ts) = omega (arith, asleep-notify_workers ts)

  pub asleep-notify_added :
      (n : ℕ) (ts : List (Pc A)) → total asleep (notify_added n ts) ≡ total asleep ts
  unfolding notify_added
  asleep-notify_added n ts = ground (arith, asleep-notify_worker ts, asleep-notify_workers ts)

  -- What a critical section leaves: a batch, or else nothing queued, and no sleep without more to do.
  pub record Looks (m : Bool) (q : Queue A) (r : Queue A × Pc A) : Type 0 where
    pub waits_less : in_wait r.1 ≤ (if m then 1 else 0)
    pub sleeps : asleep r.1 ≤ 1
    pub to_do : asleep r.1 ≤ q.n_todo
    pub spent : 1 ≤ in_flight r.1 + (if length q.queue == 0 then 1 else 0)

  empty_length : (queue : List A) → is_empty queue ≡ true → length queue ≡ 0
  empty_length [] h = refl
  empty_length (a ∷ queue) h = cc

  out_of_work-Looks :
      (q : Queue A) (m : Bool) → is_empty q.queue ≡ true → Looks m q (out_of_work q m)
  unfolding out_of_work
  out_of_work-Looks q true e = elim (Bool-cases (q.n_todo == 0)) [
    | inl done ↦ rw done (record {
      waits_less = omega arith;
      sleeps = omega arith;
      to_do = omega arith;
      spent = ground (arith, empty_length q.queue e);
    })
    | inr more ↦ rw more (record {
      waits_less = omega arith;
      sleeps = omega arith;
      to_do = ground arith;
      spent = ground (arith, empty_length q.queue e);
    })
  ]
  out_of_work-Looks q false e = record {
    waits_less = ground arith;
    sleeps = ground arith;
    to_do = ground arith;
    spent = ground (arith, empty_length q.queue e);
  }

  pub look-Looks : (q : Queue A) (m : Bool) → Looks m q (look q m)
  unfolding look
  look-Looks q m = elim (Bool-cases (is_empty q.queue)) [
    | inl e ↦ rw e (out_of_work-Looks q m e)
    | inr e ↦
        let (n, lo, hi, fits, eq) = look-take q m e in
        rw eq (record {
          waits_less = omega arith;
          sleeps = omega arith;
          to_do = omega arith;
          spent = omega arith;
        })
  ]

  -- A thread's critical section over a list of threads, where nobody is left asleep with nothing to do.
  pub put_thread-Alert :
      (s : System A) (i : ℕ) (t : Pc A) (ts : List (Pc A)) (m : Bool) (q : Queue A)
      (r : Queue A × Pc A)
      → get_elem? ts i ≡ some t
      → total in_flight ts ≡ total in_flight s.threads
      → total in_wait ts ≡ total in_wait s.threads
      → in_wait t ≡ (if m then 1 else 0)
      → q.n_todo + in_flight t ≡ length q.queue + total in_flight s.threads
      → (q.n_todo ≡ 0 → total asleep ts ≤ asleep t)
      → Alert s.threads
      → Looks m q r
      → Alert (put_thread i ts r).0.threads
  put_thread-Alert s i t ts m q r h flight wait_eq mine todo quiet v l = record {
    alone = after;
    awake = elim (Bool-cases (q.n_todo == 0)) [
      | inl none_left ↦
          let still = quiet (ground arith) in
          ground (
            arith,
            total-set in_flight ts i t r.1 h,
            total-set asleep ts i t r.1 h,
            total-get_elem? in_flight ts i t h,
            l.spent,
            l.to_do,
          )
      | inr more ↦ ground (
        arith,
        total-set in_flight ts i t r.1 h,
        total-get_elem? in_flight ts i t h,
        total_mono asleep in_wait (put_thread i ts r).0.threads asleep-le,
        l.spent,
        after,
      )
    ];
  }
    where
      after : total in_wait (put_thread i ts r).0.threads ≤ 1
      after = omega (arith, total-set in_wait ts i t r.1 h, mine, wait_eq, l.waits_less, v.alone)
