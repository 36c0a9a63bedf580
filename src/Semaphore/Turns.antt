-- ===== src/Semaphore/Turns.antt =====
-- boostthreadcontrol/sync.h: no thread sleeps in `CSemaphore::wait` for ever while there is a place.
use learn_framework.Common.{
  ℕ, zero, suc, ◌+◌, ◌*◌, ◌≤◌, ◌<◌, ◌≡◌, refl, ◌⊎◌, Bool, true, false, Option, none, some, List, [],
  ◌∷◌, arith, ◌==◌, inl, inr, Bool-cases, Option-cases, length, total, total-set, get_elem?, set,
}
use learn_framework.Common.Int.{ℤ, pos_part}
use learn_framework.Semaphore.Threads.{
  Pc, outside, posting, waiting, System, Event, begins_wait, begins_try, begins_post, wakes,
  notifies, wait_section, step_at, step, thread_of, run, outside_all, notify_one, notify_first,
}
use learn_framework.Semaphore.Sleepers.{
  sleeps, owed, Served, wait-Served, try-Served, post-Served, notify-Served,
}

step_at-Served :
    (s : System) (e : Event) (p : Pc)
    → get_elem? s.threads (thread_of e) ≡ some p
    → Served s
    → Served (step_at s e p).0
unfolding step_at
step_at-Served s (begins_wait i) outside h v = wait-Served s i outside h v (omega arith)
step_at-Served s (begins_try i) outside h v = try-Served s i h v
step_at-Served s (begins_post i) outside h v = post-Served s i h v
step_at-Served s (wakes i) (waiting k) h v = wait-Served s i (waiting k) h v (ground arith)
step_at-Served s (notifies i j) posting h v = notify-Served s i j h v
step_at-Served s (begins_wait i) posting h v = v
step_at-Served s (begins_wait i) (waiting k) h v = v
step_at-Served s (begins_try i) posting h v = v
step_at-Served s (begins_try i) (waiting k) h v = v
step_at-Served s (begins_post i) posting h v = v
step_at-Served s (begins_post i) (waiting k) h v = v
step_at-Served s (wakes i) outside h v = v
step_at-Served s (wakes i) posting h v = v
step_at-Served s (notifies i j) outside h v = v
step_at-Served s (notifies i j) (waiting k) h v = v

step-Served : (s : System) (e : Event) → Served s → Served (step s e).0
unfolding step
step-Served s e v = elim (Option-cases (get_elem? s.threads (thread_of e))) [
  | inl none_there ↦ rw (none_there, step) v
  | inr (p, h) ↦ rw (h, step) (step_at-Served s e p h v)
]

run-Served : (s : System) (es : List Event) → Served s → Served (run s es)
unfolding run
run-Served s [] v = v
run-Served s (e ∷ es) v = run-Served (step s e).0 es (step-Served s e v)

-- `CSemaphore(init)`, and so many threads.
abbrev pub start : ℤ → ℕ → System
start init count = record { value = init; threads = outside_all count }

sleeps-outside_all : (n : ℕ) → total sleeps (outside_all n) ≡ 0
unfolding outside_all
sleeps-outside_all zero = refl
sleeps-outside_all (suc n) = omega (arith, sleeps-outside_all n)

start-Served : (n : ℤ) (k : ℕ) → Served (start n k)
start-Served n k = record { on_their_way = λ h. absurd (omega (arith, h, sleeps-outside_all k)) }

-- A turn that needs no new call and no wake-up by itself: a notification is made, or a thread that has
-- got one goes on.
abbrev pub ready_at : Event → Option Pc → Bool
ready_at (notifies i j) (some posting) = true
ready_at (wakes i) (some (waiting true)) = true
ready_at _ _ = false

abbrev pub ready : System → Event → Bool
ready s e = ready_at e (get_elem? s.threads (thread_of e))

abbrev pub AllReady : System → List Event → Type 0
AllReady s [] = Unit
AllReady s (e ∷ es) = (ready s e ≡ true) × AllReady (step s e).0 es

abbrev pub rank : Pc → ℕ
rank posting = 2
rank (waiting true) = 1
rank (waiting false) = 0
rank outside = 0

rank-notify_first : (ts : List Pc) → total rank (notify_first ts) ≤ total rank ts + 1
unfolding notify_first
rank-notify_first [] = omega arith
rank-notify_first (waiting false ∷ ts) = omega arith
rank-notify_first (waiting true ∷ ts) = omega (arith, rank-notify_first ts)
rank-notify_first (outside ∷ ts) = omega (arith, rank-notify_first ts)
rank-notify_first (posting ∷ ts) = omega (arith, rank-notify_first ts)

rank-notify_one : (j : ℕ) (ts : List Pc) → total rank (notify_one j ts) ≤ total rank ts + 1
unfolding notify_one
rank-notify_one j ts = elim (Option-cases (get_elem? ts j)) [
  | inl e ↦ rw (e, notify_one) (rank-notify_first ts)
  | inr (waiting false, e) ↦
      rw (e, notify_one) (omega (arith, total-set rank ts j (waiting false) (waiting true) e))
  | inr (waiting true, e) ↦ rw (e, notify_one) (rank-notify_first ts)
  | inr (outside, e) ↦ rw (e, notify_one) (rank-notify_first ts)
  | inr (posting, e) ↦ rw (e, notify_one) (rank-notify_first ts)
]

rank-wait_section : (z : ℤ) → rank (wait_section z).1 ≡ 0
unfolding wait_section
rank-wait_section z = ground arith

step_at-rank :
    (s : System) (e : Event) (p : Pc)
    → get_elem? s.threads (thread_of e) ≡ some p
    → ready_at e (some p) ≡ true
    → total rank (step_at s e p).0.threads < total rank s.threads
unfolding step_at
step_at-rank s (notifies i j) posting h r = omega (
  arith,
  rank-notify_one j (set s.threads i outside),
  total-set rank s.threads i posting outside h,
)
step_at-rank s (wakes i) (waiting true) h r = omega (
  arith,
  rank-wait_section s.value,
  total-set rank s.threads i (waiting true) (wait_section s.value).1 h,
)
step_at-rank s (notifies i j) outside h r = absurd cc
step_at-rank s (notifies i j) (waiting k) h r = absurd cc
step_at-rank s (wakes i) outside h r = absurd cc
step_at-rank s (wakes i) posting h r = absurd cc
step_at-rank s (wakes i) (waiting false) h r = absurd cc
step_at-rank s (begins_wait i) p h r = absurd cc
step_at-rank s (begins_try i) p h r = absurd cc
step_at-rank s (begins_post i) p h r = absurd cc

step-rank :
    (s : System) (e : Event)
    → ready s e ≡ true
    → total rank (step s e).0.threads < total rank s.threads
unfolding step
step-rank s e r = elim (Option-cases (get_elem? s.threads (thread_of e))) [
  | inl none_there ↦ absurd (ready_needs_thread e (rw none_there at r))
  | inr (p, h) ↦ rw (h, step) (step_at-rank s e p h (rw h at r))
]
  where
    ready_needs_thread : (e : Event) → ready_at e none ≡ true → ⊥
    ready_needs_thread (notifies i j) r = cc
    ready_needs_thread (wakes i) r = cc
    ready_needs_thread (begins_wait i) r = cc
    ready_needs_thread (begins_try i) r = cc
    ready_needs_thread (begins_post i) r = cc

run-rank :
    (s : System) (es : List Event)
    → AllReady s es
    → length es + total rank (run s es).threads ≤ total rank s.threads
unfolding run
run-rank s [] r = omega arith
run-rank s (e ∷ es) (r, rs) = omega (arith, step-rank s e r, run-rank (step s e).0 es rs)

rank-le : (ts : List Pc) → total rank ts ≤ 2 * length ts
rank-le [] = omega arith
rank-le (posting ∷ ts) = omega (arith, rank-le ts)
rank-le (waiting true ∷ ts) = omega (arith, rank-le ts)
rank-le (waiting false ∷ ts) = omega (arith, rank-le ts)
rank-le (outside ∷ ts) = omega (arith, rank-le ts)

later :
    {p : Pc} (ts : List Pc)
    → ((e : Event) × (ready_at e (get_elem? ts (thread_of e)) ≡ true))
    → (e : Event) × (ready_at e (get_elem? (p ∷ ts) (thread_of e)) ≡ true)
later ts (notifies i j, h) = (notifies (suc i) j, h)
later ts (wakes i, h) = (wakes (suc i), h)
later ts (begins_wait i, h) = absurd cc
later ts (begins_try i, h) = absurd cc
later ts (begins_post i, h) = absurd cc

-- Where a notification is on its way, some thread can go on.
some_ready :
    (ts : List Pc)
    → 1 ≤ total owed ts
    → (e : Event) × (ready_at e (get_elem? ts (thread_of e)) ≡ true)
some_ready [] h = absurd (omega arith)
some_ready (posting ∷ ts) h = (notifies 0 0, refl)
some_ready (waiting true ∷ ts) h = (wakes 0, refl)
some_ready (waiting false ∷ ts) h = later ts (some_ready ts (omega (arith, h)))
some_ready (outside ∷ ts) h = later ts (some_ready ts (omega (arith, h)))

-- From any first value, let any threads wait, try and post in any order, wake up by themselves, and be notified in any
-- order. Then let them only finish: make the notifications that they owe, and come back from those
-- that they got. Their turns number at most twice the threads, taken together, and at every moment no
-- thread sleeps, or the semaphore has no place, or some thread can go on.
pub sleepers_served :
    (init : ℤ) (count : ℕ) (es calm : List Event)
    → AllReady (run (start init count) es) calm
    → (length calm ≤ 2 * length (run (start init count) es).threads)
      × ((total sleeps (run (run (start init count) es) calm).threads ≡ 0)
          ⊎ ((pos_part (run (run (start init count) es) calm).value ≡ 0)
              ⊎ ((e : Event) × (ready (run (run (start init count) es) calm) e ≡ true))))
sleepers_served init count es calm r = (
  omega (arith, run-rank before calm r, rank-le before.threads),
  elim (Bool-cases (total sleeps after.threads == 0)) [
    | inl awake ↦ inl (ground (arith, awake))
    | inr asleep ↦ elim (Bool-cases (pos_part after.value == 0)) [
      | inl empty ↦ inr (inl (ground (arith, empty)))
      | inr places ↦ inr (
          inr (
            some_ready after.threads
              (omega (arith, served.on_their_way (ground (arith, asleep)), positive places))))
    ]
  ],
)
  where
    before : System
    before = run (start init count) es

    after : System
    after = run before calm

    served : Served after
    served = run-Served before calm (run-Served (start init count) es (start-Served init count))

    positive : (pos_part after.value == 0) ≡ false → 1 ≤ pos_part after.value
    positive h = ground (arith, h)
