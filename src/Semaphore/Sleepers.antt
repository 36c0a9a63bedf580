-- ===== src/Semaphore/Sleepers.antt =====
-- boostthreadcontrol/sync.h: the threads that sleep in `CSemaphore::wait`.
use learn_framework.Common.{
  ℕ, zero, suc, ◌+◌, ◌≤◌, ◌≡◌, refl, ◌⊎◌, true, false, some, List, [], ◌∷◌, arith, inl, inr,
  Bool-cases, Option-cases, total, total-set, total-get_elem?, get_elem?, set,
}
use learn_framework.Common.Int.{ℤ, pos, negsuc, pos_part, neg_part, increment, decrement, below_one}
use learn_framework.Semaphore.Threads.{
  Pc, outside, posting, waiting, System, wait_section, try_section, post_section, notify_first,
  notify_one, put_thread,
}

abbrev pub sleeps : Pc → ℕ
sleeps (waiting false) = 1
sleeps (waiting true) = 0
sleeps outside = 0
sleeps posting = 0

-- What a thread is about to pass on: a notification that it makes, or one that it has got.
abbrev pub owed : Pc → ℕ
owed (waiting true) = 1
owed posting = 1
owed (waiting false) = 0
owed outside = 0

-- The semaphore's value is no more than the notifications on their way, while a thread sleeps.
pub record Served (s : System) : Type 0 where
  pub on_their_way : 1 ≤ total sleeps s.threads → pos_part s.value ≤ total owed s.threads

-- After a notification no thread sleeps, or one more has been notified.
abbrev pub Wakes : List Pc → List Pc → Type 0
Wakes ts ts' =
    (total sleeps ts' ≡ 0) ⊎ ((1 ≤ total sleeps ts) × (total owed ts' ≡ total owed ts + 1))

notify_first-Wakes : (ts : List Pc) → Wakes ts (notify_first ts)
unfolding notify_first
notify_first-Wakes [] = inl refl
notify_first-Wakes (waiting false ∷ ts) = inr (omega arith, omega arith)
notify_first-Wakes (waiting true ∷ ts) = ground (arith, notify_first-Wakes ts)
notify_first-Wakes (outside ∷ ts) = ground (arith, notify_first-Wakes ts)
notify_first-Wakes (posting ∷ ts) = ground (arith, notify_first-Wakes ts)

pub notify_one-Wakes : (j : ℕ) (ts : List Pc) → Wakes ts (notify_one j ts)
unfolding notify_one
notify_one-Wakes j ts = elim (Option-cases (get_elem? ts j)) [
  | inl e ↦ rw (e, notify_one, total) (notify_first-Wakes ts)
  | inr (waiting false, e) ↦
      rw (e, notify_one, total)
        (inr (
          omega (arith, total-get_elem? sleeps ts j (waiting false) e),
          omega (arith, total-set owed ts j (waiting false) (waiting true) e),
        ))
  | inr (waiting true, e) ↦ rw (e, notify_one, total) (notify_first-Wakes ts)
  | inr (outside, e) ↦ rw (e, notify_one, total) (notify_first-Wakes ts)
  | inr (posting, e) ↦ rw (e, notify_one, total) (notify_first-Wakes ts)
]

pub below_one-parts :
    (z : ℤ)
    → (below_one z ≡ true → pos_part z ≡ 0)
      × (below_one z ≡ false
          → (pos_part (decrement z) + 1 ≡ pos_part z)
            × (neg_part (decrement z) ≡ 0)
            × (neg_part z ≡ 0))
unfolding decrement
below_one-parts (pos zero) = (λ b. refl, λ b. absurd cc)
below_one-parts (pos (suc n)) = (λ b. absurd cc, λ b. (omega arith, refl, refl))
below_one-parts (negsuc n) = (λ b. refl, λ b. absurd cc)

pub increment-parts :
    (z : ℤ)
    → (pos_part (increment z) + neg_part z ≡ pos_part z + neg_part (increment z) + 1)
      × (pos_part (increment z) ≤ pos_part z + 1)
      × (neg_part (increment z) ≤ neg_part z)
unfolding increment
increment-parts (pos n) = (omega arith, omega arith, omega arith)
increment-parts (negsuc zero) = (omega arith, omega arith, omega arith)
increment-parts (negsuc (suc n)) = (omega arith, omega arith, omega arith)

-- A thread comes to stand elsewhere, and the value goes down by what it took.
put-Served :
    (s : System) (i : ℕ) (p q : Pc) (z : ℤ)
    → get_elem? s.threads i ≡ some p
    → Served s
    → (pos_part z ≡ 0) ⊎ ((pos_part z + owed p ≤ pos_part s.value + owed q) × (sleeps q ≤ sleeps p))
    → Served (record { value = z; threads = set s.threads i q })
put-Served s i p q z h v c = record {
  on_their_way = λ some_sleeps. elim c [
    | inl none_left ↦ omega (arith, none_left)
    | inr (less, no_more) ↦
        let before : pos_part s.value ≤ total owed s.threads =
          v.on_their_way
            (omega (arith, some_sleeps, no_more, total-set sleeps s.threads i p q h)) in
        omega (arith, before, less, total-set owed s.threads i p q h)
  ];
}

pub wait-Served :
    (s : System) (i : ℕ) (p : Pc)
    → get_elem? s.threads i ≡ some p
    → Served s
    → owed p ≤ 1
    → Served (put_thread s i (wait_section s.value)).0
unfolding wait_section
wait-Served s i p h v small =
    let (low, high) = below_one-parts s.value in
    elim (Bool-cases (below_one s.value)) [
      | inl b ↦ rw b (put-Served s i p (waiting false) s.value h v (inl (low b)))
      | inr b ↦
          let less = (high b).0 in
          rw b (
            put-Served s i p outside (decrement s.value) h v
              (inr (omega (arith, less, small), omega arith)))
    ]

pub try-Served :
    (s : System) (i : ℕ)
    → get_elem? s.threads i ≡ some outside
    → Served s
    → Served (put_thread s i (try_section s.value)).0
unfolding try_section
try-Served s i h v =
    let (low, high) = below_one-parts s.value in
    elim (Bool-cases (below_one s.value)) [
      | inl b ↦ rw b (put-Served s i outside outside s.value h v (inl (low b)))
      | inr b ↦
          let less = (high b).0 in
          rw b (
            put-Served s i outside outside (decrement s.value) h v
              (inr (omega (arith, less), omega arith)))
    ]

pub post-Served :
    (s : System) (i : ℕ)
    → get_elem? s.threads i ≡ some outside
    → Served s
    → Served (put_thread s i (post_section s.value)).0
unfolding post_section
post-Served s i h v =
    let (same, more, floor) = increment-parts s.value in
    put-Served s i outside posting (increment s.value) h v (inr (omega (arith, more), omega arith))

pub notify-Served :
    (s : System) (i j : ℕ)
    → get_elem? s.threads i ≡ some posting
    → Served s
    → Served (record s { threads = notify_one j (set s.threads i outside) })
notify-Served s i j h v = record {
  on_their_way = λ some_sleeps. elim (notify_one-Wakes j (set s.threads i outside)) [
    | inl none_sleeps ↦ absurd (omega (arith, some_sleeps, none_sleeps))
    | inr (slept, more) ↦
        let before : pos_part s.value ≤ total owed s.threads =
          v.on_their_way (omega (arith, slept, total-set sleeps s.threads i posting outside h)) in
        omega (arith, before, more, total-set owed s.threads i posting outside h)
  ];
}
