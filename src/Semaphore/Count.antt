-- ===== src/Semaphore/Count.antt =====
-- boostthreadcontrol/sync.h: the places of a `CSemaphore` over the calls of any threads.
use learn_framework.Common.{
  ℕ, zero, suc, ◌+◌, ◌≤◌, ◌≡◌, refl, true, false, Option, none, some, List, [], ◌∷◌, arith, inl,
  inr, Bool-cases, Option-cases, total, total-set, get_elem?, set,
}
use learn_framework.Common.Int.{ℤ, pos_part, neg_part, below_one}
use learn_framework.Semaphore.Threads.{
  Pc, outside, posting, waiting, System, Event, begins_wait, begins_try, begins_post, wakes,
  notifies, Answer, passed, took, refused, posted, wait_section, try_section, post_section,
  notify_first, notify_one, put_thread, step_at, step, thread_of, run, outside_all,
}
use learn_framework.Semaphore.Sleepers.{below_one-parts, increment-parts}
use learn_framework.Semaphore.Turns.{start}

-- 1 for a thread that has raised the value and not yet returned from `post`.
abbrev pub posts : Pc → ℕ
posts posting = 1
posts outside = 0
posts (waiting k) = 0

-- The answers that take a place, and those that have given one back.
abbrev pub takes : Option Answer → ℕ
takes (some passed) = 1
takes (some took) = 1
takes (some refused) = 0
takes (some posted) = 0
takes none = 0

abbrev pub gives : Option Answer → ℕ
gives (some posted) = 1
gives (some passed) = 0
gives (some took) = 0
gives (some refused) = 0
gives none = 0

pub tally : (Option Answer → ℕ) → System → List Event → ℕ
tally w s [] = 0
tally w s (e ∷ es) = w (step s e).1 + tally w (step s e).0 es

posts-notify_first : (ts : List Pc) → total posts (notify_first ts) ≡ total posts ts
unfolding notify_first
posts-notify_first [] = refl
posts-notify_first (waiting false ∷ ts) = refl
posts-notify_first (waiting true ∷ ts) = omega (arith, posts-notify_first ts)
posts-notify_first (outside ∷ ts) = omega (arith, posts-notify_first ts)
posts-notify_first (posting ∷ ts) = omega (arith, posts-notify_first ts)

posts-notify_one : (j : ℕ) (ts : List Pc) → total posts (notify_one j ts) ≡ total posts ts
unfolding notify_one
posts-notify_one j ts = elim (Option-cases (get_elem? ts j)) [
  | inl e ↦ rw (e, notify_one) (posts-notify_first ts)
  | inr (waiting false, e) ↦
      rw (e, notify_one) (omega (arith, total-set posts ts j (waiting false) (waiting true) e))
  | inr (waiting true, e) ↦ rw (e, notify_one) (posts-notify_first ts)
  | inr (outside, e) ↦ rw (e, notify_one) (posts-notify_first ts)
  | inr (posting, e) ↦ rw (e, notify_one) (posts-notify_first ts)
]

-- What a step does to the places.
abbrev Balances : System → System × Option Answer → Type 0
Balances s x =
    (neg_part x.0.value ≤ neg_part s.value)
    × (pos_part x.0.value + takes x.1 + total posts s.threads + neg_part s.value
        ≡ pos_part s.value + gives x.1 + total posts x.0.threads + neg_part x.0.value)

wait-Balances :
    (s : System) (i : ℕ) (p : Pc)
    → get_elem? s.threads i ≡ some p
    → posts p ≡ 0
    → Balances s (put_thread s i (wait_section s.value))
unfolding wait_section
wait-Balances s i p h z =
    let (low, high) = below_one-parts s.value in
    elim (Bool-cases (below_one s.value)) [
      | inl b ↦
          rw b (omega arith, omega (arith, z, total-set posts s.threads i p (waiting false) h))
      | inr b ↦
          rw b (
            omega (arith, high b),
            omega (arith, z, high b, total-set posts s.threads i p outside h),
          )
    ]

try-Balances :
    (s : System) (i : ℕ)
    → get_elem? s.threads i ≡ some outside
    → Balances s (put_thread s i (try_section s.value))
unfolding try_section
try-Balances s i h =
    let (low, high) = below_one-parts s.value in
    elim (Bool-cases (below_one s.value)) [
      | inl b ↦ rw b (omega arith, omega (arith, total-set posts s.threads i outside outside h))
      | inr b ↦ rw b (
        omega (arith, high b),
        omega (arith, high b, total-set posts s.threads i outside outside h),
      )
    ]

step_at-Balances :
    (s : System) (e : Event) (p : Pc)
    → get_elem? s.threads (thread_of e) ≡ some p
    → Balances s (step_at s e p)
unfolding step_at post_section
step_at-Balances s (begins_wait i) outside h = wait-Balances s i outside h refl
step_at-Balances s (begins_try i) outside h = try-Balances s i h
step_at-Balances s (begins_post i) outside h =
    let (same, more, floor) = increment-parts s.value in
    (omega (arith, floor), omega (arith, same, total-set posts s.threads i outside posting h))
step_at-Balances s (wakes i) (waiting k) h = wait-Balances s i (waiting k) h refl
step_at-Balances s (notifies i j) posting h = (
  omega arith,
  omega (
    arith,
    posts-notify_one j (set s.threads i outside),
    total-set posts s.threads i posting outside h,
  ),
)
step_at-Balances s (begins_wait i) posting h = (omega arith, omega arith)
step_at-Balances s (begins_wait i) (waiting k) h = (omega arith, omega arith)
step_at-Balances s (begins_try i) posting h = (omega arith, omega arith)
step_at-Balances s (begins_try i) (waiting k) h = (omega arith, omega arith)
step_at-Balances s (begins_post i) posting h = (omega arith, omega arith)
step_at-Balances s (begins_post i) (waiting k) h = (omega arith, omega arith)
step_at-Balances s (wakes i) outside h = (omega arith, omega arith)
step_at-Balances s (wakes i) posting h = (omega arith, omega arith)
step_at-Balances s (notifies i j) outside h = (omega arith, omega arith)
step_at-Balances s (notifies i j) (waiting k) h = (omega arith, omega arith)

step-Balances : (s : System) (e : Event) → Balances s (step s e)
unfolding step
step-Balances s e = elim (Option-cases (get_elem? s.threads (thread_of e))) [
  | inl none_there ↦ rw (none_there, step) (omega arith, omega arith)
  | inr (p, h) ↦ rw (h, step) (step_at-Balances s e p h)
]

run-Balances :
    (s : System) (es : List Event)
    → (neg_part (run s es).value ≤ neg_part s.value)
      × (pos_part (run s es).value + tally takes s es + total posts s.threads + neg_part s.value
          ≡ pos_part s.value
            + tally gives s es
            + total posts (run s es).threads
            + neg_part (run s es).value)
unfolding run tally
run-Balances s [] = (omega arith, omega arith)
run-Balances s (e ∷ es) =
    let (floor, same) = step-Balances s e in
    let (floor', rest) = run-Balances (step s e).0 es in
    (omega (arith, floor, floor'), omega (arith, same, rest))

posts-outside_all : (k : ℕ) → total posts (outside_all k) ≡ 0
unfolding outside_all
posts-outside_all zero = refl
posts-outside_all (suc k) = omega (arith, posts-outside_all k)

-- From any first value, also a negative one, and where the value stays within an `int`: whatever
-- threads wait, try and post, in any order, the value is negative at most as far as the first one,
-- and together with the calls of `wait` and `try_wait` that took a place it makes up the first value
-- and the calls of `post` that have returned or are ahead of their notification.
pub places_exact :
    (init : ℤ) (count : ℕ) (es : List Event)
    → let after = run (start init count) es in
      (neg_part after.value ≤ neg_part init)
      × (pos_part after.value + tally takes (start init count) es + neg_part init
          ≡ pos_part init
            + tally gives (start init count) es
            + total posts after.threads
            + neg_part after.value)
places_exact init count es =
    let (floor, same) = run-Balances (start init count) es in
    (floor, omega (arith, same, posts-outside_all count))
