-- ===== src/Semaphore/Threads.antt =====
-- boostthreadcontrol/sync.h: threads on one `CSemaphore`, at their critical sections. A wait may end
-- without a notification, and the thread that a notification wakes may be any that waits.
pub mod Tests
use learn_framework.Common.{
  ℕ, zero, suc, Bool, true, false, Option, none, some, List, [], ◌∷◌, ◌==◌, if◌then◌else◌,
  get_elem?, set,
}
use learn_framework.Common.Int.{ℤ, increment, decrement, below_one}

-- Where a thread stands: in no method, in `condition.wait` (where it may have been notified), or in
-- `post` behind its block, ahead of `notify_one`.
pub data Pc : Type 0 where
  outside posting : Pc
  waiting : (notified : Bool) → Pc

-- The value is an `int`, here without a bound.
pub record System : Type 0 where
  pub value : ℤ
  pub threads : List Pc

-- A thread begins `wait()`, `try_wait()` or `post()`, comes back from `condition.wait`, or comes to
-- `notify_one`, which wakes `target` if that thread waits, and else some other.
pub data Event : Type 0 where
  begins_wait begins_try begins_post wakes : (thread : ℕ) → Event
  notifies : (thread target : ℕ) → Event

-- What a method answers that returns: `wait`, `try_wait` with true or with false, `post`.
pub data Answer : Type 0 where
  passed took refused posted : Answer

-- `while (value < 1) condition.wait(lock); value--;`
unfoldable pub wait_section : ℤ → ℤ × Pc × Option Answer
wait_section v =
    if below_one v then (v, waiting false, none) else (decrement v, outside, some passed)

unfoldable pub try_section : ℤ → ℤ × Pc × Option Answer
try_section v =
    if below_one v then (v, outside, some refused) else (decrement v, outside, some took)

unfoldable pub post_section : ℤ → ℤ × Pc × Option Answer
post_section v = (increment v, posting, none)

unfoldable pub notify_first : List Pc → List Pc
notify_first [] = []
notify_first (waiting false ∷ ts) = waiting true ∷ ts
notify_first (t ∷ ts) = t ∷ notify_first ts

-- `condition.notify_one()`
unfoldable pub notify_one : ℕ → List Pc → List Pc
unfolding notify_first
notify_one target ts = elim (get_elem? ts target) [
  | some (waiting false) ↦ set ts target (waiting true)
  | _ ↦ notify_first ts
]

abbrev pub put_thread : System → ℕ → ℤ × Pc × Option Answer → System × Option Answer
put_thread s i r = (record { value = r.0; threads = set s.threads i r.1 }, r.2)

unfoldable pub step_at : System → Event → Pc → System × Option Answer
unfolding wait_section try_section post_section notify_one
step_at s (begins_wait i) outside = put_thread s i (wait_section s.value)
step_at s (begins_try i) outside = put_thread s i (try_section s.value)
step_at s (begins_post i) outside = put_thread s i (post_section s.value)
step_at s (wakes i) (waiting k) = put_thread s i (wait_section s.value)
step_at s (notifies i target) posting =
    (record s { threads = notify_one target (set s.threads i outside) }, some posted)
step_at s _ _ = (s, none)

abbrev pub thread_of : Event → ℕ
thread_of (begins_wait i) = i
thread_of (begins_try i) = i
thread_of (begins_post i) = i
thread_of (wakes i) = i
thread_of (notifies i target) = i

-- An event that the thread cannot make where it stands changes nothing.
unfoldable pub step : System → Event → System × Option Answer
unfolding step_at
step s e = elim (get_elem? s.threads (thread_of e)) [ none ↦ (s, none) | some p ↦ step_at s e p ]

unfoldable pub run : System → List Event → System
unfolding step
run s [] = s
run s (e ∷ es) = run (step s e).0 es

-- So many threads, all in no method.
unfoldable pub outside_all : ℕ → List Pc
outside_all zero = []
outside_all (suc n) = outside ∷ outside_all n
