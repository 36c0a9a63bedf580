-- ===== src/CheckQueue/System.antt =====
-- boostthreadcontrol/checkqueue.h: a `CCheckQueue` and the threads in its `Loop`, interleaved in any
-- order at their critical sections. A wait may end without a notification.
use learn_framework.Common.{
  ℕ, Bool, true, false, Option, none, some, List, [], ◌∷◌, ◌++◌, ◌==◌, ltb, if◌then◌else◌, length,
  get_elem?, set,
}
use learn_framework.CheckQueue.{
  Queue, Pc, at_lock, waiting, working, returned, new_queue, lock_section, wake_section,
  informs_master, add, run_checks,
}

pub record System (A : Type 0) : Type 0 where
  pub shared : Queue A
  pub threads : List (Pc A)

-- `joins` starts a thread in `Thread()` or `Wait()`; the others let a thread go on.
pub data Event (A : Type 0) : Type 0 where
  adds : (v_checks : List A) → Event A
  joins : (f_master : Bool) → Event A
  locks wakes executes : (thread : ℕ) → Event A

abbrev pub same : Bool → Bool → Bool
same true b = b
same false true = false
same false false = true

module _ {A : Type 0} where
  abbrev pub start : ℕ → System A
  start n = record { shared = new_queue n; threads = [] }

  -- `notify_one`: a thread that waits on this condition wakes up, the first that was not notified.
  unfoldable pub notify_one : Bool → List (Pc A) → List (Pc A)
  notify_one m [] = []
  notify_one m (waiting k false ∷ ts) =
      if same m k then waiting k true ∷ ts else waiting k false ∷ notify_one m ts
  notify_one m (t ∷ ts) = t ∷ notify_one m ts

  unfoldable pub notify_all : Bool → List (Pc A) → List (Pc A)
  notify_all m [] = []
  notify_all m (waiting k false ∷ ts) = waiting k (same m k) ∷ notify_all m ts
  notify_all m (t ∷ ts) = t ∷ notify_all m ts

  -- The notifications of `Add`, on `condWorker`.
  unfoldable pub notify_added : ℕ → List (Pc A) → List (Pc A)
  unfolding notify_one notify_all
  notify_added n ts =
      if n == 1 then notify_one false ts else if ltb 1 n then notify_all false ts else ts

  -- The answer of `Wait()`, where this position is its return.
  abbrev pub answer : Pc A → Option Bool
  answer (returned true r) = some r
  answer _ = none

  abbrev pub put_thread : ℕ → List (Pc A) → Queue A × Pc A → System A × Option Bool
  put_thread i ts r = (record { shared = r.0; threads = set ts i r.1 }, answer r.1)

  -- Thread `i`, which stands at this position, takes the mutex at the head of the loop.
  unfoldable pub lock_thread : System A → ℕ → Pc A → System A × Option Bool
  unfolding notify_one
  lock_thread s i (at_lock m n f_ok) =
      put_thread i (if informs_master s.shared m n then notify_one true s.threads else s.threads)
        (lock_section s.shared m n f_ok)
  lock_thread s i _ = (s, none)

  unfoldable pub wake_thread : System A → ℕ → Pc A → System A × Option Bool
  wake_thread s i (waiting m notified) = put_thread i s.threads (wake_section s.shared m)
  wake_thread s i _ = (s, none)

  unfoldable pub execute_thread : (A → Bool) → System A → ℕ → Pc A → System A × Option Bool
  execute_thread check s i (working m n cs f_ok) =
      put_thread i s.threads (s.shared, at_lock m n (run_checks check f_ok cs))
  execute_thread check s i _ = (s, none)

  -- An event that no thread can make at its position changes nothing.
  abbrev pub with_thread : System A → ℕ → (Pc A → System A × Option Bool) → System A × Option Bool
  with_thread s i f = elim (get_elem? s.threads i) [ none ↦ (s, none) | some t ↦ f t ]

  unfoldable pub step : (A → Bool) → System A → Event A → System A × Option Bool
  step check s (adds v_checks) = (
    record { shared = add s.shared v_checks; threads = notify_added (length v_checks) s.threads },
    none,
  )
  step check s (joins m) = (record s { threads = s.threads ++ (at_lock m 0 true ∷ []) }, none)
  step check s (locks i) = with_thread s i (lock_thread s i)
  step check s (wakes i) = with_thread s i (wake_thread s i)
  step check s (executes i) = with_thread s i (execute_thread check s i)

  unfoldable pub run : (A → Bool) → System A → List (Event A) → System A
  run check s [] = s
  run check s (e ∷ es) = run check (step check s e).0 es
