-- ===== src/LockOrder/Stack.antt =====
-- boostthreadcontrol/sync.cpp: the lock stack under the calls.
use learn_framework.Common.{ℕ, ◌≡◌, refl, ap, Bool, Option, some, [], ◌∷◌, ◌++◌, arith, ok}
use learn_framework.LockOrder.{
  LockData, LockStack, Location, Text, or_empty, drop_last, push_lock, leave_critical,
  enter_critical,
}

drop_last-append : (x y : ℕ × Location) (s : LockStack) → drop_last x (s ++ (y ∷ [])) ≡ x ∷ s
unfolding drop_last
drop_last-append x y [] = refl
drop_last-append x y (z ∷ s) = ap (◌∷◌ x) (drop_last-append z y s)

pub leave_critical-append :
    (s : LockStack) (y : ℕ × Location) → leave_critical (some (s ++ (y ∷ []))) ≡ ok s
unfolding leave_critical
leave_critical-append [] y = refl
leave_critical-append (z ∷ s) y = ap ok (drop_last-append z y s)

-- Whenever `EnterCritical` returns, the thread's stack has the lock on its top.
pub enter_critical-stack :
    (d d' : LockData) (k : Option LockStack) (s : LockStack) (name file : Text) (line cs : ℕ)
    (f_try : Bool)
    → enter_critical d k name file line cs f_try ≡ ok (d', s)
    → s
      ≡ or_empty k
        ++ ((
          cs,
          record { f_try = f_try; mutex_name = name; source_file = file; source_line = line },
        )
            ∷ [])
unfolding enter_critical push_lock
enter_critical-stack d d' k s name file line cs f_try h = ground arith

-- What `EnterCritical` pushes, `LeaveCritical` pops.
pub leave_critical-enter_critical :
    (d : LockData) (k : Option LockStack) (name file : Text) (line cs : ℕ) (f_try : Bool)
    (r : LockData × LockStack)
    → enter_critical d k name file line cs f_try ≡ ok r
    → leave_critical (some r.1) ≡ ok (or_empty k)
leave_critical-enter_critical d k name file line cs f_try (d', s) h =
    rw (enter_critical-stack d d' k s name file line cs f_try h)
      (leave_critical-append (or_empty k) _)
