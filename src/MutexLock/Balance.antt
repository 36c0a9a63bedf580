-- ===== src/MutexLock/Balance.antt =====
-- boostthreadcontrol/sync.h: the lock stack over a scope of `CMutexLock`.
use learn_framework.Common.{
  ℕ, ◌≡◌, refl, Bool, true, false, inl, inr, Option, none, some, arith, Result-cases, ok,
}
use learn_framework.LockOrder.{LockData, LockStack, or_empty, enter_critical}
use learn_framework.LockOrder.Stack.{leave_critical-enter_critical}
use learn_framework.MutexLock.{Site, Guarded, enter, try_enter, construct, destroy}

-- The guard's destructor returns, and brings the locks `k` back.
abbrev pub Restores : Option LockStack → Guarded → Type 0
Restores k g =
    (k' : Option LockStack) × (destroy g.owns g.lockstack ≡ ok k') × (or_empty k' ≡ or_empty k)

enter-Restores :
    (d : LockData) (k : Option LockStack) (site : Site) (m : ℕ) (g : Guarded)
    → enter d k site m ≡ ok g
    → Restores k g
unfolding enter destroy
enter-Restores d k site m g h =
    elim (Result-cases (enter_critical d k site.name site.file site.line m false)) [
      | inl (r, e) ↦ (
        some (or_empty k),
        ground (arith, leave_critical-enter_critical d k site.name site.file site.line m false r e),
        refl,
      )
      | inr (x, e) ↦ absurd (ground arith)
    ]

try_enter-Restores :
    (d : LockData) (k : Option LockStack) (site : Site) (m : ℕ) (got : Bool) (g : Guarded)
    → try_enter d k site m got ≡ ok g
    → Restores k g
unfolding try_enter destroy
try_enter-Restores d k site m got g h =
    elim (Result-cases (enter_critical d k site.name site.file site.line m true)) [
      | inl (r, e) ↦ (
        some (or_empty k),
        ground (arith, leave_critical-enter_critical d k site.name site.file site.line m true r e),
        refl,
      )
      | inr (x, e) ↦ absurd (ground arith)
    ]

-- Whichever way a guard is made, from a mutex or a null pointer, by `lock` or by a `try_lock` that
-- succeeds or fails, its destructor on the stack that the constructor left returns, and the thread
-- then holds the locks that it held before.
pub destroy-construct :
    (d : LockData) (k : Option LockStack) (site : Site) (mutex : Option ℕ) (f_try got : Bool)
    (g : Guarded)
    → construct d k site mutex f_try got ≡ ok g
    → Restores k g
unfolding construct destroy
destroy-construct d k site none f_try got g h = (k, ground arith, refl)
destroy-construct d k site (some m) true got g h = try_enter-Restores d k site m got g h
destroy-construct d k site (some m) false got g h = enter-Restores d k site m g h
