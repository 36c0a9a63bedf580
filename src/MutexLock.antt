-- ===== src/MutexLock.antt =====
-- boostthreadcontrol/sync.h: `CMutexLock`, the scoped lock that tells the lock-order detector of
-- each lock. The mutex belongs to boost: `lock` returns when the mutex is owned, and the answer of
-- `try_lock` is an argument.
pub mod Balance
pub mod Scopes
pub mod Nesting
pub mod Stacks
pub mod Deadlock
pub mod Tests
use learn_framework.Common.{
  ℕ, Bool, true, false, Option, none, some, if◌then◌else◌, Result, ok, err, ◌>>=◌,
}
use learn_framework.LockOrder.{LockData, LockStack, Halt, Text, enter_critical, leave_critical}

-- The text of the lock's expression and the place of the call.
pub record Site : Type 0 where
  pub name : Text
  pub file : Text
  pub line : ℕ

-- The detector and the thread's lock stack behind an operation, and whether the guard owns its mutex.
pub record Guarded : Type 0 where
  pub lockdata : LockData
  pub lockstack : Option LockStack
  pub owns : Bool

unfoldable pub enter : LockData → Option LockStack → Site → ℕ → Result Halt Guarded
enter d k site mutex = enter_critical d k site.name site.file site.line mutex false >>= λ r.
    ok (record { lockdata = r.0; lockstack = some r.1; owns = true })

unfoldable pub try_enter : LockData → Option LockStack → Site → ℕ → Bool → Result Halt Guarded
try_enter d k site mutex got = enter_critical d k site.name site.file site.line mutex true >>= λ r.
    if got
    then ok (record { lockdata = r.0; lockstack = some r.1; owns = true })
    else leave_critical (some r.1) >>= λ s.
        ok (record { lockdata = r.0; lockstack = some s; owns = false })

-- The constructor from a pointer, which may be null; that from a reference is the case `some`.
unfoldable pub construct :
    LockData → Option LockStack → Site → Option ℕ → Bool → Bool → Result Halt Guarded
unfolding enter try_enter
construct d k site none f_try got = ok (record { lockdata = d; lockstack = k; owns = false })
construct d k site (some mutex) f_try got =
    if f_try then try_enter d k site mutex got else enter d k site mutex

-- The destructor, where the guard's `owns` and the thread's stack are these.
unfoldable pub destroy : Bool → Option LockStack → Result Halt (Option LockStack)
destroy owns k = if owns then (leave_critical k >>= λ s. ok (some s)) else ok k
