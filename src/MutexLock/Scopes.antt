-- ===== src/MutexLock/Scopes.antt =====
-- boostthreadcontrol/sync.h: threads that open and close scopes of `CMutexLock` in any order, and
-- critical sections that are destroyed. When a blocking `lock` returns is up to boost's mutex: here it
-- may be any moment.
use learn_framework.Common.{
  ℕ, Bool, true, false, Option, none, some, List, [], ◌∷◌, ◌++◌, ◌==◌, if◌then◌else◌, Result, ok,
  ◌>>=◌,
}
use learn_framework.LockOrder.{LockData, LockStack, Halt, init, enter_critical, delete_lock}
use learn_framework.MutexLock.{Site, try_enter, destroy}

-- A guard that owns its mutex, or one that does not: a `try_lock` failed, or its pointer was null.
pub data Guard : Type 0 where
  owning : (mutex : ℕ) → Guard
  idle : Guard

-- The guards of a thread, the innermost first, and the mutex in whose `lock` it is.
pub record Thread : Type 0 where
  pub lockstack : Option LockStack
  pub guards : List Guard
  pub waits_for : Option ℕ

pub record World : Type 0 where
  pub lockdata : LockData
  pub threads : ℕ → Thread

-- The events of a thread: its constructor without `fTry` runs up to `lock.lock()`; that call returns;
-- its constructor with `fTry` runs, and `try_lock` answers; it makes a guard of a null pointer; its
-- innermost guard is destroyed. And the destructor of a critical section.
pub data Event : Type 0 where
  begins : (thread : ℕ) (site : Site) (mutex : ℕ) → Event
  locks : (thread : ℕ) → Event
  tries : (thread : ℕ) (site : Site) (mutex : ℕ) (got : Bool) → Event
  makes_null : (thread : ℕ) → Event
  ends : (thread : ℕ) → Event
  deletes : (mutex : ℕ) → Event

abbrev pub fresh : Thread
fresh = record { lockstack = none; guards = []; waits_for = none }

abbrev pub start : World
start = record { lockdata = init; threads = λ t. fresh }

abbrev pub put : World → ℕ → LockData → Thread → World
put w t d th = record { lockdata = d; threads = λ u. if t == u then th else w.threads u }

-- `Enter`, up to `lock.lock()`.
unfoldable pub begin : LockData → Thread → Site → ℕ → Result Halt (LockData × Thread)
begin d th site m = enter_critical d th.lockstack site.name site.file site.line m false >>= λ r.
    ok (r.0, record th { lockstack = some r.1; waits_for = some m })

abbrev pub guard_of : ℕ → Bool → Guard
guard_of m true = owning m
guard_of m false = idle

unfoldable pub try : LockData → Thread → Site → ℕ → Bool → Result Halt (LockData × Thread)
try d th site m got = try_enter d th.lockstack site m got >>= λ g.
    ok (g.lockdata, record th { lockstack = g.lockstack; guards = guard_of m g.owns ∷ th.guards })

abbrev pub owns : Guard → Bool
owns (owning m) = true
owns idle = false

-- The destructor of the guard ahead of `gs`.
unfoldable pub end : Thread → Guard → List Guard → Result Halt Thread
end th g gs = destroy (owns g) th.lockstack >>= λ k. ok (record th { lockstack = k; guards = gs })

-- The events of a thread that is in `lock` are none but its return.
abbrev pub if_running : World → ℕ → Result Halt World → Result Halt World
if_running w t r = elim (w.threads t).waits_for [ none ↦ r | some m ↦ ok w ]

unfoldable pub step : World → Event → Result Halt World
unfolding begin try end
step w (begins t site m) =
    if_running w t (begin w.lockdata (w.threads t) site m >>= λ r. ok (put w t r.0 r.1))
step w (locks t) = elim (w.threads t).waits_for [
  | none ↦ ok w
  | some m ↦ ok (
      put w t w.lockdata
        (record (w.threads t) { guards = owning m ∷ (w.threads t).guards; waits_for = none }))
]
step w (tries t site m got) =
    if_running w t (try w.lockdata (w.threads t) site m got >>= λ r. ok (put w t r.0 r.1))
step w (makes_null t) =
    if_running w t
      (ok (put w t w.lockdata (record (w.threads t) { guards = idle ∷ (w.threads t).guards })))
step w (ends t) = if_running w t (elim (w.threads t).guards [
  | [] ↦ ok w
  | g ∷ gs ↦ end (w.threads t) g gs >>= λ th. ok (put w t w.lockdata th)
])
step w (deletes m) = ok (record w { lockdata = delete_lock w.lockdata m })

unfoldable pub run : World → List Event → Result Halt World
run w [] = ok w
run w (e ∷ es) = step w e >>= λ v. run v es

-- The mutexes that the guards own, that of the outermost first.
unfoldable pub owned : List Guard → List ℕ
owned [] = []
owned (owning m ∷ gs) = owned gs ++ (m ∷ [])
owned (idle ∷ gs) = owned gs

unfoldable pub among : ℕ → List ℕ → Bool
among a [] = false
among a (x ∷ xs) = if x == a then true else among a xs
