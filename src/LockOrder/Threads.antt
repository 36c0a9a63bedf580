-- ===== src/LockOrder/Threads.antt =====
-- boostthreadcontrol/sync.cpp: threads that call `EnterCritical`, `LeaveCritical` and `DeleteLock`
-- in any order. They share `lockdata`; `lockstack` is a stack for each thread.
use learn_framework.Common.{
  ℕ, ◌≡◌, Bool, inl, inr, Option, none, some, List, [], ◌∷◌, arith, ◌==◌, if◌then◌else◌, Bool-cases,
  Result, ok, ◌>>=◌,
}
use learn_framework.LockOrder.{
  LockData, LockStack, Location, Halt, init, or_empty, enter_critical, leave_critical, delete_lock,
}
use learn_framework.LockOrder.Round.{IsConsistent, halts}
use learn_framework.LockOrder.Order.{reversed, ahead, push_lock_ok, halts-push_lock, Extended}
use learn_framework.LockOrder.Delete.{delete_lock-IsConsistent}

pub record System : Type 0 where
  pub lockdata : LockData
  pub lockstack : ℕ → Option LockStack

-- The arguments of `EnterCritical` behind the thread: the lock and its location.
pub data Call : Type 0 where
  enter : (thread cs : ℕ) (l : Location) → Call
  leave : (thread : ℕ) → Call
  delete : (cs : ℕ) → Call

abbrev pub update : (ℕ → Option LockStack) → ℕ → LockStack → ℕ → Option LockStack
update f t s u = if t == u then some s else f u

abbrev pub start : System
start = record { lockdata = init; lockstack = λ t. none }

unfoldable pub step : System → Call → Result Halt System
step s (enter t cs l) =
    enter_critical s.lockdata (s.lockstack t) l.mutex_name l.source_file l.source_line cs l.f_try
    >>= λ r. ok (record { lockdata = r.0; lockstack = update s.lockstack t r.1 })
step s (leave t) = leave_critical (s.lockstack t) >>= λ k.
    ok (record { lockdata = s.lockdata; lockstack = update s.lockstack t k })
step s (delete cs) = ok (record s { lockdata = delete_lock s.lockdata cs })

unfoldable pub run : System → List Call → Result Halt System
run s [] = ok s
run s (c ∷ cs) = step s c >>= λ t. run t cs

-- The locks that the thread holds ahead of its first hold of `cs`.
abbrev pub held_ahead : System → ℕ → ℕ → ℕ → Bool
held_ahead s t cs a = ahead cs a (or_empty (s.lockstack t))

-- What a call that returns does to the orders.
abbrev pub Effect : System → Call → System → Type 0
Effect s (enter t cs l) s' = Extended s.lockdata cs (or_empty (s.lockstack t)) s'.lockdata
Effect s (leave t) s' = s'.lockdata ≡ s.lockdata
Effect s (delete cs) s' = s'.lockdata ≡ delete_lock s.lockdata cs

pub halts-enter :
    (s : System) (t cs : ℕ) (l : Location)
    → IsConsistent s.lockdata
    → halts (step s (enter t cs l)) ≡ reversed s.lockdata cs (or_empty (s.lockstack t))
unfolding step enter_critical
halts-enter s t cs l v = ground (arith, halts-push_lock s.lockdata (s.lockstack t) cs l v)

enter-Effect :
    (s : System) (t cs : ℕ) (l : Location) {s' : System}
    → IsConsistent s.lockdata
    → step s (enter t cs l) ≡ ok s'
    → Effect s (enter t cs l) s'
unfolding step enter_critical
enter-Effect s t cs l {s'} v h =
    elim (Bool-cases (reversed s.lockdata cs (or_empty (s.lockstack t)))) [
      | inl q ↦ absurd (ground (arith, halts-push_lock s.lockdata (s.lockstack t) cs l v))
      | inr q ↦
          let (d', e, x) = push_lock_ok s.lockdata (s.lockstack t) cs l v q in
          let same : s'.lockdata ≡ d' = ground arith in rw same x
    ]

pub step-Effect :
    (s : System) (c : Call) {s' : System}
    → IsConsistent s.lockdata
    → step s c ≡ ok s'
    → Effect s c s'
unfolding step
step-Effect s (enter t cs l) v h = enter-Effect s t cs l v h
step-Effect s (leave t) v h = ground arith
step-Effect s (delete cs) v h = ground arith

pub step-IsConsistent :
    (s : System) (c : Call) {s' : System}
    → IsConsistent s.lockdata
    → step s c ≡ ok s'
    → IsConsistent s'.lockdata
step-IsConsistent s (enter t cs l) v h = (enter-Effect s t cs l v h).consistent
step-IsConsistent s (leave t) v h = rw (step-Effect s (leave t) v h) v
step-IsConsistent s (delete cs) v h =
    rw (step-Effect s (delete cs) v h) (delete_lock-IsConsistent s.lockdata cs v)
