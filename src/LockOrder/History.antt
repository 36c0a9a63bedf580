-- ===== src/LockOrder/History.antt =====
-- boostthreadcontrol/sync.cpp: which interleavings of lock calls the detector stops.
use learn_framework.Common.{
  ℕ, ◌≡◌, ◌≢◌, ◌∙◌, Bool, true, inl, inr, List, [], ◌∷◌, arith, Bool-cases, ok,
}
use learn_framework.LockOrder.{LockData, Location, or_empty, delete_lock}
use learn_framework.LockOrder.Round.{IsConsistent, init-IsConsistent, halts}
use learn_framework.LockOrder.Order.{reversed_of_ahead}
use learn_framework.LockOrder.Delete.{delete_lock-exact, delete_lock_down}
use learn_framework.LockOrder.Threads.{
  System, Call, enter, leave, delete, start, step, run, held_ahead, step-Effect, step-IsConsistent,
  halts-enter,
}
use learn_framework.LockOrder.Maps.{has}

pub run_cons :
    (s : System) (c : Call) (cs : List Call) {s' : System}
    → run s (c ∷ cs) ≡ ok s'
    → (t : System) × (step s c ≡ ok t) × (run t cs ≡ ok s')
unfolding run
run_cons s c cs h = ground arith

pub run_from-IsConsistent :
    (s : System) (cs : List Call) {s' : System}
    → IsConsistent s.lockdata
    → run s cs ≡ ok s'
    → IsConsistent s'.lockdata
unfolding run
run_from-IsConsistent s [] v h = ground arith
run_from-IsConsistent s (c ∷ cs) v h =
    let (t, e, r) = run_cons s c cs h in run_from-IsConsistent t cs (step-IsConsistent s c v e) r

-- After any calls of any threads that all return, the inverse orders mirror the orders, and no two
-- locks are ordered both ways.
pub run-IsConsistent : (cs : List Call) {s : System} → run start cs ≡ ok s → IsConsistent s.lockdata
run-IsConsistent cs h = run_from-IsConsistent start cs init-IsConsistent h

abbrev pub before : System → ℕ → ℕ → Bool
before s a b = has (a, b) s.lockdata.lockorders

-- The call does not delete a lock of the pair.
abbrev pub Spares : ℕ → ℕ → Call → Type 0
Spares a b (delete cs) = (a ≢ cs) × (b ≢ cs)
Spares a b _ = Unit

abbrev pub AllSpare : ℕ → ℕ → List Call → Type 0
AllSpare a b [] = Unit
AllSpare a b (c ∷ cs) = Spares a b c × AllSpare a b cs

delete_keeps :
    (d : LockData) (cs a b : ℕ)
    → IsConsistent d
    → a ≢ cs
    → b ≢ cs
    → has (a, b) (delete_lock d cs).lockorders ≡ has (a, b) d.lockorders
delete_keeps d cs a b v na nb = elim (Bool-cases d.available) [
  | inl up ↦ ground (arith, delete_lock-exact d cs a b v up)
  | inr down ↦ rw (delete_lock_down d cs down)
]

step_keeps :
    (s : System) (c : Call) (a b : ℕ) {s' : System}
    → IsConsistent s.lockdata
    → step s c ≡ ok s'
    → Spares a b c
    → before s a b ≡ true
    → before s' a b ≡ true
step_keeps s (enter t cs l) a b v h sp q =
    ground (arith, (step-Effect s (enter t cs l) v h).exact a b)
step_keeps s (leave t) a b v h sp q = rw (step-Effect s (leave t) v h) q
step_keeps s (delete cs) a b v h sp q =
    rw (step-Effect s (delete cs) v h) (delete_keeps s.lockdata cs a b v sp.0 sp.1 ∙ q)

run_keeps :
    (s : System) (cs : List Call) (a b : ℕ) {s' : System}
    → IsConsistent s.lockdata
    → run s cs ≡ ok s'
    → AllSpare a b cs
    → before s a b ≡ true
    → before s' a b ≡ true
unfolding run
run_keeps s [] a b v h sp q = ground arith
run_keeps s (c ∷ cs) a b v h sp q =
    let (t, e, r) = run_cons s c cs h in
    run_keeps t cs a b (step-IsConsistent s c v e) r sp.1 (step_keeps s c a b v e sp.0 q)

-- Once a thread has locked `b` while it held `a`, then, unless one of the two is deleted, a call
-- that locks `a` in a thread that holds `b` ahead of it stops the program. The threads may differ,
-- and any calls that return may lie before and between.
pub opposite_order_halts :
    (cs more : List Call) (s s1 s2 : System) (t u a b : ℕ) (l k : Location)
    → run start cs ≡ ok s
    → held_ahead s t b a ≡ true
    → step s (enter t b l) ≡ ok s1
    → run s1 more ≡ ok s2
    → AllSpare a b more
    → held_ahead s2 u a b ≡ true
    → halts (step s2 (enter u a k)) ≡ true
opposite_order_halts cs more s s1 s2 t u a b l k h held e r sp q =
    halts-enter s2 u a k (run_from-IsConsistent s1 more v1 r)
    ∙ reversed_of_ahead s2.lockdata a b (or_empty (s2.lockstack u)) later q
  where
    v : IsConsistent s.lockdata
    v = run-IsConsistent cs h

    v1 : IsConsistent s1.lockdata
    v1 = step-IsConsistent s (enter t b l) v e

    now : before s1 a b ≡ true
    now = ground (arith, (step-Effect s (enter t b l) v e).exact a b)

    later : before s2 a b ≡ true
    later = run_keeps s1 more a b v1 r sp now
