-- ===== src/LockOrder/Alarm.antt =====
-- boostthreadcontrol/sync.cpp: the earlier calls that a stopped call goes back to.
use learn_framework.Common.{
  ℕ, ◌≡◌, sym, ◌∙◌, true, ◌⊎◌, inl, inr, List, [], ◌∷◌, arith, Bool-cases, ok, subst,
}
use learn_framework.LockOrder.{LockData, Location, or_empty, delete_lock}
use learn_framework.LockOrder.Round.{IsConsistent, init-IsConsistent, halts}
use learn_framework.LockOrder.Order.{ahead_of_reversed}
use learn_framework.LockOrder.Delete.{delete_lock-exact, delete_lock_down}
use learn_framework.LockOrder.Threads.{
  System, Call, enter, leave, delete, start, step, run, held_ahead, step-Effect, step-IsConsistent,
  halts-enter,
}
use learn_framework.LockOrder.Maps.{has, lookup}
use learn_framework.LockOrder.History.{run_cons, run-IsConsistent, before}

-- Among the calls, made from the state, is one that locks `b` in a thread that holds `a` ahead.
pub data Nested (a b : ℕ) : System → List Call → Type 0 where
  now :
      {s : System} {cs : List Call} (t : ℕ) (l : Location)
      → held_ahead s t b a ≡ true
      → Nested a b s (enter t b l ∷ cs)
  later :
      {s s' : System} {c : Call} {cs : List Call}
      → step s c ≡ ok s'
      → Nested a b s' cs
      → Nested a b s (c ∷ cs)

enter_nests :
    (s : System) (t x a b : ℕ) (l : Location) (cs : List Call)
    → x ≡ b
    → held_ahead s t x a ≡ true
    → Nested a b s (enter t x l ∷ cs)
enter_nests s t x a b l cs e h = subst (λ y. Nested a y s (enter t x l ∷ cs)) e (now t l h)

delete_drops :
    (d : LockData) (cs a b : ℕ)
    → IsConsistent d
    → has (a, b) (delete_lock d cs).lockorders ≡ true
    → has (a, b) d.lockorders ≡ true
delete_drops d cs a b v h = elim (Bool-cases d.available) [
  | inl up ↦ ground (arith, delete_lock-exact d cs a b v up)
  | inr down ↦ rw (delete_lock_down d cs down) at h
]

step_came :
    (s : System) (c : Call) (a b : ℕ) (cs : List Call) {s' : System}
    → IsConsistent s.lockdata
    → step s c ≡ ok s'
    → before s' a b ≡ true
    → (before s a b ≡ true) ⊎ Nested a b s (c ∷ cs)
step_came s (enter t x l) a b cs v h q = elim (Bool-cases (before s a b)) [
  | inl old ↦ inl old
  | inr new ↦
      let x' = (step-Effect s (enter t x l) v h).exact a b in
      inr (enter_nests s t x a b l cs (ground (arith, x')) (ground (arith, x')))
]
step_came s (leave t) a b cs v h q = inl (rw (step-Effect s (leave t) v h) at q)
step_came s (delete x) a b cs v h q =
    inl (delete_drops s.lockdata x a b v (rw (step-Effect s (delete x) v h) at q))

run_came :
    (s : System) (cs : List Call) (a b : ℕ) {s' : System}
    → IsConsistent s.lockdata
    → run s cs ≡ ok s'
    → before s' a b ≡ true
    → (before s a b ≡ true) ⊎ Nested a b s cs
unfolding run
run_came s [] a b v h q = inl (ground arith)
run_came s (c ∷ cs) a b v h q =
    let (t, e, r) = run_cons s c cs h in
    elim (run_came t cs a b (step-IsConsistent s c v e) r q) [
      | inl old ↦ step_came s c a b cs v e old
      | inr n ↦ inr (later e n)
    ]

-- No false alarm: if locking `c` stops the program, then the thread holds some lock ahead of `c`
-- under which `c` was not locked first: an earlier call, of some thread, locked it while holding `c`.
pub halts_needs_nesting :
    (cs : List Call) (s : System) (t c : ℕ) (l : Location)
    → run start cs ≡ ok s
    → halts (step s (enter t c l)) ≡ true
    → (i : ℕ) × (held_ahead s t c i ≡ true) × Nested c i start cs
unfolding has lookup
halts_needs_nesting cs s t c l h q =
    let v = run-IsConsistent cs h in
    let (i, p, r) =
      ahead_of_reversed s.lockdata c (or_empty (s.lockstack t)) (sym (halts-enter s t c l v) ∙ q) in
    elim (run_came start cs c i init-IsConsistent h r) [ inl old ↦ absurd (cc) | inr n ↦ (i, p, n) ]
