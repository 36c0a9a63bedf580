-- ===== src/MutexLock/Deadlock.antt =====
-- boostthreadcontrol/sync.h: scopes of `CMutexLock` in any threads, and the deadlocks that the detector
-- keeps away.
use learn_framework.Common.{
  ℕ, ◌≡◌, refl, ap, sym, ◌∙◌, true, false, none, some, List, [], ◌∷◌, ◌++◌, arith, ◌==◌, inl, inr,
  Bool-cases, Option-cases, Result, ok, ◌>>=◌, Result-cases,
}
use mathlib.Core.List.{append-nil}
use learn_framework.LockOrder.{LockData, LockStack, Halt, or_empty, holds, delete_lock}
use learn_framework.LockOrder.Maps.{has}
use learn_framework.LockOrder.Round.{IsConsistent, init-IsConsistent}
use learn_framework.LockOrder.Delete.{delete_lock-IsConsistent, delete_lock-exact, delete_lock_down}
use learn_framework.MutexLock.Scopes.{
  Guard, owning, idle, Thread, World, Event, begins, locks, tries, makes_null, ends, deletes, start,
  put, begin, try, step, run, owned, among, if_running,
}
use learn_framework.MutexLock.Nesting.{keys, Ordered, Ordered-last, ahead-holds}
use learn_framework.MutexLock.Stacks.{
  waited, IsExact, ThreadInv, WorldInv, Leaves, put-Inv, begin-Leaves, try-Leaves, end-ThreadInv,
}

-- A critical section is destroyed only while no thread holds it or waits for it, as boost asks of its
-- mutex.
abbrev pub Frees : World → Event → Type 0
Frees w (deletes m) = (t : ℕ) → holds m (or_empty (w.threads t).lockstack) ≡ false
Frees w _ = Unit

-- Such an event of the run.
abbrev pub AllFree : World → List Event → Type 0
AllFree w [] = Unit
AllFree w (e ∷ es) = Frees w e × ((v : World) → step w e ≡ ok v → AllFree v es)

-- A lock that the stack does not hold is none of those that it holds.
held_other : (s : LockStack) (b m : ℕ) → holds b s ≡ true → holds m s ≡ false → (b == m) ≡ false
held_other s b m h free = elim (Bool-cases (b == m)) [
  | inl same ↦
      let e : b ≡ m = ground (arith, same) in
      absurd (ground (arith, ap (λ x. holds x s) e, h, free))
  | inr other ↦ other
]

delete-Ordered :
    (d : LockData) (s : LockStack) (m : ℕ)
    → IsConsistent d
    → holds m s ≡ false
    → Ordered d s
    → Ordered (delete_lock d m) s
delete-Ordered d s m c free o a b h q = elim (Bool-cases d.available) [
  | inl up ↦ ground (
    arith,
    delete_lock-exact d m a b c up,
    held_other s a m (ahead-holds b a s q) free,
    held_other s b m h free,
    o a b h q,
  )
  | inr down ↦ rw (delete_lock_down d m down) (o a b h q)
]

-- The state of a thread is that of no event of another, and of none while it is in `lock`.
after_own :
    (w v : World) (t : ℕ) (x : Result Halt (LockData × Thread))
    → WorldInv w
    → ((r : LockData × Thread) → (w.threads t).waits_for ≡ none → x ≡ ok r → Leaves w.lockdata r)
    → if_running w t (x >>= λ r. ok (put w t r.0 r.1)) ≡ ok v
    → WorldInv v
after_own w v t x i k h = elim (Option-cases (w.threads t).waits_for) [
  | inl runs ↦ elim (Result-cases x) [
    | inl (r, e) ↦
        let (c, g, j) = k r runs e in
        let same : v ≡ put w t r.0 r.1 = ground (arith, h, runs, e) in
        rw same (put-Inv w t r.0 r.1 i c g j)
    | inr (y, e) ↦ absurd (ground (arith, h, runs, e))
  ]
  | inr (m, waits) ↦ let same : v ≡ w = ground (arith, h, waits) in rw same i
]

own-put :
    (w : World) (t : ℕ) (th : Thread)
    → WorldInv w
    → ThreadInv w.lockdata th
    → WorldInv (put w t w.lockdata th)
own-put w t th i j = put-Inv w t w.lockdata th i i.consistent (λ a b h. h) j

locks-Inv : (w v : World) (t : ℕ) → WorldInv w → step w (locks t) ≡ ok v → WorldInv v
unfolding step owned
locks-Inv w v t i h = elim (Option-cases (w.threads t).waits_for) [
  | inl runs ↦ let same : v ≡ w = ground (arith, h, runs) in rw same i
  | inr (m, waits) ↦
      let th : Thread = record (w.threads t) {
        guards = owning m ∷ (w.threads t).guards;
        waits_for = none;
      } in
      let same : v ≡ put w t w.lockdata th = ground (arith, h, waits) in
      rw same (
        own-put w t th i (record {
          exact =
              (i.each t).exact
              ∙ ap (λ x. owned (w.threads t).guards ++ waited x) waits
              ∙ sym (append-nil (owned (w.threads t).guards ++ (m ∷ [])));
          ordered = (i.each t).ordered;
        }))
]

null-Inv : (w v : World) (t : ℕ) → WorldInv w → step w (makes_null t) ≡ ok v → WorldInv v
unfolding step owned
null-Inv w v t i h = elim (Option-cases (w.threads t).waits_for) [
  | inl runs ↦
      let th : Thread = record (w.threads t) { guards = idle ∷ (w.threads t).guards } in
      let same : v ≡ put w t w.lockdata th = ground (arith, h, runs) in
      rw same (own-put w t th i (record { exact = (i.each t).exact; ordered = (i.each t).ordered }))
  | inr (m, waits) ↦ let same : v ≡ w = ground (arith, h, waits) in rw same i
]

ends-Inv :
    (w v : World) (t : ℕ) (gs : List Guard)
    → WorldInv w
    → (w.threads t).waits_for ≡ none
    → (w.threads t).guards ≡ gs
    → step w (ends t) ≡ ok v
    → WorldInv v
unfolding step
ends-Inv w v t [] i runs e h = let same : v ≡ w = ground (arith, h, runs, e) in rw same i
ends-Inv w v t (g ∷ gs) i runs e h =
    let (th, returns, j) = end-ThreadInv w.lockdata (w.threads t) g gs (i.each t) runs e in
    let same : v ≡ put w t w.lockdata th = ground (arith, h, runs, e, returns) in
    rw same (own-put w t th i j)

step-WorldInv : (w v : World) (e : Event) → WorldInv w → Frees w e → step w e ≡ ok v → WorldInv v
unfolding step
step-WorldInv w v (begins t site m) i f h =
    after_own w v t (begin w.lockdata (w.threads t) site m) i
      (λ r runs e. begin-Leaves w.lockdata (w.threads t) site m r i.consistent (i.each t) runs e) h
step-WorldInv w v (tries t site m got) i f h =
    after_own w v t (try w.lockdata (w.threads t) site m got) i
      (λ r runs e. try-Leaves w.lockdata (w.threads t) site m got r i.consistent (i.each t) runs e)
      h
step-WorldInv w v (locks t) i f h = locks-Inv w v t i h
step-WorldInv w v (makes_null t) i f h = null-Inv w v t i h
step-WorldInv w v (ends t) i f h = elim (Option-cases (w.threads t).waits_for) [
  | inl runs ↦ ends-Inv w v t (w.threads t).guards i runs refl h
  | inr (m, waits) ↦ let same : v ≡ w = ground (arith, h, waits) in rw same i
]
step-WorldInv w v (deletes m) i f h =
    let same : v ≡ record w { lockdata = delete_lock w.lockdata m } = ground (arith, h) in
    rw same (record {
      consistent = delete_lock-IsConsistent w.lockdata m i.consistent;
      each = λ t. record {
        exact = (i.each t).exact;
        ordered =
            delete-Ordered w.lockdata (or_empty (w.threads t).lockstack) m i.consistent (f t)
              (i.each t).ordered;
      };
    })

run_from-WorldInv :
    (w v : World) (es : List Event) → WorldInv w → AllFree w es → run w es ≡ ok v → WorldInv v
unfolding run
run_from-WorldInv w v [] i f h = let same : v ≡ w = ground (arith, h) in rw same i
run_from-WorldInv w v (e ∷ es) i f h = elim (Result-cases (step w e)) [
  | inl (u, r) ↦
      run_from-WorldInv u v es (step-WorldInv w u e i f.0 r) (f.1 u r) (ground (arith, h, r))
  | inr (x, r) ↦ absurd (ground (arith, h, r))
]

start-WorldInv : WorldInv start
unfolding keys owned holds
start-WorldInv = record {
  consistent = init-IsConsistent;
  each = λ t. record { exact = refl; ordered = λ a c h q. absurd (ground (arith, h)) };
}

-- Whatever scopes the threads open and close, and in whatever order, unless the detector stops the
-- program: the lock stack of each thread is that of the mutexes that its guards own, in the order of
-- the scopes, and behind them the one in whose `lock` it is. Critical sections are destroyed only while
-- no thread holds them or waits for them.
pub run-IsExact :
    (w : World) (es : List Event) (t : ℕ)
    → AllFree start es
    → run start es ≡ ok w
    → IsExact (w.threads t)
run-IsExact w es t f h = ((run_from-WorldInv start w es start-WorldInv f h).each t).exact

-- The thread is in the `lock` of `b`, which it does not own, and owns `a`.
pub record Waits (w : World) (t a b : ℕ) : Type 0 where
  pub waiting : (w.threads t).waits_for ≡ some b
  pub holding : among a (owned (w.threads t).guards) ≡ true
  pub not_own : among b (owned (w.threads t).guards) ≡ false

Waits-ordered :
    (w : World) (t a b : ℕ) → WorldInv w → Waits w t a b → has (a, b) w.lockdata.lockorders ≡ true
Waits-ordered w t a b i x =
    Ordered-last w.lockdata (or_empty (w.threads t).lockstack) (owned (w.threads t).guards) a b
      (i.each t).ordered
      ((i.each t).exact ∙ ap (λ k. owned (w.threads t).guards ++ waited k) x.waiting) x.holding
      x.not_own

-- Whatever scopes the threads open and close, and in whatever order, with critical sections destroyed
-- only while no thread holds them or waits for them: no two threads ever wait, each with a mutex of its
-- own, for the mutex of the other. The detector has stopped the program before.
pub run_no_deadlock :
    (w : World) (es : List Event) (t u a b : ℕ)
    → AllFree start es
    → run start es ≡ ok w
    → Waits w t a b
    → ¬ Waits w u b a
run_no_deadlock w es t u a b f h x y =
    let i = run_from-WorldInv start w es start-WorldInv f h in
    absurd (
      ground
        (arith, i.consistent.antisym a b (Waits-ordered w t a b i x), Waits-ordered w u b a i y))

-- After any such run, the destructor of a thread's innermost guard returns: it never pops an empty
-- stack or follows a null pointer.
pub run_ends_return :
    (w : World) (es : List Event) (t : ℕ) (g : Guard) (gs : List Guard)
    → AllFree start es
    → run start es ≡ ok w
    → (w.threads t).waits_for ≡ none
    → (w.threads t).guards ≡ g ∷ gs
    → (v : World) × (step w (ends t) ≡ ok v)
unfolding step
run_ends_return w es t g gs f h runs e =
    let i = run_from-WorldInv start w es start-WorldInv f h in
    let (th, returns, j) = end-ThreadInv w.lockdata (w.threads t) g gs (i.each t) runs e in
    (put w t w.lockdata th, ground (arith, runs, e, returns))
