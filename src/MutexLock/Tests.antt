-- ===== src/MutexLock/Tests.antt =====
-- boostthreadcontrol/sync.h: a scoped lock whose `try_lock` fails, two threads that take two
-- mutexes in opposite orders, and three that wait in a circle.
use learn_framework.Common.{
  ◌≡◌, refl, true, false, Option, none, some, List, [], ◌∷◌, ◌++◌, ok, err,
}
use learn_framework.LockOrder.{LockStack, init, enter_critical, leave_critical}
use learn_framework.LockOrder.Round.{halts}
use learn_framework.MutexLock.Scopes.{
  World, Event, begins, locks, ends, start, step, run, owned, among, owning,
}
use learn_framework.MutexLock.Stacks.{IsExact}
use learn_framework.MutexLock.Deadlock.{
  AllFree, Waits, run-IsExact, run_no_deadlock, run_ends_return,
}
use learn_framework.LockOrder.Maps.{lookup, has, assign, insert, mem}
use learn_framework.MutexLock.{Site, Guarded, construct}

abbrev site : Site
site = record { name = []; file = []; line = 12 }

abbrev one_held : Option LockStack
one_held =
    some ((4, record { f_try = false; mutex_name = []; source_file = []; source_line = 3 }) ∷ [])

abbrev tried : Guarded
tried = elim (construct init one_held site (some 5) true false) [
  | ok g ↦ g
  | err h ↦ record { lockdata = init; lockstack = none; owns = true }
]

tried_runs : (construct init one_held site (some 5) true false ≡ ok tried) × (tried.owns ≡ false)
unfolding construct enter_critical leave_critical lookup has assign insert mem
tried_runs = (refl, refl)

-- Thread 0 holds 1 and waits for 2, which thread 1 holds.
abbrev half_way : List Event
half_way = begins 0 site 1 ∷ locks 0 ∷ begins 1 site 2 ∷ locks 1 ∷ begins 0 site 2 ∷ []

-- Then thread 1 asks for 1.
opposite_halts : halts (run start (half_way ++ (begins 1 site 1 ∷ []))) ≡ true
unfolding run step enter_critical has assign
opposite_halts = refl

half_way_free : AllFree start half_way
half_way_free = (tt, λ v h. (tt, λ v h. (tt, λ v h. (tt, λ v h. (tt, λ v h. tt)))))

abbrev half_way_run : (w : World) × (run start half_way ≡ ok w) × Waits w 0 1 2
unfolding run owned among step enter_critical has assign
half_way_run = (_, refl, record { waiting = refl; holding = refl; not_own = refl })

run-IsExact_example : IsExact (half_way_run.0.threads 0)
run-IsExact_example = run-IsExact half_way_run.0 half_way 0 half_way_free half_way_run.1

run_no_deadlock_example : ¬ Waits half_way_run.0 1 2 1
run_no_deadlock_example =
    run_no_deadlock half_way_run.0 half_way 0 1 1 2 half_way_free half_way_run.1 half_way_run.2

-- Three threads wait in a circle, each for the mutex of the next: the detector looks at pairs alone.
abbrev circle : List Event
circle =
    begins 0 site 1
    ∷ locks 0
    ∷ begins 1 site 2
    ∷ locks 1
    ∷ begins 2 site 3
    ∷ locks 2
    ∷ begins 0 site 2
    ∷ begins 1 site 3
    ∷ begins 2 site 1
    ∷ []

circle_runs :
    (w : World) × (run start circle ≡ ok w) × Waits w 0 1 2 × Waits w 1 2 3 × Waits w 2 3 1
unfolding run owned among step enter_critical has assign
circle_runs = (
  _,
  refl,
  record { waiting = refl; holding = refl; not_own = refl },
  record { waiting = refl; holding = refl; not_own = refl },
  record { waiting = refl; holding = refl; not_own = refl },
)

abbrev scope : List Event
scope = begins 0 site 1 ∷ locks 0 ∷ []

scope_free : AllFree start scope
scope_free = (tt, λ v h. (tt, λ v h. tt))

abbrev scope_run :
    (w : World) × (run start scope ≡ ok w)
    × ((w.threads 0).waits_for ≡ none)
    × ((w.threads 0).guards ≡ owning 1 ∷ [])
unfolding run step enter_critical has assign
scope_run = (_, refl, refl, refl)

run_ends_return_example : (v : World) × (step scope_run.0 (ends 0) ≡ ok v)
run_ends_return_example =
    run_ends_return scope_run.0 scope 0 (owning 1) [] scope_free scope_run.1 scope_run.2 scope_run.3
