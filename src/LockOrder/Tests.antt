-- ===== src/LockOrder/Tests.antt =====
-- boostthreadcontrol/sync.cpp: two threads take two locks in opposite orders.
use learn_framework.Common.{
  ℕ, ◌≡◌, refl, true, false, ◌||◌, Option, some, List, [], ◌∷◌, ◌++◌, ◌==◌, if◌then◌else◌, ok, err,
}
use learn_framework.LockOrder.{
  LockData, LockStack, Location, or_empty, push_lock, enter_critical, leave_critical, delete_lock,
}
use learn_framework.LockOrder.Maps.{has, lookup, assign, mem, insert}
use learn_framework.LockOrder.Round.{IsConsistent, halts}
use learn_framework.LockOrder.Order.{reversed, ahead, push_lock_ok, halts-push_lock, Extended}
use learn_framework.LockOrder.Delete.{delete_lock-exact}
use learn_framework.LockOrder.Threads.{System, Call, enter, leave, start, step, run, held_ahead}
use learn_framework.LockOrder.History.{run-IsConsistent, opposite_order_halts}
use learn_framework.LockOrder.Alarm.{Nested, halts_needs_nesting}

abbrev place : Location
place = record { f_try = false; mutex_name = []; source_file = []; source_line = 1 }

-- Thread 0 locks 1 and then 2, and lets go of both; thread 7 locks 2.
abbrev taken : List Call
taken = enter 0 1 place ∷ []

abbrev between : List Call
between = leave 0 ∷ leave 0 ∷ enter 7 2 place ∷ []

abbrev after : List Call → System
after cs = elim (run start cs) [ ok s ↦ s | err h ↦ start ]

taken_run : run start taken ≡ ok (after taken)
unfolding run step enter_critical lookup has assign insert mem
taken_run = refl

taken-IsConsistent : IsConsistent (after taken).lockdata
taken-IsConsistent = run-IsConsistent taken taken_run

run-IsConsistent_example : IsConsistent (after (enter 0 1 place ∷ enter 0 2 place ∷ [])).lockdata
unfolding run step enter_critical lookup has assign insert mem
run-IsConsistent_example = run-IsConsistent (enter 0 1 place ∷ enter 0 2 place ∷ []) refl

abbrev nested : System
nested = after (enter 0 1 place ∷ enter 0 2 place ∷ [])

nested-step : step (after taken) (enter 0 2 place) ≡ ok nested
unfolding run step enter_critical lookup has assign insert mem
nested-step = refl

abbrev opposite : System
opposite = after (enter 0 1 place ∷ enter 0 2 place ∷ between)

between_run : run nested between ≡ ok opposite
unfolding run step enter_critical leave_critical lookup has assign insert mem
between_run = refl

opposite_order_halts_example : halts (step opposite (enter 7 1 place)) ≡ true
unfolding run step enter_critical leave_critical lookup has assign insert mem ahead
opposite_order_halts_example =
    opposite_order_halts taken between (after taken) nested opposite 0 7 1 2 place place taken_run
      refl nested-step between_run (tt, (tt, (tt, tt))) refl

opposite_run : run start (enter 0 1 place ∷ enter 0 2 place ∷ between) ≡ ok opposite
unfolding run step enter_critical leave_critical lookup has assign insert mem
opposite_run = refl

opposite-halts : halts (step opposite (enter 7 1 place)) ≡ true
unfolding run step enter_critical leave_critical lookup has assign insert mem
opposite-halts = refl

halts_needs_nesting_example :
    (i : ℕ) × (held_ahead opposite 7 1 i ≡ true)
    × Nested 1 i start (enter 0 1 place ∷ enter 0 2 place ∷ between)
halts_needs_nesting_example =
    halts_needs_nesting (enter 0 1 place ∷ enter 0 2 place ∷ between) opposite 7 1 place
      opposite_run opposite-halts

nested-IsConsistent : IsConsistent nested.lockdata
unfolding run step enter_critical lookup has assign insert mem
nested-IsConsistent = run-IsConsistent (enter 0 1 place ∷ enter 0 2 place ∷ []) refl

abbrev two_held : Option LockStack
two_held = some ((2, place) ∷ [])

halts-push_lock_example :
    halts (push_lock nested.lockdata two_held 1 place)
    ≡ reversed nested.lockdata 1 (or_empty two_held)
halts-push_lock_example = halts-push_lock nested.lockdata two_held 1 place nested-IsConsistent

push_lock_ok_example :
    (d' : LockData) × (push_lock nested.lockdata two_held 3 place
      ≡ ok (d', or_empty two_held ++ ((3, place) ∷ [])))
    × Extended nested.lockdata 3 (or_empty two_held) d'
unfolding run step enter_critical lookup has assign insert mem reversed
push_lock_ok_example = push_lock_ok nested.lockdata two_held 3 place nested-IsConsistent refl

delete_lock-exact_example :
    (has (1, 2) (delete_lock nested.lockdata 2).lockorders
      ≡ (if 1 == 2 || 2 == 2 then false else has (1, 2) nested.lockdata.lockorders))
    × (mem (2, 1) (delete_lock nested.lockdata 2).invlockorders
        ≡ (if 1 == 2 || 2 == 2 then false else has (1, 2) nested.lockdata.lockorders))
unfolding run step enter_critical lookup has assign insert mem
delete_lock-exact_example = delete_lock-exact nested.lockdata 2 1 2 nested-IsConsistent refl
