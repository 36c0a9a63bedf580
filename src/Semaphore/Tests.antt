-- ===== src/Semaphore/Tests.antt =====
-- boostthreadcontrol/sync.h: a semaphore with two places and three grants.
use learn_framework.Common.{
  ℕ, ◌+◌, ◌≤◌, ◌≡◌, refl, Bool, true, false, some, List, [], ◌∷◌, ◌++◌, get_elem?, ok, err,
}
use learn_framework.Common.Int.{ℤ, pos, pos_part, increment, decrement}
use learn_framework.Semaphore.{
  Store, Grant, waits, construct, acquire, release, try_acquire, move_to, wait, try_wait, post,
}
use learn_framework.Semaphore.Calls.{
  Call, makes, releases, moves, copies, waits_on, tries_on, posts_to, step, run,
}
use learn_framework.Semaphore.Balance.{held}
use learn_framework.Semaphore.Steps.{gives, takes}
use learn_framework.Semaphore.Reach.{start, tally, grants_bounded}

abbrev two_places : ℕ → ℤ
two_places s = pos 2

-- Two grants take the places, the third tries in vain, and the first moves to the third.
abbrev calls : List Call
calls = makes 0 false ∷ makes 0 true ∷ makes 0 true ∷ moves 0 2 ∷ releases 1 ∷ []

abbrev after : List Call → Store
after cs = elim (run (start two_places) cs) [ ok st ↦ st | err x ↦ start two_places ]

abbrev grant : Bool → Grant
grant b = record { sem = some 0; f_have_grant = b }

calls_run : (run (start two_places) calls ≡ ok (after calls)) × ((after calls).value 0 ≡ pos 1)
unfolding run step construct move_to acquire release try_acquire increment decrement
calls_run = (refl, refl)

-- Thread 1 gives back a place that it never took, and a fourth grant is a copy of the third.
abbrev more_calls : List Call
more_calls = calls ++ (posts_to 0 ∷ copies 2 ∷ tries_on 0 ∷ waits_on 0 ∷ releases 2 ∷ [])

more_calls_run :
    (run (start two_places) more_calls ≡ ok (after more_calls))
    × ((after more_calls).value 0 ≡ pos 1)
unfolding run step construct move_to acquire release try_acquire wait try_wait post increment
    decrement
more_calls_run = (refl, refl)

grants_bounded_example :
    ((after more_calls).value 0 ≡ pos (pos_part ((after more_calls).value 0)))
    × (pos_part ((after more_calls).value 0)
          + held 0 (after more_calls)
          + tally (takes 0) (start two_places) more_calls
        ≡ 2 + tally (gives 0) (start two_places) more_calls)
    × (tally (gives 0) (start two_places) more_calls ≡ 0 → held 0 (after more_calls) ≤ 2)
grants_bounded_example = grants_bounded two_places more_calls 0 2 refl more_calls_run.0

third_grant : get_elem? (after calls).grants 2 ≡ some (grant true)
unfolding run step construct move_to acquire release try_acquire increment decrement
third_grant = refl

-- Where both places are taken, a third grant waits.
third_waits : acquire (after (makes 0 false ∷ makes 0 false ∷ makes 0 true ∷ [])) 2 ≡ err waits
unfolding run step construct move_to acquire release try_acquire increment decrement
third_waits = refl
