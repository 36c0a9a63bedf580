-- ===== src/Semaphore/Threads/Tests.antt =====
-- boostthreadcontrol/sync.h: two threads and a semaphore with one place.
use learn_framework.Common.{◌+◌, ◌*◌, ◌≤◌, ◌≡◌, refl, ◌⊎◌, true, List, [], ◌∷◌, length, total}
use learn_framework.Common.Int.{pos, negsuc, pos_part, neg_part, increment, decrement}
use learn_framework.Semaphore.Threads.{
  outside, Event, begins_wait, begins_try, begins_post, wakes, notifies, run, wait_section,
  try_section, post_section, notify_one, outside_all,
}
use learn_framework.Semaphore.Sleepers.{sleeps}
use learn_framework.Semaphore.Turns.{start, ready, AllReady, sleepers_served}
use learn_framework.Semaphore.Count.{takes, gives, posts, tally, places_exact}

-- Thread 0 takes the place, thread 1 waits for it, and thread 0 gives it back.
abbrev handed_over : List Event
handed_over = begins_wait 0 ∷ begins_wait 1 ∷ begins_try 0 ∷ begins_post 0 ∷ []

abbrev calm : List Event
calm = notifies 0 1 ∷ wakes 1 ∷ []

calm_ready : AllReady (run (start (pos 1) 2) handed_over) calm
unfolding run wait_section try_section post_section notify_one outside_all increment decrement
calm_ready = (refl, (refl, tt))

passes_on : (run (run (start (pos 1) 2) handed_over) calm).threads ≡ outside ∷ outside ∷ []
unfolding run wait_section try_section post_section notify_one outside_all increment decrement
passes_on = refl

sleepers_served_example :
    (length calm ≤ 2 * length (run (start (pos 1) 2) handed_over).threads)
    × ((total sleeps (run (run (start (pos 1) 2) handed_over) calm).threads ≡ 0)
        ⊎ ((pos_part (run (run (start (pos 1) 2) handed_over) calm).value ≡ 0)
            ⊎ ((e : Event) × (ready (run (run (start (pos 1) 2) handed_over) calm) e ≡ true))))
sleepers_served_example = sleepers_served (pos 1) 2 handed_over calm calm_ready

-- From the value -1, two posts make one place.
abbrev posts_twice : List Event
posts_twice =
    begins_post 0 ∷ begins_wait 1 ∷ notifies 0 1 ∷ begins_post 0 ∷ notifies 0 1 ∷ wakes 1 ∷ []

places_exact_example :
    let first = start (negsuc 0) 2 in
    (neg_part (run first posts_twice).value ≤ 1)
    × (pos_part (run first posts_twice).value + tally takes first posts_twice + 1
        ≡ 0
          + tally gives first posts_twice
          + total posts (run first posts_twice).threads
          + neg_part (run first posts_twice).value)
places_exact_example = places_exact (negsuc 0) 2 posts_twice
