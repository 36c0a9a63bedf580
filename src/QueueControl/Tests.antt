-- ===== src/QueueControl/Tests.antt =====
-- boostthreadcontrol/checkqueue.h: lives of a `CCheckQueueControl`.
use learn_framework.Common.{ℕ, ◌≡◌, refl, true, List, [], ◌∷◌}
use learn_framework.QueueControl.{enters_control, leaves_control, waits, adds, Use, wait, add, life}

-- The uses of `main`: two batches, and then `Wait`.
abbrev two_batches : List (Use ℕ)
two_batches = add (1 ∷ []) ∷ add (2 ∷ []) ∷ wait true ∷ []

life_runs :
    life true two_batches
    ≡ enters_control ∷ adds (1 ∷ []) ∷ adds (2 ∷ []) ∷ waits ∷ leaves_control ∷ []
unfolding life
life_runs = refl
