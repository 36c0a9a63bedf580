-- ===== src/QueueControl/Lifetime.antt =====
-- boostthreadcontrol/checkqueue.h: what a `CCheckQueueControl` does to its queue in its whole life.
use learn_framework.Common.{
  ◌≡◌, refl, ap, Bool, true, false, ◌&&◌, ◌||◌, List, [], ◌∷◌, ◌++◌, arith, if◌then◌else◌,
}
use learn_framework.QueueControl.{
  QueueCall, enters_control, leaves_control, waits, adds, Use, wait, add, finish, life,
}

module _ {A : Type 0} where
  -- Whether checks were added behind the last `Wait` of the queue, where `b` says so of the calls
  -- before.
  pub unfinished : Bool → List (QueueCall A) → Bool
  unfinished b [] = b
  unfinished b (enters_control ∷ cs) = unfinished b cs
  unfinished b (leaves_control ∷ cs) = unfinished b cs
  unfinished b (waits ∷ cs) = unfinished false cs
  unfinished b (adds v ∷ cs) = unfinished true cs

  -- The owner has called `Wait`.
  pub waited : List (Use A) → Bool
  waited [] = false
  waited (wait r ∷ us) = true
  waited (add v ∷ us) = waited us

  -- The owner has called `Add` behind its last `Wait`, where `b` says so of the calls before.
  pub added_last : Bool → List (Use A) → Bool
  added_last b [] = b
  added_last b (wait r ∷ us) = added_last false us
  added_last b (add v ∷ us) = added_last true us

  unfinished-finish :
      (us : List (Use A)) (done b : Bool)
      → unfinished b (finish (record { has_queue = true; f_done = done }) us)
        ≡ ((done || waited us) && added_last b us)
  unfolding unfinished finish waited added_last
  unfinished-finish [] true b = ground arith
  unfinished-finish [] false b = ground arith
  unfinished-finish (wait r ∷ us) done b = ground (arith, unfinished-finish us true false)
  unfinished-finish (add v ∷ us) done b = unfinished-finish us done true

  -- At the end of a control's life its queue has checks that no `Wait` came after exactly if its
  -- owner called `Wait` and, behind the last such call, `Add`.
  pub unfinished-life :
      (us : List (Use A)) → unfinished false (life true us) ≡ (waited us && added_last false us)
  unfolding life unfinished
  unfinished-life us = unfinished-finish us false false

  -- The calls that use the queue, between the two on the mutex.
  pub middle : Bool → List (Use A) → List (QueueCall A)
  middle done [] = if done then [] else waits ∷ []
  middle done (wait r ∷ us) = waits ∷ middle true us
  middle done (add v ∷ us) = adds v ∷ middle done us

  finish-middle :
      (us : List (Use A)) (done : Bool)
      → finish (record { has_queue = true; f_done = done }) us
        ≡ middle done us ++ (leaves_control ∷ [])
  unfolding finish middle
  finish-middle [] true = refl
  finish-middle [] false = refl
  finish-middle (wait r ∷ us) done = ap (◌∷◌ waits) (finish-middle us true)
  finish-middle (add v ∷ us) done = ap (◌∷◌ (adds v)) (finish-middle us done)

  finish_null : (us : List (Use A)) → finish (record { has_queue = false; f_done = false }) us ≡ []
  unfolding finish
  finish_null [] = refl
  finish_null (wait r ∷ us) = finish_null us
  finish_null (add v ∷ us) = finish_null us

  -- A control of a queue enters its mutex first and leaves it last, and between the two makes the
  -- owner's calls in their order and, if the owner never called `Wait`, one `Wait` behind them. A
  -- control of a null pointer makes no call at all.
  pub life-middle :
      (us : List (Use A))
      → (life true us ≡ enters_control ∷ (middle false us ++ (leaves_control ∷ [])))
        × (life false us ≡ [])
  unfolding life
  life-middle us = (ap (◌∷◌ enters_control) (finish-middle us false), finish_null us)
