-- ===== src/QueueControl.antt =====
-- boostthreadcontrol/checkqueue.h: `CCheckQueueControl`, and how its methods use the queue. The calls
-- that it makes on the queue and on `ControlMutex` are listed in order; the answer of the queue's
-- `Wait` is an argument.
pub mod Lifetime
pub mod Masters
pub mod Calls
pub mod Alone
pub mod Answers
pub mod Tests
use learn_framework.Common.{ℕ, Bool, true, false, List, [], ◌∷◌, ◌++◌, if◌then◌else◌}

-- `ENTER_CRITICAL_SECTION(pqueue->ControlMutex)`, `LEAVE_CRITICAL_SECTION`, `Wait` and `Add`.
pub data QueueCall (A : Type 0) : Type 0 where
  enters_control leaves_control waits : QueueCall A
  adds : (v_checks : List A) → QueueCall A

-- `has_queue` says that `pqueue` is not null.
pub record Control : Type 0 where
  pub has_queue : Bool
  pub f_done : Bool

-- What the owner of the object calls.
pub data Use (A : Type 0) : Type 0 where
  wait : (answer : Bool) → Use A
  add : (v_checks : List A) → Use A

module _ {A : Type 0} where
  unfoldable pub construct : Bool → Control × List (QueueCall A)
  construct has_queue = (
    record { has_queue = has_queue; f_done = false },
    if has_queue then enters_control ∷ [] else [],
  )

  -- `Wait`, with its return value.
  unfoldable pub wait_for : Control → Bool → Control × List (QueueCall A) × Bool
  wait_for c answer =
      if c.has_queue then (record c { f_done = true }, waits ∷ [], answer) else (c, [], true)

  unfoldable pub add_checks : Control → List A → List (QueueCall A)
  add_checks c v_checks = if c.has_queue then adds v_checks ∷ [] else []

  unfoldable pub destroy : Control → List (QueueCall A)
  unfolding wait_for
  destroy c =
      (if c.f_done then [] else (wait_for c true).1)
      ++ (if c.has_queue then leaves_control ∷ [] else [])

  unfoldable pub use_control : Control → Use A → Control × List (QueueCall A)
  unfolding wait_for add_checks
  use_control c (wait answer) = let r = wait_for c answer in (r.0, r.1)
  use_control c (add v_checks) = (c, add_checks c v_checks)

  -- The uses, and then the destructor.
  unfoldable pub finish : Control → List (Use A) → List (QueueCall A)
  unfolding destroy use_control
  finish c [] = destroy c
  finish c (u ∷ us) = (use_control c u).1 ++ finish (use_control c u).0 us

  -- A whole life of the object.
  unfoldable pub life : Bool → List (Use A) → List (QueueCall A)
  unfolding construct finish
  life has_queue us = let r = construct has_queue in r.1 ++ finish r.0 us
