-- ===== src/QueueControl/Masters.antt =====
-- boostthreadcontrol/checkqueue.h: any number of threads with a `CCheckQueueControl` of one queue each,
-- over the queue's system. `ControlMutex` lets one control at a time live; a constructor that
-- blocks has not happened yet. A control's calls are those of the methods in QueueControl.
pub mod Tests
use learn_framework.Common.{
  ℕ, Bool, true, false, ◌&&◌, not, Option, none, some, List, [], ◌∷◌, ◌==◌, if◌then◌else◌,
}
use learn_framework.CheckQueue.System
use learn_framework.CheckQueue.System.{System, Event, adds, joins}
use learn_framework.QueueControl.{
  QueueCall, enters_control, leaves_control, waits, Control, Use, construct, use_control, destroy,
}

-- The thread that has the mutex, its control, whether it is in the queue's `Wait`, and the calls that
-- its control makes behind that.
pub record Holder (A : Type 0) : Type 0 where
  pub master : ℕ
  pub control : Control
  pub in_wait : Bool
  pub pending : List (QueueCall A)

pub record Scene (A : Type 0) : Type 0 where
  pub queue : System A
  pub holder : Option (Holder A)

-- A thread constructs its control, calls one of its methods, or destroys it; a thread begins
-- `Thread()`; a thread in the queue's loop goes on.
pub data Action (A : Type 0) : Type 0 where
  constructs destroys : (master : ℕ) → Action A
  uses : (master : ℕ) (u : Use A) → Action A
  starts_worker : Action A
  locks wakes executes : (thread : ℕ) → Action A

module _ {A : Type 0} where
  -- The calls, up to a `Wait`, as the queue meets them, and who then has the mutex.
  unfoldable pub perform : Holder A → List (QueueCall A) → Option (Holder A) × List (Event A)
  perform h [] = (some h, [])
  perform h (enters_control ∷ cs) = perform h cs
  perform h (leaves_control ∷ cs) = (none, [])
  perform h (QueueCall.adds v ∷ cs) = let r = perform h cs in (r.0, adds v ∷ r.1)
  perform h (waits ∷ cs) = (some (record h { in_wait = true; pending = cs }), joins true ∷ [])

  -- The thread `m` has the mutex and runs its own code.
  abbrev pub may_call : Holder A → ℕ → Bool
  may_call h m = (h.master == m) && not h.in_wait

  abbrev pub made_by : ℕ → Holder A
  made_by m = record {
    master = m;
    control = (construct {A = A} true).0;
    in_wait = false;
    pending = [];
  }

  -- What an action does that is not a turn in the loop. One that its thread cannot make does nothing.
  unfoldable pub act : Option (Holder A) → Action A → Option (Holder A) × List (Event A)
  unfolding perform
  act none (constructs m) = perform (made_by m) (construct true).1
  act (some h) (uses m u) =
      if may_call h m
      then (let r = use_control h.control u in perform (record h { control = r.0 }) r.1)
      else (some h, [])
  act (some h) (destroys m) = if may_call h m then perform h (destroy h.control) else (some h, [])
  act o starts_worker = (o, joins false ∷ [])
  act o _ = (o, [])

  -- The return of `Wait`, behind which the control makes its other calls.
  unfoldable pub come_back : Option (Holder A) → Option Bool → Option (Holder A)
  unfolding perform
  come_back (some h) (some r) =
      if h.in_wait
      then (perform (record h { in_wait = false; pending = [] }) h.pending).0
      else some h
  come_back o _ = o

  module _ (check : A → Bool) where
    unfoldable pub turn : Scene A → Event A → Scene A × Option Bool
    unfolding come_back
    turn s e =
        let r = System.step check s.queue e in
        (record { queue = r.0; holder = come_back s.holder r.1 }, r.1)

    unfoldable pub step : Scene A → Action A → Scene A × Option Bool
    unfolding turn act
    step s (locks i) = turn s (System.locks i)
    step s (wakes i) = turn s (System.wakes i)
    step s (executes i) = turn s (System.executes i)
    step s a =
        let r = act s.holder a in
        (record { queue = System.run check s.queue r.1; holder = r.0 }, none)

    unfoldable pub run : Scene A → List (Action A) → Scene A
    unfolding step
    run s [] = s
    run s (a ∷ more) = run (step s a).0 more

  abbrev pub start : ℕ → Scene A
  start n = record { queue = System.start n; holder = none }
