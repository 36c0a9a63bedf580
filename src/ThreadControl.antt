-- ===== src/ThreadControl.antt =====
-- boostthreadcontrol/main.cpp and task_check.cpp: a program that checks tasks on five threads. The
-- line that a task's check prints is left out.
pub mod Outcome
pub mod Tests
use learn_framework.Common.{ℕ, zero, suc, Bool, true, false, List, [], ◌∷◌, ◌++◌}
use learn_framework.CheckQueue.System.{Event, adds, joins, locks, wakes, executes}
use learn_framework.QueueControl
use learn_framework.QueueControl.{
  QueueCall, enters_control, leaves_control, waits, Use, wait, add, construct, finish,
}

pub data TaskCheck : Type 0 where
  task : TaskCheck

-- `operator()`
unfoldable pub check : TaskCheck → Bool
check t = true

-- The argument of the queue's constructor.
abbrev pub batch_size : ℕ
batch_size = 128

-- What `main` does, in order.
pub data Call : Type 0 where
  creates_thread : Call
  controls : QueueCall TaskCheck → Call

unfoldable pub controls_all : List (QueueCall TaskCheck) → List Call
controls_all [] = []
controls_all (c ∷ cs) = controls c ∷ controls_all cs

-- The second loop, so many rounds of it, and `control.Wait()`, which answers `answer`.
unfoldable pub uses : ℕ → Bool → List (Use TaskCheck)
uses zero answer = wait answer ∷ []
uses (suc n) answer = add (task ∷ []) ∷ uses n answer

-- The first loop, so many rounds of it.
unfoldable pub create_threads : ℕ → List Call
create_threads zero = []
create_threads (suc n) = creates_thread ∷ create_threads n

-- The control's constructor, the two loops, the wait, and the control's destructor.
unfoldable pub main : Bool → List Call
unfolding controls_all uses create_threads
main answer =
    let (control, calls) = construct true in
    controls_all calls ++ (create_threads 5 ++ controls_all (finish control (uses 20 answer)))

-- A call as the queue meets it: a thread begins `Thread()` or `Wait()`, or checks are added. Those on
-- `ControlMutex` are none of the queue.
unfoldable pub queue_events : List Call → List (Event TaskCheck)
queue_events [] = []
queue_events (creates_thread ∷ cs) = joins false ∷ queue_events cs
queue_events (controls (QueueControl.adds v) ∷ cs) = adds v ∷ queue_events cs
queue_events (controls waits ∷ cs) = joins true ∷ queue_events cs
queue_events (controls enters_control ∷ cs) = queue_events cs
queue_events (controls leaves_control ∷ cs) = queue_events cs

-- The events of a run that come from `main`; the others are turns of the threads in the loop.
unfoldable pub from_main : List (Event TaskCheck) → List (Event TaskCheck)
from_main [] = []
from_main (adds v ∷ es) = adds v ∷ from_main es
from_main (joins m ∷ es) = joins m ∷ from_main es
from_main (locks i ∷ es) = from_main es
from_main (wakes i ∷ es) = from_main es
from_main (executes i ∷ es) = from_main es
