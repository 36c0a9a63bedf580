-- ===== src/QueueControl/Masters/Tests.antt =====
-- boostthreadcontrol/checkqueue.h: two threads with a control each.
use learn_framework.Common.{
  ℕ, ◌+◌, ◌*◌, ◌≤◌, ◌≡◌, refl, ◌⊎◌, Bool, true, false, some, List, [], ◌∷◌, arith, leb, length,
  take, total,
}
use learn_framework.CheckQueue.{new_queue, lock_section, informs_master, run_checks}
use learn_framework.CheckQueue
use learn_framework.CheckQueue.System
use learn_framework.CheckQueue.System.{
  Event, lock_thread, wake_thread, execute_thread, notify_added,
}
use learn_framework.CheckQueue.Asleep.{in_wait}
use learn_framework.CheckQueue.Rank.{AllReady, ready}
use learn_framework.CheckQueue.Verdict.{total_added, all_pass}
use learn_framework.QueueControl.{wait, add, construct, use_control, destroy}
use learn_framework.QueueControl.Masters
use learn_framework.QueueControl.Masters.{
  Holder, Action, constructs, destroys, uses, starts_worker, locks, executes, start,
}
use learn_framework.QueueControl.Alone.{events, controlled_returns}
use learn_framework.QueueControl.Answers.{own_checks, AllLeaveNone, checks_in, own_answer}

abbrev at_most_ten : ℕ → Bool
at_most_ten n = leb n 10

-- Thread 7 checks 3 and 20, and thread 8 then checks 4 and leaves the `Wait` to its destructor. Only
-- the two that wait work.
abbrev two_controls : List (Action ℕ)
two_controls =
    starts_worker
    ∷ locks 0
    ∷ constructs 7
    ∷ constructs 8
    ∷ uses 7 (add (3 ∷ 20 ∷ []))
    ∷ uses 7 (wait false)
    ∷ locks 1
    ∷ executes 1
    ∷ locks 1
    ∷ executes 1
    ∷ locks 1
    ∷ destroys 7
    ∷ constructs 8
    ∷ uses 8 (add (4 ∷ []))
    ∷ destroys 8
    ∷ locks 2
    ∷ executes 2
    ∷ []

abbrev first_control : List (Action ℕ)
first_control = take 10 two_controls

first_false :
    (Masters.step at_most_ten (Masters.run at_most_ten (start 2) first_control) (locks 1)).1
    ≡ some false
unfolding Masters.step Masters.run System.step System.run new_queue lock_section CheckQueue.add
    lock_thread wake_thread execute_thread notify_added informs_master run_checks construct
    use_control destroy
first_false = refl

second_true :
    (Masters.step at_most_ten (Masters.run at_most_ten (start 2) two_controls) (locks 2)).1
    ≡ some true
unfolding Masters.step Masters.run System.step System.run new_queue lock_section CheckQueue.add
    lock_thread wake_thread execute_thread notify_added informs_master run_checks construct
    use_control destroy
second_true = refl

three_added : total_added (events at_most_ten (start 2) two_controls) ≡ 3
unfolding Masters.step Masters.run System.step System.run new_queue lock_section CheckQueue.add
    lock_thread wake_thread execute_thread notify_added informs_master run_checks construct
    use_control destroy events Masters.act
three_added = refl

two_added : total_added (events at_most_ten (start 2) first_control) ≡ 2
unfolding Masters.step Masters.run System.step System.run new_queue lock_section CheckQueue.add
    lock_thread wake_thread execute_thread notify_added informs_master run_checks construct
    use_control destroy events Masters.act
two_added = refl

all_leave_none : AllLeaveNone at_most_ten (start 2) [] two_controls
unfolding Masters.step Masters.run System.step System.run new_queue lock_section CheckQueue.add
    lock_thread wake_thread execute_thread notify_added informs_master run_checks construct
    use_control destroy AllLeaveNone checks_in
all_leave_none = ground arith

own_answer_example :
    (true ≡ all_pass at_most_ten (own_checks at_most_ten (start 2) [] two_controls))
    × ((h : Holder ℕ) × ((Masters.run at_most_ten (start 2) two_controls).holder ≡ some h)
        × (h.in_wait ≡ true))
own_answer_example =
    own_answer at_most_ten 2 two_controls (locks 2) true (omega (arith, three_added)) all_leave_none
      second_true

-- The one turn behind which the first `Wait` returns.
last_turn :
    AllReady at_most_ten
      (Masters.run at_most_ten (start 2) first_control).queue
      (System.locks 1 ∷ [])
unfolding Masters.step Masters.run System.step System.run new_queue lock_section CheckQueue.add
    lock_thread wake_thread execute_thread notify_added informs_master run_checks construct
    use_control destroy
last_turn = (refl, tt)

controlled_returns_example :
    let q = (Masters.run at_most_ten (start 2) first_control).queue in
    (1 ≤ 3 * (length q.shared.queue + length q.threads))
    × ((total in_wait (System.run at_most_ten q (System.locks 1 ∷ [])).threads ≡ 0)
        ⊎ ((e : Event ℕ) × (ready (System.run at_most_ten q (System.locks 1 ∷ [])) e ≡ true)))
controlled_returns_example =
    controlled_returns at_most_ten 2 first_control (System.locks 1 ∷ []) (omega (arith, two_added))
      last_turn
