-- ===== src/ThreadControl/Tests.antt =====
-- boostthreadcontrol/main.cpp: a run in which the thread of `main` does all the work, before the
-- others have begun.
use learn_framework.Common.{
  ℕ, zero, suc, ◌≤◌, ◌≡◌, refl, ◌⊎◌, true, some, List, [], ◌∷◌, ◌++◌, length, total,
}
use learn_framework.QueueControl.{construct, finish}
use learn_framework.CheckQueue.{new_queue, lock_section, add, informs_master, run_checks}
use learn_framework.CheckQueue.System.{
  Event, locks, executes, start, lock_thread, execute_thread, notify_added, step, run,
}
use learn_framework.CheckQueue.Account.{in_flight}
use learn_framework.CheckQueue.Asleep.{in_wait}
use learn_framework.CheckQueue.Rank.{AllReady, ready}
use learn_framework.CheckQueue.Verdict.{total_added}
use learn_framework.ThreadControl.{TaskCheck, check, batch_size, main, queue_events, from_main}
use learn_framework.ThreadControl.Outcome.{main_wait, main_returns}

-- So many batches of the sixth thread.
batches : ℕ → List (Event TaskCheck)
batches zero = []
batches (suc n) = locks 5 ∷ executes 5 ∷ batches n

abbrev alone : List (Event TaskCheck)
alone = queue_events (main true) ++ batches 6

alone_in_order : from_main alone ++ [] ≡ queue_events (main true)
unfolding from_main queue_events main construct finish batches
alone_in_order = refl

alone_answers : (step check (run check (start batch_size) alone) (locks 5)).1 ≡ some true
unfolding step run new_queue lock_section add lock_thread execute_thread notify_added informs_master
    run_checks queue_events main construct finish check batches
alone_answers = refl

main_wait_example :
    (true ≡ true)
    × (from_main alone ≡ queue_events (main true))
    × (total_added alone ≡ 20)
    × (length (step check (run check (start batch_size) alone) (locks 5)).0.shared.queue ≡ 0)
    × (total in_flight (step check (run check (start batch_size) alone) (locks 5)).0.threads ≡ 0)
main_wait_example = main_wait true alone [] (locks 5) true alone_in_order alone_answers

abbrev turns : List (Event TaskCheck)
turns = locks 0 ∷ locks 5 ∷ executes 0 ∷ []

begun_in_order : from_main (queue_events (main true)) ≡ queue_events (main true)
unfolding from_main queue_events main construct finish
begun_in_order = refl

turns_ready : AllReady check (run check (start batch_size) (queue_events (main true))) turns
unfolding step run new_queue lock_section add lock_thread execute_thread notify_added informs_master
    run_checks queue_events main construct finish check
turns_ready = (refl, (refl, (refl, tt)))

main_returns_example :
    (length turns ≤ 78)
    × ((total in_wait
            (run check (run check (start batch_size) (queue_events (main true))) turns).threads
          ≡ 0)
        ⊎ ((e : Event TaskCheck) × (ready
                (run check (run check (start batch_size) (queue_events (main true))) turns)
                e
              ≡ true)))
main_returns_example = main_returns true (queue_events (main true)) turns begun_in_order turns_ready
