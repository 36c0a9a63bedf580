-- ===== src/CheckQueue/Tests.antt =====
-- boostthreadcontrol/checkqueue.h: a worker and the master check three numbers, one of them too large.
use learn_framework.Common.{
  ℕ, ◌≤◌, ◌≡◌, refl, ◌⊎◌, ◌+◌, ◌*◌, length, total, Bool, true, false, some, List, [], ◌∷◌, arith,
  leb, get_elem?, max, take, drop,
}
use learn_framework.CheckQueue.{
  Queue, Pc, waiting, working, new_queue, lock_section, wake_section, add, look, informs_master,
  run_checks,
}
use learn_framework.CheckQueue.System.{
  Event, adds, joins, locks, wakes, executes, start, lock_thread, wake_thread, execute_thread,
  notify_added, step, run,
}
use learn_framework.CheckQueue.Account.{Inv, in_flight}
use learn_framework.CheckQueue.Asleep.{in_wait}
use learn_framework.CheckQueue.Rank.{AllReady, ready}
use learn_framework.CheckQueue.Finish.{wait_returns}
use learn_framework.CheckQueue.Batch.{look-take}
use learn_framework.CheckQueue.Wakeups.{OneWait, sleeping_wait}
use learn_framework.CheckQueue.Done.{wait_answer_done}
use learn_framework.CheckQueue.Verdict.{session, run-Inv, wait_answer}

abbrev at_most_ten : ℕ → Bool
at_most_ten n = leb n 10

abbrev events : List (Event ℕ)
events =
    joins false
    ∷ locks 0
    ∷ adds (3 ∷ 20 ∷ 5 ∷ [])
    ∷ joins true
    ∷ locks 1
    ∷ executes 1
    ∷ wakes 0
    ∷ executes 0
    ∷ locks 1
    ∷ executes 1
    ∷ locks 0
    ∷ []

answers_false : (step at_most_ten (run at_most_ten (start 2) events) (locks 1)).1 ≡ some false
unfolding step run new_queue lock_section wake_section add lock_thread wake_thread execute_thread
    notify_added informs_master run_checks
answers_false = refl

wait_answer_example : false ≡ session at_most_ten (start 2) true events
wait_answer_example = wait_answer at_most_ten 2 events (locks 1) false (omega arith) answers_false

wait_answer_done_example :
    (length (step at_most_ten (run at_most_ten (start 2) events) (locks 1)).0.shared.queue ≡ 0)
    × (total in_flight (step at_most_ten (run at_most_ten (start 2) events) (locks 1)).0.threads
        ≡ 0)
wait_answer_done_example =
    wait_answer_done at_most_ten 2 events (locks 1) false (omega arith) answers_false

run-Inv_example :
    Inv at_most_ten (session at_most_ten (start 2) true events) 0 (run at_most_ten (start 2) events)
run-Inv_example = run-Inv at_most_ten 2 events (omega arith)

abbrev loaded : Queue ℕ
loaded = record {
  queue = 5 ∷ 20 ∷ 3 ∷ [];
  n_idle = 0;
  n_total = 1;
  f_all_ok = true;
  n_todo = 3;
  f_quit = false;
  n_batch_size = 128;
}

look-take_example :
    (n : ℕ) × (1 ≤ n)
    × (n ≤ max 1 128)
    × (n ≤ 3)
    × (look loaded true ≡ (
      record loaded { queue = drop n loaded.queue },
      working true n (take n loaded.queue) true,
    ))
look-take_example = look-take loaded true refl

-- The worker works on the only check, and the master sleeps.
abbrev asleep_events : List (Event ℕ)
asleep_events = joins false ∷ adds (3 ∷ []) ∷ locks 0 ∷ joins true ∷ locks 1 ∷ []

master_sleeps :
    get_elem? (run at_most_ten (start 2) asleep_events).threads 1 ≡ some (waiting true false)
unfolding step run new_queue lock_section add lock_thread notify_added informs_master
master_sleeps = refl

one_wait : OneWait at_most_ten (start 2) asleep_events
unfolding step run new_queue lock_section add lock_thread notify_added informs_master
one_wait = (tt, (tt, (tt, (refl, (tt, tt)))))

sleeping_wait_example :
    (j : ℕ) × (t : Pc ℕ) × (get_elem? (run at_most_ten (start 2) asleep_events).threads j ≡ some t)
    × (1 ≤ in_flight t)
sleeping_wait_example =
    sleeping_wait at_most_ten 2 asleep_events 1 (omega arith) one_wait master_sleeps

-- The worker finishes the check and notifies the master, which returns; the worker sleeps.
abbrev last_turns : List (Event ℕ)
last_turns = executes 0 ∷ locks 0 ∷ wakes 1 ∷ []

turns_ready : AllReady at_most_ten (run at_most_ten (start 2) asleep_events) last_turns
unfolding step run new_queue lock_section wake_section add lock_thread wake_thread execute_thread
    notify_added informs_master run_checks
turns_ready = (refl, (refl, (refl, tt)))

master_returns :
    total in_wait (run at_most_ten (run at_most_ten (start 2) asleep_events) last_turns).threads ≡ 0
unfolding step run new_queue lock_section wake_section add lock_thread wake_thread execute_thread
    notify_added informs_master run_checks
master_returns = refl

wait_returns_example :
    (length last_turns
      ≤ 3
        * (length (run at_most_ten (start 2) asleep_events).shared.queue
            + length (run at_most_ten (start 2) asleep_events).threads))
    × ((total in_wait (run at_most_ten (run at_most_ten (start 2) asleep_events) last_turns).threads
          ≡ 0)
        ⊎ ((e : Event ℕ) × (ready
                (run at_most_ten (run at_most_ten (start 2) asleep_events) last_turns)
                e
              ≡ true)))
wait_returns_example =
    wait_returns at_most_ten 2 asleep_events last_turns (omega arith) one_wait turns_ready
