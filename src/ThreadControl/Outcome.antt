-- ===== src/ThreadControl/Outcome.antt =====
-- boostthreadcontrol/main.cpp: what the program's `Wait` answers, over all orders of the threads.
use learn_framework.Common.{
  ℕ, zero, suc, ◌∙◌, ◌+◌, ◌^◌, ◌≤◌, ◌<◌, ◌≡◌, refl, sym, ap, ◌⊎◌, Bool, true, some, List, [], ◌∷◌,
  ◌++◌, arith, length, total,
}
use learn_framework.QueueControl.{construct, finish}
use learn_framework.CheckQueue.System.{
  System, Event, adds, joins, locks, wakes, executes, start, step, run,
}
use learn_framework.CheckQueue.Account.{in_flight}
use learn_framework.CheckQueue.Asleep.{in_wait}
use learn_framework.CheckQueue.Rank.{AllReady, ready}
use learn_framework.CheckQueue.Verdict.{added, total_added, wait_answer}
use learn_framework.CheckQueue.Done.{wait_answer_done, session-true}
use learn_framework.CheckQueue.Finish.{wait_returns}
use learn_framework.CheckQueue.Weights.{joined}
use learn_framework.CheckQueue.Waiting.{
  wait_role, one_role, answer-added, answer_in_wait, waits-run, length-threads, once-OneWait,
  length-queue,
}
use learn_framework.ThreadControl.{
  TaskCheck, task, check, batch_size, main, queue_events, from_main, create_threads,
}

-- The turns of the threads in the loop weigh nothing.
total-from_main :
    (w : Event TaskCheck → ℕ) (es : List (Event TaskCheck))
    → ((i : ℕ) → (w (locks i) ≡ 0) × (w (wakes i) ≡ 0) × (w (executes i) ≡ 0))
    → total w (from_main es) ≡ total w es
unfolding from_main
total-from_main w [] h = refl
total-from_main w (adds v ∷ es) h = omega (arith, total-from_main w es h)
total-from_main w (joins m ∷ es) h = omega (arith, total-from_main w es h)
total-from_main w (locks i ∷ es) h = omega (arith, total-from_main w es h, h i)
total-from_main w (wakes i ∷ es) h = omega (arith, total-from_main w es h, h i)
total-from_main w (executes i ∷ es) h = omega (arith, total-from_main w es h, h i)

added-from_main : (es : List (Event TaskCheck)) → total_added (from_main es) ≡ total_added es
added-from_main es = total-from_main added es (λ i. (refl, refl, refl))

joined-from_main :
    (role : Bool → ℕ) (es : List (Event TaskCheck))
    → total (joined role) (from_main es) ≡ total (joined role) es
joined-from_main role es = total-from_main (joined role) es (λ i. (refl, refl, refl))

-- What the program brings to the queue: 20 checks, and six threads, the last of which is in `Wait`.
main_counts :
    (answer : Bool)
    → (total_added (queue_events (main answer)) ≡ 20)
      × (total (joined wait_role) (queue_events (main answer)) ≡ 1)
      × (total (joined one_role) (queue_events (main answer)) ≡ 6)
unfolding queue_events main construct finish
main_counts answer = (refl, refl, refl)

-- A list that goes on, and holds what stands last in the whole.
last_reached :
    (w : Event TaskCheck → ℕ) (xs rest pre : List (Event TaskCheck)) (e : Event TaskCheck)
    → xs ++ rest ≡ pre ++ (e ∷ [])
    → total w pre ≡ 0
    → 1 ≤ total w xs
    → xs ≡ pre ++ (e ∷ [])
last_reached w [] rest pre e h z one = absurd (omega arith)
last_reached w (x ∷ xs) rest [] e h z one = ground arith
last_reached w (x ∷ xs) rest (p ∷ pre) e h z one =
    let same : x ≡ p = ground (arith, h) in
    let tails : xs ++ rest ≡ pre ++ (e ∷ []) = ground (arith, h) in
    ground
      (arith, same, last_reached w xs rest pre e tails (omega arith) (omega (arith, ap w same)))

work : ℕ → List (Event TaskCheck)
work zero = []
work (suc n) = adds (task ∷ []) ∷ work n

main-ends :
    (answer : Bool)
    → queue_events (main answer) ≡ (queue_events (create_threads 5) ++ work 20) ++ (joins true ∷ [])
unfolding queue_events main construct finish work
main-ends answer = refl

before_wait : total (joined wait_role) (queue_events (create_threads 5) ++ work 20) ≡ 0
unfolding queue_events create_threads work
before_wait = refl

-- Whatever the threads' order, and however far `main` has come: when the program's `Wait` returns,
-- its answer is true, `main` has added all its checks, and none of them is queued or with a thread.
pub main_wait :
    (answer : Bool) (es rest : List (Event TaskCheck)) (e : Event TaskCheck) (r : Bool)
    → from_main es ++ rest ≡ queue_events (main answer)
    → (step check (run check (start batch_size) es) e).1 ≡ some r
    → (r ≡ true)
      × (from_main es ≡ queue_events (main answer))
      × (total_added es ≡ 20)
      × (length (step check (run check (start batch_size) es) e).0.shared.queue ≡ 0)
      × (total in_flight (step check (run check (start batch_size) es) e).0.threads ≡ 0)
main_wait answer es rest e r comes answers =
    let (twenty, one, six) = main_counts answer in
    let s : System TaskCheck = run check (start batch_size) es in
    let begun : 1 ≤ total (joined wait_role) (from_main es) = omega (
      arith,
      answer_in_wait check s e r answers,
      waits-run check batch_size es,
      joined-from_main wait_role es,
    ) in
    let pre : List (Event TaskCheck) = queue_events (create_threads 5) ++ work 20 in
    let all : from_main es ≡ queue_events (main answer) =
      last_reached (joined wait_role) (from_main es) rest pre (joins true)
        (comes ∙ main-ends answer) before_wait begun
      ∙ sym (main-ends answer) in
    let added_all : total_added es ≡ 20 = sym (added-from_main es) ∙ ap total_added all ∙ twenty in
    let few : total_added es + added e < 2 ^ 32 =
      omega (arith, added_all, answer-added check s e r answers) in
    let (no_queue, no_flight) = wait_answer_done check batch_size es e r few answers in
    (
      wait_answer check batch_size es e r few answers
          ∙ session-true check (λ t. unfold check in refl) (start batch_size) es,
      all,
      added_all,
      no_queue,
      no_flight,
    )

-- Once `main` has come to `Wait`, let the threads take their turns in any order, each only where
-- it can go on and none waking without a notification. They take at most 78 turns, and at every
-- moment no thread is in `Wait` any more or some thread can go on.
pub main_returns :
    (answer : Bool) (es calm : List (Event TaskCheck))
    → from_main es ≡ queue_events (main answer)
    → AllReady check (run check (start batch_size) es) calm
    → (length calm ≤ 78)
      × ((total in_wait (run check (run check (start batch_size) es) calm).threads ≡ 0)
          ⊎ ((e : Event TaskCheck) × (ready (run check (run check (start batch_size) es) calm) e
                ≡ true)))
main_returns answer es calm comes turns =
    let (twenty, one, six) = main_counts answer in
    let added_all : total_added es ≡ 20 =
      sym (added-from_main es) ∙ ap total_added comes ∙ twenty in
    let one_wait : total (joined wait_role) es ≡ 1 =
      sym (joined-from_main wait_role es) ∙ ap (total (joined wait_role)) comes ∙ one in
    let threads : total (joined one_role) es ≡ 6 =
      sym (joined-from_main one_role es) ∙ ap (total (joined one_role)) comes ∙ six in
    let (few, goes_on) =
      wait_returns check batch_size es calm (omega (arith, added_all))
        (once-OneWait check (start batch_size) es (omega (arith, one_wait))) turns in
    (
      omega (
        arith,
        few,
        added_all,
        threads,
        length-queue check batch_size es (omega (arith, added_all)),
        length-threads check batch_size es,
      ),
      goes_on,
    )
