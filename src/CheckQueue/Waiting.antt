-- ===== src/CheckQueue/Waiting.antt =====
-- boostthreadcontrol/checkqueue.h: the calls of `Wait` and the threads, counted over a run.
use learn_framework.Common.{
  ℕ, ◌+◌, ◌-◌, ◌^◌, ◌≤◌, ◌<◌, ◌≡◌, refl, Bool, true, false, Option, none, some, List, [], ◌∷◌,
  arith, if◌then◌else◌, length, total,
}
use learn_framework.CheckQueue.{Pc}
use learn_framework.CheckQueue.System.{
  System, Event, adds, joins, locks, wakes, executes, start, step, run,
}
use learn_framework.CheckQueue.Asleep.{in_wait}
use learn_framework.CheckQueue.Verdict.{added, total_added, run_from-Inv, start-Inv}
use learn_framework.CheckQueue.Wakeups.{Admits, OneWait}
use learn_framework.CheckQueue.Weights.{Fading, joined, step-weight, run-weight}

abbrev pub wait_role : Bool → ℕ
wait_role m = if m then 1 else 0

abbrev pub one_role : Bool → ℕ
one_role m = 1

abbrev pub got_answer : Option Bool → ℕ
got_answer none = 0
got_answer (some r) = 1

module _ {A : Type 0} where
  in_wait-Fading : Fading {A = A} in_wait wait_role got_answer
  in_wait-Fading = record {
    locking = λ m n ok. refl;
    sleeping = λ m k. refl;
    busy = λ m n cs ok. refl;
    gone = λ m r. ground arith;
    fault_least = λ m. omega arith;
    no_answer = refl;
  }

  one-Fading : Fading {A = A} (λ t. 1) one_role (λ r. 0)
  one-Fading = record {
    locking = λ m n ok. refl;
    sleeping = λ m k. refl;
    busy = λ m n cs ok. refl;
    gone = λ m r. omega arith;
    fault_least = λ m. omega arith;
    no_answer = refl;
  }

  total-one : (ts : List (Pc A)) → total (λ t. 1) ts ≡ length ts
  total-one [] = refl
  total-one (t ∷ ts) = omega (arith, total-one ts)

  module _ (check : A → Bool) where
    -- Only a new call of `Wait` adds one that runs, and an answer takes one away.
    pub wait-weight :
        (s : System A) (e : Event A)
        → total in_wait (step check s e).0.threads + got_answer (step check s e).1
          ≤ total in_wait s.threads + joined wait_role e
    wait-weight s e = step-weight in_wait wait_role got_answer in_wait-Fading check s e

    -- A `Wait` that answers was running.
    pub answer_in_wait :
        (s : System A) (e : Event A) (r : Bool)
        → (step check s e).1 ≡ some r
        → 1 ≤ total in_wait s.threads
    answer_in_wait s (adds cs) r h = absurd (unfold step in ground arith)
    answer_in_wait s (joins m) r h = absurd (unfold step in ground arith)
    answer_in_wait s (locks i) r h = ground (arith, h, wait-weight s (locks i))
    answer_in_wait s (wakes i) r h = ground (arith, h, wait-weight s (wakes i))
    answer_in_wait s (executes i) r h = ground (arith, h, wait-weight s (executes i))

    -- An event that lets a `Wait` answer adds nothing.
    pub answer-added :
        (s : System A) (e : Event A) (r : Bool) → (step check s e).1 ≡ some r → added e ≡ 0
    answer-added s (adds cs) r h = absurd (unfold step in ground arith)
    answer-added s (joins m) r h = refl
    answer-added s (locks i) r h = refl
    answer-added s (wakes i) r h = refl
    answer-added s (executes i) r h = refl

    -- There are no more threads in `Wait` than calls of it have begun.
    pub waits-run :
        (n : ℕ) (es : List (Event A))
        → total in_wait (run check (start n) es).threads ≤ total (joined wait_role) es
    waits-run n es =
        omega (arith, run-weight in_wait wait_role got_answer in_wait-Fading check (start n) es)

    pub length-threads :
        (n : ℕ) (es : List (Event A))
        → length (run check (start n) es).threads ≤ total (joined one_role) es
    length-threads n es = omega (
      arith,
      run-weight (λ t. 1) one_role (λ r. 0) one-Fading check (start n) es,
      total-one (run check (start n) es).threads,
    )

    -- Where `Wait` is called once, no other runs.
    pub once-OneWait :
        (s : System A) (es : List (Event A))
        → total in_wait s.threads + total (joined wait_role) es ≤ 1
        → OneWait check s es
    once-OneWait s [] h = tt
    once-OneWait s (e ∷ es) h = (
      admits s e (omega arith),
      once-OneWait (step check s e).0 es (omega (arith, wait-weight s e)),
    )
      where
        admits :
            (s : System A) (e : Event A)
            → total in_wait s.threads + joined wait_role e ≤ 1
            → Admits check s e
        admits s (joins true) h = omega arith
        admits s (joins false) h = tt
        admits s (adds cs) h = tt
        admits s (locks i) h = tt
        admits s (wakes i) h = tt
        admits s (executes i) h = tt

    -- No more checks are queued than were added.
    pub length-queue :
        (n : ℕ) (es : List (Event A))
        → total_added es < 2 ^ 32
        → length (run check (start n) es).shared.queue ≤ total_added es
    length-queue n es h =
        let spare = 2 ^ 32 - 1 - total_added es in
        let v =
          run_from-Inv check true spare (start n) es
            (start-Inv check n (total_added es + spare) (omega arith)) in
        omega (arith, v.holds.small)
