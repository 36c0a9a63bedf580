-- ===== src/QueueControl/Alone.antt =====
-- boostthreadcontrol/checkqueue.h: with controls, at most one `Wait` of the queue runs at a time.
use learn_framework.Common.{
  ℕ, ◌+◌, ◌*◌, ◌^◌, ◌≤◌, ◌<◌, ◌≡◌, refl, ap, sym, subst, ◌∙◌, ◌⊎◌, Bool, true, false, Option, none,
  some, List, [], ◌∷◌, ◌++◌, arith, inl, inr, Bool-cases, Option-cases, if◌then◌else◌, length,
  total,
}
use learn_framework.CheckQueue.System
use learn_framework.CheckQueue.System.{System, Event, adds, joins}
use learn_framework.CheckQueue.Asleep.{in_wait}
use learn_framework.CheckQueue.Rank.{AllReady, ready}
use learn_framework.CheckQueue.Verdict.{total_added}
use learn_framework.CheckQueue.Finish.{wait_returns}
use learn_framework.CheckQueue.Waiting.{wait_role, got_answer, wait-weight}
use learn_framework.CheckQueue.Wakeups.{Admits, OneWait}
use learn_framework.CheckQueue.Weights.{joined}
use learn_framework.QueueControl.{QueueCall, leaves_control}
use learn_framework.QueueControl.Masters.{
  Holder, Scene, Action, constructs, destroys, uses, starts_worker, locks, wakes, executes, perform,
  act, come_back, turn, step, run, start,
}
use learn_framework.QueueControl.Calls.{
  Does, keeps, takes, adds_more, begins, leaves, works, act-Does, rest_ok, may_call-awake,
}

module _ {A : Type 0} where
  -- Whether the thread that has the mutex is in `Wait`.
  abbrev pub busy : Option (Holder A) → ℕ
  busy none = 0
  busy (some h) = if h.in_wait then 1 else 0

  -- Behind its `Wait` a control leaves the mutex or makes no call.
  abbrev pub Rests : Option (Holder A) → Type 0
  Rests none = Unit
  Rests (some h) = h.in_wait ≡ true → rest_ok h.pending ≡ true

  module _ (check : A → Bool) where
    -- The events that the queue meets by an action.
    abbrev pub made : Scene A → Action A → List (Event A)
    made s (locks i) = System.locks i ∷ []
    made s (wakes i) = System.wakes i ∷ []
    made s (executes i) = System.executes i ∷ []
    made s a = (act s.holder a).1

    unfoldable pub events : Scene A → List (Action A) → List (Event A)
    events s [] = []
    events s (a ∷ more) = made s a ++ events (step check s a).0 more

    -- What the queue's threads in `Wait` and the holder say of each other.
    pub record Watched (q : System A) (o : Option (Holder A)) : Type 0 where
      pub alone : total in_wait q.threads ≤ busy o
      pub rests : Rests o

    one_event :
        (q : System A) (e : Event A)
        → Admits check q e
        → OneWait check q (e ∷ [])
          × (total in_wait (System.run check q (e ∷ [])).threads
              ≤ total in_wait q.threads + joined wait_role e)
    unfolding System.run
    one_event q e a = ((a, tt), omega (arith, wait-weight check q e))

    act-Watched :
        {o : Option (Holder A)} {a : Action A} {r : Option (Holder A) × List (Event A)}
        → Does o a r
        → (q : System A) → Watched q o
        → Watched (System.run check q r.1) r.0 × OneWait check q r.1
    unfolding System.run
    act-Watched keeps q w = (w, tt)
    act-Watched (takes {h = h} e) q w =
        (record { alone = omega (arith, w.alone); rests = λ b. absurd (ground arith) }, tt)
    act-Watched (adds_more {h = h} {h' = h'} {v = v} e e') q w =
        let (one, few) = one_event q (adds v) tt in
        (record { alone = ground (arith, few, w.alone); rests = λ b. absurd (ground arith) }, one)
    act-Watched (begins {h = h} {h' = h'} e e' ok_rest) q w =
        let (one, few) = one_event q (joins true) (ground (arith, w.alone)) in
        (record { alone = ground (arith, few, w.alone); rests = λ b. ok_rest }, one)
    act-Watched (leaves {h = h} {m = m} e d) q w =
        (record { alone = ground (arith, w.alone, may_call-awake h m e); rests = tt }, tt)
    act-Watched works q w =
        let (one, few) = one_event q (joins false) tt in
        (record { alone = omega (arith, few, w.alone); rests = w.rests }, one)

    -- Behind an answer its caller is out of `Wait`.
    come_back-Watched :
        (q : System A) (o : Option (Holder A)) (r : Bool)
        → total in_wait q.threads + 1 ≤ busy o
        → Rests o
        → Watched q (come_back o (some r))
    unfolding come_back perform
    come_back-Watched q none r few rests = absurd (omega (arith, few))
    come_back-Watched q (some h) r few rests = elim (Bool-cases h.in_wait) [
      | inr n ↦ absurd (ground (arith, few))
      | inl b ↦ rw b (behind h.pending (rests b))
    ]
      where
        none_left : total in_wait q.threads ≡ 0
        none_left = ground (arith, few)

        behind :
            (cs : List (QueueCall A))
            → rest_ok cs ≡ true
            → Watched q (perform (record h { in_wait = false; pending = [] }) cs).0
        behind [] k = record {
          alone = omega (arith, none_left);
          rests = λ b. absurd (ground arith);
        }
        behind (leaves_control ∷ []) k = record { alone = omega (arith, none_left); rests = tt }
        behind _ k = absurd (ground arith)

    pub come_back-none : (o : Option (Holder A)) → come_back o none ≡ o
    unfolding come_back
    come_back-none none = refl
    come_back-none (some h) = refl

    turn-Watched :
        (s : Scene A) (e : Event A)
        → joined {A = A} wait_role e ≡ 0
        → Watched s.queue s.holder
        → Watched (turn check s e).0.queue (turn check s e).0.holder
    unfolding turn
    turn-Watched s e z w = elim (Option-cases (System.step check s.queue e).1) [
      | inl n ↦
          rw (n, come_back-none s.holder)
            (record {
              alone = omega (arith, wait-weight check s.queue e, w.alone, z);
              rests = w.rests;
            })
      | inr (r, some_r) ↦
          let one : got_answer (System.step check s.queue e).1 ≡ 1 = rw some_r refl in
          rw some_r (
            come_back-Watched (System.step check s.queue e).0 s.holder r
              (omega (arith, wait-weight check s.queue e, w.alone, z, one)) w.rests)
    ]

    one_turn :
        (s : Scene A) (e : Event A)
        → joined {A = A} wait_role e ≡ 0
        → Admits check s.queue e
        → Watched s.queue s.holder
        → Watched (turn check s e).0.queue (turn check s e).0.holder
          × OneWait check s.queue (e ∷ [])
          × ((turn check s e).0.queue ≡ System.run check s.queue (e ∷ []))
    unfolding turn System.run
    one_turn s e z a w = (turn-Watched s e z w, (a, tt), refl)

    pub step-Watched :
        (s : Scene A) (a : Action A)
        → Watched s.queue s.holder
        → Watched (step check s a).0.queue (step check s a).0.holder
          × OneWait check s.queue (made s a)
          × ((step check s a).0.queue ≡ System.run check s.queue (made s a))
    unfolding step
    step-Watched s (locks i) w = one_turn s (System.locks i) refl tt w
    step-Watched s (wakes i) w = one_turn s (System.wakes i) refl tt w
    step-Watched s (executes i) w = one_turn s (System.executes i) refl tt w
    step-Watched s (constructs m) w =
        let (v, one) = act-Watched (act-Does s.holder (constructs m)) s.queue w in (v, one, refl)
    step-Watched s (destroys m) w =
        let (v, one) = act-Watched (act-Does s.holder (destroys m)) s.queue w in (v, one, refl)
    step-Watched s (uses m u) w =
        let (v, one) = act-Watched (act-Does s.holder (uses m u)) s.queue w in (v, one, refl)
    step-Watched s starts_worker w =
        let (v, one) = act-Watched (act-Does s.holder starts_worker) s.queue w in (v, one, refl)

    run-append :
        (q : System A) (es fs : List (Event A))
        → System.run check q (es ++ fs) ≡ System.run check (System.run check q es) fs
    unfolding System.run
    run-append q [] fs = refl
    run-append q (e ∷ es) fs = run-append (System.step check q e).0 es fs

    OneWait-append :
        (q : System A) (es fs : List (Event A))
        → OneWait check q es
        → OneWait check (System.run check q es) fs
        → OneWait check q (es ++ fs)
    unfolding System.run
    OneWait-append q [] fs h k = k
    OneWait-append q (e ∷ es) fs h k = (h.0, OneWait-append (System.step check q e).0 es fs h.1 k)

    pub run-Watched :
        (s : Scene A) (more : List (Action A))
        → Watched s.queue s.holder
        → Watched (run check s more).queue (run check s more).holder
          × OneWait check s.queue (events s more)
          × ((run check s more).queue ≡ System.run check s.queue (events s more))
    unfolding run events System.run
    run-Watched s [] w = (w, tt, refl)
    run-Watched s (a ∷ more) w =
        let (w', one, same) = step-Watched s a w in
        let (end, ones, sames) = run-Watched (step check s a).0 more w' in
        (
          end,
          OneWait-append s.queue (made s a) (events (step check s a).0 more) one
              (subst (λ q. OneWait check q (events (step check s a).0 more)) same ones),
          sames
              ∙ ap (λ q. System.run check q (events (step check s a).0 more)) same
              ∙ sym (run-append s.queue (made s a) (events (step check s a).0 more)),
        )

    pub start-Watched : (n : ℕ) → Watched (start {A = A} n).queue (start {A = A} n).holder
    start-Watched n = record { alone = omega arith; rests = tt }

    -- Whatever the threads with controls do, let then the threads in the loop take their turns in any
    -- order, each only where it can go on and none waking without a notification. They take at most
    -- three turns for each queued check and each thread, and at every moment no `Wait` runs any more
    -- or some thread can go on, as long as fewer than 2^32 checks are added in all.
    pub controlled_returns :
        (n : ℕ) (acts : List (Action A)) (calm : List (Event A))
        → total_added (events (start n) acts) < 2 ^ 32
        → AllReady check (run check (start n) acts).queue calm
        → let q = (run check (start n) acts).queue in
          (length calm ≤ 3 * (length q.shared.queue + length q.threads))
          × ((total in_wait (System.run check q calm).threads ≡ 0)
              ⊎ ((e : Event A) × (ready (System.run check q calm) e ≡ true)))
    controlled_returns n acts calm few turns =
        let (_, one, same) = run-Watched (start n) acts (start-Watched n) in
        subst
          (λ q.
            AllReady check q calm
            → (length calm ≤ 3 * (length q.shared.queue + length q.threads))
              × ((total in_wait (System.run check q calm).threads ≡ 0)
                  ⊎ ((e : Event A) × (ready (System.run check q calm) e ≡ true))))
          (sym same) (wait_returns check n (events (start n) acts) calm few one) turns
