-- ===== src/QueueControl/Answers.antt =====
-- boostthreadcontrol/checkqueue.h: with controls, what the `Wait` of a control answers.
use learn_framework.Common.{
  ℕ, ◌+◌, ◌^◌, ◌≤◌, ◌<◌, ◌≡◌, refl, ap, sym, subst, ◌∙◌, Bool, true, false, ◌&&◌, Option, none,
  some, List, [], ◌∷◌, ◌++◌, arith, total-append,
}
use learn_framework.CheckQueue.System
use learn_framework.CheckQueue.System.{System, Event, adds, joins}
use learn_framework.CheckQueue.Account.{Inv}
use learn_framework.CheckQueue.Preserve.{renewed}
use learn_framework.CheckQueue.Verdict.{
  added, total_added, passes, all_pass, step-Keeps, start-Inv, and_true,
}
use learn_framework.CheckQueue.Waiting.{answer_in_wait}
use learn_framework.QueueControl.Masters.{
  Holder, Scene, Action, constructs, destroys, uses, starts_worker, locks, wakes, executes,
  may_call, come_back, turn, step, run, start,
}
use learn_framework.QueueControl.Calls.{
  Does, keeps, takes, adds_more, begins, leaves, works, act-Does,
}
use learn_framework.QueueControl.Alone.{
  made, events, Watched, run-Watched, start-Watched, come_back-none, busy,
}

module _ {A : Type 0} where
  -- The checks that events add.
  unfoldable pub checks_in : List (Event A) → List A
  checks_in [] = []
  checks_in (adds v ∷ es) = v ++ checks_in es
  checks_in (e ∷ es) = checks_in es

  -- The checks of the control that has the mutex, behind these events of the queue: none, if no
  -- control has it, or if its `Wait` has just answered.
  abbrev pub behind : Option (Holder A) → Option Bool → List (Event A) → List A → List A
  behind none answer es own = []
  behind (some h) (some r) es own = []
  behind (some h) none es own = checks_in es ++ own

  module _ (check : A → Bool) where
    -- The checks that the control which has the mutex has added since its `Wait` last answered.
    unfoldable pub own_checks : Scene A → List A → List (Action A) → List A
    own_checks s own [] = own
    own_checks s own (a ∷ more) =
        let r = step check s a in own_checks r.0 (behind r.0.holder r.1 (made check s a) own) more

    -- A control that has waited and is destroyed has added no checks behind its last `Wait`.
    abbrev pub LeavesNone : Option (Holder A) → List A → Action A → Type 0
    LeavesNone (some h) own (destroys m) = may_call h m ≡ true → h.control.f_done ≡ true → own ≡ []
    LeavesNone _ own _ = Unit

    unfoldable pub AllLeaveNone : Scene A → List A → List (Action A) → Type 0
    AllLeaveNone s own [] = Unit
    AllLeaveNone s own (a ∷ more) =
        let r = step check s a in
        LeavesNone s.holder own a
        × AllLeaveNone r.0 (behind r.0.holder r.1 (made check s a) own) more

    -- The queue's verdict is that of the control's own checks.
    pub record Told (spare : ℕ) (q : System A) (o : Option (Holder A)) (own : List A) : Type 0 where
      pub verdict : Inv check (all_pass check own) spare q
      pub unowned : o ≡ none → own ≡ []

    all_pass-append :
        (v own : List A) → all_pass check (v ++ own) ≡ (all_pass check own && all_pass check v)
    unfolding all_pass
    all_pass-append [] own = ground arith
    all_pass-append (c ∷ v) own = ground (arith, all_pass-append v own)

    append_nil : (v : List A) → v ++ [] ≡ v
    append_nil [] = refl
    append_nil (c ∷ v) = ap (◌∷◌ c) (append_nil v)

    one_event :
        (b : Bool) (spare : ℕ) (q : System A) (e : Event A)
        → (System.step check q e).1 ≡ none
        → Inv check b (total_added (e ∷ []) + spare) q
        → Inv check (b && passes check e) spare (System.run check q (e ∷ []))
    unfolding System.run
    one_event b spare q e n v =
        let s : total_added (e ∷ []) + spare ≡ added e + spare = omega arith in
        let (k, _) = step-Keeps check b spare q e (rw s at v) in rw n at k

    unchanged :
        (spare : ℕ) (q : System A) (o : Option (Holder A)) (es : List (Event A)) (own : List A)
        → checks_in es ≡ []
        → Told spare q o own
        → Told spare q o (behind o none es own)
    unchanged spare q none es own n t = record {
      verdict = subst (λ x. Inv check (all_pass check x) spare q) (t.unowned refl) t.verdict;
      unowned = λ e. refl;
    }
    unchanged spare q (some h) es own n t = rw n (record { verdict = t.verdict; unowned = λ e. cc })

    spared :
        (n spare : ℕ) (q : System A) (o : Option (Holder A)) (own : List A)
        → n ≡ 0
        → Told (n + spare) q o own
        → Told spare q o own
    spared n spare q o own z t =
        let same : n + spare ≡ spare = omega (arith, z) in subst (λ k. Told k q o own) same t

    -- A thread begins `Thread()` or `Wait()`.
    joined_one :
        (spare : ℕ) (q : System A) (m : Bool) (own : List A)
        → Inv check (all_pass check own) (total_added {A = A} (joins m ∷ []) + spare) q
        → Inv check (all_pass check own) spare (System.run check q (joins m ∷ []))
    joined_one spare q m own v =
        subst (λ b. Inv check b spare (System.run check q (joins m ∷ [])))
          (and_true check (all_pass check own))
          (one_event (all_pass check own) spare q (joins m) (unfold System.step in refl) v)

    act-Told :
        {o : Option (Holder A)} {a : Action A} {r : Option (Holder A) × List (Event A)}
        → Does o a r
        → (spare : ℕ) (q : System A) (own : List A) → LeavesNone o own a
        → Told (total_added r.1 + spare) q o own
        → Told spare (System.run check q r.1) r.0 (behind r.0 none r.1 own)
    unfolding System.run checks_in
    act-Told (keeps {o = o}) spare q own l t =
        unchanged spare q o [] own refl (spared 0 spare q o own refl t)
    act-Told (takes {h = h} e) spare q own l t = unchanged spare q (some h) [] own refl (
        spared 0 spare q (some h) own refl
          (record { verdict = t.verdict; unowned = λ x. t.unowned refl }))
    act-Told (adds_more {h = h} {h' = h'} {v = v} e e') spare q own l t = record {
      verdict =
          subst (λ b. Inv check b spare (System.run check q (adds v ∷ [])))
            (sym (ap (λ x. all_pass check (x ++ own)) (append_nil v) ∙ all_pass-append v own))
            (one_event (all_pass check own) spare q (adds v) (unfold System.step in refl)
              t.verdict);
      unowned = λ e. cc;
    }
    act-Told (begins {h' = h'} e e' k) spare q own l t = record {
      verdict = joined_one spare q true own t.verdict;
      unowned = λ e. cc;
    }
    act-Told (leaves {h = h} {m = m} e d) spare q own l t =
        unchanged spare q none [] own refl
          (spared 0 spare q none own refl (record { verdict = t.verdict; unowned = λ x. l e d }))
    act-Told (works {o = none}) spare q own l t =
        let v = joined_one spare q false own t.verdict in
        record {
          verdict =
              subst
                (λ x. Inv check (all_pass check x) spare (System.run check q (joins false ∷ [])))
                (t.unowned refl) v;
          unowned = λ e. refl;
        }
    act-Told (works {o = some h}) spare q own l t = record {
      verdict = joined_one spare q false own t.verdict;
      unowned = λ e. cc;
    }

    -- A control whose `Wait` has answered, or none, has no checks.
    answered :
        (spare : ℕ) (q : System A) (o : Option (Holder A)) (r : Bool) (es : List (Event A))
        (own : List A)
        → Inv check true spare q
        → Told spare q o (behind o (some r) es own)
    unfolding all_pass
    answered spare q none r es own v = record { verdict = v; unowned = λ e. refl }
    answered spare q (some h) r es own v = record { verdict = v; unowned = λ e. refl }

    settled :
        (spare : ℕ) (q : System A) (o : Option (Holder A)) (answer : Option Bool)
        (es : List (Event A)) (own : List A)
        → checks_in es ≡ []
        → Inv check (renewed check (all_pass check own) answer) spare q
        → (o ≡ none → own ≡ [])
        → Told spare q (come_back o answer) (behind (come_back o answer) answer es own)
    settled spare q o (some r) es own n v k = answered spare q (come_back o (some r)) r es own v
    settled spare q o none es own n v k =
        rw (come_back-none check o)
          (unchanged spare q o es own n (record { verdict = v; unowned = k }))

    -- What a turn in the loop leaves, and what a `Wait` answers that returns by it.
    turn-Told :
        (spare : ℕ) (s : Scene A) (own : List A) (e : Event A)
        → added e ≡ 0
        → passes check e ≡ true
        → checks_in (e ∷ []) ≡ []
        → Told (total_added (e ∷ []) + spare) s.queue s.holder own
        → Told spare
            (turn check s e).0.queue
            (turn check s e).0.holder
            (behind (turn check s e).0.holder (turn check s e).1 (e ∷ []) own)
          × ((r : Bool) → (turn check s e).1 ≡ some r → r ≡ all_pass check own)
    unfolding turn
    turn-Told spare s own e z p n t =
        let b = all_pass check own in
        let same : total_added (e ∷ []) + spare ≡ added e + spare = omega arith in
        let (v, told) =
          step-Keeps check b spare s.queue e (subst (λ k. Inv check b k s.queue) same t.verdict) in
        let w = rw (p, and_true check b) at v in
        (
          settled spare (System.step check s.queue e).0 s.holder (System.step check s.queue e).1
              (e ∷ []) own n w t.unowned,
          told,
        )

    -- What a step leaves, and what it answers.
    abbrev After : ℕ → Scene A → List A → Action A → Type 0
    After spare s own a =
        let r = step check s a in
        Told spare r.0.queue r.0.holder (behind r.0.holder r.1 (made check s a) own)
        × ((v : Bool) → r.1 ≡ some v → v ≡ all_pass check own)

    step-Told :
        (spare : ℕ) (s : Scene A) (own : List A) (a : Action A)
        → LeavesNone s.holder own a
        → Told (total_added (made check s a) + spare) s.queue s.holder own
        → After spare s own a
    unfolding step checks_in
    step-Told spare s own (locks i) l t = turn-Told spare s own (System.locks i) refl refl refl t
    step-Told spare s own (wakes i) l t = turn-Told spare s own (System.wakes i) refl refl refl t
    step-Told spare s own (executes i) l t =
        turn-Told spare s own (System.executes i) refl refl refl t
    step-Told spare s own (constructs m) l t =
        (act-Told (act-Does s.holder (constructs m)) spare s.queue own l t, λ r e. cc)
    step-Told spare s own (destroys m) l t =
        (act-Told (act-Does s.holder (destroys m)) spare s.queue own l t, λ r e. cc)
    step-Told spare s own (uses m u) l t =
        (act-Told (act-Does s.holder (uses m u)) spare s.queue own l t, λ r e. cc)
    step-Told spare s own starts_worker l t =
        (act-Told (act-Does s.holder starts_worker) spare s.queue own l t, λ r e. cc)

    run-Told :
        (spare : ℕ) (s : Scene A) (own : List A) (more : List (Action A))
        → AllLeaveNone s own more
        → Told (total_added (events check s more) + spare) s.queue s.holder own
        → Told spare (run check s more).queue (run check s more).holder (own_checks s own more)
    unfolding run events AllLeaveNone own_checks
    run-Told spare s own [] l t = spared 0 spare s.queue s.holder own refl t
    run-Told spare s own (a ∷ more) l t =
        let rest = total_added (events check (step check s a).0 more) in
        let same : total_added (made check s a ++ events check (step check s a).0 more) + spare
            ≡ total_added (made check s a) + (rest + spare) =
          omega
            (arith, total-append added (made check s a) (events check (step check s a).0 more)) in
        run-Told spare (step check s a).0
          (behind (step check s a).0.holder (step check s a).1 (made check s a) own) more l.1
          (step-Told (rest + spare) s own a l.0 (subst (λ k. Told k s.queue s.holder own) same t)).0

    busy_holder :
        (o : Option (Holder A)) → 1 ≤ busy o → (h : Holder A) × (o ≡ some h) × (h.in_wait ≡ true)
    busy_holder none b = absurd (omega arith)
    busy_holder (some h) b = (h, refl, ground arith)

    waiting_holder :
        (s : Scene A) (a : Action A) (r : Bool)
        → Watched check s.queue s.holder
        → (step check s a).1 ≡ some r
        → (h : Holder A) × (s.holder ≡ some h) × (h.in_wait ≡ true)
    unfolding step turn
    waiting_holder s (locks i) r w answers =
        busy_holder s.holder
          (omega (arith, w.alone, answer_in_wait check s.queue (System.locks i) r answers))
    waiting_holder s (wakes i) r w answers =
        busy_holder s.holder
          (omega (arith, w.alone, answer_in_wait check s.queue (System.wakes i) r answers))
    waiting_holder s (executes i) r w answers =
        busy_holder s.holder
          (omega (arith, w.alone, answer_in_wait check s.queue (System.executes i) r answers))
    waiting_holder s (constructs m) r w answers = absurd (ground arith)
    waiting_holder s (destroys m) r w answers = absurd (ground arith)
    waiting_holder s (uses m u) r w answers = absurd (ground arith)
    waiting_holder s starts_worker r w answers = absurd (ground arith)

    -- Only a turn in the loop lets `Wait` return.
    answering_turn :
        (s : Scene A) (o : Option (Holder A)) (own : List A) (a : Action A) (r : Bool)
        → (step check s a).1 ≡ some r
        → LeavesNone o own a × (total_added (made check s a) ≡ 0)
    unfolding step
    answering_turn s none own (locks i) r answers = (tt, refl)
    answering_turn s (some h) own (locks i) r answers = (tt, refl)
    answering_turn s none own (wakes i) r answers = (tt, refl)
    answering_turn s (some h) own (wakes i) r answers = (tt, refl)
    answering_turn s none own (executes i) r answers = (tt, refl)
    answering_turn s (some h) own (executes i) r answers = (tt, refl)
    answering_turn s o own (constructs m) r answers = absurd (ground arith)
    answering_turn s o own (destroys m) r answers = absurd (ground arith)
    answering_turn s o own (uses m u) r answers = absurd (ground arith)
    answering_turn s o own starts_worker r answers = absurd (ground arith)

    start-Told : (n spare : ℕ) → spare < 2 ^ 32 → Told spare (start n).queue none []
    unfolding all_pass
    start-Told n spare h = record { verdict = start-Inv check n spare h; unowned = λ e. refl }

    -- Any number of threads share a queue through controls, in any order. When the queue's `Wait`
    -- returns, the thread that has `ControlMutex` called it, by its control or its control's
    -- destructor, and the answer is whether the checks hold that this control has added since its
    -- `Wait` last answered: no check of another control counts. Before, no control that had waited was
    -- destroyed with checks added behind its last `Wait`, and fewer than 2^32 checks are added in all.
    pub own_answer :
        (n : ℕ) (acts : List (Action A)) (a : Action A) (r : Bool)
        → total_added (events check (start n) acts) < 2 ^ 32
        → AllLeaveNone (start n) [] acts
        → (step check (run check (start n) acts) a).1 ≡ some r
        → (r ≡ all_pass check (own_checks (start n) [] acts))
          × ((h : Holder A) × ((run check (start n) acts).holder ≡ some h) × (h.in_wait ≡ true))
    own_answer n acts a r few clean answers =
        let s = run check (start n) acts in
        let own = own_checks (start n) [] acts in
        let (l, none_added) = answering_turn s s.holder own a r answers in
        let adding = total_added (made check s a) in
        let start_told =
          start-Told n (total_added (events check (start n) acts) + (adding + 0))
            (omega (arith, few, none_added)) in
        let told = run-Told (adding + 0) (start n) [] acts clean start_told in
        let w = (run-Watched check (start n) acts (start-Watched check n)).0 in
        ((step-Told 0 s own a l told).1 r answers, waiting_holder s a r w answers)
