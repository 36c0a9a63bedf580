-- ===== src/QueueControl/Calls.antt =====
-- boostthreadcontrol/checkqueue.h: what an action of a thread with a control does, by cases.
use learn_framework.Common.{
  ℕ, ◌≡◌, refl, Bool, true, false, Option, none, some, List, [], ◌∷◌, arith, inl, inr, Bool-cases,
}
use learn_framework.CheckQueue.System.{Event, joins}
use learn_framework.CheckQueue.System
use learn_framework.QueueControl.{
  QueueCall, leaves_control, Use, wait, add, construct, use_control, destroy,
}
use learn_framework.QueueControl.Masters.{
  Holder, Action, constructs, destroys, uses, starts_worker, locks, wakes, executes, perform,
  may_call, act,
}

module _ {A : Type 0} where
  -- The calls that may come behind the queue's `Wait`.
  abbrev pub rest_ok : List (QueueCall A) → Bool
  rest_ok [] = true
  rest_ok (leaves_control ∷ []) = true
  rest_ok _ = false

  -- It changes nothing; takes the mutex; adds checks; begins a `Wait`; leaves the mutex behind a
  -- `Wait`; or starts a worker.
  pub data Does : Option (Holder A) → Action A → Option (Holder A) × List (Event A) → Type 0 where
    keeps : {o : Option (Holder A)} {a : Action A} → Does o a (o, [])
    takes : {m : ℕ} {h : Holder A} → h.in_wait ≡ false → Does none (constructs m) (some h, [])
    adds_more :
        {h h' : Holder A} {a : Action A} {v : List A}
        → h.in_wait ≡ false
        → h'.in_wait ≡ false
        → Does (some h) a (some h', System.adds v ∷ [])
    begins :
        {h h' : Holder A} {a : Action A}
        → h.in_wait ≡ false
        → h'.in_wait ≡ true
        → rest_ok h'.pending ≡ true
        → Does (some h) a (some h', joins true ∷ [])
    leaves :
        {h : Holder A} {m : ℕ}
        → may_call h m ≡ true
        → h.control.f_done ≡ true
        → Does (some h) (destroys m) (none, [])
    works : {o : Option (Holder A)} → Does o starts_worker (o, joins false ∷ [])

  pub may_call-awake : (h : Holder A) (m : ℕ) → may_call h m ≡ true → h.in_wait ≡ false
  may_call-awake h m e = ground arith

  uses-Does :
      (h : Holder A) (m : ℕ) (u : Use A)
      → h.in_wait ≡ false
      → Does
          (some h)
          (uses m u)
          (perform (record h { control = (use_control h.control u).0 }) (use_control h.control u).1)
  unfolding use_control perform
  uses-Does h m (wait r) e = elim (Bool-cases h.control.has_queue) [
    | inl q ↦ rw q (begins e refl refl)
    | inr n ↦ rw n keeps
  ]
  uses-Does h m (add v) e = elim (Bool-cases h.control.has_queue) [
    | inl q ↦ rw q (adds_more e e)
    | inr n ↦ rw n keeps
  ]

  destroys-Does :
      (h : Holder A) (m : ℕ)
      → may_call h m ≡ true
      → Does (some h) (destroys m) (perform h (destroy h.control))
  unfolding destroy perform
  destroys-Does h m e = elim (Bool-cases h.control.has_queue) [
    | inl q ↦ elim (Bool-cases h.control.f_done) [
      | inl d ↦ simp (q, d) (leaves e d)
      | inr n ↦ rw (q, n) (begins (may_call-awake h m e) refl refl)
    ]
    | inr q ↦ elim (Bool-cases h.control.f_done) [
      | inl d ↦ rw (q, d) keeps
      | inr n ↦ rw (q, n) keeps
    ]
  ]

  pub act-Does : (o : Option (Holder A)) (a : Action A) → Does o a (act o a)
  unfolding act construct perform
  act-Does none (constructs m) = takes refl
  act-Does none (destroys m) = keeps
  act-Does none (uses m u) = keeps
  act-Does (some h) (constructs m) = keeps
  act-Does (some h) (destroys m) = elim (Bool-cases (may_call h m)) [
    | inl e ↦ rw e (destroys-Does h m e)
    | inr n ↦ rw n keeps
  ]
  act-Does (some h) (uses m u) = elim (Bool-cases (may_call h m)) [
    | inl e ↦ rw e (uses-Does h m u (may_call-awake h m e))
    | inr n ↦ rw n keeps
  ]
  act-Does none starts_worker = works
  act-Does (some h) starts_worker = works
  act-Does none (locks i) = keeps
  act-Does none (wakes i) = keeps
  act-Does none (executes i) = keeps
  act-Does (some h) (locks i) = keeps
  act-Does (some h) (wakes i) = keeps
  act-Does (some h) (executes i) = keeps
