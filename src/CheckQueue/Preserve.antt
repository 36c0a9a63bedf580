-- ===== src/CheckQueue/Preserve.antt =====
-- boostthreadcontrol/checkqueue.h: the counters and the result over the critical sections.
use learn_framework.Common.{
  ℕ, ◌+◌, ◌-◌, ◌≤◌, ◌≡◌, refl, Bool, true, false, Option, none, some, List, [], ◌∷◌, arith, ◌==◌,
  inl, inr, Bool-cases, length, length-drop,
}
use learn_framework.CheckQueue.{
  Queue, Pc, at_lock, waiting, working, clean_up, out_of_work, look, lock_section, wake_section,
  run_checks, is_empty,
}
use learn_framework.CheckQueue.System.{answer}
use learn_framework.CheckQueue.Batch.{look-take}
use learn_framework.CheckQueue.Account.{
  in_flight, counted, idle, is_fault, is_idle_batch, is_gone, bad_batch, fails, Holds,
  batch_failures,
}

module _ {A : Type 0} (check : A → Bool) where
  -- The session's verdict behind a step: an answer of `Wait` starts a new session.
  abbrev pub renewed : Bool → Option Bool → Bool
  renewed b none = b
  renewed b (some r) = true

  -- The counters and the result are right where these are the sums over the threads but `t`.
  abbrev pub Stands : Bool → ℕ → Queue A → Pc A → ℕ → ℕ → ℕ → ℕ → Type 0
  Stands b spare q t flight count idlers poor =
      Holds check b spare q (flight + in_flight t) (count + counted t) (idlers + idle t)
        (poor + bad_batch check t)

  -- What a critical section leaves, beside the sums over the other threads.
  pub record Left (b : Bool) (spare flight count idlers poor : ℕ) (r : Queue A × Pc A)
      : Type 0 where
    pub holds : Stands (renewed b (answer r.1)) spare r.0 r.1 flight count idlers poor
    pub sound : is_fault r.1 ≡ 0
    pub busy : is_idle_batch r.1 ≡ 0
    pub stays : is_gone r.1 ≡ 0
    pub answered : (v : Bool) → answer r.1 ≡ some v → v ≡ b

  nothing_left :
      (queue : List A) → is_empty queue ≡ true → (length queue ≡ 0) × (fails check queue ≡ 0)
  nothing_left [] h = (refl, refl)
  nothing_left (a ∷ queue) h = cc

  module _ (b : Bool) (spare flight count idlers poor : ℕ) (le : poor ≤ flight) where
    out_of_work-Left :
        (q : Queue A) (m : Bool)
        → Holds check b spare q flight (count + 1) idlers poor
        → is_empty q.queue ≡ true
        → Left b spare flight count idlers poor (out_of_work q m)
    unfolding out_of_work
    out_of_work-Left q true v e = elim (Bool-cases (q.n_todo == 0)) [
      | inl done ↦ rw done (record {
        holds = ground (arith, nothing_left q.queue e);
        sound = refl;
        busy = refl;
        stays = refl;
        answered = λ r h. ground (arith, nothing_left q.queue e);
      })
      | inr more ↦ rw more (record {
        holds = ground arith;
        sound = refl;
        busy = refl;
        stays = refl;
        answered = λ r h. cc;
      })
    ]
    out_of_work-Left q false v e = rw v.running (record {
      holds = ground arith;
      sound = refl;
      busy = refl;
      stays = refl;
      answered = λ r h. cc;
    })

    look-Left :
        (q : Queue A) (m : Bool)
        → Holds check b spare q flight (count + 1) idlers poor
        → Left b spare flight count idlers poor (look q m)
    unfolding look
    look-Left q m v = elim (Bool-cases (is_empty q.queue)) [
      | inl e ↦ rw e (out_of_work-Left q m v e)
      | inr e ↦
          let (n, lo, hi, fits, eq) = look-take q m e in
          rw eq (record {
            holds =
                ground (arith, batch_failures check q.f_all_ok n q.queue, length-drop n q.queue);
            sound = refl;
            busy = ground arith;
            stays = refl;
            answered = λ r h. cc;
          })
    ]

    clean_up-Holds :
        (q : Queue A) (m : Bool) (n : ℕ) (ok : Bool)
        → Stands b spare q (at_lock m n ok) flight count idlers poor
        → Holds check b spare (clean_up q n ok) flight (count + 1) idlers poor
    unfolding clean_up
    clean_up-Holds q m n ok v = ground arith

    pub lock_section-Left :
        (q : Queue A) (m : Bool) (n : ℕ) (ok : Bool)
        → Stands b spare q (at_lock m n ok) flight count idlers poor
        → Left b spare flight count idlers poor (lock_section q m n ok)
    unfolding lock_section
    lock_section-Left q m n ok v = look-Left (clean_up q n ok) m (clean_up-Holds q m n ok v)

    pub wake_section-Left :
        (q : Queue A) (m k : Bool)
        → Stands b spare q (waiting m k) flight count idlers poor
        → Left b spare flight count idlers poor (wake_section q m)
    unfolding wake_section
    wake_section-Left q m k v = look-Left (record q { n_idle = q.n_idle - 1 }) m (ground arith)

    pub execute-Left :
        (q : Queue A) (m : Bool) (n : ℕ) (cs : List A) (ok : Bool)
        → is_idle_batch (working m n cs ok) ≡ 0
        → Stands b spare q (working m n cs ok) flight count idlers poor
        → Left b spare flight count idlers poor (q, at_lock m n (run_checks check ok cs))
    execute-Left q m n cs ok some_work v = record {
      holds = ground arith;
      sound = refl;
      busy = refl;
      stays = refl;
      answered = λ r h. cc;
    }
