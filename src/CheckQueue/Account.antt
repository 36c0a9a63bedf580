-- ===== src/CheckQueue/Account.antt =====
-- boostthreadcontrol/checkqueue.h: what the counters of a `CCheckQueue` count, and the checks that
-- have failed since the last answer of `Wait`.
use learn_framework.Common.{
  ℕ, ◌+◌, ◌^◌, ◌<◌, ◌≡◌, refl, Bool, true, false, List, [], ◌∷◌, arith, ◌==◌, if◌then◌else◌, inl,
  inr, Bool-cases, length, total, total-take-drop, take, drop,
}
use learn_framework.CheckQueue.{Queue, Pc, at_lock, waiting, working, returned, faulted, run_checks}
use learn_framework.CheckQueue.System.{System, notify_one, notify_all, notify_added}

abbrev pub bad : Bool → ℕ
bad true = 0
bad false = 1

module _ {A : Type 0} where
  -- The checks that a thread has taken and not yet cleaned up after.
  abbrev pub in_flight : Pc A → ℕ
  in_flight (at_lock m n ok) = n
  in_flight (working m n cs ok) = n
  in_flight (waiting m k) = 0
  in_flight (returned m r) = 0
  in_flight faulted = 0

  -- A thread that `nTotal` counts.
  abbrev pub counted : Pc A → ℕ
  counted (at_lock m n ok) = if n == 0 then 0 else 1
  counted (working m n cs ok) = 1
  counted (waiting m k) = 1
  counted (returned m r) = 0
  counted faulted = 0

  abbrev pub idle : Pc A → ℕ
  idle (waiting m k) = 1
  idle (at_lock m n ok) = 0
  idle (working m n cs ok) = 0
  idle (returned m r) = 0
  idle faulted = 0

  abbrev pub is_fault : Pc A → ℕ
  is_fault faulted = 1
  is_fault (waiting m k) = 0
  is_fault (at_lock m n ok) = 0
  is_fault (working m n cs ok) = 0
  is_fault (returned m r) = 0

  -- 1 for a worker that has left the loop.
  abbrev pub is_gone : Pc A → ℕ
  is_gone (returned m r) = if m then 0 else 1
  is_gone (waiting m k) = 0
  is_gone (at_lock m n ok) = 0
  is_gone (working m n cs ok) = 0
  is_gone faulted = 0

  -- A batch in work is not empty.
  abbrev pub is_idle_batch : Pc A → ℕ
  is_idle_batch (working m n cs ok) = if n == 0 then 1 else 0
  is_idle_batch faulted = 0
  is_idle_batch (waiting m k) = 0
  is_idle_batch (at_lock m n ok) = 0
  is_idle_batch (returned m r) = 0

  abbrev pub fails : (A → Bool) → List A → ℕ
  fails check = total (λ a. bad (check a))

  -- 1 for a thread whose batch fails.
  abbrev pub bad_batch : (A → Bool) → Pc A → ℕ
  bad_batch check (at_lock m n ok) = if n == 0 then 0 else bad ok
  bad_batch check (working m n cs ok) = if n == 0 then 0 else bad (run_checks check ok cs)
  bad_batch check (waiting m k) = 0
  bad_batch check (returned m r) = 0
  bad_batch check faulted = 0

  -- The counters and the result of the queue, against the sums over the threads: `nTodo` counts the
  -- checks queued or in batches, `nTotal` and `nIdle` the threads in the loop and in a wait, and
  -- nothing has failed so far exactly if `b` holds. `spare` more checks may come before `nTodo` wraps round.
  pub record Holds (check : A → Bool) (b : Bool) (spare : ℕ) (q : Queue A)
      (flight count idlers poor : ℕ) : Type 0 where
    pub todo : q.n_todo ≡ length q.queue + flight
    pub small : length q.queue + flight + spare < 2 ^ 32
    pub all_counted : q.n_total ≡ count
    pub all_idle : q.n_idle ≡ idlers
    pub verdict : (bad q.f_all_ok + fails check q.queue + poor == 0) ≡ b
    pub running : q.f_quit ≡ false

  pub record Inv (check : A → Bool) (b : Bool) (spare : ℕ) (s : System A) : Type 0 where
    pub holds :
        Holds check b spare s.shared
          (total in_flight s.threads)
          (total counted s.threads)
          (total idle s.threads)
          (total (bad_batch check) s.threads)
    pub no_fault : total is_fault s.threads ≡ 0
    pub busy : total is_idle_batch s.threads ≡ 0
    pub stays : total is_gone s.threads ≡ 0

  -- A weight that a notification leaves alone.
  abbrev pub IsBlind : (Pc A → ℕ) → Type 0
  IsBlind w = (m : Bool) → w (waiting m true) ≡ w (waiting m false)

  pub total-notify_one :
      (w : Pc A → ℕ) (m : Bool) (ts : List (Pc A))
      → IsBlind w
      → total w (notify_one m ts) ≡ total w ts
  unfolding notify_one
  total-notify_one w m [] h = refl
  total-notify_one w m (waiting k false ∷ ts) h = ground (arith, h k, total-notify_one w m ts h)
  total-notify_one w m (waiting k true ∷ ts) h = ground (arith, total-notify_one w m ts h)
  total-notify_one w m (t ∷ ts) h = ground (arith, total-notify_one w m ts h)

  pub total-notify_all :
      (w : Pc A → ℕ) (m : Bool) (ts : List (Pc A))
      → IsBlind w
      → total w (notify_all m ts) ≡ total w ts
  unfolding notify_all
  total-notify_all w m [] h = refl
  total-notify_all w m (waiting k false ∷ ts) h = ground (arith, h k, total-notify_all w m ts h)
  total-notify_all w m (t ∷ ts) h = ground (arith, total-notify_all w m ts h)

  pub total-notify_added :
      (w : Pc A → ℕ) (n : ℕ) (ts : List (Pc A))
      → IsBlind w
      → total w (notify_added n ts) ≡ total w ts
  unfolding notify_added
  total-notify_added w n ts h =
      ground (arith, total-notify_one w false ts h, total-notify_all w false ts h)

  run_checks-false : (check : A → Bool) (cs : List A) → run_checks check false cs ≡ false
  unfolding run_checks
  run_checks-false check [] = refl
  run_checks-false check (a ∷ cs) = run_checks-false check cs

  -- A batch run from a good result is good exactly if all its checks are.
  run_checks-true :
      (check : A → Bool) (cs : List A) → run_checks check true cs ≡ (fails check cs == 0)
  unfolding run_checks
  run_checks-true check [] = refl
  run_checks-true check (a ∷ cs) = elim (Bool-cases (check a)) [
    | inl good ↦ rw good (ground (arith, run_checks-true check cs))
    | inr poor ↦ rw poor (ground (arith, run_checks-false check cs))
  ]

  -- Splitting a batch off the queue changes nothing in what has failed.
  pub batch_failures :
      (check : A → Bool) (ok : Bool) (n : ℕ) (queue : List A)
      → (bad ok + fails check (drop n queue) + bad (run_checks check ok (take n queue)) == 0)
        ≡ (bad ok + fails check queue == 0)
  batch_failures check true n queue =
      ground
        (arith, run_checks-true check (take n queue), total-take-drop (λ a. bad (check a)) n queue)
  batch_failures check false n queue = ground arith
