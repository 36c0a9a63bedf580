-- ===== src/CheckQueue/Steps.antt =====
-- boostthreadcontrol/checkqueue.h: the counters and the result over the steps of a thread.
use learn_framework.Common.{
  ℕ, zero, suc, ◌+◌, ◌-◌, ◌≤◌, ◌≡◌, refl, Bool, true, false, Option, some, List, [], ◌∷◌, arith,
  inl, inr, Bool-cases, total, total-set, total-get_elem?, total-le_others, get_elem?,
}
use learn_framework.CheckQueue.{
  Queue, Pc, at_lock, waiting, working, returned, faulted, lock_section, informs_master,
}
use learn_framework.CheckQueue.System.{
  System, put_thread, lock_thread, wake_thread, execute_thread, notify_one,
}
use learn_framework.CheckQueue.Account.{
  in_flight, counted, idle, is_fault, is_idle_batch, is_gone, bad_batch, Inv, IsBlind,
  total-notify_one,
}
use learn_framework.CheckQueue.Preserve.{
  renewed, Stands, Left, lock_section-Left, wake_section-Left, execute-Left,
}

module _ {A : Type 0} (check : A → Bool) where
  -- The sums over the threads but one.
  record Others (s : System A) (t : Pc A) : Type 0 where
    flight : ℕ
    count : ℕ
    idlers : ℕ
    poor : ℕ
    flight_eq : total in_flight s.threads ≡ flight + in_flight t
    count_eq : total counted s.threads ≡ count + counted t
    idlers_eq : total idle s.threads ≡ idlers + idle t
    poor_eq : total (bad_batch check) s.threads ≡ poor + bad_batch check t
    le : poor ≤ flight

  bad_batch-le : (t : Pc A) → bad_batch check t ≤ in_flight t
  bad_batch-le (at_lock m n ok) = ground arith
  bad_batch-le (working m n cs ok) = ground arith
  bad_batch-le (waiting m k) = omega arith
  bad_batch-le (returned m r) = omega arith
  bad_batch-le faulted = omega arith

  others : (s : System A) (i : ℕ) (t : Pc A) → get_elem? s.threads i ≡ some t → Others s t
  others s i t h = record {
    flight = total in_flight s.threads - in_flight t;
    count = total counted s.threads - counted t;
    idlers = total idle s.threads - idle t;
    poor = total (bad_batch check) s.threads - bad_batch check t;
    flight_eq = omega (arith, total-get_elem? in_flight s.threads i t h);
    count_eq = omega (arith, total-get_elem? counted s.threads i t h);
    idlers_eq = omega (arith, total-get_elem? idle s.threads i t h);
    poor_eq = omega (arith, total-get_elem? (bad_batch check) s.threads i t h);
    le = omega (
      arith,
      total-le_others (bad_batch check) in_flight s.threads i t bad_batch-le h,
      total-get_elem? in_flight s.threads i t h,
      total-get_elem? (bad_batch check) s.threads i t h,
    );
  }

  Inv-Stands :
      (b : Bool) (spare : ℕ) (s : System A) (t : Pc A) (o : Others s t)
      → Inv check b spare s
      → Stands check b spare s.shared t o.flight o.count o.idlers o.poor
  Inv-Stands b spare s t o v = ground arith

  -- A thread's step over a list of threads with the same sums.
  put_thread-Inv :
      (b : Bool) (spare : ℕ) (s : System A) (i : ℕ) (t : Pc A) (ts : List (Pc A))
      (r : Queue A × Pc A) (o : Others s t)
      → Inv check b spare s
      → get_elem? ts i ≡ some t
      → ((w : Pc A → ℕ) → IsBlind w → total w ts ≡ total w s.threads)
      → Left check b spare o.flight o.count o.idlers o.poor r
      → Inv check (renewed check b (put_thread i ts r).1) spare (put_thread i ts r).0
  put_thread-Inv b spare s i t ts r o v h eq l = record {
    holds = ground (
      arith,
      total-set in_flight ts i t r.1 h,
      total-set counted ts i t r.1 h,
      total-set idle ts i t r.1 h,
      total-set (bad_batch check) ts i t r.1 h,
      eq in_flight (λ m. refl),
      eq counted (λ m. refl),
      eq idle (λ m. refl),
      eq (bad_batch check) (λ m. refl),
    );
    no_fault =
        omega
          (arith, total-set is_fault ts i t r.1 h, eq is_fault (λ m. refl), v.no_fault, l.sound);
    busy =
        omega (
          arith,
          total-set is_idle_batch ts i t r.1 h,
          eq is_idle_batch (λ m. refl),
          v.busy,
          l.busy,
        );
    stays = omega (arith, total-set is_gone ts i t r.1 h, eq is_gone (λ m. refl), v.stays, l.stays);
  }

  -- A notification leaves a thread that does not wait alone.
  pub get_elem?-notify_one :
      (k : Bool) (ts : List (Pc A)) (i : ℕ) (m : Bool) (n : ℕ) (ok : Bool)
      → get_elem? ts i ≡ some (at_lock m n ok)
      → get_elem? (notify_one k ts) i ≡ some (at_lock m n ok)
  unfolding notify_one
  get_elem?-notify_one k [] i m n ok h = h
  get_elem?-notify_one k (waiting c false ∷ ts) zero m n ok h = absurd (ground arith)
  get_elem?-notify_one k (waiting c false ∷ ts) (suc i) m n ok h =
      ground (arith, get_elem?-notify_one k ts i m n ok)
  get_elem?-notify_one k (t ∷ ts) zero m n ok h = h
  get_elem?-notify_one k (t ∷ ts) (suc i) m n ok h = get_elem?-notify_one k ts i m n ok h

  abbrev pub Keeps : Bool → ℕ → System A × Option Bool → Type 0
  Keeps b spare r = Inv check (renewed check b r.1) spare r.0 × ((v : Bool) → r.1 ≡ some v → v ≡ b)

  pub lock_thread-Keeps :
      (b : Bool) (spare : ℕ) (s : System A) (i : ℕ) (t : Pc A)
      → Inv check b spare s
      → get_elem? s.threads i ≡ some t
      → Keeps b spare (lock_thread s i t)
  unfolding lock_thread
  lock_thread-Keeps b spare s i (at_lock m n ok) v h =
      elim (Bool-cases (informs_master s.shared m n)) [
        | inl yes' ↦ rw yes' (
          put_thread-Inv b spare s i t (notify_one true s.threads) r o v
              (get_elem?-notify_one true s.threads i m n ok h)
              (λ w blind. total-notify_one w true s.threads blind) l,
          l.answered,
        )
        | inr no' ↦
            rw no' (put_thread-Inv b spare s i t s.threads r o v h (λ w blind. refl) l, l.answered)
      ]
    where
      t : Pc A
      t = at_lock m n ok

      r : Queue A × Pc A
      r = lock_section s.shared m n ok

      o : Others s t
      o = others s i t h

      l : Left check b spare o.flight o.count o.idlers o.poor r
      l =
          lock_section-Left check b spare o.flight o.count o.idlers o.poor o.le s.shared m n ok
            (Inv-Stands b spare s t o v)
  lock_thread-Keeps b spare s i (waiting m k) v h = (v, λ x e. cc)
  lock_thread-Keeps b spare s i (working m n cs ok) v h = (v, λ x e. cc)
  lock_thread-Keeps b spare s i (returned m x) v h = (v, λ x e. cc)
  lock_thread-Keeps b spare s i faulted v h = (v, λ x e. cc)

  pub wake_thread-Keeps :
      (b : Bool) (spare : ℕ) (s : System A) (i : ℕ) (t : Pc A)
      → Inv check b spare s
      → get_elem? s.threads i ≡ some t
      → Keeps b spare (wake_thread s i t)
  unfolding wake_thread
  wake_thread-Keeps b spare s i (waiting m k) v h =
      let o = others s i (waiting m k) h in
      let l =
        wake_section-Left check b spare o.flight o.count o.idlers o.poor o.le s.shared m k
          (Inv-Stands b spare s (waiting m k) o v) in
      (put_thread-Inv b spare s i (waiting m k) s.threads _ o v h (λ w blind. refl) l, l.answered)
  wake_thread-Keeps b spare s i (at_lock m n ok) v h = (v, λ x e. cc)
  wake_thread-Keeps b spare s i (working m n cs ok) v h = (v, λ x e. cc)
  wake_thread-Keeps b spare s i (returned m x) v h = (v, λ x e. cc)
  wake_thread-Keeps b spare s i faulted v h = (v, λ x e. cc)

  pub execute_thread-Keeps :
      (b : Bool) (spare : ℕ) (s : System A) (i : ℕ) (t : Pc A)
      → Inv check b spare s
      → get_elem? s.threads i ≡ some t
      → Keeps b spare (execute_thread check s i t)
  unfolding execute_thread
  execute_thread-Keeps b spare s i (working m n cs ok) v h =
      let o = others s i (working m n cs ok) h in
      let l =
        execute-Left check b spare o.flight o.count o.idlers o.poor o.le s.shared m n cs ok
          (omega (arith, total-get_elem? is_idle_batch s.threads i (working m n cs ok) h, v.busy))
          (Inv-Stands b spare s (working m n cs ok) o v) in
      (
        put_thread-Inv b spare s i (working m n cs ok) s.threads _ o v h (λ w blind. refl) l,
        l.answered,
      )
  execute_thread-Keeps b spare s i (at_lock m n ok) v h = (v, λ x e. cc)
  execute_thread-Keeps b spare s i (waiting m k) v h = (v, λ x e. cc)
  execute_thread-Keeps b spare s i (returned m x) v h = (v, λ x e. cc)
  execute_thread-Keeps b spare s i faulted v h = (v, λ x e. cc)
