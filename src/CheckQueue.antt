-- ===== src/CheckQueue.antt =====
-- boostthreadcontrol/checkqueue.h: `CCheckQueue`. The verifications are the values of a type `A`,
-- whose call operator is the function `check` and whose `swap` exchanges two values. `mutex` is held
-- from the lock to `cond.wait`, to the return or to the end of the block, so each such stretch is
-- one function of the shared state.
pub mod System
pub mod Batch
pub mod Account
pub mod Preserve
pub mod Steps
pub mod Verdict
pub mod Rank
pub mod Asleep
pub mod Wakeups
pub mod Finish
pub mod Done
pub mod Weights
pub mod Waiting
pub mod Tests
use learn_framework.Common.{
  ℕ, zero, suc, ◌+◌, ◌-◌, ◌/◌, ◌%◌, ◌^◌, Bool, true, false, ◌&&◌, ◌||◌, not, Option, none, some,
  List, [], ◌∷◌, ◌++◌, ◌==◌, if◌then◌else◌, length, max, min,
}

-- unsigned int
abbrev pub u32 : ℕ → ℕ
u32 n = n % 2 ^ 32

-- The head of `queue` is the back of the vector. `n_idle` and `n_total` are ints that count threads.
pub record Queue (A : Type 0) : Type 0 where
  pub queue : List A
  pub n_idle : ℕ
  pub n_total : ℕ
  pub f_all_ok : Bool
  pub n_todo : ℕ  -- unsigned int
  pub f_quit : Bool
  pub n_batch_size : ℕ  -- unsigned int

-- Where a thread stands in `Loop`, with the locals that are live there: before the lock at the head
-- of the `do`, in `cond.wait` (where it may have been notified), at the execution of its batch, or
-- behind the return.
pub data Pc (A : Type 0) : Type 0 where
  at_lock : (f_master : Bool) (n_now : ℕ) (f_ok : Bool) → Pc A
  waiting : (f_master notified : Bool) → Pc A
  working : (f_master : Bool) (n_now : ℕ) (v_checks : List A) (f_ok : Bool) → Pc A
  returned : (f_master f_ret : Bool) → Pc A
  faulted : Pc A  -- `back` or `pop_back` of an empty vector

module _ {A : Type 0} where
  unfoldable pub new_queue : ℕ → Queue A
  new_queue n = record {
    queue = [];
    n_idle = 0;
    n_total = 0;
    f_all_ok = true;
    n_todo = 0;
    f_quit = false;
    n_batch_size = n;
  }

  -- The clean-up of the previous run of the loop.
  unfoldable pub clean_up : Queue A → ℕ → Bool → Queue A
  clean_up q n_now f_ok =
      if n_now == 0
      then record q { n_total = q.n_total + 1 }
      else record q { f_all_ok = q.f_all_ok && f_ok; n_todo = u32 (q.n_todo + 2 ^ 32 - n_now) }

  -- Whether the clean-up calls `condMaster.notify_one`.
  unfoldable pub informs_master : Queue A → Bool → ℕ → Bool
  informs_master q f_master n_now =
      not (n_now == 0) && (u32 (q.n_todo + 2 ^ 32 - n_now) == 0 && not f_master)

  unfoldable pub batch_size : Queue A → ℕ
  batch_size q = max 1 (min q.n_batch_size (u32 (length q.queue) / (q.n_total + q.n_idle + 1)))

  -- `vChecks[i].swap(queue.back()); queue.pop_back();`, n times; `none` once the queue is empty.
  unfoldable pub pop_batch : ℕ → List A → Option (List A × List A)
  pop_batch zero queue = some ([], queue)
  pop_batch (suc n) [] = none
  pop_batch (suc n) (a ∷ queue) = elim (pop_batch n queue) [
    | none ↦ none
    | some (batch, rest) ↦ some (a ∷ batch, rest)
  ]

  unfoldable pub take_batch : Queue A → Bool → ℕ → Queue A × Pc A
  unfolding pop_batch
  take_batch q f_master n_now = elim (pop_batch n_now q.queue) [
    | none ↦ (q, faulted)
    | some (batch, rest) ↦ (record q { queue = rest }, working f_master n_now batch q.f_all_ok)
  ]

  -- The body of `while (queue.empty())`: return, or wait.
  unfoldable pub out_of_work : Queue A → Bool → Queue A × Pc A
  out_of_work q f_master =
      if (f_master || q.f_quit) && q.n_todo == 0
      then (
        record q { n_total = q.n_total - 1; f_all_ok = if f_master then true else q.f_all_ok },
        returned f_master q.f_all_ok,
      )
      else (record q { n_idle = q.n_idle + 1 }, waiting f_master false)

  abbrev pub is_empty : List A → Bool
  is_empty [] = true
  is_empty (a ∷ cs) = false

  -- The critical section from `while (queue.empty())` on.
  unfoldable pub look : Queue A → Bool → Queue A × Pc A
  unfolding out_of_work take_batch batch_size
  look q f_master =
      if is_empty q.queue then out_of_work q f_master else take_batch q f_master (batch_size q)

  -- The critical section of a thread at the head of the loop.
  unfoldable pub lock_section : Queue A → Bool → ℕ → Bool → Queue A × Pc A
  unfolding clean_up look
  lock_section q f_master n_now f_ok = look (clean_up q n_now f_ok) f_master

  -- The critical section of a thread that comes back from `cond.wait`.
  unfoldable pub wake_section : Queue A → Bool → Queue A × Pc A
  unfolding look
  wake_section q f_master = look (record q { n_idle = q.n_idle - 1 }) f_master

  push_all : List A → List A → List A
  push_all [] queue = queue
  push_all (a ∷ cs) queue = push_all cs (a ∷ queue)

  -- `Add`, without its notifications.
  unfoldable pub add : Queue A → List A → Queue A
  unfolding push_all
  add q v_checks = record q {
    queue = push_all v_checks q.queue;
    n_todo = u32 (q.n_todo + length v_checks);
  }

  -- `for (T& check : vChecks) if (fOk) fOk = check();`
  unfoldable pub run_checks : (A → Bool) → Bool → List A → Bool
  run_checks check f_ok [] = f_ok
  run_checks check f_ok (a ∷ cs) = run_checks check (if f_ok then check a else f_ok) cs
