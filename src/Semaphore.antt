-- ===== src/Semaphore.antt =====
-- boostthreadcontrol/sync.h: `CSemaphore` and `CSemaphoreGrant`. A semaphore is an address, a grant
-- an index into the list of all grants, so two grants may name one semaphore and a grant may be
-- moved to itself. Each method of the semaphore holds its mutex, so it is one step.
pub mod Calls
pub mod Balance
pub mod Move
pub mod Direct
pub mod Steps
pub mod Reach
pub mod Threads
pub mod Sleepers
pub mod Turns
pub mod Count
pub mod Tests
use learn_framework.Common.{
  ℕ, Bool, true, false, Option, none, some, List, ◌==◌, if◌then◌else◌, Result, ok, err, ◌>>=◌,
  get_elem?, set, length, [], ◌∷◌, ◌++◌,
}
use learn_framework.Common.Int.{ℤ, increment, decrement, below_one}

-- Why a call does not return: its thread waits, or it follows a null pointer, or there is no such
-- grant.
pub data Stop : Type 0 where
  waits null_sem no_grant : Stop

pub record Grant : Type 0 where
  pub sem : Option ℕ
  pub f_have_grant : Bool

pub record Store : Type 0 where
  pub value : ℕ → ℤ
  pub grants : List Grant

abbrev pub update : (ℕ → ℤ) → ℕ → ℤ → ℕ → ℤ
update f s z t = if s == t then z else f t

-- `while (value < 1) condition.wait(lock); value--;`
unfoldable pub wait : (ℕ → ℤ) → ℕ → Result Stop (ℕ → ℤ)
wait v s = if below_one (v s) then err waits else ok (update v s (decrement (v s)))

unfoldable pub try_wait : (ℕ → ℤ) → ℕ → (ℕ → ℤ) × Bool
try_wait v s = if below_one (v s) then (v, false) else (update v s (decrement (v s)), true)

unfoldable pub post : (ℕ → ℤ) → ℕ → ℕ → ℤ
post v s = update v s (increment (v s))

-- The member `sem` followed as a pointer.
abbrev pub deref : Option ℕ → Result Stop ℕ
deref none = err null_sem
deref (some s) = ok s

abbrev pub get : Store → ℕ → Result Stop Grant
get st i = elim (get_elem? st.grants i) [ none ↦ err no_grant | some g ↦ ok g ]

abbrev pub put : Store → (ℕ → ℤ) → ℕ → Grant → Store
put st v i g = record { value = v; grants = set st.grants i g }

unfoldable pub acquire_grant : Store → ℕ → Grant → Result Stop Store
unfolding wait
acquire_grant st i g =
    if g.f_have_grant
    then ok st
    else deref g.sem >>= λ s.
        wait st.value s >>= λ v. ok (put st v i (record g { f_have_grant = true }))

unfoldable pub release_grant : Store → ℕ → Grant → Result Stop Store
unfolding post
release_grant st i g =
    if g.f_have_grant
    then (deref g.sem >>= λ s. ok (put st (post st.value s) i (record g { f_have_grant = false })))
    else ok st

-- What `TryAcquire` makes of the answer of `try_wait`.
abbrev pub take_answer : Store → ℕ → Grant → (ℕ → ℤ) × Bool → Store × Bool
take_answer st i g (v, true) = (put st v i (record g { f_have_grant = true }), true)
take_answer st i g (v, false) = (record st { value = v }, g.f_have_grant)

unfoldable pub try_acquire_grant : Store → ℕ → Grant → Result Stop (Store × Bool)
unfolding try_wait
try_acquire_grant st i g =
    if g.f_have_grant
    then ok (st, true)
    else deref g.sem >>= λ s. ok (take_answer st i g (try_wait st.value s))

unfoldable pub acquire : Store → ℕ → Result Stop Store
unfolding acquire_grant
acquire st i = get st i >>= λ g. acquire_grant st i g

unfoldable pub release : Store → ℕ → Result Stop Store
unfolding release_grant
release st i = get st i >>= λ g. release_grant st i g

unfoldable pub try_acquire : Store → ℕ → Result Stop (Store × Bool)
unfolding try_acquire_grant
try_acquire st i = get st i >>= λ g. try_acquire_grant st i g

-- `i.MoveTo(j)`, each member read where the source reads it.
unfoldable pub move_to : Store → ℕ → ℕ → Result Stop Store
unfolding release
move_to st i j = release st j >>= λ a. get a i >>= λ g.
    let b = put a a.value j g in
    get b i >>= λ h. ok (put b b.value i (record h { f_have_grant = false }))

-- A new grant in the next free slot: `CSemaphoreGrant()`, and `CSemaphoreGrant(sema, fTry)`.
unfoldable pub construct_empty : Store → Store
construct_empty st = record st {
  grants = st.grants ++ (record { sem = none; f_have_grant = false } ∷ []);
}

unfoldable pub construct : Store → ℕ → Bool → Result Stop Store
unfolding acquire try_acquire
construct st s f_try =
    let fresh = record st {
      grants = st.grants ++ (record { sem = some s; f_have_grant = false } ∷ []);
    } in
    let i = length st.grants in
    if f_try then (try_acquire fresh i >>= λ r. ok r.0) else acquire fresh i
