-- ===== src/Semaphore/Calls.antt =====
-- boostthreadcontrol/sync.h: the methods of grants and semaphores, called by any threads in any order.
use learn_framework.Common.{ℕ, Bool, List, [], ◌∷◌, ◌++◌, Result, ok, ◌>>=◌}
use learn_framework.Semaphore.{
  Store, Stop, get, wait, try_wait, post, acquire, release, try_acquire, move_to, construct,
  construct_empty,
}

-- The destructor of a grant is `Release`. A copy of a grant comes from the copy constructor that C++
-- provides, and `waits_on`, `tries_on` and `posts_to` call the methods of a semaphore directly.
pub data Call : Type 0 where
  makes_empty : Call
  makes : (sem : ℕ) (f_try : Bool) → Call
  acquires tries releases : (grant : ℕ) → Call
  moves : (source target : ℕ) → Call
  copies : (grant : ℕ) → Call
  waits_on tries_on posts_to : (sem : ℕ) → Call

unfoldable pub step : Store → Call → Result Stop Store
step st makes_empty = ok (construct_empty st)
step st (makes s f_try) = construct st s f_try
step st (acquires i) = acquire st i
step st (tries i) = try_acquire st i >>= λ r. ok r.0
step st (releases i) = release st i
step st (moves i j) = move_to st i j
step st (copies i) = get st i >>= λ g. ok (record st { grants = st.grants ++ (g ∷ []) })
step st (waits_on s) = wait st.value s >>= λ v. ok (record st { value = v })
step st (tries_on s) = ok (record st { value = (try_wait st.value s).0 })
step st (posts_to s) = ok (record st { value = post st.value s })

unfoldable pub run : Store → List Call → Result Stop Store
run st [] = ok st
run st (c ∷ cs) = step st c >>= λ t. run t cs
