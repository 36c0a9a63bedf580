-- ===== src/Torrent/Peer.antt =====
-- learntorrent/src/peer.cpp: `PeerServer`.
use learn_framework.Common.{
  ℕ, suc, ◌+◌, ◌%◌, ◌^◌, ◌<◌, ◌≡◌, Bool, true, false, List, [], ◌∷◌, arith, if◌then◌else◌,
}
use learn_framework.Torrent.Util.{BaseServer, SocketAnswers, bump}

-- The constructor. An error of `listen` is printed, and the thread starts all the same.
unfoldable pub construct : SocketAnswers → Bool → BaseServer
construct a listens =
    let fresh : BaseServer = record { requests = 0; port = 0; has_thread = false } in
    if a.opened
    then (if a.bound
        then record { requests = 0; port = a.endpoint_port; has_thread = a.endpoint_ok }
        else fresh)
    else fresh

-- The error code that `newConnect` hands over.
pub data AcceptError : Type 0 where
  no_error operation_aborted bad_descriptor other_error : AcceptError

-- `newConnect`, which sets `done` and with it ends the polling.
unfoldable pub new_connect : AcceptError → AcceptError × Bool
new_connect ec = (ec, true)

-- The errors at which the thread returns.
unfoldable pub ends : AcceptError → Bool
ends operation_aborted = true
ends bad_descriptor = true
ends _ = false

pub record Loop : Type 0 where
  pub requests : ℕ
  pub errors_printed : ℕ
  pub running : Bool

abbrev is_error : AcceptError → Bool
is_error no_error = false
is_error _ = true

-- The round of the `for` with this completion: an error that does not end the thread is printed, and
-- the request is counted.
unfoldable pub round : ℕ → ℕ → AcceptError → Loop
unfolding ends
round n errs ec =
    if ends ec then record { requests = n; errors_printed = errs; running = false } else record {
      requests = bump n;
      errors_printed = if is_error ec then errs + 1 else errs;
      running = true;
    }

unfoldable pub thread_fun : ℕ → ℕ → List AcceptError → Loop
unfolding round
thread_fun n errs [] = record { requests = n; errors_printed = errs; running = true }
thread_fun n errs (ec ∷ ecs) =
    let r = round n errs ec in
    let rest = thread_fun r.requests r.errors_printed ecs in if r.running then rest else r

-- The completions ahead of the first that ends the thread: those accepted, and those that failed.
pub accepted : List AcceptError → ℕ
accepted [] = 0
accepted (no_error ∷ ecs) = suc (accepted ecs)
accepted (other_error ∷ ecs) = accepted ecs
accepted (operation_aborted ∷ ecs) = 0
accepted (bad_descriptor ∷ ecs) = 0

pub failed : List AcceptError → ℕ
failed [] = 0
failed (no_error ∷ ecs) = failed ecs
failed (other_error ∷ ecs) = suc (failed ecs)
failed (operation_aborted ∷ ecs) = 0
failed (bad_descriptor ∷ ecs) = 0

-- Ahead of the first abort or bad descriptor, the thread prints each accept that failed, and counts,
-- modulo 2^32, the accepts that went well and those that failed alike.
pub thread_fun-counts :
    (n errs : ℕ) (ecs : List AcceptError)
    → n < 2 ^ 32
    → ((thread_fun n errs ecs).requests ≡ (n + (accepted ecs + failed ecs)) % 2 ^ 32)
      × ((thread_fun n errs ecs).errors_printed ≡ errs + failed ecs)
unfolding thread_fun accepted failed
thread_fun-counts n errs [] h = (omega arith, omega arith)
thread_fun-counts n errs (no_error ∷ ecs) h =
    let ih = thread_fun-counts (bump n) errs ecs (omega arith) in (omega arith, omega arith)
thread_fun-counts n errs (other_error ∷ ecs) h =
    let ih = thread_fun-counts (bump n) (errs + 1) ecs (omega arith) in (omega arith, omega arith)
thread_fun-counts n errs (operation_aborted ∷ ecs) h = (omega arith, omega arith)
thread_fun-counts n errs (bad_descriptor ∷ ecs) h = (omega arith, omega arith)
