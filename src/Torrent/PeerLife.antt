-- ===== src/Torrent/PeerLife.antt =====
-- learntorrent/src/peer.cpp: the global `s_peer` and the calls `StartPeer`, `NumPeerHits` and `StopPeer`.
use learn_framework.Common.{
  ℕ, ◌+◌, ◌%◌, ◌^◌, ◌≡◌, refl, ap, ◌∙◌, Bool, true, false, Option, none, some, List, [], ◌∷◌, arith,
  ◌++◌, ◌&&◌, if◌then◌else◌,
}
use learn_framework.Torrent.Util.{SocketAnswers, num_hits, bump}
use learn_framework.Torrent.Peer
use learn_framework.Torrent.Peer.{
  construct, AcceptError, no_error, operation_aborted, bad_descriptor, other_error, thread_fun,
  accepted, failed, thread_fun-counts,
}
use learn_framework.Torrent.Life.{
  Server, Session, crashes, Event, starts, completes, stops, session, run, count_all, hits_of,
  base_of, server_of, run-session, num_hits-server_of,
}

-- What the program does with the server, and how its accepts complete.
pub data Use : Type 0 where
  start : SocketAnswers → (listens : Bool) → Use
  accept : AcceptError → Use
  stop : Use

-- The destructor hands an error code to `cancel` and `close`, which therefore return.
unfoldable pub event : Use → Event AcceptError
event (start a listens) = starts (construct a listens) true
event (accept p) = completes p
event stop = stops

unfoldable pub events : List Use → List (Event AcceptError)
unfolding event
events [] = []
events (u ∷ us) = event u ∷ events us

-- The answers of the socket at the last start, and the completions since, if no stop came.
unfoldable pub current :
    Option ((SocketAnswers × Bool) × List AcceptError)
    → List Use
    → Option ((SocketAnswers × Bool) × List AcceptError)
current cur [] = cur
current cur (start a listens ∷ us) = current (some ((a, listens), [])) us
current cur (stop ∷ us) = current none us
current none (accept p ∷ us) = current none us
current (some (a, ps)) (accept p ∷ us) = current (some (a, ps ++ (p ∷ []))) us

abbrev made_of : Option ((SocketAnswers × Bool) × List AcceptError) → Option (Session AcceptError)
made_of none = none
made_of (some ((a, listens), ps)) = some (construct a listens, true, ps)

unfoldable pub round : ℕ → AcceptError → ℕ × Bool
unfolding Peer.round
round n p = let r = Peer.round n 0 p in (r.requests, r.running)

-- The global behind these uses; `none` where a destructor does not return.
abbrev pub peer_life : List Use → Option (Option Server)
peer_life us = run round operation_aborted none (events us)

session-events :
    (cur : Option ((SocketAnswers × Bool) × List AcceptError)) (us : List Use)
    → session round operation_aborted (made_of cur) (events us) ≡ made_of (current cur us)
unfolding session events current
session-events cur [] = refl
session-events cur (start a listens ∷ us) = session-events (some ((a, listens), [])) us
session-events cur (stop ∷ us) = session-events none us
session-events none (accept p ∷ us) = session-events none us
session-events (some (a, ps)) (accept p ∷ us) = session-events (some (a, ps ++ (p ∷ []))) us

crashes-none :
    (cur : Option ((SocketAnswers × Bool) × List AcceptError)) (us : List Use)
    → crashes round operation_aborted (made_of cur) (events us) ≡ false
unfolding crashes events
crashes-none cur [] = refl
crashes-none none (start a listens ∷ us) = crashes-none (some ((a, listens), [])) us
crashes-none (some x) (start a listens ∷ us) = crashes-none (some ((a, listens), [])) us
crashes-none none (stop ∷ us) = crashes-none none us
crashes-none (some x) (stop ∷ us) = crashes-none none us
crashes-none none (accept p ∷ us) = crashes-none none us
crashes-none (some (a, ps)) (accept p ∷ us) = crashes-none (some (a, ps ++ (p ∷ []))) us

count_all-thread_fun :
    (n errs : ℕ) (ecs : List AcceptError)
    → count_all round operation_aborted n ecs ≡ (thread_fun n errs ecs).requests
unfolding count_all thread_fun round
count_all-thread_fun n errs [] = refl
count_all-thread_fun n errs (no_error ∷ ecs) = count_all-thread_fun (bump n) errs ecs
count_all-thread_fun n errs (other_error ∷ ecs) = count_all-thread_fun (bump n) (errs + 1) ecs
count_all-thread_fun n errs (operation_aborted ∷ ecs) = refl
count_all-thread_fun n errs (bad_descriptor ∷ ecs) = refl

-- The accepts that completed, well or not, since the last start, if the socket was set up for it.
abbrev pub expected : Option ((SocketAnswers × Bool) × List AcceptError) → ℕ
expected none = 0
expected (some ((a, listens), ps)) =
    if a.opened && (a.bound && a.endpoint_ok) then (accepted ps + failed ps) % 2 ^ 32 else 0

hits_of-expected :
    (cur : Option ((SocketAnswers × Bool) × List AcceptError))
    → hits_of round operation_aborted (made_of cur) ≡ expected cur
unfolding construct
hits_of-expected none = refl
hits_of-expected (some ((a, listens), ps)) =
    ground (arith, count_all-thread_fun 0 0 ps, thread_fun-counts 0 0 ps (omega arith))

operation_aborted_ends : (n : ℕ) → (round n operation_aborted).1 ≡ false
unfolding round
operation_aborted_ends n = refl

-- Whatever the starts, the stops and the completions in between, every destructor returns,
-- and the hits are the accepts, modulo 2^32, that completed since the last start and ahead of its
-- first abort or bad descriptor, those that failed included; they are 0 behind a stop, and where the
-- socket could not be set up. Whether `listen` failed changes nothing.
pub num_hits-peer_life :
    (us : List Use)
    → (g : Option Server) × (peer_life us ≡ some g)
      × (num_hits (base_of round operation_aborted g) ≡ expected (current none us))
num_hits-peer_life us =
    let cur = session round operation_aborted none (events us) in
    (
      server_of round operation_aborted cur,
      run-session round operation_aborted operation_aborted_ends none (events us)
          ∙ ap (λ b. if b then none else some (server_of round operation_aborted cur))
              (crashes-none none us),
      num_hits-server_of round operation_aborted cur
          ∙ ap (hits_of round operation_aborted) (session-events none us)
          ∙ hits_of-expected (current none us),
    )
