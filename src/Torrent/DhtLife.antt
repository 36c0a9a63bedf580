-- ===== src/Torrent/DhtLife.antt =====
-- learntorrent/src/dht.cpp: the global `s_dht` and the calls `StartDht`, `NumDhtHits` and `StopDht`.
use learn_framework.Common.{
  ℕ, ◌%◌, ◌^◌, ◌≡◌, refl, ap, ◌∙◌, Bool, false, Option, none, some, List, [], ◌∷◌, arith, ◌++◌,
  ◌&&◌, ◌||◌, not, if◌then◌else◌,
}
use learn_framework.Torrent.Util.{SocketAnswers, num_hits, bump}
use learn_framework.Torrent.Dht
use learn_framework.Torrent.Dht.{
  construct, Packet, failure, message, thread_fun, decoded, thread_fun-decoded,
}
use learn_framework.Torrent.Life.{
  Server, Session, crashes, Event, starts, completes, stops, session, run, count_all, hits_of,
  base_of, server_of, run-session, num_hits-server_of,
}

-- What the program does with the server, and what its socket receives.
pub data Use : Type 0 where
  start : SocketAnswers → Use
  receive : Packet → Use
  stop : Use

-- The destructor's `cancel()` and `close()` throw on a socket that was not opened.
unfoldable pub event : Use → Event Packet
event (start a) = starts (construct a) a.opened
event (receive p) = completes p
event stop = stops

unfoldable pub events : List Use → List (Event Packet)
unfolding event
events [] = []
events (u ∷ us) = event u ∷ events us

-- The answers of the socket at the last start, and the packets since, if no stop came.
unfoldable pub current :
    Option (SocketAnswers × List Packet) → List Use → Option (SocketAnswers × List Packet)
current cur [] = cur
current cur (start a ∷ us) = current (some (a, [])) us
current cur (stop ∷ us) = current none us
current none (receive p ∷ us) = current none us
current (some (a, ps)) (receive p ∷ us) = current (some (a, ps ++ (p ∷ []))) us

abbrev made_of : Option (SocketAnswers × List Packet) → Option (Session Packet)
made_of none = none
made_of (some (a, ps)) = some (construct a, a.opened, ps)

abbrev unopened : Option (SocketAnswers × List Packet) → Bool
unopened none = false
unopened (some (a, ps)) = not a.opened

-- A server whose socket could not be opened is destroyed, by a stop or another start.
unfoldable pub aborts : Option (SocketAnswers × List Packet) → List Use → Bool
aborts cur [] = false
aborts cur (start a ∷ us) = unopened cur || aborts (some (a, [])) us
aborts cur (stop ∷ us) = unopened cur || aborts none us
aborts none (receive p ∷ us) = aborts none us
aborts (some (a, ps)) (receive p ∷ us) = aborts (some (a, ps ++ (p ∷ []))) us

module _ (decodes : List ℕ → Bool) where
  unfoldable pub round : ℕ → Packet → ℕ × Bool
  unfolding Dht.round
  round n p = let r = Dht.round decodes n p in (r.requests, r.running)

  -- The global behind these uses; `none` where a destructor does not return.
  abbrev pub life : List Use → Option (Option Server)
  life us = run round failure none (events us)

  session-events :
      (cur : Option (SocketAnswers × List Packet)) (us : List Use)
      → session round failure (made_of cur) (events us) ≡ made_of (current cur us)
  unfolding session events current
  session-events cur [] = refl
  session-events cur (start a ∷ us) = session-events (some (a, [])) us
  session-events cur (stop ∷ us) = session-events none us
  session-events none (receive p ∷ us) = session-events none us
  session-events (some (a, ps)) (receive p ∷ us) = session-events (some (a, ps ++ (p ∷ []))) us

  crashes-aborts :
      (cur : Option (SocketAnswers × List Packet)) (us : List Use)
      → crashes round failure (made_of cur) (events us) ≡ aborts cur us
  unfolding crashes events aborts
  crashes-aborts cur [] = refl
  crashes-aborts none (start a ∷ us) = crashes-aborts (some (a, [])) us
  crashes-aborts (some x) (start a ∷ us) =
      ap (λ b. unopened (some x) || b) (crashes-aborts (some (a, [])) us)
  crashes-aborts none (stop ∷ us) = crashes-aborts none us
  crashes-aborts (some x) (stop ∷ us) = ap (λ b. unopened (some x) || b) (crashes-aborts none us)
  crashes-aborts none (receive p ∷ us) = crashes-aborts none us
  crashes-aborts (some (a, ps)) (receive p ∷ us) = crashes-aborts (some (a, ps ++ (p ∷ []))) us

  count_all-thread_fun :
      (n : ℕ) (ps : List Packet) → count_all round failure n ps ≡ (thread_fun decodes n ps).requests
  unfolding count_all thread_fun round
  count_all-thread_fun n [] = refl
  count_all-thread_fun n (failure ∷ ps) = refl
  count_all-thread_fun n (message bytes ∷ ps) =
      count_all-thread_fun (if decodes bytes then bump n else n) ps

  -- The messages that decode since the last start, if the socket was set up for it.
  abbrev pub expected : Option (SocketAnswers × List Packet) → ℕ
  expected none = 0
  expected (some (a, ps)) =
      if a.opened && (a.bound && a.endpoint_ok) then decoded decodes ps % 2 ^ 32 else 0

  hits_of-expected :
      (cur : Option (SocketAnswers × List Packet))
      → hits_of round failure (made_of cur) ≡ expected cur
  unfolding construct
  hits_of-expected none = refl
  hits_of-expected (some (a, ps)) =
      ground (arith, count_all-thread_fun 0 ps, thread_fun-decoded decodes 0 ps (omega arith))

  failure_ends : (n : ℕ) → (round n failure).1 ≡ false
  unfolding round
  failure_ends n = refl

  -- Whatever the starts, the stops and the packets in between: the program ends, in a destructor,
  -- exactly if a server whose socket could not be opened is destroyed. Else every `join` returns, and
  -- the hits are the messages, modulo 2^32, that decode since the last start and ahead of its first
  -- receive error; they are 0 behind a stop, and where the socket could not be set up.
  pub num_hits-life :
      (us : List Use)
      → (g : Option Server) × (life us ≡ (if aborts none us then none else some g))
        × (num_hits (base_of round failure g) ≡ expected (current none us))
  num_hits-life us =
      let cur = session round failure none (events us) in
      (
        server_of round failure cur,
        run-session round failure failure_ends none (events us)
            ∙ ap (λ b. if b then none else some (server_of round failure cur))
                (crashes-aborts none us),
        num_hits-server_of round failure cur
            ∙ ap (hits_of round failure) (session-events none us)
            ∙ hits_of-expected (current none us),
      )
