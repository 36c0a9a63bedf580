-- ===== src/Torrent/Dht.antt =====
-- learntorrent/src/dht.cpp: `DhtServer`. Whether libtorrent's `bdecode` takes a message or throws is
-- the argument `decodes`.
use learn_framework.Common.{
  ℕ, ◌+◌, ◌%◌, ◌^◌, ◌<◌, ◌≡◌, refl, Bool, true, false, not, List, [], ◌∷◌, arith, if◌then◌else◌,
  inl, inr, Bool-cases,
}
use learn_framework.Torrent.Util.{BaseServer, SocketAnswers, bump}

-- The constructor. `port_` is set before the error of `local_endpoint` is looked at.
unfoldable pub construct : SocketAnswers → BaseServer
construct a =
    let fresh : BaseServer = record { requests = 0; port = 0; has_thread = false } in
    if a.opened
    then (if a.bound
        then record { requests = 0; port = a.endpoint_port; has_thread = a.endpoint_ok }
        else fresh)
    else fresh

-- What `incomingPacket` hands to the loop: the error, or the bytes of the message.
pub data Packet : Type 0 where
  failure : Packet
  message : (bytes : List ℕ) → Packet

-- `incomingPacket`, which sets `done` and with it ends the polling.
unfoldable pub incoming_packet : Bool → List ℕ → Packet × Bool
incoming_packet failed bytes = (if failed then failure else message bytes, true)

-- The thread after some packets: in the loop, or returned.
pub record Loop : Type 0 where
  pub requests : ℕ
  pub running : Bool

module _ (decodes : List ℕ → Bool) where
  -- The round of the `for` with this packet.
  unfoldable pub round : ℕ → Packet → Loop
  round n failure = record { requests = n; running = false }
  round n (message bytes) = record {
    requests = if decodes bytes then bump n else n;
    running = true;
  }

  unfoldable pub thread_fun : ℕ → List Packet → Loop
  unfolding round
  thread_fun n [] = record { requests = n; running = true }
  thread_fun n (p ∷ ps) =
      let r = round n p in let rest = thread_fun r.requests ps in if r.running then rest else r

  -- The packets ahead of the first error that decode.
  unfoldable pub decoded : List Packet → ℕ
  decoded [] = 0
  decoded (failure ∷ ps) = 0
  decoded (message bytes ∷ ps) = (if decodes bytes then 1 else 0) + decoded ps

  pub meets_error : List Packet → Bool
  meets_error [] = false
  meets_error (failure ∷ ps) = true
  meets_error (message bytes ∷ ps) = meets_error ps

  -- The thread counts, modulo 2^32, the messages that decode ahead of the first receive error, and has
  -- returned exactly if there was one.
  pub thread_fun-decoded :
      (n : ℕ) (ps : List Packet)
      → n < 2 ^ 32
      → ((thread_fun n ps).requests ≡ (n + decoded ps) % 2 ^ 32)
        × ((thread_fun n ps).running ≡ not (meets_error ps))
  unfolding thread_fun decoded meets_error
  thread_fun-decoded n [] h = (omega arith, refl)
  thread_fun-decoded n (failure ∷ ps) h = (omega arith, refl)
  thread_fun-decoded n (message bytes ∷ ps) h = elim (Bool-cases (decodes bytes)) [
    | inl good ↦ rw good (ground (arith, thread_fun-decoded (bump n) ps))
    | inr poor ↦ rw poor (ground (arith, thread_fun-decoded n ps))
  ]
