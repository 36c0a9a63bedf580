-- ===== src/Torrent/Tests.antt =====
-- learntorrent: the tracker, the DHT server and the peer server on short sequences.
use learn_framework.Common.{
  ℕ, ◌+◌, ◌*◌, ◌/◌, ◌%◌, ◌^◌, ◌<◌, ◌≡◌, refl, Bool, true, false, Option, none, some, if◌then◌else◌,
  List, [], ◌∷◌, ◌++◌, arith, length, drop,
}
use learn_framework.Torrent.Util.{SocketAnswers, num_hits, bump}
use learn_framework.Torrent.Tracker.{
  ByteIo, Tracker, Datagram, transaction_id, begin, construct, serve, on_udp_receive,
}
use learn_framework.Torrent.Tracker.Replies.{announce_answered}
use learn_framework.Torrent.Tracker.Service.{opened, arrives, turns, posts_stop, step, run}
use learn_framework.Torrent.Tracker.Join.{join_returns}
use learn_framework.Torrent.Tracker.Serve.{announces, until_break, serve-announces}
use learn_framework.Torrent.Life.{Server, base_of}
use learn_framework.Torrent.DhtLife
use learn_framework.Torrent.DhtLife.{num_hits-life}
use learn_framework.Torrent.PeerLife
use learn_framework.Torrent.PeerLife.{num_hits-peer_life}
use learn_framework.Torrent.Dht.{failure, message, decoded}
use learn_framework.Torrent.Peer
use learn_framework.Torrent.Peer.{
  AcceptError, no_error, other_error, operation_aborted, accepted, failed,
}

byte : ℕ → ℕ → ℕ
byte k n = n / 256 ^ k % 256

bytes16 : ℕ → List ℕ
unfolding byte
bytes16 n = byte 1 n ∷ byte 0 n ∷ []

bytes32 : ℕ → List ℕ
unfolding byte
bytes32 n = byte 3 n ∷ byte 2 n ∷ byte 1 n ∷ byte 0 n ∷ []

bytes64 : ℕ → List ℕ
unfolding bytes32
bytes64 n = bytes32 (n / 2 ^ 32) ++ bytes32 n

number32 : List ℕ → ℕ
number32 (a ∷ b ∷ c ∷ d ∷ rest) = (((a * 256 + b) * 256 + c) * 256 + d) % 2 ^ 32
number32 _ = 0

length-bytes16 : (n : ℕ) → length (bytes16 n) ≡ 2
unfolding bytes16
length-bytes16 n = refl

length-bytes32 : (n : ℕ) → length (bytes32 n) ≡ 4
unfolding bytes32
length-bytes32 n = refl

length-bytes64 : (n : ℕ) → length (bytes64 n) ≡ 8
unfolding bytes64
length-bytes64 n = refl

number32-bytes32 : (n : ℕ) (rest : List ℕ) → n < 2 ^ 32 → number32 (bytes32 n ++ rest) ≡ n
unfolding number32 bytes32
number32-bytes32 n rest h = omega arith

number32-lt : (bytes : List ℕ) → number32 bytes < 2 ^ 32
unfolding number32
number32-lt (a ∷ b ∷ c ∷ d ∷ rest) = omega arith
number32-lt _ = omega arith

-- Network byte order.
abbrev big_endian : ByteIo
big_endian = record {
  write8 = λ n. n % 256 ∷ [];
  write16 = bytes16;
  write32 = bytes32;
  write64 = bytes64;
  read32 = number32;
  length-write8 = λ n. refl;
  length-write16 = length-bytes16;
  length-write32 = length-bytes32;
  length-write64 = length-bytes64;
  read-write32 = number32-bytes32;
  read32-lt = number32-lt;
}

abbrev request : ℕ → ℕ → Datagram
request action size = record {
  failed = false;
  bytes = size;
  from_v6 = false;
  buffer = 0 ∷ 0 ∷ 0 ∷ 0 ∷ 0 ∷ 0 ∷ 0 ∷ 0 ∷ 0 ∷ 0 ∷ 0 ∷ action ∷ 0 ∷ 0 ∷ 1 ∷ 7 ∷ [];
  send_fails = false;
}

abbrev good_socket : SocketAnswers
good_socket = record { opened = true; bound = true; endpoint_port = 6969; endpoint_ok = true }

abbrev fresh : Tracker
fresh = begin (construct good_socket)

announce_answered_example :
    let t' = on_udp_receive big_endian (request 1 98) fresh in
    (reply : List ℕ) × (t'.sent ≡ reply ∷ fresh.sent)
    × (length reply ≡ 26)
    × (number32 reply ≡ 1)
    × (number32 (drop 4 reply) ≡ transaction_id big_endian (request 1 98))
    × (t'.udp_announces ≡ bump fresh.udp_announces)
    × (t'.listening ≡ true)
unfolding begin number32
announce_answered_example =
    announce_answered big_endian (request 1 98) fresh (refl, refl, refl, refl) refl

-- The second datagram is too short, and the announce behind it is lost.
abbrev datagrams : List Datagram
datagrams = request 1 98 ∷ request 0 15 ∷ request 1 98 ∷ []

only_one_counts : (serve big_endian fresh datagrams).udp_announces ≡ 1
unfolding serve begin construct number32 bytes32 bytes16
only_one_counts = refl

serve-announces_example :
    (serve big_endian fresh datagrams).udp_announces
    ≡ (fresh.udp_announces + announces big_endian (until_break big_endian fresh.abort datagrams))
      % 2 ^ 32
unfolding begin construct
serve-announces_example = serve-announces big_endian fresh datagrams refl (omega arith)

abbrev is_dictionary : List ℕ → Bool
is_dictionary [] = false
is_dictionary (c ∷ cs) = true

abbrev dht_uses : List DhtLife.Use
dht_uses =
    DhtLife.start good_socket
    ∷ DhtLife.receive (message (100 ∷ []))
    ∷ DhtLife.start good_socket
    ∷ DhtLife.receive (message (100 ∷ []))
    ∷ DhtLife.receive (message [])
    ∷ DhtLife.receive (message (101 ∷ []))
    ∷ DhtLife.receive failure
    ∷ DhtLife.receive (message (100 ∷ []))
    ∷ []

two_hits : DhtLife.expected is_dictionary (DhtLife.current none dht_uses) ≡ 2
unfolding DhtLife.current decoded
two_hits = refl

num_hits-life_example :
    (g : Option Server) × (DhtLife.life is_dictionary dht_uses
      ≡ (if DhtLife.aborts none dht_uses then none else some g))
    × (num_hits (base_of (DhtLife.round is_dictionary) failure g)
        ≡ DhtLife.expected is_dictionary (DhtLife.current none dht_uses))
num_hits-life_example = num_hits-life is_dictionary dht_uses

abbrev accepts : List AcceptError
accepts = no_error ∷ other_error ∷ operation_aborted ∷ no_error ∷ []

two_requests : (Peer.thread_fun 0 0 accepts).requests ≡ 2
unfolding Peer.thread_fun
two_requests = refl

abbrev peer_uses : List PeerLife.Use
peer_uses =
    PeerLife.start good_socket true
    ∷ PeerLife.accept no_error
    ∷ PeerLife.accept other_error
    ∷ PeerLife.accept no_error
    ∷ []

num_hits-peer_life_example :
    (g : Option Server) × (PeerLife.peer_life peer_uses ≡ some g)
    × (num_hits (base_of PeerLife.round operation_aborted g)
        ≡ PeerLife.expected (PeerLife.current none peer_uses))
num_hits-peer_life_example = num_hits-peer_life peer_uses

-- Two announces, one of which is in the making when the destructor posts `stop`, and one behind that.
join_returns_example :
    (run big_endian
      (step big_endian
        (run big_endian
          (opened fresh)
          (arrives (request 1 98) ∷ turns ∷ arrives (request 1 98) ∷ []))
        posts_stop)
      (turns ∷ arrives (request 1 98) ∷ turns ∷ turns ∷ turns ∷ [])).exited
    ≡ true
join_returns_example =
    join_returns big_endian good_socket
      (arrives (request 1 98) ∷ turns ∷ arrives (request 1 98) ∷ [])
      (turns ∷ arrives (request 1 98) ∷ turns ∷ turns ∷ turns ∷ []) refl refl (omega arith)
