-- ===== src/Torrent/Util.antt =====
-- learntorrent/include/util.h: the clock's fields and `BaseServer`; and the global servers that
-- dht.cpp, peer.cpp and tracker.cpp each keep in a shared pointer.
use learn_framework.Common.{
  ℕ, ◌+◌, ◌-◌, ◌*◌, ◌/◌, ◌%◌, ◌^◌, ◌<◌, ◌≡◌, Bool, Option, none, some, arith,
}

-- The arguments of the `snprintf` of `time_now_string`, which prints them as `%02d:%02d:%02d.%03d`.
pub record Clock : Type 0 where
  pub hours : ℕ
  pub minutes : ℕ
  pub seconds : ℕ
  pub millis : ℕ

-- `t` is the milliseconds since the first call.
unfoldable pub time_now : ℕ → Clock
time_now t =
    let h = t / 1000 / 60 / 60 in
    let t1 = t - h * 60 * 60 * 1000 in
    let m = t1 / 1000 / 60 in
    let t2 = t1 - m * 60 * 1000 in
    let s = t2 / 1000 in
    let t3 = t2 - s * 1000 in record { hours = h; minutes = m; seconds = s; millis = t3 }

-- The clock's fields are in their ranges, and add up to the time.
pub time_now-exact :
    (t : ℕ)
    → let c = time_now t in
      (c.minutes < 60)
      × (c.seconds < 60)
      × (c.millis < 1000)
      × (((c.hours * 60 + c.minutes) * 60 + c.seconds) * 1000 + c.millis ≡ t)
unfolding time_now
time_now-exact t = omega arith

-- `requests_` is an atomic int that counts up from 0, kept as its bit pattern.
pub record BaseServer : Type 0 where
  pub requests : ℕ
  pub port : ℕ
  pub has_thread : Bool

abbrev pub bump : ℕ → ℕ
bump n = (n + 1) % 2 ^ 32

-- `NumDhtHits`, `NumPeerHits`, `NumUdpAnnounces`: the hits of the server, if there is one.
unfoldable pub num_hits : Option BaseServer → ℕ
num_hits none = 0
num_hits (some s) = s.requests

-- `StartDht`, `StartPeer`, `StartUdpTracker`, where the constructor makes this server.
unfoldable pub start_server : BaseServer → Option BaseServer × ℕ
start_server made = (some made, made.port)

-- `StopDht`, `StopPeer`, `StopUdpTracker`.
unfoldable pub stop_server : Option BaseServer
stop_server = none

-- The answers of the calls that a constructor makes on its socket: whether `open` and `bind` went
-- well, and the port of `local_endpoint` with whether that went well.
pub record SocketAnswers : Type 0 where
  pub opened : Bool
  pub bound : Bool
  pub endpoint_port : ℕ
  pub endpoint_ok : Bool
