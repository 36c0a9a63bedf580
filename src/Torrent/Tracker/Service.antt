-- ===== src/Torrent/Tracker/Service.antt =====
-- learntorrent/src/tracker.cpp: the tracker's thread in `ios_.run` and the destructor, which posts `stop`
-- and joins the thread. `run` takes the handlers in the order in which they became ready, and returns
-- when none is ready and no receive is pending.
use learn_framework.Common.{ℕ, Bool, true, false, List, [], ◌∷◌, ◌++◌, if◌then◌else◌}
use learn_framework.Torrent.Tracker.{ByteIo, Tracker, Datagram, on_udp_receive, stop}

pub data Handler : Type 0 where
  received : (d : Datagram) → Handler
  stops : Handler

-- The handlers that are ready, and whether `run` has returned.
pub record Service : Type 0 where
  pub tracker : Tracker
  pub handlers : List Handler
  pub exited : Bool

-- A datagram comes; the destructor posts `stop`; the thread goes on.
pub data Event : Type 0 where
  arrives : (d : Datagram) → Event
  posts_stop turns : Event

-- What a cancelled receive completes with.
abbrev pub aborted : Datagram
aborted = record { failed = true; bytes = 0; from_v6 = false; buffer = []; send_fails = false }

abbrev pub opened : Tracker → Service
opened t = record { tracker = t; handlers = []; exited = false }

-- `incomingPacket`, which nothing calls: what it stores in `ret`, `error` and `done`.
unfoldable pub incoming_packet : Bool → ℕ → ℕ × Bool × Bool
incoming_packet failed bytes = (bytes, failed, true)

-- A completed receive is pending no more.
unfoldable pub arrive : Datagram → Tracker → List Handler → Service
arrive d t hs =
    if t.listening
    then record {
      tracker = record t { listening = false };
      handlers = hs ++ (received d ∷ []);
      exited = false;
    }
    else record { tracker = t; handlers = hs; exited = false }

module _ (io : ByteIo) where
  -- `stop` cancels the receive that is pending.
  unfoldable pub turn : Tracker → List Handler → Service
  unfolding arrive
  turn t [] = record { tracker = t; handlers = []; exited = if t.listening then false else true }
  turn t (received d ∷ hs) = record {
    tracker = on_udp_receive io d t;
    handlers = hs;
    exited = false;
  }
  turn t (stops ∷ hs) = arrive aborted (stop t) hs

  unfoldable pub step : Service → Event → Service
  unfolding turn
  step s posts_stop = record s { handlers = s.handlers ++ (stops ∷ []) }
  step s (arrives d) = if s.exited then s else arrive d s.tracker s.handlers
  step s turns = if s.exited then s else turn s.tracker s.handlers

  unfoldable pub run : Service → List Event → Service
  unfolding step
  run s [] = s
  run s (e ∷ es) = run (step s e) es
