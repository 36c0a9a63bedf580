-- ===== src/Torrent/Tracker.antt =====
-- learntorrent/src/tracker.cpp: `UdpTracker`. The reading and writing of integers in a buffer is
-- libtorrent's `detail::`, here the argument `io`; a write adds its bytes to what is written so far.
pub mod Replies
pub mod Serve
pub mod Service
pub mod Join
use learn_framework.Common.{
  ℕ, ◌+◌, ◌%◌, ◌^◌, ◌<◌, ◌≡◌, Bool, true, false, List, [], ◌∷◌, ◌++◌, ◌==◌, ltb, if◌then◌else◌,
  length, drop,
}
use learn_framework.Torrent.Util.{BaseServer, SocketAnswers, bump}

-- What the tracker relies on: the widths of the integers in bytes, that an integer that is written
-- is read back, and the range of what is read.
pub record ByteIo : Type 0 where
  pub write8 : ℕ → List ℕ
  pub write16 : ℕ → List ℕ
  pub write32 : ℕ → List ℕ
  pub write64 : ℕ → List ℕ
  pub read32 : List ℕ → ℕ
  pub length-write8 : (n : ℕ) → length (write8 n) ≡ 1
  pub length-write16 : (n : ℕ) → length (write16 n) ≡ 2
  pub length-write32 : (n : ℕ) → length (write32 n) ≡ 4
  pub length-write64 : (n : ℕ) → length (write64 n) ≡ 8
  pub read-write32 : (n : ℕ) (rest : List ℕ) → n < 2 ^ 32 → read32 (write32 n ++ rest) ≡ n
  pub read32-lt : (bytes : List ℕ) → read32 bytes < 2 ^ 32

-- The lines that the handler prints.
pub data Line : Type 0 where
  read_failed too_short connect_from send_failed sent_response scrape_ignored : Line
  message_of : (bytes : ℕ) → Line
  announce_number : (n : ℕ) → Line
  unknown_action : (action : ℕ) → Line

-- `listening` while an `async_receive_from` is pending; `sent` is newest first, and so is `log`.
pub record Tracker : Type 0 where
  pub server : BaseServer
  pub udp_announces : ℕ  -- atomic int, as its bit pattern
  pub abort : Bool
  pub listening : Bool
  pub sent : List (List ℕ)
  pub log : List Line

-- The completion of a receive: its error, its size, the sender's family, the buffer, and the error
-- of the `send_to` that may follow.
pub record Datagram : Type 0 where
  pub failed : Bool
  pub bytes : ℕ
  pub from_v6 : Bool
  pub buffer : List ℕ
  pub send_fails : Bool

abbrev pub note : Line → Tracker → Tracker
note l t = record t { log = l ∷ t.log }

module _ (io : ByteIo) where
  open io use {write8, write16, write32, write64, read32}

  abbrev pub action : Datagram → ℕ
  action d = read32 (drop 8 d.buffer)

  abbrev pub transaction_id : Datagram → ℕ
  transaction_id d = read32 (drop 12 d.buffer)

  unfoldable pub connect_reply : ℕ → List ℕ
  connect_reply tid = write32 0 ++ (write32 tid ++ write64 10)

  unfoldable pub peer_bytes : Bool → List ℕ
  peer_bytes true =
      write32 0
      ++ (write32 0
          ++ (write32 0 ++ (write8 1 ++ (write8 3 ++ (write8 3 ++ (write8 7 ++ write16 1337))))))
  peer_bytes false = write8 1 ++ (write8 3 ++ (write8 3 ++ (write8 7 ++ write16 1337)))

  unfoldable pub announce_reply : Bool → ℕ → List ℕ
  unfolding peer_bytes
  announce_reply v6 tid =
      write32 1 ++ (write32 tid ++ (write32 1800 ++ (write32 1 ++ (write32 1 ++ peer_bytes v6))))

  -- `send_to`, and the line behind it.
  unfoldable pub send : Datagram → List ℕ → Tracker → Tracker
  send d bytes t =
      if d.send_fails
      then note send_failed t
      else note sent_response (record t { sent = bytes ∷ t.sent })

  -- The `switch`. There is no `break` behind the case of an announce.
  unfoldable pub dispatch : Datagram → Tracker → Tracker
  unfolding send connect_reply announce_reply
  dispatch d t =
      if action d == 0
      then send d (connect_reply (transaction_id d)) (note connect_from t)
      else if action d == 1
      then (let n = bump t.udp_announces in
          note scrape_ignored (
            send d (announce_reply d.from_v6 (transaction_id d))
              (note (announce_number n) (record t { udp_announces = n }))))
      else if action d == 2
      then note scrape_ignored t
      else note (unknown_action (action d)) t

  -- `onUdpReceive`: the receive that led here is over, and only the last line starts another.
  unfoldable pub on_udp_receive : Datagram → Tracker → Tracker
  unfolding dispatch
  on_udp_receive d t =
      let t0 = record t { listening = false } in
      if d.failed
      then note read_failed t0
      else if ltb d.bytes 16
      then note too_short t0
      else if t.abort
      then t0
      else record (dispatch d (note (message_of d.bytes) t0)) { listening = true }

  -- `ios_.run` in `threadFun`: a datagram is handled while a receive is pending.
  unfoldable pub serve : Tracker → List Datagram → Tracker
  unfolding on_udp_receive
  serve t [] = t
  serve t (d ∷ ds) = serve (if t.listening then on_udp_receive d t else t) ds

-- The constructor. Where a step fails the object is left as it then is, without a thread.
unfoldable pub construct : SocketAnswers → BaseServer
construct a =
    let fresh : BaseServer = record { requests = 0; port = 0; has_thread = false } in
    if a.opened
    then (if a.bound
        then (if a.endpoint_ok
            then record { requests = 0; port = a.endpoint_port; has_thread = true }
            else record { requests = 0; port = a.endpoint_port; has_thread = false })
        else fresh)
    else fresh

-- The start of `threadFun`.
unfoldable pub begin : BaseServer → Tracker
begin s = record {
  server = s;
  udp_announces = 0;
  abort = false;
  listening = s.has_thread;
  sent = [];
  log = [];
}

-- `stop`, which the destructor posts: the pending receive ends with an error.
unfoldable pub stop : Tracker → Tracker
stop t = record t { abort = true }
