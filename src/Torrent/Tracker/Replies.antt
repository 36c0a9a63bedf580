-- ===== src/Torrent/Tracker/Replies.antt =====
-- learntorrent/src/tracker.cpp: the replies of the tracker.
use learn_framework.Common.{
  ℕ, ◌^◌, ◌<◌, ◌≡◌, Bool, true, false, List, ◌∷◌, ◌++◌, ltb, arith, if◌then◌else◌, length, drop,
  length-append, drop-append,
}
use learn_framework.Torrent.Util.{bump}
use learn_framework.Torrent.Tracker.{
  ByteIo, Tracker, Datagram, action, transaction_id, connect_reply, announce_reply, send, dispatch,
  on_udp_receive,
}

module _ (io : ByteIo) where
  open io use {
    write8, write16, write32, write64, read32, length-write8, length-write16, length-write32,
    length-write64, read-write32, read32-lt,
  }

  length-connect_reply : (tid : ℕ) → length (connect_reply io tid) ≡ 16
  unfolding connect_reply
  length-connect_reply tid = simp (length-append, length-write32, length-write64)

  length-announce_reply :
      (v6 : Bool) (tid : ℕ) → length (announce_reply io v6 tid) ≡ (if v6 then 38 else 26)
  unfolding announce_reply
  length-announce_reply true tid =
      simp (length-append, length-write32, length-write16, length-write8)
  length-announce_reply false tid =
      simp (length-append, length-write32, length-write16, length-write8)

  second_of_connect : (tid : ℕ) → tid < 2 ^ 32 → read32 (drop 4 (connect_reply io tid)) ≡ tid
  unfolding connect_reply
  second_of_connect tid h =
      rw (drop-append 4 (write32 0) (write32 tid ++ write64 10) (length-write32 0))
        (read-write32 tid (write64 10) h)

  second_of_announce :
      (v6 : Bool) (tid : ℕ) → tid < 2 ^ 32 → read32 (drop 4 (announce_reply io v6 tid)) ≡ tid
  unfolding announce_reply
  second_of_announce v6 tid h =
      rw (drop-append 4 (write32 1) _ (length-write32 1)) (read-write32 tid _ h)

  -- The handler takes the datagram as far as the `switch`.
  abbrev pub IsTaken : Datagram → Tracker → Type 0
  IsTaken d t =
      (d.failed ≡ false) × (ltb d.bytes 16 ≡ false) × (t.abort ≡ false) × (d.send_fails ≡ false)

  -- To a connect request that the handler takes and whose `send_to` goes well, it sends one datagram
  -- of 16 bytes, with action 0 and the request's transaction id behind it, counts nothing, and
  -- waits for the next datagram.
  pub connect_answered :
      (d : Datagram) (t : Tracker)
      → IsTaken d t
      → action io d ≡ 0
      → let t' = on_udp_receive io d t in
        (reply : List ℕ) × (t'.sent ≡ reply ∷ t.sent)
        × (length reply ≡ 16)
        × (read32 reply ≡ 0)
        × (read32 (drop 4 reply) ≡ transaction_id io d)
        × (t'.udp_announces ≡ t.udp_announces)
        × (t'.listening ≡ true)
  unfolding on_udp_receive dispatch send
  connect_answered d t (ok1, ok2, ok3, ok4) h = (
    connect_reply io (transaction_id io d),
    ground arith,
    length-connect_reply (transaction_id io d),
    unfold connect_reply in read-write32 0 _ (omega arith),
    second_of_connect (transaction_id io d) (read32-lt (drop 12 d.buffer)),
    ground arith,
    ground arith,
  )

  -- To an announce that the handler takes and whose `send_to` goes well, it sends one datagram of 38
  -- bytes to an IPv6 address and of 26 to another, with action 1 and the request's transaction id
  -- behind it, counts the announce, and waits for the next datagram.
  pub announce_answered :
      (d : Datagram) (t : Tracker)
      → IsTaken d t
      → action io d ≡ 1
      → let t' = on_udp_receive io d t in
        (reply : List ℕ) × (t'.sent ≡ reply ∷ t.sent)
        × (length reply ≡ (if d.from_v6 then 38 else 26))
        × (read32 reply ≡ 1)
        × (read32 (drop 4 reply) ≡ transaction_id io d)
        × (t'.udp_announces ≡ bump t.udp_announces)
        × (t'.listening ≡ true)
  unfolding on_udp_receive dispatch send
  announce_answered d t (ok1, ok2, ok3, ok4) h = (
    announce_reply io d.from_v6 (transaction_id io d),
    ground arith,
    length-announce_reply d.from_v6 (transaction_id io d),
    unfold announce_reply in read-write32 1 _ (omega arith),
    second_of_announce d.from_v6 (transaction_id io d) (read32-lt (drop 12 d.buffer)),
    ground arith,
    ground arith,
  )
