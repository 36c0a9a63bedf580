-- ===== src/Torrent/Tracker/Serve.antt =====
-- learntorrent/src/tracker.cpp: what the tracker does with a sequence of datagrams.
use learn_framework.Common.{
  ℕ, ◌+◌, ◌%◌, ◌^◌, ◌<◌, ◌≡◌, refl, Bool, true, false, ◌||◌, not, List, [], ◌∷◌, ◌==◌, ltb, arith,
  some, inl, inr, Bool-cases, if◌then◌else◌,
}
use learn_framework.Torrent.Util.{bump, num_hits, SocketAnswers}
use learn_framework.Torrent.Tracker.{
  ByteIo, Tracker, Datagram, action, send, dispatch, on_udp_receive, serve, begin, construct,
}

module _ (io : ByteIo) where
  -- The handler returns before its last line, which starts the next receive.
  unfoldable pub breaks_off : Bool → Datagram → Bool
  breaks_off abort d = d.failed || (ltb d.bytes 16 || abort)

  -- The datagrams ahead of the first at which the handler breaks off.
  pub until_break : Bool → List Datagram → List Datagram
  until_break abort [] = []
  until_break abort (d ∷ ds) = if breaks_off abort d then [] else d ∷ until_break abort ds

  -- How many announces there are among the datagrams.
  pub announces : List Datagram → ℕ
  announces [] = 0
  announces (d ∷ ds) = (if action io d == 1 then 1 else 0) + announces ds

  pub on_udp_receive-listening :
      (d : Datagram) (t : Tracker) → (on_udp_receive io d t).listening ≡ not (breaks_off t.abort d)
  unfolding on_udp_receive breaks_off
  on_udp_receive-listening d t = ground arith

  pub on_udp_receive-kept :
      (d : Datagram) (t : Tracker)
      → ((on_udp_receive io d t).server ≡ t.server) × ((on_udp_receive io d t).abort ≡ t.abort)
  unfolding on_udp_receive dispatch send
  on_udp_receive-kept d t = ground arith

  on_udp_receive-counts :
      (d : Datagram) (t : Tracker)
      → (on_udp_receive io d t).udp_announces ≡ (
          if breaks_off t.abort d
          then t.udp_announces
          else (if action io d == 1 then bump t.udp_announces else t.udp_announces))
  unfolding on_udp_receive dispatch send breaks_off
  on_udp_receive-counts d t = ground arith

  serve_deaf : (t : Tracker) (ds : List Datagram) → t.listening ≡ false → serve io t ds ≡ t
  unfolding serve
  serve_deaf t [] h = refl
  serve_deaf t (d ∷ ds) h = simp h (serve_deaf t ds h)

  serve_next :
      (t : Tracker) (d : Datagram) (ds : List Datagram)
      → t.listening ≡ true
      → serve io t (d ∷ ds) ≡ serve io (on_udp_receive io d t) ds
  unfolding serve
  serve_next t d ds h = simp h refl

  -- The tracker's count of announces, modulo 2^32, grows by the announces ahead of the first datagram
  -- that is an error, is shorter than 16 bytes or comes behind `stop`: from there on every datagram is
  -- lost, since the handler returns without starting another receive.
  pub serve-announces :
      (t : Tracker) (ds : List Datagram)
      → t.listening ≡ true
      → t.udp_announces < 2 ^ 32
      → (serve io t ds).udp_announces
        ≡ (t.udp_announces + announces (until_break t.abort ds)) % 2 ^ 32
  unfolding serve until_break announces
  serve-announces t [] h lt = omega arith
  serve-announces t (d ∷ ds) h lt = elim (Bool-cases (breaks_off t.abort d)) [
    | inl off ↦ ground (
      arith,
      serve_next t d ds h,
      serve_deaf (on_udp_receive io d t) ds,
      on_udp_receive-listening d t,
      on_udp_receive-counts d t,
    )
    | inr on ↦ ground (
      arith,
      serve_next t d ds h,
      serve-announces (on_udp_receive io d t) ds,
      on_udp_receive-listening d t,
      on_udp_receive-counts d t,
      on_udp_receive-kept d t,
    )
  ]

  serve-server : (t : Tracker) (ds : List Datagram) → (serve io t ds).server ≡ t.server
  unfolding serve
  serve-server t [] = refl
  serve-server t (d ∷ ds) =
      ground
        (arith, serve-server (on_udp_receive io d t) ds, serve-server t ds, on_udp_receive-kept d t)

  -- `NumUdpAnnounces` answers 0, whatever datagrams the tracker has served: it reads the counter of
  -- the base class, which the handler never changes.
  pub num_hits-serve :
      (a : SocketAnswers) (ds : List Datagram)
      → num_hits (some (serve io (begin (construct a)) ds).server) ≡ 0
  unfolding num_hits begin construct
  num_hits-serve a ds = ground (arith, serve-server (begin (construct a)) ds)
