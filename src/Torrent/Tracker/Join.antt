-- ===== src/Torrent/Tracker/Join.antt =====
-- learntorrent/src/tracker.cpp: the destructor's `join` returns.
use learn_framework.Common.{
  ℕ, ◌-◌, ◌≤◌, ◌≡◌, refl, ◌∙◌, true, false, List, [], ◌∷◌, arith, inl, inr, Bool-cases, total,
}
use learn_framework.Torrent.Util.{SocketAnswers}
use learn_framework.Torrent.Tracker.{
  ByteIo, Tracker, Datagram, on_udp_receive, construct, begin, stop,
}
use learn_framework.Torrent.Tracker.Serve.{
  breaks_off, on_udp_receive-listening, on_udp_receive-kept,
}
use learn_framework.Torrent.Tracker.Service.{
  Handler, received, stops, Service, Event, arrives, posts_stop, turns, opened, arrive, turn, step,
  run,
}

-- The thread's turns among events, and the calls of the destructor.
abbrev pub is_turn : Event → ℕ
is_turn turns = 1
is_turn _ = 0

abbrev pub is_post : Event → ℕ
is_post posts_stop = 1
is_post _ = 0

-- How many turns are left at most, once `stop` is posted.
data Closing : ℕ → Service → Type 0 where
  ahead :
      {t : Tracker} {d : Datagram}
      → t.listening ≡ false
      → t.abort ≡ false
      → Closing 4 (record { tracker = t; handlers = received d ∷ stops ∷ []; exited = false })
  pending :
      {t : Tracker}
      → t.listening ≡ true
      → t.abort ≡ false
      → Closing 3 (record { tracker = t; handlers = stops ∷ []; exited = false })
  behind :
      {t : Tracker} {d : Datagram}
      → t.listening ≡ false
      → t.abort ≡ false
      → Closing 3 (record { tracker = t; handlers = stops ∷ received d ∷ []; exited = false })
  alone :
      {t : Tracker}
      → t.listening ≡ false
      → Closing 2 (record { tracker = t; handlers = stops ∷ []; exited = false })
  last :
      {t : Tracker} {d : Datagram}
      → t.listening ≡ false
      → t.abort ≡ true
      → Closing 2 (record { tracker = t; handlers = received d ∷ []; exited = false })
  empty :
      {t : Tracker}
      → t.listening ≡ false
      → Closing 1 (record { tracker = t; handlers = []; exited = false })
  over :
      {t : Tracker} {hs : List Handler}
      → Closing 0 (record { tracker = t; handlers = hs; exited = true })

module _ (io : ByteIo) where
  turn-Closing :
      {n : ℕ} {s : Service} → Closing n s → (m : ℕ) × (m ≤ n - 1) × Closing m (step io s turns)
  unfolding step turn arrive stop breaks_off
  turn-Closing (ahead {t = t} {d = d} l a) = elim (Bool-cases (on_udp_receive io d t).listening) [
    | inl on ↦ (3, omega arith, pending on ((on_udp_receive-kept io d t).1 ∙ a))
    | inr off ↦ (2, omega arith, alone off)
  ]
  turn-Closing (pending {t = t} l a) = rw l (2, omega arith, last refl refl)
  turn-Closing (behind {t = t} l a) = rw l (2, omega arith, last refl refl)
  turn-Closing (alone {t = t} l) = rw l (1, omega arith, empty refl)
  turn-Closing (last {t = t} {d = d} l a) =
      (1, omega arith, empty (ground (arith, on_udp_receive-listening io d t)))
  turn-Closing (empty {t = t} l) = rw l (0, omega arith, over)
  turn-Closing over = (0, omega arith, over)

  arrives-Closing :
      {n : ℕ} {s : Service} (d : Datagram) → Closing n s → Closing n (step io s (arrives d))
  unfolding step arrive
  arrives-Closing d (ahead {t = t} l a) = simp l (ahead l a)
  arrives-Closing d (pending {t = t} l a) = simp l (behind refl a)
  arrives-Closing d (behind {t = t} l a) = simp l (behind l a)
  arrives-Closing d (alone {t = t} l) = simp l (alone l)
  arrives-Closing d (last {t = t} l a) = simp l (last l a)
  arrives-Closing d (empty {t = t} l) = simp l (empty l)
  arrives-Closing d over = over

  -- Each turn takes one off, and at none left `run` has returned.
  run-Closing :
      (es : List Event) {n : ℕ} {s : Service}
      → Closing n s
      → total is_post es ≡ 0
      → n ≤ total is_turn es
      → (run io s es).exited ≡ true
  unfolding run
  run-Closing [] c z few = over_now c few
    where
      over_now : {n : ℕ} {s : Service} → Closing n s → n ≤ 0 → s.exited ≡ true
      over_now over h = refl
      over_now _ h = absurd (omega (arith, h))
  run-Closing (arrives d ∷ es) c z few =
      run-Closing es (arrives-Closing d c) (omega (arith, z)) (omega (arith, few))
  run-Closing (turns ∷ es) c z few =
      let (m, less, c') = turn-Closing c in
      run-Closing es c' (omega (arith, z)) (omega (arith, less, few))
  run-Closing (posts_stop ∷ es) c z few = absurd (omega (arith, z))

  -- A thread before `stop` is posted: in `run` with at most one handler, or out of it.
  data Serving : Service → Type 0 where
    waits : {t : Tracker} → t.abort ≡ false → Serving (opened t)
    ready :
        {t : Tracker} {d : Datagram}
        → t.listening ≡ false
        → t.abort ≡ false
        → Serving (record { tracker = t; handlers = received d ∷ []; exited = false })
    left :
        {t : Tracker} {hs : List Handler}
        → Serving (record { tracker = t; handlers = hs; exited = true })

  step-Serving : {s : Service} (e : Event) → is_post e ≡ 0 → Serving s → Serving (step io s e)
  unfolding step turn arrive
  step-Serving (arrives d) z (waits {t = t} a) = elim (Bool-cases t.listening) [
    | inl l ↦ rw l (ready refl a)
    | inr l ↦ rw l (waits a)
  ]
  step-Serving (arrives d) z (ready {t = t} l a) = simp l (ready l a)
  step-Serving (arrives d) z left = left
  step-Serving turns z (waits {t = t} a) = elim (Bool-cases t.listening) [
    | inl l ↦ rw l (waits a)
    | inr l ↦ rw l left
  ]
  step-Serving turns z (ready {t = t} {d = d} l a) = waits ((on_udp_receive-kept io d t).1 ∙ a)
  step-Serving turns z left = left
  step-Serving posts_stop z v = absurd (omega (arith, z))

  run-Serving :
      (es : List Event) {s : Service} → total is_post es ≡ 0 → Serving s → Serving (run io s es)
  unfolding run
  run-Serving [] z v = v
  run-Serving (e ∷ es) z v = run-Serving es (omega (arith, z)) (step-Serving e (omega (arith, z)) v)

  post-Closing : {s : Service} → Serving s → (n : ℕ) × (n ≤ 4) × Closing n (step io s posts_stop)
  unfolding step
  post-Closing (waits {t = t} a) = elim (Bool-cases t.listening) [
    | inl l ↦ (3, omega arith, pending l a)
    | inr l ↦ (2, omega arith, alone l)
  ]
  post-Closing (ready l a) = (4, omega arith, ahead l a)
  post-Closing left = (0, omega arith, over)

  -- The tracker's thread serves any datagrams, and the destructor then posts `stop`. Whatever datagrams
  -- still come, the thread's `ios_.run` has returned behind four turns, and `join` returns.
  pub join_returns :
      (a : SocketAnswers) (before calm : List Event)
      → total is_post before ≡ 0
      → total is_post calm ≡ 0
      → 4 ≤ total is_turn calm
      → (run io (step io (run io (opened (begin (construct a))) before) posts_stop) calm).exited
        ≡ true
  unfolding begin
  join_returns a before calm z z' four =
      let (n, few, c) = post-Closing (run-Serving before z (waits refl)) in
      run-Closing calm c z' (omega (arith, few, four))
