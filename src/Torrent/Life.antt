-- ===== src/Torrent/Life.antt =====
-- learntorrent/src/dht.cpp and peer.cpp: a global server over its life. `Start` constructs a server and
-- only then destroys the one before; a destructor cancels and closes the socket and joins the thread.
-- What a round of the thread does with a completion, and the completion that a cancelled operation
-- has, are parameters.
use learn_framework.Common.{
  ℕ, Bool, true, false, not, ◌&&◌, ◌||◌, Option, none, some, List, [], ◌∷◌, ◌++◌, ◌≡◌, refl, ◌∙◌,
  ap, sym, arith, if◌then◌else◌, inl, inr, Bool-cases,
}
use learn_framework.Torrent.Util.{BaseServer, num_hits}

-- A server, whether its thread is in the loop, and whether the destructor's calls on the socket return.
-- One that throws ends the program.
pub record Server : Type 0 where
  pub base : BaseServer
  pub running : Bool
  pub closes : Bool

-- A call of `Start`, whose constructor makes this server, a completion, and a call of `Stop`.
pub data Event (C : Type 0) : Type 0 where
  starts : (made : BaseServer) (closes : Bool) → Event C
  completes : C → Event C
  stops : Event C

abbrev pub fresh : BaseServer → Bool → Server
fresh made closes = record { base = made; running = made.has_thread; closes = closes }

-- What the constructor made, whether its destructor can close, and the completions since.
abbrev pub Session : Type 0 → Type 0
Session C = BaseServer × Bool × List C

module _ {C : Type 0} (round : ℕ → C → ℕ × Bool) (aborted : C) where
  unfoldable pub complete : C → Server → Server
  complete c s =
      let (requests, running) = round s.base.requests c in
      if s.running
      then record s { base = record s.base { requests = requests }; running = running }
      else s

  -- The destructor: whether its calls on the socket and its `join` return.
  unfoldable pub destroy : Server → Bool
  unfolding complete
  destroy s = s.closes && not (complete aborted s).running

  -- `reset` of the shared pointer; `none` where a destructor does not return.
  unfoldable pub reset : Option Server → Option Server → Option (Option Server)
  unfolding destroy
  reset none new = some new
  reset (some old) new = if destroy old then some new else none

  unfoldable pub step : Option Server → Event C → Option (Option Server)
  unfolding reset complete
  step g (starts made closes) = reset g (some (fresh made closes))
  step none (completes c) = some none
  step (some s) (completes c) = some (some (complete c s))
  step g stops = reset g none

  unfoldable pub run : Option Server → List (Event C) → Option (Option Server)
  unfolding step
  run g [] = some g
  run g (e ∷ es) = elim (step g e) [ none ↦ none | some g' ↦ run g' es ]

  -- The last `Start` and the completions since, if no `Stop` came.
  unfoldable pub session : Option (Session C) → List (Event C) → Option (Session C)
  session cur [] = cur
  session cur (starts made closes ∷ es) = session (some (made, closes, [])) es
  session cur (stops ∷ es) = session none es
  session none (completes c ∷ es) = session none es
  session (some (made, closes, cs)) (completes c ∷ es) =
      session (some (made, closes, cs ++ (c ∷ []))) es

  abbrev pub stuck : Option (Session C) → Bool
  stuck none = false
  stuck (some (made, closes, cs)) = not closes

  -- A server that cannot close is destroyed.
  unfoldable pub crashes : Option (Session C) → List (Event C) → Bool
  crashes cur [] = false
  crashes cur (starts made closes ∷ es) = stuck cur || crashes (some (made, closes, [])) es
  crashes cur (stops ∷ es) = stuck cur || crashes none es
  crashes none (completes c ∷ es) = crashes none es
  crashes (some (made, closes, cs)) (completes c ∷ es) =
      crashes (some (made, closes, cs ++ (c ∷ []))) es

  pub complete_all : Server → List C → Server
  complete_all s [] = s
  complete_all s (c ∷ cs) = complete_all (complete c s) cs

  abbrev pub server_of : Option (Session C) → Option Server
  server_of none = none
  server_of (some (made, closes, cs)) = some (complete_all (fresh made closes) cs)

  complete_all-append :
      (s : Server) (cs : List C) (c : C)
      → complete_all s (cs ++ (c ∷ [])) ≡ complete c (complete_all s cs)
  unfolding complete_all
  complete_all-append s [] c = refl
  complete_all-append s (d ∷ cs) c = complete_all-append (complete d s) cs c

  -- The requests behind the rounds with these completions, up to one that ends the thread.
  unfoldable pub count_all : ℕ → List C → ℕ
  count_all n [] = n
  count_all n (c ∷ cs) =
      let r = round n c in let rest = count_all r.0 cs in if r.1 then rest else r.0

  -- The hits of a server that was made so and met these completions.
  abbrev pub hits_of : Option (Session C) → ℕ
  hits_of none = 0
  hits_of (some (made, closes, cs)) =
      if made.has_thread then count_all made.requests cs else made.requests

  abbrev pub base_of : Option Server → Option BaseServer
  base_of none = none
  base_of (some s) = some s.base

  complete-stopped : (s : Server) (c : C) → s.running ≡ false → complete c s ≡ s
  unfolding complete
  complete-stopped s c h = ground (arith, h)

  complete_all-stopped : (s : Server) (cs : List C) → s.running ≡ false → complete_all s cs ≡ s
  unfolding complete_all
  complete_all-stopped s [] h = refl
  complete_all-stopped s (c ∷ cs) h =
      ap (λ x. complete_all x cs) (complete-stopped s c h) ∙ complete_all-stopped s cs h

  -- A server whose thread goes on, or not, after so many requests.
  abbrev after : Server → ℕ → Bool → Server
  after s n on = record s { base = record s.base { requests = n }; running = on }

  complete-running :
      (s : Server) (c : C) (on : Bool)
      → s.running ≡ true
      → (round s.base.requests c).1 ≡ on
      → complete c s ≡ after s (round s.base.requests c).0 on
  unfolding complete
  complete-running s c on h e = ground (arith, h, e)

  complete_all-running :
      (s : Server) (cs : List C)
      → s.running ≡ true
      → (complete_all s cs).base.requests ≡ count_all s.base.requests cs
  unfolding complete_all count_all
  complete_all-running s [] h = refl
  complete_all-running s (c ∷ cs) h = elim (Bool-cases (round s.base.requests c).1) [
    | inl on ↦
        let s' = after s (round s.base.requests c).0 true in
        rw on (
          ap (λ x. (complete_all x cs).base.requests) (complete-running s c true h on)
          ∙ complete_all-running s' cs refl)
    | inr off ↦
        let s' = after s (round s.base.requests c).0 false in
        rw off (
          ap (λ x. (complete_all x cs).base.requests) (complete-running s c false h off)
          ∙ ap (λ x. x.base.requests) (complete_all-stopped s' cs refl))
  ]

  pub num_hits-server_of :
      (cur : Option (Session C)) → num_hits (base_of (server_of cur)) ≡ hits_of cur
  unfolding num_hits
  num_hits-server_of none = refl
  num_hits-server_of (some (made, closes, cs)) = elim (Bool-cases made.has_thread) [
    | inl on ↦ ground (arith, on, complete_all-running (fresh made closes) cs)
    | inr off ↦ ground (arith, off, complete_all-stopped (fresh made closes) cs)
  ]

  module _ (ends : (n : ℕ) → (round n aborted).1 ≡ false) where
    destroy-closes : (s : Server) → destroy s ≡ s.closes
    unfolding destroy complete
    destroy-closes s = ground (arith, ends s.base.requests)

    complete-closes : (s : Server) (c : C) → (complete c s).closes ≡ s.closes
    unfolding complete
    complete-closes s c = ground arith

    complete_all-closes : (s : Server) (cs : List C) → (complete_all s cs).closes ≡ s.closes
    unfolding complete_all
    complete_all-closes s [] = refl
    complete_all-closes s (c ∷ cs) = complete_all-closes (complete c s) cs ∙ complete-closes s c

    reset-server_of :
        (cur : Option (Session C)) (new : Option Server)
        → reset (server_of cur) new ≡ (if stuck cur then none else some new)
    unfolding reset
    reset-server_of none new = refl
    reset-server_of (some (made, closes, cs)) new = ground (
      arith,
      destroy-closes (complete_all (fresh made closes) cs),
      complete_all-closes (fresh made closes) cs,
    )

    step-starts :
        (cur : Option (Session C)) (made : BaseServer) (closes : Bool)
        → step (server_of cur) (starts made closes)
          ≡ (if stuck cur then none else some (some (fresh made closes)))
    unfolding step
    step-starts none made closes = refl
    step-starts (some x) made closes = reset-server_of (some x) (some (fresh made closes))

    step-stops :
        (cur : Option (Session C))
        → step (server_of cur) stops ≡ (if stuck cur then none else some none)
    unfolding step
    step-stops none = refl
    step-stops (some x) = reset-server_of (some x) none

    run-next :
        (g : Option Server) (next : Option (Option Server)) (e : Event C) (es : List (Event C))
        → step g e ≡ next
        → run g (e ∷ es) ≡ elim next [ none ↦ none | some g' ↦ run g' es ]
    unfolding run
    run-next g next e es h = rw (h, run) refl

    cut :
        (b c : Bool) (g : Option Server) (es : List (Event C)) (out : Option Server)
        → run g es ≡ (if c then none else some out)
        → (elim (if b then none else some g) as (λ x. Option (Option Server)) [
          | none ↦ none
          | some g' ↦ run g' es
        ])
          ≡ (if b || c then none else some out)
    cut true c g es out h = refl
    cut false c g es out h = h

    -- Where a cancelled operation ends the thread, the program ends exactly if a server that cannot
    -- close is destroyed, and else the global is what the last `Start` made with the completions since.
    pub run-session :
        (cur : Option (Session C)) (es : List (Event C))
        → run (server_of cur) es
          ≡ (if crashes cur es then none else some (server_of (session cur es)))
    unfolding run session complete_all crashes
    run-session cur [] = refl
    run-session cur (starts made closes ∷ es) =
        run-next (server_of cur) (if stuck cur then none else some (some (fresh made closes)))
          (starts made closes) es (step-starts cur made closes)
        ∙ cut (stuck cur) (crashes (some (made, closes, [])) es) (some (fresh made closes)) es
            (server_of (session (some (made, closes, [])) es))
            (run-session (some (made, closes, [])) es)
    run-session cur (stops ∷ es) =
        run-next (server_of cur) (if stuck cur then none else some none) stops es (step-stops cur)
        ∙ cut (stuck cur) (crashes none es) none es (server_of (session none es))
            (run-session none es)
    run-session none (completes c ∷ es) = run-session none es
    run-session (some (made, closes, cs)) (completes c ∷ es) =
        ap (λ s. run (some s) es) (sym (complete_all-append (fresh made closes) cs c))
        ∙ run-session (some (made, closes, cs ++ (c ∷ []))) es
