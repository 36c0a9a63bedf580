-- ===== src/Kafka/Consumer/Behaviour.antt =====
-- producer_consumer_librdkafka/consumer/main.c: what the consumer does with its options, the polls and
-- the answers of librdkafka.
use learn_framework.Common.{
  ℕ, zero, suc, ◌+◌, ◌≡◌, refl, sym, Bool, true, false, not, ◌&&◌, ◌||◌, Option, none, some,
  is_some, List, [], ◌∷◌, ◌++◌, ◌==◌, arith, if◌then◌else◌, inl, inr, Bool-cases, ltb,
}
use learn_framework.Common.Int.{ℤ}
use mathlib.Core.List.{append-nil, append_assoc}
use learn_framework.Kafka.Consumer.{
  Text, Options, parse_options, set_option, InitAnswers, Setting, termination_signal, group_id,
  offset_store_method, topic_added, or_default, init_kafka, subscribe, init_fails, Loop, Poll,
  RespErr, no_error, partition_eof, unknown_partition, unknown_topic, other_error, Message, Line,
  end_of_partition, topic_error, consumer_error, message_head, key_line, payload_line, signals,
  stop, consume_polled, msg_consume, poll_round, poll_loop,
}

-- The argument of the last option with this letter, or else `d`.
unfoldable pub last_arg {ℓ} : {A : Type ℓ} → (Text → A) → ℕ → A → List (ℕ × Text) → A
last_arg f c d [] = d
last_arg f c d ((x, arg) ∷ xs) = last_arg f c (if x == c then f arg else d) xs

-- Of each of the three options the last use counts, and other options change nothing.
pub parse_options-last :
    (o : Options) (xs : List (ℕ × Text))
    → ((parse_options o xs).brokers ≡ last_arg (λ t. t) b'b' o.brokers xs)
      × ((parse_options o xs).group ≡ last_arg some b'g' o.group xs)
      × ((parse_options o xs).topic ≡ last_arg some b't' o.topic xs)
unfolding parse_options last_arg
parse_options-last o [] = (refl, refl, refl)
parse_options-last o ((c, arg) ∷ xs) =
    let (b, g, t) = parse_options-last (set_option o (c, arg)) xs in
    (ground (arith, b), ground (arith, g), ground (arith, t))

-- An error clears `run`: the partition or the topic is unknown.
unfoldable pub is_fatal : RespErr → Bool
is_fatal unknown_partition = true
is_fatal unknown_topic = true
is_fatal _ = false

-- The lines on an error, where `at_topic` says that it is at a topic.
unfoldable pub error_lines : (at_topic : Bool) → RespErr → Text → Text → List Line
error_lines at_topic no_error [] payload = message_head ∷ payload_line payload ∷ []
error_lines at_topic no_error (x ∷ key) payload =
    message_head ∷ key_line (x ∷ key) ∷ payload_line payload ∷ []
error_lines at_topic partition_eof key payload = end_of_partition ∷ []
error_lines true _ key payload = topic_error ∷ []
error_lines false _ key payload = consumer_error ∷ []

unfoldable pub clears : Option Message → Bool
clears none = false
clears (some m) = is_fatal m.error

unfoldable pub lines_of : Option Message → List Line
lines_of none = []
lines_of (some m) = error_lines m.has_topic m.error m.key m.payload

-- A round after which the loop does not go on: its message clears `run`, or a SIGINT comes.
unfoldable pub ends : Poll → Bool
ends p = clears p.message || ltb 0 (p.early + p.late)

-- A round in which the program exits: two SIGINTs come, or one behind a message that clears `run`.
unfoldable pub exits : Poll → Bool
exits p = ltb 1 (p.early + p.late) || (clears p.message && ltb 0 p.late)

-- The lines of the rounds up to the first that ends the loop, its own included unless two SIGINTs
-- come ahead of them.
unfoldable pub lines_until : List Poll → List Line
lines_until [] = []
lines_until (p ∷ ps) =
    let rest = lines_until ps in
    (if ltb p.early 2 then lines_of p.message else []) ++ (if ends p then [] else rest)

unfoldable pub any_ends : List Poll → Bool
any_ends [] = false
any_ends (p ∷ ps) = ends p || any_ends ps

-- The first round that ends the loop exits.
unfoldable pub exits_first : List Poll → Bool
exits_first [] = false
exits_first (p ∷ ps) = let rest = exits_first ps in if ends p then exits p else rest

msg_consume-by_error :
    (e : RespErr) (t : Bool) (key payload : Text)
    → msg_consume (record { error = e; has_topic = t; key = key; payload = payload })
      ≡ (error_lines t e key payload, is_fatal e)
unfolding msg_consume is_fatal error_lines
msg_consume-by_error no_error t [] x = refl
msg_consume-by_error no_error t (k ∷ ks) x = refl
msg_consume-by_error partition_eof t k x = refl
msg_consume-by_error unknown_partition true k x = refl
msg_consume-by_error unknown_partition false k x = refl
msg_consume-by_error unknown_topic true k x = refl
msg_consume-by_error unknown_topic false k x = refl
msg_consume-by_error (other_error c) true k x = refl
msg_consume-by_error (other_error c) false k x = refl

consume_polled_lem :
    (o : Option Message) (l : Loop)
    → consume_polled o l
      ≡ record { run = l.run && not (clears o); lines = l.lines ++ lines_of o; exited = l.exited }
unfolding consume_polled clears lines_of
consume_polled_lem none l = ground (arith, append-nil l.lines)
consume_polled_lem (some m) l =
    ground (arith, msg_consume-by_error m.error m.has_topic m.key m.payload)

-- SIGINTs where `run` is clear, and from any state: the first clears `run`, each other exits.
signals-clear :
    (n : ℕ) (exited : Bool) (lines : List Line)
    → signals n (record { run = false; lines = lines; exited = exited })
      ≡ record { run = false; lines = lines; exited = exited || ltb 0 n }
unfolding signals stop
signals-clear zero exited lines = ground arith
signals-clear (suc n) exited lines = ground (arith, signals-clear n true lines)

pub signals_lem :
    (n : ℕ) (run exited : Bool) (lines : List Line)
    → signals n (record { run = run; lines = lines; exited = exited }) ≡ record {
      run = run && not (ltb 0 n);
      lines = lines;
      exited = exited || (ltb 1 n || (not run && ltb 0 n));
    }
unfolding signals stop
signals_lem n false exited lines = ground (arith, signals-clear n exited lines)
signals_lem zero true exited lines = ground arith
signals_lem (suc n) true exited lines = ground (arith, signals-clear n exited lines)

poll_round_lem :
    (l : Loop) (p : Poll)
    → l.run ≡ true
    → l.exited ≡ false
    → poll_round l p ≡ record {
      run = not (ends p);
      lines = l.lines ++ (if ltb p.early 2 then lines_of p.message else []);
      exited = exits p;
    }
unfolding poll_round ends exits
poll_round_lem l p h e =
    let E = p.early in
    let lines = l.lines ++ lines_of p.message in
    rw
      (
        signals_lem E l.run l.exited l.lines,
        h,
        e,
        consume_polled_lem p.message
            (record { run = not (ltb 0 E); lines = l.lines; exited = ltb 1 E || false }),
        signals_lem p.late (not (ltb 0 E) && not (clears p.message)) (ltb 1 E || false) lines,
      )
      (ground (arith, append-nil l.lines))

pub poll_loop-stopped : (l : Loop) (ps : List Poll) → l.run ≡ false → poll_loop l ps ≡ l
unfolding poll_loop
poll_loop-stopped l [] h = refl
poll_loop-stopped l (p ∷ ps) h = simp h refl

poll_loop-next :
    (l : Loop) (p : Poll) (ps : List Poll)
    → l.run ≡ true
    → poll_loop l (p ∷ ps) ≡ poll_loop (poll_round l p) ps
unfolding poll_loop
poll_loop-next l p ps h = simp h refl

ends-exits : (p : Poll) → ends p ≡ false → exits p ≡ false
unfolding ends exits
ends-exits p h = ground arith

-- The loop, once it runs, prints the lines of just the rounds up to the first that ends it, stops
-- exactly if there is one, and exits exactly if that one does.
pub poll_loop-until :
    (ps : List Poll) (l : Loop)
    → l.run ≡ true
    → l.exited ≡ false
    → ((poll_loop l ps).lines ≡ l.lines ++ lines_until ps)
      × ((poll_loop l ps).run ≡ not (any_ends ps))
      × ((poll_loop l ps).exited ≡ exits_first ps)
unfolding poll_loop lines_until any_ends exits_first
poll_loop-until [] l h e = (sym (append-nil l.lines), h, e)
poll_loop-until (p ∷ ps) l h e = elim (Bool-cases (ends p)) [
  | inl c ↦ ground (
    arith,
    poll_loop-next l p ps h,
    poll_round_lem l p h e,
    poll_loop-stopped (poll_round l p) ps,
    append-nil (if ltb p.early 2 then lines_of p.message else []),
  )
  | inr c ↦ ground (
    arith,
    poll_loop-next l p ps h,
    poll_round_lem l p h e,
    ends-exits p c,
    poll_loop-until ps (poll_round l p),
    append_assoc l.lines (if ltb p.early 2 then lines_of p.message else []) (lines_until ps),
  )
]

-- The handle exists.
abbrev pub has_handle : InitAnswers → Bool
has_handle a = a.group_ok && (a.method_ok && a.created)

-- What `initKafka` sets: the group, or the default one, never the brokers, and the topic.
abbrev pub settings_of : Text → InitAnswers → Option Text → Option Text → List Setting
settings_of d a group topic =
    termination_signal
    ∷ group_id (or_default d group)
    ∷ ((if a.group_ok then offset_store_method ∷ [] else [])
        ++ (if has_handle a then elim topic [ none ↦ [] | some t ↦ topic_added t ∷ [] ] else []))

-- `initKafka` returns unless it has a handle and no topic. Its answer is never 0, and `rk` is set
-- exactly if both settings went well and the consumer was created.
pub init_kafka_lem :
    (d : Text) (a : InitAnswers) (brokers : Text) (group topic : Option Text)
    → let i = init_kafka d a brokers group topic in
      (i.settings ≡ settings_of d a group topic)
      × (i.has_rk ≡ has_handle a)
      × (is_some i.code ≡ (not (has_handle a) || is_some topic))
      × ((n : ℤ) → i.code ≡ some n → init_fails n ≡ false)
unfolding init_fails init_kafka subscribe
init_kafka_lem d a brokers group none =
    (ground arith, ground arith, ground arith, λ n h. ground (arith, h))
init_kafka_lem d a brokers group (some t) =
    (ground arith, ground arith, ground arith, λ n h. ground (arith, h))
