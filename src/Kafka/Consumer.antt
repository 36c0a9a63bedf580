-- ===== src/Kafka/Consumer.antt =====
-- producer_consumer_librdkafka/consumer/main.c: options, `initKafka`, the poll loop and the shutdown.
pub mod Behaviour
pub mod Shutdown
pub mod Main
use learn_framework.Common.{
  ℕ, zero, suc, ◌+◌, ◌≤◌, ◌<◌, ◌≡◌, refl, ap, Bool, true, false, not, ◌&&◌, ◌||◌, Option, none,
  some, List, [], ◌∷◌, ◌++◌, ◌==◌, arith, if◌then◌else◌, inl, inr, Bool-cases, is_some,
}
use learn_framework.Common.Int.{ℤ, pos, negsuc}

abbrev pub Text : Type 0
Text = List ℕ

-- The variables that the `getopt` loop of `main` sets.
pub record Options : Type 0 where
  pub brokers : Text
  pub group : Option Text
  pub topic : Option Text

-- One round of the `switch`: an option's letter and its argument.
unfoldable pub set_option : Options → ℕ × Text → Options
set_option o (c, arg) =
    if c == b'b'
    then record o { brokers = arg }
    else if c == b'g'
    then record o { group = some arg }
    else if c == b't'
    then record o { topic = some arg }
    else o

unfoldable pub parse_options : Options → List (ℕ × Text) → Options
unfolding set_option
parse_options o [] = o
parse_options o (x ∷ xs) = parse_options (set_option o x) xs

-- What `initKafka` sets in the configurations and in `topics`.
pub data Setting : Type 0 where
  termination_signal : Setting
  group_id : (group : Text) → Setting
  offset_store_method : Setting
  bootstrap_servers : (brokers : Text) → Setting
  topic_added : (topic : Text) → Setting

-- The answers of librdkafka to `initKafka`.
pub record InitAnswers : Type 0 where
  pub group_ok : Bool
  pub method_ok : Bool
  pub created : Bool
  pub subscribed : Bool

-- The return value, whether `rk` is not null, and what was set. There is no return value where
-- `rd_kafka_topic_partition_list_add` follows a null topic.
pub record Init : Type 0 where
  pub code : Option ℤ
  pub has_rk : Bool
  pub settings : List Setting

abbrev or_default : Text → Option Text → Text
or_default d none = d
or_default d (some t) = t

-- From `rd_kafka_topic_partition_list_add` on.
unfoldable pub subscribe : InitAnswers → List Setting → Option Text → Init
subscribe a set none = record { code = none; has_rk = true; settings = set }
subscribe a set (some t) = record {
  code = some (if a.subscribed then pos 1 else negsuc 0);
  has_rk = true;
  settings = set ++ (topic_added t ∷ []);
}

-- `default_group` is "rdkafka_consumer_example".
unfoldable pub init_kafka : Text → InitAnswers → Text → Option Text → Option Text → Init
unfolding subscribe
init_kafka default_group a brokers group topic =
    let set1 : List Setting = termination_signal ∷ group_id (or_default default_group group) ∷ [] in
    let set2 : List Setting = set1 ++ (offset_store_method ∷ []) in
    let failed : List Setting → Init =
      λ set. record { code = some (negsuc 0); has_rk = false; settings = set } in
    if not a.group_ok
    then failed set1
    else if not a.method_ok
    then failed set2
    else if not a.created
    then failed set2
    else subscribe a set2 topic

-- `!initKafka(…)`
unfoldable pub init_fails : ℤ → Bool
init_fails (pos n) = n == 0
init_fails (negsuc n) = false

pub data RespErr : Type 0 where
  no_error partition_eof unknown_partition unknown_topic : RespErr
  other_error : (code : ℕ) → RespErr

pub record Message : Type 0 where
  pub error : RespErr
  pub has_topic : Bool
  pub key : Text
  pub payload : Text

pub data Line : Type 0 where
  end_of_partition topic_error consumer_error message_head : Line
  key_line payload_line : (text : Text) → Line

-- The lines that a message gives, and whether it clears `run`.
unfoldable pub msg_consume : Message → List Line × Bool
msg_consume m = elim m.error [
  | no_error ↦ (
    message_head
        ∷ ((elim m.key [ [] ↦ [] | c ∷ cs ↦ key_line m.key ∷ [] ])
            ++ (payload_line m.payload ∷ [])),
    false,
  )
  | partition_eof ↦ (end_of_partition ∷ [], false)
  | unknown_partition ↦ ((if m.has_topic then topic_error else consumer_error) ∷ [], true)
  | unknown_topic ↦ ((if m.has_topic then topic_error else consumer_error) ∷ [], true)
  | other_error c ↦ ((if m.has_topic then topic_error else consumer_error) ∷ [], false)
]

-- A round of the poll loop: the SIGINTs up to the test of the message, the message of
-- `rd_kafka_consumer_poll` unless it times out, and the SIGINTs from its handling to the next test.
pub record Poll : Type 0 where
  pub early : ℕ
  pub message : Option Message
  pub late : ℕ

-- `run`, and the lines so far; `exited` by `exit(1)` in the handler.
pub record Loop : Type 0 where
  pub run : Bool
  pub lines : List Line
  pub exited : Bool

-- `stop`, the handler of SIGINT, without its `fclose (stdin)`: the program does not read stdin.
unfoldable pub stop : Loop → Loop
stop l = if l.run then record l { run = false } else record l { exited = true }

-- This many SIGINTs.
unfoldable pub signals : ℕ → Loop → Loop
unfolding stop
signals zero l = l
signals (suc n) l = signals n (stop l)

-- `if (rkmessage)`
unfoldable pub consume_polled : Option Message → Loop → Loop
unfolding msg_consume
consume_polled none l = l
consume_polled (some m) l =
    let (lines, ends) = msg_consume m in
    record l { run = l.run && not ends; lines = l.lines ++ lines }

unfoldable pub poll_round : Loop → Poll → Loop
unfolding signals consume_polled
poll_round l p =
    let l' = signals p.early l in
    if l'.exited then l' else signals p.late (consume_polled p.message l')

-- `while (run)`
unfoldable pub poll_loop : Loop → List Poll → Loop
unfolding poll_round
poll_loop l [] = l
poll_loop l (p ∷ ps) = let rest = poll_loop (poll_round l p) ps in if l.run then rest else l

-- A call of `rd_kafka_wait_destroyed`: whether it answers -1, and the SIGINTs in it and up to the
-- next test of `run`.
pub record Wait : Type 0 where
  pub again : Bool
  pub sigints : ℕ

-- `run` after this many SIGINTs, unless one exits. `run` is not negative here.
unfoldable pub interrupt : ℕ → ℕ → Option ℕ
interrupt zero run = some run
interrupt (suc n) zero = none
interrupt (suc n) (suc run) = interrupt n zero

-- The test of `run-- > 0` in the round behind call `i`, where `run` is not 0 or else the loop ends.
abbrev next_wait : ℕ → Option (ℤ × ℕ) → ℕ → Option (ℤ × ℕ)
next_wait i rest zero = some (negsuc 0, i + 1)
next_wait i rest (suc n) = rest

-- `while (run-- > 0 && rd_kafka_wait_destroyed(1000) == -1)` where `run` is `n` and the next call is
-- number `i`: the last value of `run`, and the number of the next call; `none` for an exit.
unfoldable pub wait_loop : (ℕ → Wait) → ℕ → ℕ → Option (ℤ × ℕ)
unfolding interrupt
wait_loop waits zero i = some (negsuc 0, i)
wait_loop waits (suc n) i =
    let rest = wait_loop waits n (i + 1) in
    elim (interrupt (waits i).sigints n) [
      | none ↦ none
      | some run ↦ if (waits i).again then next_wait i rest run else some (pos run, i + 1)
    ]

-- `run = 5`, the loop, and `if (run <= 0) rd_kafka_dump`: the calls made, and whether it dumps;
-- `none` for an exit.
unfoldable pub shutdown : (ℕ → Wait) → Option (ℕ × Bool)
unfolding wait_loop
shutdown waits = elim (wait_loop waits 5 0) [
  | none ↦ none
  | some (run, calls) ↦ some (calls, elim run [ pos n ↦ n == 0 | negsuc n ↦ true ])
]
