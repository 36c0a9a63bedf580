-- ===== src/Kafka/ConsumerCpp.antt =====
-- producer_consumer_librdkafka/consumer_cpp/cconsumer.cpp: `CConsumer`. A pointer is whether it is not
-- null; a call through a null pointer is a fault.
pub mod Consuming
pub mod Main
use learn_framework.Common.{
  ℕ, Bool, true, false, not, List, [], ◌∷◌, ◌++◌, if◌then◌else◌, Result, ok, err, ◌>>=◌,
}
use learn_framework.Common.Int.{ℤ, pos}

abbrev pub Text : Type 0
Text = List ℕ

pub data Fault : Type 0 where
  null_consumer null_topic : Fault

pub data Line : Type 0 where
  conf_failed servers_failed group_failed consumer_failed tconf_failed reset_failed topic_failed
        start_failed consume_failed :
      Line
  message_length message_payload : (payload : Text) → Line
  end_of_queue : (last_offset : ℤ) → Line

-- The members that change, and the global `run_`.
pub record Consumer : Type 0 where
  pub brokers : Text
  pub topics : Text
  pub groupid : Text
  pub last_offset : ℤ  -- int64_t
  pub has_consumer : Bool
  pub has_topic : Bool
  pub offset : ℤ  -- int64_t
  pub run : Bool
  pub lines : List Line  -- in order

abbrev pub print : Line → Consumer → Consumer
print l c = record c { lines = c.lines ++ (l ∷ []) }

abbrev pub print_if : Bool → Line → Consumer → Consumer
print_if b l c = if b then print l c else c

-- The constructor with arguments, at the start of the program.
unfoldable pub construct : Text → Text → Text → ℤ → Consumer
construct brokers topic groupid offset = record {
  brokers = brokers;
  topics = topic;
  groupid = groupid;
  last_offset = pos 0;
  has_consumer = false;
  has_topic = false;
  offset = offset;
  run = true;
  lines = [];
}

-- The answers of librdkafka to `Init`.
pub record InitAnswers : Type 0 where
  pub conf_made : Bool
  pub servers_ok : Bool
  pub group_ok : Bool
  pub consumer_made : Bool
  pub tconf_made : Bool
  pub reset_ok : Bool
  pub topic_made : Bool
  pub start_ok : Bool

-- A call through `kafka_consumer_` with `topic_`: librdkafka follows both pointers.
unfoldable pub through : Consumer → Consumer × Bool → Result Fault (Consumer × Bool)
through c r =
    if not c.has_consumer then err null_consumer else (if c.has_topic then ok r else err null_topic)

-- `kafka_consumer_->start(topic_, partition_, offset_)`, and the end of `Init`.
unfoldable pub start_consumer : InitAnswers → Consumer → Result Fault (Consumer × Bool)
unfolding through
start_consumer a c = through c (print_if (not a.start_ok) start_failed c, true)

unfoldable pub init : InitAnswers → Consumer → Result Fault (Consumer × Bool)
unfolding start_consumer
init a c0 =
    if not a.conf_made
    then ok (print conf_failed c0, false)
    else (let c1 = print_if (not a.servers_ok) servers_failed c0 in
        let c2 = print_if (not a.group_ok) group_failed c1 in
        let c3 = record c2 { has_consumer = a.consumer_made } in
        let c4 = print_if (not a.consumer_made) consumer_failed c3 in
        if not a.tconf_made
        then ok (print tconf_failed c4, false)
        else (let c5 = print_if (not a.reset_ok) reset_failed c4 in
            let c6 = record c5 { has_topic = a.topic_made } in
            start_consumer a (print_if (not a.topic_made) topic_failed c6)))

pub data ErrorCode : Type 0 where
  timed_out no_error partition_eof unknown_topic unknown_partition other : ErrorCode

pub record Message : Type 0 where
  pub error : ErrorCode
  pub payload : Text
  pub offset : ℤ

abbrev pub fail : Consumer → Consumer
fail c = record (print consume_failed c) { run = false }

-- The `switch` of `consumer`.
unfoldable pub handle : ErrorCode → Message → Consumer → Consumer
handle timed_out m c = c
handle no_error m c =
    record (print (message_payload m.payload) (print (message_length m.payload) c)) {
      last_offset = m.offset;
    }
handle partition_eof m c =
    print (end_of_queue c.last_offset)
      (print (message_payload m.payload) (print (message_length m.payload) c))
handle unknown_topic m c = fail c
handle unknown_partition m c = fail c
handle other m c = fail c

unfoldable pub consumer : Message → Consumer → Consumer
unfolding handle
consumer m c = handle m.error m c

-- What the loop of `Consume` meets: a message, and whether `sigterm` runs before the next test.
pub record Poll : Type 0 where
  pub message : Message
  pub sigterm : Bool

unfoldable pub consume_round : Poll → Consumer → Consumer
unfolding consumer
consume_round p c =
    let c' = consumer p.message c in record c' { run = if p.sigterm then false else c'.run }

-- `while (run_)`, over the messages that come.
unfoldable pub consume_loop : Consumer → List Poll → Consumer
unfolding consume_round
consume_loop c [] = c
consume_loop c (p ∷ ps) =
    let rest = consume_loop (consume_round p c) ps in if c.run then rest else c

-- `stop`, the two `delete`s and `return true`.
unfoldable pub shut : Consumer → Result Fault (Consumer × Bool)
unfolding through
shut c = through c (record c { has_topic = false; has_consumer = false }, true)

-- `Consume`, where these are the messages up to the end of the loop. The call of `consume` in the
-- first round goes through `kafka_consumer_` with `topic_`, which the rounds leave alone.
unfoldable pub consume : Consumer → List Poll → Result Fault (Consumer × Bool)
unfolding consume_loop shut through
consume c ps = through c (c, true) >>= (λ r. shut (consume_loop r.0 ps))
