-- ===== src/Kafka/Tests.antt =====
-- producer_consumer_librdkafka: the programs on short inputs.
use learn_framework.Common.{
  ℕ, ◌≡◌, refl, true, false, ◌&&◌, none, some, List, [], ◌∷◌, arith, if◌then◌else◌, take, ◌==◌,
}
use learn_framework.Common.Int.{pos}
use learn_framework.Kafka.Consumer.{
  Loop, Poll, Message, no_error, message_head, payload_line, poll_loop,
}
use learn_framework.Kafka.Consumer.Behaviour.{
  is_fatal as is_unknown, clears, ends as round_ends, exits as round_exits,
  any_ends as any_round_ends, exits_first, last_arg,
}
use learn_framework.Kafka.Consumer.Shutdown.{settles}
use learn_framework.Kafka.Consumer.Main.{main, Answers, expected, closed}
use learn_framework.Kafka.ConsumerCpp.Main.{starts, exits, init_failed, summary, summary-main}
use learn_framework.Kafka.Producer.Interrupt.{produce_until, finish-produce_until}
use learn_framework.Kafka.Producer.Main.{SetUp, is_set_up, obtained, sent-main}
use learn_framework.Kafka.ConsumerCpp
use learn_framework.Kafka.Producer
use learn_framework.Kafka.ConsumerCpp.{construct, init, consume}
use learn_framework.Kafka.ConsumerCpp.Consuming.{any_ends, last_good, ends, is_fatal}
use learn_framework.Kafka.Producer.{Text, enqueued, queue_full, finished, produce_all}
use learn_framework.Kafka.Lines.{Fits, join, deliver, produce_all-deliver}
use learn_framework.Kafka.Delivery.{sent, nonblank, bursts}

abbrev arguments : List (ℕ × Text)
arguments = (b'g', 49 ∷ []) ∷ (b'q', []) ∷ (b't', 116 ∷ []) ∷ (b'g', 50 ∷ []) ∷ []

-- A SIGINT comes in the third call of `rd_kafka_wait_destroyed`.
abbrev in_c : Answers
in_c = record {
  init = record { group_ok = true; method_ok = true; created = true; subscribed = false };
  ahead = 0;
  close_fails = false;
  closing = 0;
  waits = λ i. record { again = true; sigints = if i == 2 then 1 else 0 };
}

abbrev running : Loop
running = record { run = true; lines = []; exited = false }

abbrev times_out : ℕ → Poll
times_out n = record { early = 0; message = none; late = n }

abbrev brings : Message → Poll
brings m = record { early = 0; message = some m; late = 0 }

abbrev polls : List Poll
polls =
    times_out 0
    ∷ brings (record { error = no_error; has_topic = true; key = []; payload = 104 ∷ 105 ∷ [] })
    ∷ times_out 1
    ∷ times_out 0
    ∷ []

-- It dumps the handle behind the third wait.
expected_runs : (expected [] in_c arguments polls).end ≡ closed false 3 true
unfolding is_unknown clears round_ends round_exits any_round_ends exits_first settles last_arg
expected_runs = refl

-- A second SIGINT in the round exits.
poll_loop_exits : (poll_loop running (times_out 2 ∷ [])).exited ≡ true
unfolding poll_loop
poll_loop_exits = refl

poll_loop_runs : (poll_loop running polls).lines ≡ message_head ∷ payload_line (104 ∷ 105 ∷ []) ∷ []
unfolding poll_loop
poll_loop_runs = refl

abbrev answers : ConsumerCpp.InitAnswers
answers = record {
  conf_made = true;
  servers_ok = true;
  group_ok = false;
  consumer_made = true;
  tconf_made = true;
  reset_ok = true;
  topic_made = true;
  start_ok = false;
}

abbrev message_at : ConsumerCpp.ErrorCode → ℕ → ConsumerCpp.Poll
message_at e n = record {
  message = record { error = e; payload = []; offset = pos n };
  sigterm = false;
}

abbrev messages : List ConsumerCpp.Poll
messages =
    message_at ConsumerCpp.no_error 4
    ∷ message_at ConsumerCpp.timed_out 0
    ∷ message_at ConsumerCpp.no_error 5
    ∷ message_at ConsumerCpp.unknown_topic 6
    ∷ message_at ConsumerCpp.no_error 7
    ∷ []

summary-main_example : summary (ConsumerCpp.Main.main [] [] [] answers messages) ≡ (
    if true && true
    then (if true && true
        then some (starts ∷ exits ∷ [], last_good (pos 0) messages, false)
        else none)
    else some (init_failed ∷ exits ∷ [], pos 0, true && true))
unfolding any_ends ends is_fatal
summary-main_example = summary-main [] [] [] answers messages refl

abbrev texts : List Text
texts = (104 ∷ 105 ∷ []) ∷ [] ∷ (111 ∷ 107 ∷ []) ∷ []

texts-Fits : Fits texts
texts-Fits = omega arith

produce_all-deliver_example :
    produce_all (join texts) (queue_full ∷ enqueued ∷ enqueued ∷ [])
    ≡ deliver texts (queue_full ∷ enqueued ∷ enqueued ∷ [])
produce_all-deliver_example =
    produce_all-deliver texts (queue_full ∷ enqueued ∷ enqueued ∷ []) texts-Fits

abbrev all_set_up : SetUp
all_set_up = record { servers_ok = true; created = true; topic_created = true }

sent-main_example :
    ((Producer.Main.main 3 all_set_up (join texts) (bursts (2 ∷ 0 ∷ []))).code
      ≡ some (if is_set_up 3 all_set_up then 0 else 1))
    × (sent (Producer.Main.main 3 all_set_up (join texts) (bursts (2 ∷ 0 ∷ []))).actions
        ≡ (if is_set_up 3 all_set_up then nonblank texts else []))
    × ((Producer.Main.main 3 all_set_up (join texts) (bursts (2 ∷ 0 ∷ []))).destroyed
        ≡ obtained 3 all_set_up)
unfolding nonblank
sent-main_example = sent-main 3 all_set_up texts (2 ∷ 0 ∷ []) texts-Fits (omega arith)

-- The signal comes in the first round.
finish-produce_until_example :
    let r = Producer.Main.finish (produce_until 1 (join texts) (bursts (2 ∷ 0 ∷ []))) in
    (r.code ≡ some 0)
    × (sent r.actions ≡ nonblank (take 1 texts))
    × (r.destroyed ≡ Producer.Main.topic_handle ∷ Producer.Main.producer_handle ∷ [])
unfolding nonblank
finish-produce_until_example = finish-produce_until 1 texts (2 ∷ 0 ∷ []) texts-Fits (omega arith)
