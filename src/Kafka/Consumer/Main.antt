-- ===== src/Kafka/Consumer/Main.antt =====
-- producer_consumer_librdkafka/consumer/main.c: `main`, from the options to the shutdown. The SIGUSR1
-- handler, which dumps `rk`, is left out.
use learn_framework.Common.{
  ℕ, Bool, true, false, not, ◌&&◌, none, some, List, [], if◌then◌else◌, is_some, ltb,
}
use learn_framework.Kafka.Consumer.{
  Text, Options, parse_options, Setting, InitAnswers, Init, init_kafka, init_fails, Poll, Line,
  Loop, signals, poll_loop, Wait, shutdown,
}
use learn_framework.Kafka.Consumer.Behaviour.{
  last_arg, lines_until, any_ends, exits_first, has_handle, settings_of,
}
use learn_framework.Kafka.Consumer.Shutdown.{settles}

-- What librdkafka answers in a run of the program, and the SIGINTs outside the poll loop: `ahead` come
-- at the end of `initKafka`, `closing` come between the loop and `run = 5`.
pub record Answers : Type 0 where
  pub init : InitAnswers
  pub ahead : ℕ
  pub close_fails : Bool
  pub closing : ℕ
  pub waits : ℕ → Wait

-- Where a run stands when its polls are used up: it has given librdkafka a null topic or a null
-- handle, it has exited within the handler, it still polls, or it has shut down: whether the close
-- failed, the calls of `rd_kafka_wait_destroyed`, and whether it dumped the handle.
pub data End : Type 0 where
  null_topic null_handle exited polling : End
  closed : (close_failed : Bool) (wait_calls : ℕ) (dumps : Bool) → End

pub record Run : Type 0 where
  pub settings : List Setting
  pub lines : List Line
  pub end : End

-- The locals of `main` before the `getopt` loop; `brokers` is "localhost::9092".
abbrev pub initial_options : Text → Options
initial_options brokers = record { brokers = brokers; group = none; topic = none }

-- The label `done`, with the handle that `initKafka` left.
unfoldable pub done : Answers → Init → Loop → Run
unfolding shutdown signals
done a i l = record {
  settings = i.settings;
  lines = l.lines;
  end =
      if not i.has_rk
      then null_handle
      else if (signals a.closing l).exited
      then exited
      else (elim (shutdown a.waits) [
        | none ↦ exited
        | some (calls, dumps) ↦ closed a.close_fails calls dumps
      ]);
}

-- `while (run)`, and what follows. The first poll of a null handle is the end of the program.
unfoldable pub consume_all : Answers → Init → Loop → List Poll → Run
unfolding poll_loop done
consume_all a i start ps =
    let stays : List Line → End → Run =
      λ lines end. record { settings = i.settings; lines = lines; end = end } in
    let l = poll_loop start ps in
    if start.run && not i.has_rk
    then stays start.lines null_handle
    else if l.exited
    then stays l.lines exited
    else if l.run
    then stays l.lines polling
    else done a i l

-- `main` behind `initKafka`.
unfoldable pub go_on : Answers → Init → List Poll → Run
unfolding signals init_fails done consume_all
go_on a i ps =
    let l = signals a.ahead (record { run = true; lines = []; exited = false }) in
    let stays : End → Run = λ end. record { settings = i.settings; lines = []; end = end } in
    elim i.code [
      | none ↦ stays null_topic
      | some code ↦
          if l.exited
          then stays exited
          else if init_fails code
          then done a i l
          else consume_all a i l ps
    ]

unfoldable pub main : Text → Text → Answers → List (ℕ × Text) → List Poll → Run
unfolding init_kafka parse_options go_on
main default_brokers default_group a args ps =
    let o = parse_options (initial_options default_brokers) args in
    go_on a (init_kafka default_group a.init o.brokers o.group o.topic) ps

-- The end behind the poll loop.
abbrev pub shut_down : Answers → End
shut_down a = if ltb 0 a.closing then exited else (elim (settles a.waits 5 0) [
  | none ↦ exited
  | some (calls, dumps) ↦ closed a.close_fails calls dumps
])

-- Where a run ends that meets these polls, where `has_topic` says that there is a `-t`.
abbrev pub end_of : Answers → Bool → List Poll → End
end_of a has_topic ps =
    if has_handle a.init && not has_topic
    then null_topic
    else if ltb 1 a.ahead
    then exited
    else if not (has_handle a.init)
    then null_handle
    else if ltb 0 a.ahead
    then shut_down a
    else if exits_first ps
    then exited
    else if any_ends ps
    then shut_down a
    else polling

-- The run of `main` with these options, these answers of librdkafka and these SIGINTs.
abbrev pub expected : Text → Answers → List (ℕ × Text) → List Poll → Run
expected default_group a args ps =
    let topic = last_arg some b't' none args in
    record {
      settings = settings_of default_group a.init (last_arg some b'g' none args) topic;
      lines =
          if has_handle a.init && (is_some topic && not (ltb 0 a.ahead))
          then lines_until ps
          else [];
      end = end_of a (is_some topic) ps;
    }
