-- ===== src/Kafka/ConsumerCpp/Main.antt =====
-- producer_consumer_librdkafka/consumer_cpp/main.cpp: the program on `CConsumer`.
use learn_framework.Common.{
  ◌≡◌, Bool, true, false, ◌&&◌, List, [], ◌∷◌, arith, if◌then◌else◌, Result, ok, err, Option, none,
  some, inl, inr, Bool-cases,
}
use learn_framework.Common.Int.{ℤ, pos}
use learn_framework.Kafka.ConsumerCpp.{
  Text, Fault, Consumer, construct, InitAnswers, init, start_consumer, through, Poll, consume,
}
use learn_framework.Kafka.ConsumerCpp.Consuming.{any_ends, last_good, consume-ends}

pub data Notice : Type 0 where
  init_failed starts exits : Notice

-- The notices of `main`, and the consumer at its end.
pub record Run : Type 0 where
  pub notices : List Notice
  pub client : Consumer

-- The branch behind the test of `Init`, where these are the messages up to the end of the loop.
unfoldable pub start_or_give_up : List Poll → Consumer × Bool → Result Fault Run
start_or_give_up ps (c, false) = ok (record { notices = init_failed ∷ exits ∷ []; client = c })
start_or_give_up ps (c, true) = elim (consume c ps) [
  | ok (c', answer) ↦ ok (record { notices = starts ∷ exits ∷ []; client = c' })
  | err e ↦ err e
]

-- `brokers` is "192.168.0.18:9092", `topics` "test_2" and `group` "1".
unfoldable pub main : Text → Text → Text → InitAnswers → List Poll → Result Fault Run
unfolding start_or_give_up
main brokers topics group a ps = elim (init a (construct brokers topics group (pos 0))) [
  | ok r ↦ start_or_give_up ps r
  | err e ↦ err e
]

-- The consumer behind a call that returns, or else `c`.
abbrev client_after : Consumer → Result Fault (Consumer × Bool) → Consumer
client_after c (ok r) = r.0
client_after c (err e) = c

-- Where both configurations, the consumer and the topic are made, `Init` sets the two pointers, and
-- leaves the offset and `run_` alone.
init-sets :
    (a : InitAnswers) (c : Consumer)
    → (a.conf_made && (a.tconf_made && (a.consumer_made && a.topic_made))) ≡ true
    → (init a c ≡ ok (client_after c (init a c), true))
      × ((client_after c (init a c)).run ≡ c.run)
      × ((client_after c (init a c)).last_offset ≡ c.last_offset)
      × ((client_after c (init a c)).has_consumer ≡ true)
      × ((client_after c (init a c)).has_topic ≡ true)
unfolding init start_consumer through
init-sets a c h = (ground arith, ground arith, ground arith, ground arith, ground arith)

-- The notices, the last offset, and whether a consumer is left that is not deleted; `none` for a
-- fault.
abbrev pub summary : Result Fault Run → Option (List Notice × ℤ × Bool)
summary (ok r) = some (r.notices, r.client.last_offset, r.client.has_consumer)
summary (err e) = none

started-ends :
    (c : Consumer) (ps : List Poll)
    → c.run ≡ true
    → c.has_consumer ≡ true
    → c.has_topic ≡ true
    → any_ends ps ≡ true
    → summary (start_or_give_up ps (c, true))
      ≡ some (starts ∷ exits ∷ [], last_good c.last_offset ps, false)
unfolding start_or_give_up
started-ends c ps run some_consumer some_topic e =
    let (c', answers, stopped, offset, no_topic, gone) =
      consume-ends c ps run some_consumer some_topic e in
    ground (arith, answers, offset, gone)

init_failed_or_null :
    (a : InitAnswers) (c : Consumer) (ps : List Poll)
    → (a.conf_made && (a.tconf_made && (a.consumer_made && a.topic_made))) ≡ false
    → summary (elim (init a c) [ ok r ↦ start_or_give_up ps r | err e ↦ err e ]) ≡ (
        if a.conf_made && a.tconf_made
        then none
        else some (
          init_failed ∷ exits ∷ [],
          c.last_offset,
          if a.conf_made then a.consumer_made else c.has_consumer,
        ))
unfolding init start_consumer through start_or_give_up
init_failed_or_null a c ps h = ground arith

-- Over messages of which one ends the loop, and whatever librdkafka answers to `Init`: where both
-- configurations, the consumer and the topic are made, the program keeps the offset of the last good
-- message up to the first that ends the loop, and has deleted the consumer. Where both
-- configurations are made and the consumer or the topic is not, it follows a null pointer. Where a
-- configuration is not made, it says so, its offset is 0, and a consumer that was made is left
-- undeleted.
pub summary-main :
    (brokers topics group : Text) (a : InitAnswers) (ps : List Poll)
    → any_ends ps ≡ true
    → summary (main brokers topics group a ps) ≡ (
        if a.conf_made && a.tconf_made
        then (if a.consumer_made && a.topic_made
            then some (starts ∷ exits ∷ [], last_good (pos 0) ps, false)
            else none)
        else some (init_failed ∷ exits ∷ [], pos 0, a.conf_made && a.consumer_made))
unfolding main construct
summary-main brokers topics group a ps e =
    let c = construct brokers topics group (pos 0) in
    elim (Bool-cases (a.conf_made && (a.tconf_made && (a.consumer_made && a.topic_made)))) [
      | inl made ↦
          let (answers, run, offset, some_consumer, some_topic) = init-sets a c made in
          let ends = started-ends (client_after c (init a c)) ps run some_consumer some_topic e in
          ground (arith, answers, offset, ends)
      | inr missing ↦ ground (arith, init_failed_or_null a c ps missing)
    ]
