-- ===== src/Kafka/Producer/Main.antt =====
-- producer_consumer_librdkafka/producer/main.c: `main` around its loop: the arguments, the set-up, and
-- the handles that it destroys. The two lines that print the arguments are left out.
use learn_framework.Common.{
  ℕ, ◌≤◌, ◌≡◌, refl, Bool, not, ◌&&◌, Option, none, some, List, [], ◌∷◌, ◌==◌, arith, if◌then◌else◌,
  length,
}
use learn_framework.Kafka.Producer.{
  Text, Answer, Action, finished, fault, unfinished, Produced, produce_all,
}
use learn_framework.Kafka.Lines.{Fits, join}
use learn_framework.Kafka.Delivery.{sent, nonblank, bursts, sent-produce_all}

-- The answers of librdkafka to the set-up.
pub record SetUp : Type 0 where
  pub servers_ok : Bool
  pub created : Bool
  pub topic_created : Bool

pub data Handle : Type 0 where
  producer_handle topic_handle : Handle

pub data Notice : Type 0 where
  usage servers_failed producer_failed topic_failed flushing : Notice

-- What a run does; `code` is `none` where it does not return.
pub record Run : Type 0 where
  pub notices : List Notice
  pub actions : List Action
  pub destroyed : List Handle
  pub code : Option ℕ

abbrev pub gives_up : Notice → List Handle → Run
gives_up n destroyed = record {
  notices = n ∷ [];
  actions = [];
  destroyed = destroyed;
  code = some 1;
}

-- Behind the loop: the flush is the last of its actions.
unfoldable pub finish : Produced → Run
finish p =
    let stuck : Run = record { notices = []; actions = p.actions; destroyed = []; code = none } in
    elim p.ending [
      | finished ↦ record {
        notices = flushing ∷ [];
        actions = p.actions;
        destroyed = topic_handle ∷ producer_handle ∷ [];
        code = some 0;
      }
      | fault ↦ stuck
      | unfinished ↦ stuck
    ]

unfoldable pub main : ℕ → SetUp → Text → List Answer → Run
unfolding finish
main argc s input answers =
    if not (argc == 3)
    then gives_up usage []
    else if not s.servers_ok
    then gives_up servers_failed []
    else if not s.created
    then gives_up producer_failed []
    else if not s.topic_created
    then gives_up topic_failed (producer_handle ∷ [])
    else finish (produce_all input answers)

-- The handles that librdkafka gave out, the last first.
abbrev pub obtained : ℕ → SetUp → List Handle
obtained argc s =
    if (argc == 3) && (s.servers_ok && s.created)
    then (if s.topic_created then topic_handle ∷ producer_handle ∷ [] else producer_handle ∷ [])
    else []

abbrev pub is_set_up : ℕ → SetUp → Bool
is_set_up argc s = (argc == 3) && (s.servers_ok && (s.created && s.topic_created))

-- On an input of lines of at most 510 bytes without a 0, where librdkafka takes each message after it has found
-- its queue full any number of times, the program returns, with 0 exactly if it got two arguments and
-- each step of the set-up went well. Then the messages taken are the lines that are not empty, each
-- once and in order, else there are none. In any case it destroys just the handles that it got, the
-- last first.
pub sent-main :
    (argc : ℕ) (s : SetUp) (ls : List Text) (ks : List ℕ)
    → Fits ls
    → length (nonblank ls) ≤ length ks
    → ((main argc s (join ls) (bursts ks)).code ≡ some (if is_set_up argc s then 0 else 1))
      × (sent (main argc s (join ls) (bursts ks)).actions
          ≡ (if is_set_up argc s then nonblank ls else []))
      × ((main argc s (join ls) (bursts ks)).destroyed ≡ obtained argc s)
unfolding main finish
sent-main argc s ls ks f h =
    let (took, ends) = sent-produce_all ls ks f h in
    let none_sent : sent [] ≡ [] = unfold sent in refl in
    (ground (arith, ends), ground (arith, ends, took, none_sent), ground (arith, ends))
