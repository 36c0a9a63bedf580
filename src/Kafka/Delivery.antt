-- ===== src/Kafka/Delivery.antt =====
-- producer_consumer_librdkafka/producer/main.c: which messages reach librdkafka's queue.
use learn_framework.Common.{
  ℕ, zero, suc, ◌≤◌, ◌≡◌, refl, ap, ◌∙◌, some, List, [], ◌∷◌, ◌++◌, arith, length,
}
use learn_framework.Kafka.Producer.{
  Text, Answer, enqueued, queue_full, failed, Action, produces, polls, flushes, finished, after,
  send, produce_all,
}
use learn_framework.Kafka.Lines.{Fits, join, deliver, produce_all-deliver}

-- The messages that librdkafka took.
unfoldable pub sent : List Action → List Text
sent [] = []
sent (produces m enqueued ∷ acts) = m ∷ sent acts
sent (produces m queue_full ∷ acts) = sent acts
sent (produces m failed ∷ acts) = sent acts
sent (polls t ∷ acts) = sent acts
sent (flushes ∷ acts) = sent acts

unfoldable pub nonblank : List Text → List Text
nonblank [] = []
nonblank ([] ∷ ls) = nonblank ls
nonblank ((d ∷ ds) ∷ ls) = (d ∷ ds) ∷ nonblank ls

-- Answers that take each message after the queue was full so many times.
pub full_then_enqueued : ℕ → List Answer → List Answer
full_then_enqueued zero rest = enqueued ∷ rest
full_then_enqueued (suc k) rest = queue_full ∷ full_then_enqueued k rest

unfoldable pub bursts : List ℕ → List Answer
bursts [] = []
bursts (k ∷ ks) = full_then_enqueued k (bursts ks)

attempts : Text → ℕ → List Action
attempts m zero = produces m enqueued ∷ polls 0 ∷ []
attempts m (suc k) = produces m queue_full ∷ polls 1000 ∷ attempts m k

send-burst :
    (m : Text) (k : ℕ) (rest : List Answer)
    → send m (full_then_enqueued k rest) ≡ some (attempts m k, rest)
unfolding send full_then_enqueued attempts
send-burst m zero rest = refl
send-burst m (suc k) rest = ground (arith, send-burst m k rest)

sent-attempts :
    (m : Text) (k : ℕ) (acts : List Action) → sent (attempts m k ++ acts) ≡ m ∷ sent acts
unfolding sent attempts
sent-attempts m zero acts = refl
sent-attempts m (suc k) acts = sent-attempts m k acts

deliver-burst :
    (d : ℕ) (ds : Text) (ls : List Text) (k : ℕ) (ks : List ℕ)
    → deliver ((d ∷ ds) ∷ ls) (bursts (k ∷ ks))
      ≡ after (attempts (d ∷ ds) k) (deliver ls (bursts ks))
unfolding deliver bursts
deliver-burst d ds ls k ks = rw (send-burst (d ∷ ds) k (bursts ks), deliver) refl

pub sent-deliver :
    (ls : List Text) (ks : List ℕ)
    → length (nonblank ls) ≤ length ks
    → (sent (deliver ls (bursts ks)).actions ≡ nonblank ls)
      × ((deliver ls (bursts ks)).ending ≡ finished)
unfolding sent nonblank deliver
sent-deliver [] ks h = (refl, refl)
sent-deliver ([] ∷ ls) ks h = sent-deliver ls ks h
sent-deliver ((d ∷ ds) ∷ ls) [] h = absurd (omega arith)
sent-deliver ((d ∷ ds) ∷ ls) (k ∷ ks) h =
    let (took, ends) = sent-deliver ls ks (omega arith) in
    rw (deliver-burst d ds ls k ks)
      (sent-attempts (d ∷ ds) k (deliver ls (bursts ks)).actions ∙ ap (◌∷◌ (d ∷ ds)) took, ends)

-- On an input of lines of at most 510 bytes without a 0, where librdkafka takes each message after it has found
-- its queue full any number of times, the program ends, and the messages taken are the lines that are
-- not empty, each once and in order.
pub sent-produce_all :
    (ls : List Text) (ks : List ℕ)
    → Fits ls
    → length (nonblank ls) ≤ length ks
    → (sent (produce_all (join ls) (bursts ks)).actions ≡ nonblank ls)
      × ((produce_all (join ls) (bursts ks)).ending ≡ finished)
sent-produce_all ls ks f h = rw (produce_all-deliver ls (bursts ks) f) (sent-deliver ls ks h)
