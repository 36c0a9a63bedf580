-- ===== src/Kafka/Producer/Interrupt.antt =====
-- producer_consumer_librdkafka/producer/main.c: the handler `stop` of SIGINT, which clears `run` and
-- closes the input, where the signal comes while the program is in the body of the loop or ahead of
-- its first round. The program then does not read again.
use learn_framework.Common.{
  ℕ, zero, suc, ◌≤◌, ◌≡◌, refl, some, List, [], ◌∷◌, arith, inl, inr, Option-cases, length, take,
  ok, err,
}
use learn_framework.Kafka.Producer.{
  Text, read_line, body, Answer, flushes, finished, Produced, after, send,
}
use learn_framework.Kafka.Producer.Main.{topic_handle, producer_handle, finish}
use learn_framework.Kafka.Lines.{Fits, join, deliver, body-line}
use learn_framework.Kafka.Delivery.{sent, nonblank, bursts, sent-deliver}

-- The loop, where the signal comes in its round of this number, and ahead of the first for 0.
unfoldable pub produce_until : ℕ → Text → List Answer → Produced
unfolding body
produce_until zero input answers = record { actions = flushes ∷ []; ending = finished }
produce_until (suc rounds) [] answers = record { actions = flushes ∷ []; ending = finished }
produce_until (suc rounds) (c ∷ cs) answers =
    let line = read_line 511 (c ∷ cs) in
    elim (body line.0 answers) [
      | err e ↦ record { actions = []; ending = e }
      | ok (acts, rest) ↦ after acts (produce_until rounds line.1 rest)
    ]

produce_until-deliver :
    (rounds : ℕ) (ls : List Text) (answers : List Answer)
    → Fits ls
    → produce_until rounds (join ls) answers ≡ deliver (take rounds ls) answers
unfolding produce_until join deliver
produce_until-deliver zero ls answers f = refl
produce_until-deliver (suc rounds) [] answers f = refl
produce_until-deliver (suc rounds) ([] ∷ ls) answers f =
    ground
      (arith, body-line [] (join ls) answers f.0 f.1, produce_until-deliver rounds ls answers f.2)
produce_until-deliver (suc rounds) ((d ∷ ds) ∷ ls) answers f =
    elim (Option-cases (send (d ∷ ds) answers)) [
      | inl e ↦ ground (arith, body-line (d ∷ ds) (join ls) answers f.0 f.1)
      | inr ((acts, rest), e) ↦ ground (
        arith,
        body-line (d ∷ ds) (join ls) answers f.0 f.1,
        produce_until-deliver rounds ls rest f.2,
      )
    ]

-- Where SIGINT comes in the body of a round, or ahead of the first, on an input of lines of at
-- most 510 bytes without a 0, and where librdkafka takes each message after its queue was full any number of times: the
-- program sends each nonblank line of the rounds up to that one, whole and in order, flushes,
-- destroys both handles and returns 0.
pub finish-produce_until :
    (rounds : ℕ) (ls : List Text) (ks : List ℕ)
    → Fits ls
    → length (nonblank (take rounds ls)) ≤ length ks
    → let r = finish (produce_until rounds (join ls) (bursts ks)) in
      (r.code ≡ some 0)
      × (sent r.actions ≡ nonblank (take rounds ls))
      × (r.destroyed ≡ topic_handle ∷ producer_handle ∷ [])
unfolding finish
finish-produce_until rounds ls ks f h =
    let (took, ends) = sent-deliver (take rounds ls) ks h in
    rw (produce_until-deliver rounds ls (bursts ks) f) (ground (arith, took, ends))
