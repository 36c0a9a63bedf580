-- ===== src/Kafka/ConsumerCpp/Consuming.antt =====
-- producer_consumer_librdkafka/consumer_cpp/cconsumer.cpp: what `Init` and `Consume` come to.
use learn_framework.Common.{
  ◌≡◌, refl, Bool, true, false, not, ◌&&◌, ◌||◌, Option, none, some, List, [], ◌∷◌, arith,
  if◌then◌else◌, inl, inr, Bool-cases, Result, ok, err,
}
use learn_framework.Common.Int.{ℤ}
use learn_framework.Kafka.ConsumerCpp.{
  Fault, Consumer, InitAnswers, init, start_consumer, through, ErrorCode, timed_out, no_error,
  partition_eof, unknown_topic, unknown_partition, other, Message, handle, consumer, Poll,
  consume_round, consume_loop, shut, consume,
}

-- What a call that returns answers; `none` for a fault.
abbrev pub answer : Result Fault (Consumer × Bool) → Option Bool
answer (ok r) = some r.1
answer (err e) = none

-- Whatever librdkafka answers, `Init` answers false exactly if one of the two configurations cannot
-- be made. If both can and the consumer or the topic cannot, it follows a null pointer. In all other
-- cases it answers true, also where a setting or the start has failed.
pub answer-init :
    (a : InitAnswers) (c : Consumer)
    → answer (init a c) ≡ (
        if a.conf_made && a.tconf_made
        then (if a.consumer_made && a.topic_made then some true else none)
        else some false)
unfolding init start_consumer through
answer-init a c = ground arith

-- The errors at which the loop ends.
unfoldable pub is_fatal : ErrorCode → Bool
is_fatal timed_out = false
is_fatal no_error = false
is_fatal partition_eof = false
is_fatal _ = true

unfoldable pub ends : Poll → Bool
ends p = p.sigterm || is_fatal p.message.error

unfoldable pub any_ends : List Poll → Bool
any_ends [] = false
any_ends (p ∷ ps) = ends p || any_ends ps

abbrev pub offset_after : Message → ErrorCode → ℤ → ℤ
offset_after m no_error o = m.offset
offset_after m _ o = o

-- The offset of the last good message up to the first that ends the loop, or else `o`.
unfoldable pub last_good : ℤ → List Poll → ℤ
last_good o [] = o
last_good o (p ∷ ps) =
    let o' = offset_after p.message p.message.error o in
    let rest = last_good o' ps in if ends p then o' else rest

handle-effect :
    (e : ErrorCode) (m : Message) (c : Consumer)
    → ((handle e m c).run ≡ (c.run && not (is_fatal e)))
      × ((handle e m c).last_offset ≡ offset_after m e c.last_offset)
      × ((handle e m c).has_consumer ≡ c.has_consumer)
      × ((handle e m c).has_topic ≡ c.has_topic)
unfolding handle is_fatal
handle-effect timed_out m c = ground arith
handle-effect no_error m c = ground arith
handle-effect partition_eof m c = ground arith
handle-effect unknown_topic m c = ground arith
handle-effect unknown_partition m c = ground arith
handle-effect other m c = ground arith

consume_round-effect :
    (p : Poll) (c : Consumer)
    → c.run ≡ true
    → ((consume_round p c).run ≡ not (ends p))
      × ((consume_round p c).last_offset ≡ offset_after p.message p.message.error c.last_offset)
      × ((consume_round p c).has_consumer ≡ c.has_consumer)
      × ((consume_round p c).has_topic ≡ c.has_topic)
unfolding consume_round consumer ends
consume_round-effect p c h = ground (arith, handle-effect p.message.error p.message c)

consume_loop-stopped : (c : Consumer) (ps : List Poll) → c.run ≡ false → consume_loop c ps ≡ c
unfolding consume_loop
consume_loop-stopped c [] h = refl
consume_loop-stopped c (p ∷ ps) h = simp h refl

consume_loop-next :
    (c : Consumer) (p : Poll) (ps : List Poll)
    → c.run ≡ true
    → consume_loop c (p ∷ ps) ≡ consume_loop (consume_round p c) ps
unfolding consume_loop
consume_loop-next c p ps h = simp h refl

consume_loop-effect :
    (ps : List Poll) (c : Consumer)
    → c.run ≡ true
    → ((consume_loop c ps).run ≡ not (any_ends ps))
      × ((consume_loop c ps).last_offset ≡ last_good c.last_offset ps)
      × ((consume_loop c ps).has_consumer ≡ c.has_consumer)
      × ((consume_loop c ps).has_topic ≡ c.has_topic)
unfolding consume_loop any_ends last_good
consume_loop-effect [] c h = (h, refl, refl, refl)
consume_loop-effect (p ∷ ps) c h = elim (Bool-cases (ends p)) [
  | inl e ↦ ground (
    arith,
    consume_loop-next c p ps h,
    consume_round-effect p c h,
    consume_loop-stopped (consume_round p c) ps,
  )
  | inr e ↦ ground (
    arith,
    consume_loop-next c p ps h,
    consume_round-effect p c h,
    consume_loop-effect ps (consume_round p c),
  )
]

-- With a consumer and a topic and while `run_` is set, `Consume` over messages of which one ends the loop answers
-- true: `run_` is then clear, `last_offset_` is that of the last good message up to the first that
-- ends the loop, if there is one, and the topic and the consumer are deleted.
pub consume-ends :
    (c : Consumer) (ps : List Poll)
    → c.run ≡ true
    → c.has_consumer ≡ true
    → c.has_topic ≡ true
    → any_ends ps ≡ true
    → (c' : Consumer) × (consume c ps ≡ ok (c', true))
      × (c'.run ≡ false)
      × (c'.last_offset ≡ last_good c.last_offset ps)
      × (c'.has_topic ≡ false)
      × (c'.has_consumer ≡ false)
unfolding consume shut through
consume-ends c ps h some_consumer some_topic e = (
  record (consume_loop c ps) { has_topic = false; has_consumer = false },
  ground (arith, consume_loop-effect ps c h),
  ground (arith, consume_loop-effect ps c h),
  (consume_loop-effect ps c h).1,
  refl,
  refl,
)
