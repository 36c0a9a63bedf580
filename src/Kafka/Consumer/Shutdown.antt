-- ===== src/Kafka/Consumer/Shutdown.antt =====
-- producer_consumer_librdkafka/consumer/main.c: the wait loop behind the close.
use learn_framework.Common.{
  ℕ, zero, suc, ◌+◌, ◌≡◌, refl, Bool, true, not, ◌&&◌, Option, none, some, ◌==◌, arith,
  if◌then◌else◌,
}
use learn_framework.Common.Int.{ℤ, pos, negsuc}
use learn_framework.Kafka.Consumer.{Wait, interrupt, wait_loop, shutdown}

-- From call `i` of `rd_kafka_wait_destroyed` on, of at most `n` more: a call that answers -1 without
-- a SIGINT leads to the next. The first other is the last: two SIGINTs exit, as does one in call
-- number `n`, and one elsewhere makes the program dump. Without one, it dumps behind call number `n`
-- alone, or where there is no such call.
unfoldable pub settles : (ℕ → Wait) → ℕ → ℕ → Option (ℕ × Bool)
settles waits zero i = some (i, true)
settles waits (suc n) i =
    let rest = settles waits n (i + 1) in
    let is_last = n == 0 in
    if (waits i).sigints == 0
    then (if (waits i).again then rest else some (i + 1, is_last))
    else if ((waits i).sigints == 1) && not is_last
    then some (i + 1, true)
    else none

-- What `shutdown` makes of the end of the loop.
abbrev dumps : Option (ℤ × ℕ) → Option (ℕ × Bool)
dumps none = none
dumps (some (run, calls)) = some (calls, elim run [ pos n ↦ n == 0 | negsuc n ↦ true ])

interrupt_lem :
    (s n : ℕ)
    → interrupt s n ≡ (if s == 0 then some n else if (s == 1) && not (n == 0) then some 0 else none)
unfolding interrupt
interrupt_lem zero n = refl
interrupt_lem (suc s) zero = ground arith
interrupt_lem (suc zero) (suc n) = ground arith
interrupt_lem (suc (suc s)) (suc n) = ground arith

wait_loop-settles : (waits : ℕ → Wait) (n i : ℕ) → dumps (wait_loop waits n i) ≡ settles waits n i
unfolding wait_loop settles
wait_loop-settles waits zero i = refl
wait_loop-settles waits (suc zero) i = rw (dumps, interrupt_lem (waits i).sigints 0) (ground arith)
wait_loop-settles waits (suc (suc n)) i =
    rw (dumps, interrupt_lem (waits i).sigints (suc n))
      (ground (arith, wait_loop-settles waits (suc n) (i + 1)))

pub shutdown_lem : (waits : ℕ → Wait) → shutdown waits ≡ settles waits 5 0
unfolding shutdown
shutdown_lem waits = wait_loop-settles waits 5 0
