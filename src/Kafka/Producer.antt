-- ===== src/Kafka/Producer.antt =====
-- producer_consumer_librdkafka/producer/main.c: the lines of standard input become messages. Here `run`
-- stays 1 until the input ends; Kafka/Producer/Interrupt has SIGINT.
pub mod Main
pub mod Interrupt
use learn_framework.Common.{
  ℕ, zero, suc, Option, none, some, List, [], ◌∷◌, ◌++◌, ◌==◌, if◌then◌else◌, length, Result, ok,
  err,
}

abbrev pub Text : Type 0
Text = List ℕ

-- `fgets` into a buffer with room for `room` bytes and the end mark: what it reads, and what is left.
unfoldable pub read_line : ℕ → Text → Text × Text
read_line zero input = ([], input)
read_line (suc room) [] = ([], [])
read_line (suc room) (c ∷ input) =
    let rest = read_line room input in if c == b'\n' then (c ∷ [], input) else (c ∷ rest.0, rest.1)

-- `strlen`: the bytes up to the first that is 0.
unfoldable pub c_string : Text → Text
c_string [] = []
c_string (c ∷ cs) = let rest = c_string cs in if c == 0 then [] else c ∷ rest

-- `if (buf[len-1] == '\n') buf[--len] = '\0'` for a text that is not empty, its first byte apart.
unfoldable pub strip : ℕ → Text → Text
strip c [] = if c == b'\n' then [] else c ∷ []
strip c (d ∷ cs) = c ∷ strip d cs

-- `none` where the text is empty, and `buf[len-1]` lies ahead of the buffer.
unfoldable pub trim : Text → Option Text
unfolding strip
trim [] = none
trim (c ∷ cs) = some (strip c cs)

-- An answer of `rd_kafka_produce`.
pub data Answer : Type 0 where
  enqueued queue_full failed : Answer

-- What the program does with librdkafka, in order.
pub data Action : Type 0 where
  produces : (message : Text) → Answer → Action
  polls : (timeout_ms : ℕ) → Action
  flushes : Action

-- How the loop ended: at the end of the input, in undefined behaviour, or within the given fuel and
-- answers not at all.
pub data Ending : Type 0 where
  finished fault unfinished : Ending

pub record Produced : Type 0 where
  pub actions : List Action
  pub ending : Ending

abbrev pub after : List Action → Produced → Produced
after acts p = record p { actions = acts ++ p.actions }

-- The label `retry`: a full queue is polled for a second, and the message is sent again.
unfoldable pub send : Text → List Answer → Option (List Action × List Answer)
send m [] = none
send m (queue_full ∷ answers) = elim (send m answers) [
  | none ↦ none
  | some (acts, rest) ↦ some (produces m queue_full ∷ polls 1000 ∷ acts, rest)
]
send m (enqueued ∷ answers) = some (produces m enqueued ∷ polls 0 ∷ [], answers)
send m (failed ∷ answers) = some (produces m failed ∷ polls 0 ∷ [], answers)

-- The body of the loop on what `fgets` has read: an empty line polls, any other is sent.
unfoldable pub body : Text → List Answer → Result Ending (List Action × List Answer)
body line answers = elim (trim (c_string line)) [
  | none ↦ err fault
  | some [] ↦ ok (polls 0 ∷ [], answers)
  | some (d ∷ ds) ↦ elim (send (d ∷ ds) answers) [ none ↦ err unfinished | some r ↦ ok r ]
]

-- `while (run && fgets(buf, 512, stdin))`, and `rd_kafka_flush` behind it.
unfoldable pub produce_lines : ℕ → Text → List Answer → Produced
unfolding body
produce_lines zero input answers = record { actions = []; ending = unfinished }
produce_lines (suc fuel) [] answers = record { actions = flushes ∷ []; ending = finished }
produce_lines (suc fuel) (c ∷ cs) answers =
    let line = read_line 511 (c ∷ cs) in
    elim (body line.0 answers) [
      | err e ↦ record { actions = []; ending = e }
      | ok (acts, rest) ↦ after acts (produce_lines fuel line.1 rest)
    ]

-- Each `fgets` takes a byte at least, so there are no more rounds than bytes, and one for the end.
unfoldable pub produce_all : Text → List Answer → Produced
unfolding produce_lines
produce_all input answers = produce_lines (suc (length input)) input answers
