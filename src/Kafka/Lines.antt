-- ===== src/Kafka/Lines.antt =====
-- producer_consumer_librdkafka/producer/main.c: the byte loop against the lines of its input.
use learn_framework.Common.{
  ℕ, zero, suc, ◌≤◌, ◌<◌, ◌≡◌, ◌≢◌, refl, ap, ◌∙◌, none, some, List, [], ◌∷◌, ◌++◌, arith, length,
  length-append, inl, inr, Option-cases, Result, ok, err,
}
use learn_framework.Kafka.Producer.{
  Text, read_line, c_string, strip, trim, body, Ending, Action, Answer, polls, flushes, finished,
  unfinished, Produced, after, send, produce_lines, produce_all,
}

-- A byte that is neither the newline nor 0.
abbrev pub IsPlain : Text → Type 0
IsPlain [] = Unit
IsPlain (c ∷ cs) = (c ≢ b'\n') × (c ≢ 0) × IsPlain cs

-- A line that fits the buffer with its newline.
abbrev pub Fits : List Text → Type 0
Fits [] = Unit
Fits (l ∷ ls) = (length l ≤ 510) × IsPlain l × Fits ls

-- The input that consists of these lines.
unfoldable pub join : List Text → Text
join [] = []
join (l ∷ ls) = l ++ (b'\n' ∷ join ls)

-- The program as its lines see it: an empty line polls, any other is sent.
unfoldable pub deliver : List Text → List Answer → Produced
deliver [] answers = record { actions = flushes ∷ []; ending = finished }
deliver ([] ∷ ls) answers = after (polls 0 ∷ []) (deliver ls answers)
deliver ((d ∷ ds) ∷ ls) answers = elim (send (d ∷ ds) answers) [
  | none ↦ record { actions = []; ending = unfinished }
  | some (acts, rest) ↦ after acts (deliver ls rest)
]

read_line-line :
    (l rest : Text) (room : ℕ)
    → length l < room
    → IsPlain l
    → read_line room (l ++ (b'\n' ∷ rest)) ≡ (l ++ (b'\n' ∷ []), rest)
unfolding read_line
read_line-line l rest zero h p = absurd (omega arith)
read_line-line [] rest (suc room) h p = refl
read_line-line (c ∷ l) rest (suc room) h p =
    ground (arith, read_line-line l rest room (omega arith) p.2)

c_string-line : (l : Text) → IsPlain l → c_string (l ++ (b'\n' ∷ [])) ≡ l ++ (b'\n' ∷ [])
unfolding c_string
c_string-line [] p = refl
c_string-line (c ∷ l) p = ground (arith, c_string-line l p.2)

strip-line : (c : ℕ) (l : Text) → strip c (l ++ (b'\n' ∷ [])) ≡ c ∷ l
unfolding strip
strip-line c [] = refl
strip-line c (d ∷ l) = ap (◌∷◌ c) (strip-line d l)

trim-line : (l : Text) → trim (l ++ (b'\n' ∷ [])) ≡ some l
unfolding trim strip
trim-line [] = refl
trim-line (c ∷ l) = ap some (strip-line c l)

-- What the body of the loop does with a line.
abbrev pub outcome : Text → List Answer → Result Ending (List Action × List Answer)
outcome [] answers = ok (polls 0 ∷ [], answers)
outcome (d ∷ ds) answers = elim (send (d ∷ ds) answers) [ none ↦ err unfinished | some r ↦ ok r ]

pub body-line :
    (l rest : Text) (answers : List Answer)
    → length l ≤ 510
    → IsPlain l
    → (body (read_line 511 (l ++ (b'\n' ∷ rest))).0 answers ≡ outcome l answers)
      × ((read_line 511 (l ++ (b'\n' ∷ rest))).1 ≡ rest)
unfolding body
body-line [] rest answers h p =
    ground (arith, read_line-line [] rest 511 (omega arith) tt, c_string-line [] tt, trim-line [])
body-line (d ∷ ds) rest answers h p = ground (
  arith,
  read_line-line (d ∷ ds) rest 511 (omega arith) p,
  c_string-line (d ∷ ds) p,
  trim-line (d ∷ ds),
)

produce_lines-next :
    (fuel : ℕ) (l rest : Text) (answers : List Answer)
    → length l ≤ 510
    → IsPlain l
    → produce_lines (suc fuel) (l ++ (b'\n' ∷ rest)) answers ≡ elim (outcome l answers) [
      | err e ↦ record { actions = []; ending = e }
      | ok (acts, more) ↦ after acts (produce_lines fuel rest more)
    ]
unfolding produce_lines
produce_lines-next fuel [] rest answers h p = ground (arith, body-line [] rest answers h p)
produce_lines-next fuel (d ∷ ds) rest answers h p =
    ground (arith, body-line (d ∷ ds) rest answers h p)

produce_lines-deliver :
    (ls : List Text) (fuel : ℕ) (answers : List Answer)
    → length (join ls) < fuel
    → Fits ls
    → produce_lines fuel (join ls) answers ≡ deliver ls answers
unfolding join deliver
produce_lines-deliver ls zero answers h f = absurd (omega arith)
produce_lines-deliver [] (suc fuel) answers h f = unfold produce_lines in refl
produce_lines-deliver ([] ∷ ls) (suc fuel) answers h f =
    produce_lines-next fuel [] (join ls) answers f.0 f.1
    ∙ ap (after (polls 0 ∷ [])) (produce_lines-deliver ls fuel answers (omega arith) f.2)
produce_lines-deliver ((d ∷ ds) ∷ ls) (suc fuel) answers h f =
    produce_lines-next fuel (d ∷ ds) (join ls) answers f.0 f.1
    ∙ elim (Option-cases (send (d ∷ ds) answers)) [
      | inl e ↦ rw (e, deliver) refl
      | inr ((acts, rest), e) ↦
          rw (e, deliver)
            (ap (after acts) (
              produce_lines-deliver ls fuel rest (omega (arith, length-append ds (b'\n' ∷ join ls)))
                f.2))
    ]

-- On an input of lines, each of at most 510 bytes without a newline or a 0, the program does what its
-- lines say, whatever librdkafka answers: it polls on an empty line, sends each other line whole and
-- in order, polling and sending again while the queue is full, and flushes at the end.
pub produce_all-deliver :
    (ls : List Text) (answers : List Answer)
    → Fits ls
    → produce_all (join ls) answers ≡ deliver ls answers
unfolding produce_all
produce_all-deliver ls answers f =
    produce_lines-deliver ls (suc (length (join ls))) answers (omega arith) f
