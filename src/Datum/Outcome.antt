-- ===== src/Datum/Outcome.antt =====
-- learneth/src/main.cpp: whether `PutDecodedDatumInto` returns, and what it then has given.
use mathlib.Core.List.{append-nil}
use learn_framework.Common.{
  ℕ, zero, suc, ◌+◌, ◌-◌, ◌<◌, ◌≡◌, refl, ap, ◌∙◌, List, [], ◌∷◌, ◌++◌, arith, length, Result, ok,
  err,
}
use learn_framework.Common.Int.{pos}
use learn_framework.Datum.{
  Text, Codec, Stop, unfinished, datum, find, drop_spaces, skip, starts_with, repeat_of, plain,
  next_item,
}
use learn_framework.Datum.Transfer.{Buffers, Moving}
use learn_framework.Datum.Put.{put_decoded}
use learn_framework.Datum.Conserve.{flat, given}
use learn_framework.Datum.Delivers.{decoded, Agrees, returns, stops, Gave, put_decoded-Agrees}
use learn_framework.Datum.Pieces.{IsTail, done, more}
use learn_framework.Datum.Printed.{Entry, AreEntries, print_onto, values}
use learn_framework.Datum.Rounds.{decoded-print_onto, print_onto-unfinished}

unfoldable pub spaces : ℕ → Text
spaces zero = []
spaces (suc n) = b' ' ∷ spaces n

drop_spaces-spaces : (n : ℕ) → drop_spaces (spaces n) ≡ []
unfolding drop_spaces spaces
drop_spaces-spaces zero = refl
drop_spaces-spaces (suc n) = drop_spaces-spaces n

spaces-IsTail : (n : ℕ) → IsTail (spaces (suc n))
unfolding spaces
spaces-IsTail n = more (spaces n)

module _ (codec : Codec) where
  open codec use {hex_decode}

  next_spaces :
      (n : ℕ)
      → next_item codec (spaces (suc n)) ≡ ok (datum (pos 1) (hex_decode []) (spaces (suc n)))
  unfolding next_item skip repeat_of plain spaces find starts_with drop_spaces
  next_spaces n = rw (drop_spaces-spaces n) refl

  decoded-spaces : (n fuel : ℕ) → decoded codec fuel (spaces (suc n)) ≡ err unfinished
  unfolding decoded spaces
  decoded-spaces n zero = refl
  decoded-spaces n (suc fuel) = rw (next_spaces n, decoded-spaces n fuel) refl

  pub decoded-print :
      (es : List Entry) (fuel : ℕ)
      → AreEntries es
      → length es < fuel
      → decoded codec fuel (print_onto es []) ≡ ok (values codec es)
  unfolding decoded
  decoded-print es fuel v h =
      let left : fuel ≡ length es + suc (fuel - length es - 1) = omega arith in
      rw left (
        decoded-print_onto codec es (suc (fuel - length es - 1)) [] v done
        ∙ ap ok (append-nil (values codec es)))

  module _ (buffers : Buffers) where
    open buffers use {contents}

    pub returns_of :
        {before bytes : List ℕ} {r : Result Stop (Moving buffers)}
        → Agrees buffers before (ok bytes) r
        → (m : Moving buffers) × (r ≡ ok m) × Gave buffers (before ++ bytes) m
    returns_of (returns {m = m} g) = (m, refl, g)

    stops_of :
        {before : List ℕ} {why : Stop} {r : Result Stop (Moving buffers)}
        → Agrees buffers before (err why) r
        → r ≡ err why
    stops_of stops = refl

    -- On data in hexadecimal digits or between quotes, each perhaps with a number of times, and with
    -- one space between any two, `PutDecodedDatumInto` returns within one round more than there are
    -- data, whatever the random numbers: the target was given, behind what the queue held, the bytes of
    -- the data in order, each as often as it says, and the queue is empty.
    pub put_decoded-print :
        (es : List Entry) (fuel : ℕ) (m : Moving buffers)
        → AreEntries es
        → length es < fuel
        → (m' : Moving buffers) × (put_decoded codec buffers fuel (print_onto es []) m ≡ ok m')
          × (flat m'.target ≡ given buffers m ++ values codec es)
          × (contents m'.source ≡ [])
    put_decoded-print es fuel m v h =
        let agrees = put_decoded-Agrees buffers codec fuel (print_onto es []) m in
        let (m', e, g) = returns_of (rw (decoded-print es fuel v h) at agrees) in
        (m', e, g.gave, g.emptied)

    -- With at least one space at the end, behind data in hexadecimal digits or between quotes, as above,
    -- or behind nothing, `PutDecodedDatumInto` never returns: no number of rounds is enough.
    pub put_decoded-trailing_space :
        (es : List Entry) (n fuel : ℕ) (m : Moving buffers)
        → AreEntries es
        → put_decoded codec buffers fuel (print_onto es (spaces (suc n))) m ≡ err unfinished
    put_decoded-trailing_space es n fuel m v = stops_of (
        rw
          (print_onto-unfinished codec es (spaces (suc n)) v (spaces-IsTail n) (decoded-spaces n)
            fuel)
          at (put_decoded-Agrees buffers codec fuel (print_onto es (spaces (suc n))) m))
