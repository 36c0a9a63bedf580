-- ===== src/Datum/Put.antt =====
-- learneth/src/main.cpp: `PutDecodedDatumInto`, with the queue and the target.
use learn_framework.Common.{ℕ, zero, suc, true, false, List, [], ◌∷◌, Result, ok, err, ◌>>=◌}
use learn_framework.Common.Int.{ℤ, pos, negsuc}
use learn_framework.Datum.{Text, Codec, Stop, overflow, unfinished, ends, words, datum, next_item}
use learn_framework.Datum.Transfer.{Buffers, Moving, randomized_transfer}

module _ (buffers : Buffers) where
  open buffers use {put}

  abbrev pub put_bytes : List ℕ → Moving buffers → Moving buffers
  put_bytes bytes m = record m { source = put m.source bytes }

  -- `while (repeat--)` from a number that is not negative.
  unfoldable pub put_times : ℕ → List ℕ → Moving buffers → Result Stop (Moving buffers)
  put_times zero bytes m = ok m
  put_times (suc n) bytes m =
      randomized_transfer buffers false (put_bytes bytes m) >>= λ m'. put_times n bytes m'

  -- From a negative number `repeat--` runs down to an overflow.
  unfoldable pub put_repeated : ℤ → List ℕ → Moving buffers → Result Stop (Moving buffers)
  unfolding put_times
  put_repeated (pos n) bytes m = put_times n bytes m
  put_repeated (negsuc n) bytes m = err overflow

module _ (codec : Codec) (buffers : Buffers) where
  -- `while (!s1.empty())` and the label `end`, where this is the round's item.
  unfoldable pub put_decoded : ℕ → Text → Moving buffers → Result Stop (Moving buffers)
  put_decoded zero s m = err unfinished
  put_decoded (suc fuel) [] m = randomized_transfer buffers true m
  put_decoded (suc fuel) (c ∷ s) m = next_item codec (c ∷ s) >>= λ item. elim item [
    | ends ↦ randomized_transfer buffers true m
    | words bytes ↦ randomized_transfer buffers true (put_bytes buffers bytes m)
    | datum repeat bytes rest ↦
        put_repeated buffers repeat bytes m >>= λ m'. put_decoded fuel rest m'
  ]
