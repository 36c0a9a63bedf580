-- ===== src/Datum/Delivers.antt =====
-- learneth/src/main.cpp: what `PutDecodedDatumInto` gives its target.
use mathlib.Core.List.{append_assoc, append-nil}
use learn_framework.Common.{
  ℕ, zero, suc, ◌≤◌, ◌≡◌, refl, sym, subst, ap, ◌∙◌, true, false, inl, inr, List, [], ◌∷◌, ◌++◌,
  arith, length, Result, ok, err, ◌>>=◌, Result-cases,
}
use learn_framework.Common.Int.{pos, negsuc}
use learn_framework.Datum.{Text, Codec, Stop, overflow, unfinished, ends, words, datum, next_item}
use learn_framework.Datum.Transfer.{Buffers, Moving, randomized_transfer}
use learn_framework.Datum.Put.{put_bytes, put_times, put_repeated, put_decoded}
use learn_framework.Datum.Conserve.{flat, given, randomized_transfer-given}

unfoldable pub repeated : ℕ → List ℕ → List ℕ
repeated zero bytes = []
repeated (suc n) bytes = bytes ++ repeated n bytes

-- The bytes of a text, without a queue or random numbers.
unfoldable pub decoded : Codec → ℕ → Text → Result Stop (List ℕ)
decoded codec zero s = err unfinished
decoded codec (suc fuel) [] = ok []
decoded codec (suc fuel) (c ∷ s) = next_item codec (c ∷ s) >>= λ item. elim item [
  | ends ↦ ok []
  | words bytes ↦ ok bytes
  | datum repeat bytes rest ↦ elim repeat [
    | pos n ↦ decoded codec fuel rest >>= λ more. ok (repeated n bytes ++ more)
    | negsuc n ↦ err overflow
  ]
]

module _ (buffers : Buffers) where
  open buffers use {Queue, contents, contents-put}

  -- What the target was given is `bytes`, and the queue is empty.
  pub record Gave (bytes : List ℕ) (m : Moving buffers) : Type 0 where
    pub gave : flat m.target ≡ bytes
    pub emptied : contents m.source ≡ []

  -- The two results agree: the same stop, or the target was given these bytes behind `before`.
  pub data Agrees (before : List ℕ)
      : Result Stop (List ℕ) → Result Stop (Moving buffers) → Type 0 where
    returns :
        {bytes : List ℕ} {m : Moving buffers}
        → Gave (before ++ bytes) m
        → Agrees before (ok bytes) (ok m)
    stops : {why : Stop} → Agrees before (err why) (err why)

  nil_of_length : (xs : List ℕ) → length xs ≤ 0 → xs ≡ []
  nil_of_length [] h = refl
  nil_of_length (x ∷ xs) h = absurd (omega arith)

  flush :
      (m : Moving buffers)
      → (m' : Moving buffers) × (randomized_transfer buffers true m ≡ ok m')
        × Gave (given buffers m) m'
  unfolding given
  flush m =
      let (m', e, same, low) = randomized_transfer-given buffers true m in
      let empty = nil_of_length (contents m'.source) low in
      (
        m',
        e,
        record {
          gave =
              sym (append-nil (flat m'.target)) ∙ ap (λ x. flat m'.target ++ x) (sym empty) ∙ same;
          emptied = empty;
        },
      )

  given-put_bytes :
      (bytes : List ℕ) (m : Moving buffers)
      → given buffers (put_bytes buffers bytes m) ≡ given buffers m ++ bytes
  unfolding given
  given-put_bytes bytes m =
      ap (λ x. flat m.target ++ x) (contents-put m.source bytes)
      ∙ sym (append_assoc (flat m.target) (contents m.source) bytes)

  put_times-given :
      (n : ℕ) (bytes : List ℕ) (m : Moving buffers)
      → (m' : Moving buffers) × (put_times buffers n bytes m ≡ ok m')
        × (given buffers m' ≡ given buffers m ++ repeated n bytes)
  unfolding put_times repeated
  put_times-given zero bytes m = (m, refl, sym (append-nil (given buffers m)))
  put_times-given (suc n) bytes m =
      let (m1, e1, same1, _) =
        randomized_transfer-given buffers false (put_bytes buffers bytes m) in
      let (m2, e2, same2) = put_times-given n bytes m1 in
      (
        m2,
        rw e1 e2,
        same2
            ∙ ap (λ x. x ++ repeated n bytes) (same1 ∙ given-put_bytes bytes m)
            ∙ append_assoc (given buffers m) bytes (repeated n bytes),
      )

  flush-Agrees :
      (m : Moving buffers) (before bytes : List ℕ)
      → given buffers m ≡ before ++ bytes
      → Agrees before (ok bytes) (randomized_transfer buffers true m)
  flush-Agrees m before bytes e =
      let (m', r, g) = flush m in rw r (returns (record { gave = g.gave ∙ e; emptied = g.emptied }))

  Agrees-later :
      (before first : List ℕ) (r : Result Stop (List ℕ)) (r' : Result Stop (Moving buffers))
      → Agrees (before ++ first) r r'
      → Agrees before (r >>= λ more. ok (first ++ more)) r'
  Agrees-later before first (ok bytes) (ok m) (returns g) =
      returns (record { gave = g.gave ∙ append_assoc before first bytes; emptied = g.emptied })
  Agrees-later before first (err why) (err _) stops = stops
  Agrees-later before first (ok bytes) (err _) a = elim a [ ]
  Agrees-later before first (err why) (ok m) a = elim a [ ]

  module _ (codec : Codec) where
    -- Whatever the random numbers, `PutDecodedDatumInto` ends as the text does without the queue: it
    -- stops for the same reason, or it returns with the queue empty, and the target was given, in
    -- order, what was in the queue before and the bytes of the text.
    pub put_decoded-Agrees :
        (fuel : ℕ) (s : Text) (m : Moving buffers)
        → Agrees (given buffers m) (decoded codec fuel s) (put_decoded codec buffers fuel s m)
    unfolding put_decoded put_repeated decoded
    put_decoded-Agrees zero s m = stops
    put_decoded-Agrees (suc fuel) [] m =
        flush-Agrees m (given buffers m) [] (sym (append-nil (given buffers m)))
    put_decoded-Agrees (suc fuel) (c ∷ s) m = elim (Result-cases (next_item codec (c ∷ s))) [
      | inl (ends, e) ↦
          rw e (flush-Agrees m (given buffers m) [] (sym (append-nil (given buffers m))))
      | inl (words bytes, e) ↦ rw e (
          flush-Agrees (put_bytes buffers bytes m) (given buffers m) bytes
            (given-put_bytes bytes m))
      | inl (datum (pos n) bytes rest, e) ↦
          let (m', put, same) = put_times-given n bytes m in
          rw (e, put)
            (Agrees-later (given buffers m) (repeated n bytes) (decoded codec fuel rest)
              (put_decoded codec buffers fuel rest m')
              (subst
                (λ x. Agrees x (decoded codec fuel rest) (put_decoded codec buffers fuel rest m'))
                same (put_decoded-Agrees fuel rest m')))
      | inl (datum (negsuc n) bytes rest, e) ↦ rw e stops
      | inr (why, e) ↦ rw e stops
    ]
