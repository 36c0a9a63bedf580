-- ===== src/Datum/Hash.antt =====
-- learneth/src/main.cpp: what `main` prints.
use mathlib.Core.List.{append-nil}
use learn_framework.Common.{
  ℕ, zero, suc, ◌+◌, ◌*◌, ◌/◌, ◌%◌, ◌<◌, ◌≡◌, refl, ap, sym, ◌∙◌, Bool, true, some, inl, inr,
  Bool-cases, List, [], ◌∷◌, ◌++◌, ◌&&◌, arith, ltb, length, drop, ok,
}
use learn_framework.Common.Int.{pos}
use learn_framework.Common.Ascii.{same}
use learn_framework.Hex.{digit}
use learn_framework.Hex.ReadBack.{AllBytes, pairs, digit_reads}
use learn_framework.Datum.{
  Text, Codec, head_or_nul, datum, next_item, plain, find, starts_with, skip, repeat_of,
}
use learn_framework.Datum.Transfer.{Buffers, Moving}
use learn_framework.Datum.Conserve.{flat, given}
use learn_framework.Datum.Delivers.{decoded, repeated, put_decoded-Agrees}
use learn_framework.Datum.Pieces.{Each, is_hex}
use learn_framework.Datum.Printed.{once, hex, print_onto, entry_onto, values}
use learn_framework.Datum.Outcome.{decoded-print, returns_of}
use learn_framework.Datum.Main.{
  Hashing, msg, expected_hash, pad, hex_number, hash_text, give, verify, main,
}

all : (ℕ → Bool) → Text → Bool
all p [] = true
all p (c ∷ s) = p c && all p s

all-Each : (p : ℕ → Bool) (s : Text) → all p s ≡ true → Each p s
unfolding all
all-Each p [] h = tt
all-Each p (c ∷ s) h = (ground arith, all-Each p s (ground arith))

-- A byte is printed as its two digits.
pad-hex_number : (b : ℕ) → b < 256 → pad (hex_number b) ≡ digit (b / 16) ∷ digit (b % 16) ∷ []
unfolding pad hex_number digit
pad-hex_number b h = elim (Bool-cases (ltb b 16)) [
  | inl e ↦
      let q : b / 16 ≡ 0 = ground arith in let r : b % 16 ≡ b = ground arith in rw (e, q, r) refl
  | inr e ↦ rw e refl
]

pairs-hash_text : (bs : List ℕ) → AllBytes bs → pairs (hash_text bs) ≡ some bs
unfolding hash_text pairs
pairs-hash_text [] v = refl
pairs-hash_text (b ∷ bs) v =
    let (high, _) = digit_reads (b / 16) (omega (arith, v.0)) in
    let (low, _) = digit_reads (b % 16) (omega arith) in
    let whole : 16 * (b / 16) + b % 16 ≡ b = omega arith in
    rw (pad-hex_number b v.0, high, low, pairs-hash_text bs v.1, whole) refl

length-hash_text : (bs : List ℕ) → AllBytes bs → length (hash_text bs) ≡ 2 * length bs
unfolding hash_text
length-hash_text [] v = refl
length-hash_text (b ∷ bs) v = rw (pad-hex_number b v.0) (omega (arith, length-hash_text bs v.1))

module _ (codec : Codec) where
  open codec use {hex_decode}

  -- Digits alone are one datum.
  decoded-digits :
      (fuel c : ℕ) (s : Text)
      → 1 < fuel
      → is_hex c ≡ true
      → Each is_hex s
      → decoded codec fuel (c ∷ s) ≡ ok (hex_decode (c ∷ s))
  unfolding print_onto entry_onto values repeated decoded
  decoded-digits fuel c s h v w =
      let text : c ∷ (s ++ []) ≡ c ∷ s = ap (λ x. c ∷ x) (append-nil s) in
      let value : (hex_decode (c ∷ s) ++ []) ++ [] ≡ hex_decode (c ∷ s) =
        append-nil (hex_decode (c ∷ s) ++ []) ∙ append-nil (hex_decode (c ∷ s)) in
      sym (ap (decoded codec fuel) text)
      ∙ decoded-print codec (once (hex c s) ∷ []) fuel ((v, w), tt) (omega (arith, h))
      ∙ ap ok value

  next_msg : next_item codec msg ≡ ok (datum (pos 1) (hex_decode msg) [])
  unfolding next_item skip repeat_of plain find starts_with
  next_msg = refl

  -- The message has no quotes, and so it is read as one datum of digits.
  decoded-msg : (fuel : ℕ) → 1 < fuel → decoded codec fuel msg ≡ ok (hex_decode msg)
  unfolding decoded repeated
  decoded-msg zero h = absurd (omega arith)
  decoded-msg (suc zero) h = absurd (omega arith)
  decoded-msg (suc (suc n)) h =
      rw next_msg (ap ok (append-nil (hex_decode msg ++ []) ∙ append-nil (hex_decode msg)))

  decoded-expected_hash :
      (fuel : ℕ) → 1 < fuel → decoded codec fuel expected_hash ≡ ok (hex_decode expected_hash)
  unfolding all
  decoded-expected_hash fuel h =
      decoded-digits fuel (head_or_nul expected_hash) (drop 1 expected_hash) h refl
        (all-Each is_hex (drop 1 expected_hash) refl)

  module _ (buffers : Buffers) (hashing : Hashing) where
    open buffers use {contents, fresh, contents-fresh}
    open hashing use {digest, last_result, length-digest, digest-AllBytes, verifies}

    give-decoded :
        (fuel : ℕ) (s bytes : Text) (target : List (List ℕ)) (draws : ℕ)
        → decoded codec fuel s ≡ ok bytes
        → (m : Moving buffers) × (give codec buffers hashing fuel s target draws ≡ ok m)
          × (flat m.target ≡ flat target ++ bytes)
    unfolding give given
    give-decoded fuel s bytes target draws h =
        let opened : Moving buffers = record { source = fresh; target = target; draws = draws } in
        let agrees = put_decoded-Agrees buffers codec fuel s opened in
        let (m, e, g) = returns_of codec buffers (rw h at agrees) in
        let before : flat target ++ contents fresh ≡ flat target =
          rw contents-fresh (append-nil (flat target)) in
        (m, e, g.gave ∙ ap (λ x. x ++ bytes) before)

    -- `main` returns, whatever the random numbers, with two rounds for each text. The line that it
    -- prints has 64 digits, which the table reads back as the hash of the message; but the verdict is
    -- whether the expected hash is that of the bytes that the decoder finds in the message as a text
    -- of hexadecimal digits, where the decoder makes a byte of each two digits.
    pub verdict-main :
        (fuel : ℕ)
        → ((s : Text) → Each is_hex s → length (hex_decode s) ≡ length s / 2)
        → 1 < fuel
        → let p = main codec buffers hashing fuel in
          (length p.hash ≡ 64)
          × (pairs p.hash ≡ some (digest msg))
          × (p.verdict ≡ ok (same (hex_decode expected_hash) (digest (hex_decode msg))))
    unfolding main verify all flat
    verdict-main fuel halves h =
        let (m, e, f) =
          give-decoded fuel expected_hash (hex_decode expected_hash) [] 0
            (decoded-expected_hash fuel h) in
        let (m', e', f') =
          give-decoded fuel msg (hex_decode msg) m.target m.draws (decoded-msg fuel h) in
        let whole : flat m'.target ≡ hex_decode expected_hash ++ hex_decode msg =
          f' ∙ ap (λ x. x ++ hex_decode msg) f in
        (
          length-hash_text (digest msg) (digest-AllBytes msg) ∙ ap (λ n. 2 * n) (length-digest msg),
          pairs-hash_text (digest msg) (digest-AllBytes msg),
          rw (e, e')
              (ap ok (
                verifies m'.target (hex_decode expected_hash) (hex_decode msg)
                  (halves expected_hash (all-Each is_hex expected_hash refl)) whole)),
        )
