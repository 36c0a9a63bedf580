-- ===== src/Datum/Tests.antt =====
-- learneth/src/main.cpp: `PutDecodedDatumInto` on short texts.
use learn_framework.Common.{
  ℕ, zero, suc, ◌*◌, ◌/◌, ◌%◌, ◌+◌, ◌≡◌, refl, ap, some, List, [], ◌∷◌, ◌++◌, arith, length, take,
  drop, if◌then◌else◌, ok, err,
}
use learn_framework.Common.Ascii.{same}
use learn_framework.Common.Int.{pos, pos_part}
use learn_framework.Hex.{hex_digit}
use learn_framework.Datum.{
  Codec, unfinished, out_of_range, overflow, datum, next_item, Text, plain, find, starts_with, skip,
  repeat_of, digits,
}
use learn_framework.Datum.Transfer.{Buffers, Moving}
use learn_framework.Datum.Put.{put_decoded, put_repeated}
use learn_framework.Datum.Conserve.{flat, given}
use learn_framework.Datum.Delivers.{decoded, repeated, Agrees, put_decoded-Agrees}
use learn_framework.Datum.Printed.{
  Entry, once, times, hex, quote, AreEntries, print_onto, entry_onto, values,
}
use learn_framework.Datum.Pieces.{Each, is_hex}
use learn_framework.Datum.Main.{Hashing, msg, expected_hash, main}
use learn_framework.Datum.Hash.{verdict-main}
use learn_framework.Hex.ReadBack.{AllBytes, pairs}
use learn_framework.Datum.Outcome.{spaces, put_decoded-print, put_decoded-trailing_space}

-- Pairs of digits; a last digit alone is left out.
abbrev decode_pairs : Text → List ℕ
decode_pairs [] = []
decode_pairs (c ∷ []) = []
decode_pairs (c ∷ d ∷ s) = (16 * pos_part (hex_digit c) + pos_part (hex_digit d)) ∷ decode_pairs s

abbrev codec : Codec
codec = record { hex_decode = decode_pairs; read_words = λ bits s. 1 ∷ [] }

-- The lowest number each time.
abbrev buffers : Buffers
buffers = record {
  Queue = List ℕ;
  contents = λ q. q;
  fresh = [];
  put = λ q bytes. q ++ bytes;
  get = λ q n. (take n q, drop n q);
  draw = λ k lo hi. lo;
  contents-fresh = refl;
  contents-put = λ q bytes. refl;
  get-contents = λ q n. (refl, refl);
  draw_bounds = λ k lo hi h. (omega arith, h);
}

abbrev nothing : Moving buffers
nothing = record { source = []; target = []; draws = 0 }

-- r2 ab "hi"
abbrev entries : List Entry
entries = times b'2' [] (hex b'a' (b'b' ∷ [])) ∷ once (quote (b'h' ∷ b'i' ∷ [])) ∷ []

entries_text :
    print_onto entries [] ≡ b'r' ∷ b'2' ∷ 32 ∷ b'a' ∷ b'b' ∷ 32 ∷ b'"' ∷ b'h' ∷ b'i' ∷ b'"' ∷ []
unfolding print_onto entry_onto
entries_text = refl

-- A quote that is not closed: `substr` throws.
open_quote : next_item codec (b'"' ∷ b'h' ∷ []) ≡ err out_of_range
unfolding next_item plain find starts_with skip
open_quote = refl

-- `0x12 34`: what is decoded reaches into the next datum.
prefix_reads_on :
    next_item codec (b'0' ∷ b'x' ∷ b'1' ∷ b'2' ∷ 32 ∷ b'3' ∷ b'4' ∷ [])
    ≡ ok (datum (pos 1) (decode_pairs (b'1' ∷ b'2' ∷ 32 ∷ b'3' ∷ [])) (32 ∷ b'3' ∷ b'4' ∷ []))
unfolding next_item plain find starts_with skip
prefix_reads_on = refl

-- `r-1 ab`
negative_repeat :
    put_decoded codec buffers 5 (b'r' ∷ b'-' ∷ b'1' ∷ 32 ∷ b'a' ∷ b'b' ∷ []) nothing ≡ err overflow
unfolding put_decoded next_item plain find starts_with skip repeat_of put_repeated
negative_repeat = refl

are_entries : AreEntries entries
unfolding digits
are_entries = ((refl, tt, omega arith, (refl, (refl, tt))), ((refl, (refl, tt)), tt))

put_decoded-Agrees_example :
    Agrees buffers
      (given buffers nothing)
      (decoded codec 3 (print_onto entries []))
      (put_decoded codec buffers 3 (print_onto entries []) nothing)
put_decoded-Agrees_example = put_decoded-Agrees buffers codec 3 (print_onto entries []) nothing

put_decoded-print_example :
    (m' : Moving buffers) × (put_decoded codec buffers 3 (print_onto entries []) nothing ≡ ok m')
    × (flat m'.target ≡ given buffers nothing ++ values codec entries)
    × (m'.source ≡ [])
put_decoded-print_example =
    put_decoded-print codec buffers entries 3 nothing are_entries (omega arith)

put_decoded-trailing_space_example :
    put_decoded codec buffers 100 (print_onto entries (spaces 1)) nothing ≡ err unfinished
put_decoded-trailing_space_example =
    put_decoded-trailing_space codec buffers entries 0 100 nothing are_entries

-- 171, twice, and then the quoted text.
entries-values : values codec entries ≡ 171 ∷ 171 ∷ b'h' ∷ b'i' ∷ []
unfolding values repeated hex_digit digits
entries-values = refl

-- A decoder that leaves out what is no digit.
abbrev only_hex : Text → Text
only_hex [] = []
only_hex (c ∷ s) = let rest = only_hex s in if is_hex c then c ∷ rest else rest

only_hex-Each : (s : Text) → Each is_hex s → only_hex s ≡ s
only_hex-Each [] v = refl
only_hex-Each (c ∷ s) v = rw (v.0, only_hex-Each s v.1) refl

abbrev decoder : Codec
decoder = record { hex_decode = λ s. decode_pairs (only_hex s); read_words = λ bits s. [] }

length-decode_pairs : (s : Text) → length (decode_pairs s) ≡ length s / 2
length-decode_pairs [] = refl
length-decode_pairs (c ∷ []) = refl
length-decode_pairs (c ∷ d ∷ s) = omega (arith, length-decode_pairs s)

-- The first bytes of the message, filled up with zeros.
abbrev first_bytes : ℕ → Text → List ℕ
first_bytes zero s = []
first_bytes (suc n) [] = 0 ∷ first_bytes n []
first_bytes (suc n) (c ∷ s) = (c % 256) ∷ first_bytes n s

length-first_bytes : (n : ℕ) (s : Text) → length (first_bytes n s) ≡ n
length-first_bytes zero s = refl
length-first_bytes (suc n) [] = ap suc (length-first_bytes n [])
length-first_bytes (suc n) (c ∷ s) = ap suc (length-first_bytes n s)

first_bytes-AllBytes : (n : ℕ) (s : Text) → AllBytes (first_bytes n s)
first_bytes-AllBytes zero s = tt
first_bytes-AllBytes (suc n) [] = (omega arith, first_bytes-AllBytes n [])
first_bytes-AllBytes (suc n) (c ∷ s) = (omega arith, first_bytes-AllBytes n s)

take-drop-append :
    (n : ℕ) (s t : List ℕ) → length s ≡ n → (take n (s ++ t) ≡ s) × (drop n (s ++ t) ≡ t)
take-drop-append zero [] t h = (refl, refl)
take-drop-append zero (c ∷ s) t h = absurd (omega (arith, h))
take-drop-append (suc n) [] t h = absurd (omega (arith, h))
take-drop-append (suc n) (c ∷ s) t h =
    let (front, back) = take-drop-append n s t (omega (arith, h)) in (ap (λ x. c ∷ x) front, back)

abbrev hashing : Hashing
hashing = record {
  digest = first_bytes 32;
  last_result = λ chunks. same (take 32 (flat chunks)) (first_bytes 32 (drop 32 (flat chunks)));
  length-digest = length-first_bytes 32;
  digest-AllBytes = first_bytes-AllBytes 32;
  verifies = λ chunks hash m long whole.
      let (front, back) = take-drop-append 32 hash m long in rw (whole, front, back) refl;
}

verdict-main_example :
    let p = main decoder buffers hashing 2 in
    (length p.hash ≡ 64)
    × (pairs p.hash ≡ some (first_bytes 32 msg))
    × (p.verdict
        ≡ ok (
            same
              (decode_pairs (only_hex expected_hash))
              (first_bytes 32 (decode_pairs (only_hex msg)))))
verdict-main_example =
    verdict-main decoder buffers hashing 2 (λ s v. rw (only_hex-Each s v) (length-decode_pairs s))
      (omega arith)

-- What the decoder finds in the message: af ea dd e2 56.
msg_bytes : decode_pairs (only_hex msg) ≡ 175 ∷ 234 ∷ 221 ∷ 226 ∷ 86 ∷ []
unfolding hex_digit
msg_bytes = refl
