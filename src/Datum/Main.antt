-- ===== src/Datum/Main.antt =====
-- learneth/src/main.cpp: `main`, which prints the Keccak-256 hash of a text and has a filter of
-- Crypto++ check that hash against the text. The hash and the filter are the argument `hashing`.
use learn_framework.Common.{
  ℕ, ◌/◌, ◌%◌, ◌≡◌, Bool, List, [], ◌∷◌, ◌++◌, ltb, if◌then◌else◌, length, Result, ok, ◌>>=◌,
}
use learn_framework.Common.Ascii.{codes, same}
use learn_framework.Hex.{digit}
use learn_framework.Hex.ReadBack.{AllBytes}
use learn_framework.Datum.{Text, Codec, Stop}
use learn_framework.Datum.Transfer.{Buffers, Moving}
use learn_framework.Datum.Put.{put_decoded}
use learn_framework.Datum.Conserve.{flat}

-- `digest` is the hash of a message. `last_result` is what a `HashVerificationFilter` with
-- `HASH_AT_BEGIN` answers behind `MessageEnd`, by the bytes that it was given call by call: whether the
-- first 32 are the hash of the others.
pub record Hashing : Type 0 where
  pub digest : List ℕ → List ℕ
  pub last_result : List (List ℕ) → Bool
  pub length-digest : (m : List ℕ) → length (digest m) ≡ 32
  pub digest-AllBytes : (m : List ℕ) → AllBytes (digest m)
  pub verifies :
      (chunks : List (List ℕ)) (hash m : List ℕ)
      → length hash ≡ 32
      → flat chunks ≡ hash ++ m
      → last_result chunks ≡ same hash (digest m)

abbrev pub msg : Text
msg = codes "transfer(address,uint256)"

abbrev pub expected_hash : Text
expected_hash = codes "a9059cbb2ab09eb219583f4a59a5d0623ade346d962bcd4e46b11da047c9049b"

-- `std::setw(2)` and `std::setfill('0')`
unfoldable pub pad : Text → Text
pad (c ∷ []) = b'0' ∷ c ∷ []
pad s = s

-- `std::hex << (int)b` of a byte: no zero ahead, so one digit or two.
unfoldable pub hex_number : ℕ → Text
hex_number b = if ltb b 16 then digit b ∷ [] else digit (b / 16) ∷ digit (b % 16) ∷ []

-- The line that the loop over `data_hash` writes.
unfoldable pub hash_text : List ℕ → Text
unfolding pad hex_number
hash_text [] = []
hash_text (b ∷ bs) = pad (hex_number b) ++ hash_text bs

-- What is printed: the hash, and then the verdict of the filter, unless the program stops.
pub record Printed : Type 0 where
  pub hash : Text
  pub verdict : Result Stop Bool

module _ (codec : Codec) (buffers : Buffers) (hashing : Hashing) where
  open buffers use {fresh}
  open hashing use {digest, last_result}

  -- A call of `PutDecodedDatumInto` on the filter, with a queue of its own.
  unfoldable pub give : ℕ → Text → List (List ℕ) → ℕ → Result Stop (Moving buffers)
  give fuel s target draws =
      put_decoded codec buffers fuel s (record { source = fresh; target = target; draws = draws })

  unfoldable pub verify : ℕ → Result Stop Bool
  unfolding give
  verify fuel = do
    m ← give fuel expected_hash [] 0
    m' ← give fuel msg m.target m.draws
    ok (last_result m'.target)

  unfoldable pub main : ℕ → Printed
  unfolding hash_text verify
  main fuel = record { hash = hash_text (digest msg); verdict = verify fuel }
