-- ===== src/Datum.antt =====
-- learneth/src/main.cpp: `PutDecodedDatumInto`, first how it takes a datum off its text. A text is the
-- list of its bytes. Crypto++'s `HexDecoder` and the stream's `>> std::hex` are the argument `codec`.
pub mod Transfer
pub mod Put
pub mod Conserve
pub mod Delivers
pub mod Pieces
pub mod Printed
pub mod Rounds
pub mod Outcome
pub mod Main
pub mod Hash
pub mod Tests
use learn_framework.Common.{
  ℕ, zero, suc, ◌+◌, ◌-◌, ◌*◌, ◌/◌, ◌%◌, ◌^◌, Bool, true, false, ◌&&◌, ◌||◌, Option, none, some,
  List, [], ◌∷◌, ◌++◌, ◌==◌, ltb, leb, if◌then◌else◌, length, take, drop, Result, ok, err, ◌>>=◌,
}
use learn_framework.Common.Int.{ℤ, pos, negsuc}

abbrev pub Text : Type 0
Text = List ℕ

-- `hex_decode` is what a `HexDecoder` makes of a text, `read_words` the values of that many bits that
-- `>>` yields up to its first failure.
pub record Codec : Type 0 where
  pub hex_decode : Text → List ℕ
  pub read_words : ℕ → Text → List ℕ

-- Why the function does not return: `substr` throws, an `int` overflows, a write leaves the buffer;
-- or the given fuel does not reach the end.
pub data Stop : Type 0 where
  out_of_range overflow outside_buffer unfinished : Stop

-- What the round of the loop finds: nothing but the end, words up to the end, or a datum, how often
-- it is put, and the text behind it.
pub data Item : Type 0 where
  ends : Item
  words : (bytes : List ℕ) → Item
  datum : (repeat : ℤ) (bytes : List ℕ) (rest : Text) → Item

abbrev pub head_or_nul : Text → ℕ
head_or_nul [] = 0
head_or_nul (c ∷ s) = c

-- `find`, with `none` for `npos`.
unfoldable pub find : ℕ → Text → Option ℕ
find c [] = none
find c (d ∷ s) =
    let rest = find c s in
    if d == c then some 0 else elim rest [ none ↦ none | some i ↦ some (i + 1) ]

-- `substr(pos, n)` for a `pos` in range.
abbrev pub take_to : Option ℕ → Text → Text
take_to none s = s
take_to (some n) s = take n s

-- `substr(STDMIN(n, length()))`
abbrev pub drop_to : Option ℕ → Text → Text
drop_to none s = []
drop_to (some n) s = drop n s

unfoldable pub starts_with : Text → Text → Bool
starts_with [] s = true
starts_with (c ∷ p) [] = false
starts_with (c ∷ p) (d ∷ s) = (c == d) && starts_with p s

abbrev pub word32 : Text
word32 = b'w' ∷ b'o' ∷ b'r' ∷ b'd' ∷ b'3' ∷ b'2' ∷ []

abbrev pub word64 : Text
word64 = b'w' ∷ b'o' ∷ b'r' ∷ b'd' ∷ b'6' ∷ b'4' ∷ []

unfoldable pub drop_spaces : Text → Text
drop_spaces [] = []
drop_spaces (c ∷ s) = let rest = drop_spaces s in if c == b' ' then rest else c ∷ s

-- `find_first_not_of(" ")` and `erase`: a text of spaces alone stays as it is.
unfoldable pub skip : Text → Text
unfolding drop_spaces
skip s = elim (drop_spaces s) [ [] ↦ s | c ∷ t ↦ c ∷ t ]

abbrev pub is_space : ℕ → Bool
is_space c = c == 32 || (leb 9 c && leb c 13)

abbrev pub is_digit : ℕ → Bool
is_digit c = leb b'0' c && leb c b'9'

unfoldable pub digits : ℕ → Text → ℕ
digits n [] = n
digits n (c ∷ s) = let rest = digits (10 * n + (c - b'0')) s in if is_digit c then rest else n

abbrev minus : ℕ → ℤ
minus zero = pos 0
minus (suc n) = negsuc n

unfoldable pub drop_blanks : Text → Text
drop_blanks [] = []
drop_blanks (c ∷ s) = let rest = drop_blanks s in if is_space c then rest else c ∷ s

-- `std::atoi`, before its value is put into an `int`.
unfoldable pub atoi : Text → ℤ
unfolding digits drop_blanks
atoi s =
    let t = drop_blanks s in
    if head_or_nul t == b'-'
    then minus (digits 0 (drop 1 t))
    else if head_or_nul t == b'+'
    then pos (digits 0 (drop 1 t))
    else pos (digits 0 t)

abbrev pub fits_int : ℤ → Bool
fits_int (pos n) = ltb n (2 ^ 31)
fits_int (negsuc n) = ltb n (2 ^ 31)

-- `s1.substr(s1.find(' ') + 1)`, where `npos + 1` is 0.
unfoldable pub past_space : Text → Text
past_space s = elim (find b' ' s) [ none ↦ s | some i ↦ drop (i + 1) s ]

-- `if (s1[0] == 'r')`: the number of times, and the text behind it.
unfoldable pub repeat_of : Text → Result Stop (ℤ × Text)
unfolding atoi past_space
repeat_of s =
    if head_or_nul s == b'r'
    then (let t = drop 1 s in if fits_int (atoi t) then ok (atoi t, past_space t) else err overflow)
    else ok (pos 1, s)

-- The bytes of a word in memory, once it is put into little endian order.
unfoldable pub le_bytes : ℕ → ℕ → List ℕ
le_bytes zero v = []
le_bytes (suc n) v = v % 256 ∷ le_bytes n (v / 256)

pub all_bytes : ℕ → List ℕ → List ℕ
unfolding le_bytes
all_bytes n [] = []
all_bytes n (v ∷ vs) = le_bytes n v ++ all_bytes n vs

-- `s1.substr(1, s1.find('"', 1) - 1)`, and `s1.substr(s2.length() + 2)`, which may throw.
unfoldable pub quoted : ℤ → Text → Result Stop Item
quoted repeat s =
    let bytes = take_to (find b'"' (drop 1 s)) (drop 1 s) in
    if leb (length bytes + 2) (length s)
    then ok (datum repeat bytes (drop (length bytes + 2) s))
    else err out_of_range

module _ (codec : Codec) where
  open codec use {hex_decode, read_words}

  -- The datum itself, behind its number of times.
  unfoldable pub plain : ℤ → Text → Result Stop Item
  unfolding quoted
  plain repeat s =
      if starts_with word64 s
      then ok (words (all_bytes 8 (read_words 64 (drop 6 s))))
      else if starts_with word32 s
      then ok (words (all_bytes 4 (read_words 32 (drop 6 s))))
      else if head_or_nul s == b'"'
      then quoted repeat s
      else if starts_with (b'0' ∷ b'x' ∷ []) s
      then ok
          (datum repeat (hex_decode (take_to (find b' ' s) (drop 2 s))) (drop_to (find b' ' s) s))
      else ok (datum repeat (hex_decode (take_to (find b' ' s) s)) (drop_to (find b' ' s) s))

  -- A round of the loop, up to the loop that puts the datum.
  unfoldable pub next_item : Text → Result Stop Item
  unfolding skip repeat_of plain
  next_item s = elim (skip s) [ [] ↦ ok ends | c ∷ t ↦ repeat_of (c ∷ t) >>= λ r. plain r.0 r.1 ]
