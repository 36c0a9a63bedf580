-- ===== src/Hex.antt =====
-- learnopenssl/src/main.cpp: the hexadecimal table and `hex_convert_memory`. A char is its value as an
-- unsigned char.
pub mod ReadBack
pub mod ToBin
pub mod Tests
use learn_framework.Common.{
  ℕ, zero, suc, ◌+◌, ◌-◌, ◌/◌, ◌%◌, Bool, not, ◌&&◌, Option, none, some, List, [], ◌∷◌, ◌++◌, ◌==◌,
  if◌then◌else◌, length, get_elem?,
}
use learn_framework.Common.Int.{ℤ, pos, negsuc}

-- So many entries -1.
unfoldable pub blanks : ℕ → List ℤ
blanks zero = []
blanks (suc n) = negsuc 0 ∷ blanks n

abbrev six : List ℤ
six = pos 10 ∷ pos 11 ∷ pos 12 ∷ pos 13 ∷ pos 14 ∷ pos 15 ∷ []

abbrev ten : List ℤ
ten = pos 0 ∷ pos 1 ∷ pos 2 ∷ pos 3 ∷ pos 4 ∷ pos 5 ∷ pos 6 ∷ pos 7 ∷ pos 8 ∷ pos 9 ∷ []

-- `p_util_hexdigit`, with its runs of -1 by their lengths.
unfoldable pub hexdigits : List ℤ
unfolding blanks
hexdigits = blanks 48 ++ (ten ++ (blanks 7 ++ (six ++ (blanks 26 ++ (six ++ blanks 153)))))

unfoldable pub hex_digit : ℕ → ℤ
unfolding hexdigits
hex_digit c = elim (get_elem? hexdigits c) [ none ↦ negsuc 0 | some d ↦ d ]

abbrev characters : List ℕ
characters =
    b'0' ∷ b'1' ∷ b'2' ∷ b'3' ∷ b'4' ∷ b'5' ∷ b'6' ∷ b'7' ∷ b'8' ∷ b'9' ∷ b'a' ∷ b'b' ∷ b'c' ∷ b'd'
    ∷ b'e' ∷ b'f' ∷ []

-- "0123456789abcdef"[k]
unfoldable pub digit : ℕ → ℕ
digit k = elim (get_elem? characters k) [ none ↦ 0 | some c ↦ c ]

-- The loop of `hex_convert_memory` over `n` bytes, from byte `i` on; `c >> 4` and `c & 15` are the
-- quotient and the remainder by 16.
unfoldable pub convert_from : ℕ → ℕ → ℕ → List ℕ → List ℕ
convert_from width n i [] = []
convert_from width n i (c ∷ m) =
    let rest = convert_from width n (i + 1) m in
    digit (c / 16)
    ∷ digit (c % 16)
    ∷ (if i % width == width - 1 && not (i == n - 1) then 32 ∷ rest else rest)

-- The text that is written; `none` where `i % width` divides by 0.
unfoldable pub hex_convert_memory : List ℕ → ℕ → Option (List ℕ)
unfolding convert_from
hex_convert_memory m width =
    if width == 0 && not (length m == 0) then none else some (convert_from width (length m) 0 m)
