-- ===== src/Hex/Tests.antt =====
-- learnopenssl/src/main.cpp: three bytes in groups of two.
use learn_framework.Common.{
  ℕ, ◌+◌, ◌*◌, ◌≡◌, refl, Option, none, some, List, [], ◌∷◌, ◌++◌, arith, drop,
}
use learn_framework.Common.Int.{ℤ, pos}
use learn_framework.Hex.{hex_digit, digit, convert_from, hex_convert_memory}
use learn_framework.Hex.ToBin.{Scanner, hex_to_bin, hex_to_bin-hex_convert_memory}

abbrev three : List ℕ
three = 1 ∷ 171 ∷ 255 ∷ []

-- "01ab ff"
three_written :
    hex_convert_memory three 2 ≡ some (b'0' ∷ b'1' ∷ b'a' ∷ b'b' ∷ 32 ∷ b'f' ∷ b'f' ∷ [])
unfolding hex_convert_memory convert_from digit
three_written = refl

-- `sscanf` on two digits, by the table.
abbrev two_digits : ℤ → ℤ → Option ℕ
two_digits (pos a) (pos b) = some (16 * a + b)
two_digits _ _ = none

abbrev scan_two : List ℕ → Option ℕ
scan_two (c ∷ d ∷ rest) = two_digits (hex_digit c) (hex_digit d)
scan_two _ = none

scanner : Scanner
scanner = record { scan = scan_two; scan_digits = λ c d a b rest hi lo. rw (hi, lo) refl }

hex_to_bin-hex_convert_memory_example :
    (text : List ℕ) × (hex_convert_memory three 3 ≡ some text)
    × (hex_to_bin scanner text (7 ∷ 7 ∷ 7 ∷ 7 ∷ []) ≡ some (three ++ drop 3 (7 ∷ 7 ∷ 7 ∷ 7 ∷ [])))
hex_to_bin-hex_convert_memory_example =
    hex_to_bin-hex_convert_memory scanner three (7 ∷ 7 ∷ 7 ∷ 7 ∷ []) 3
      (omega arith, (omega arith, (omega arith, tt))) (omega arith) (omega arith) (omega arith)
