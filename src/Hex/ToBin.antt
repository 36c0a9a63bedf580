-- ===== src/Hex/ToBin.antt =====
-- learnopenssl/src/main.cpp: `hex_to_bin`, and that it undoes `hex_convert_memory`.
use learn_framework.Common.{
  ℕ, ◌+◌, ◌-◌, ◌*◌, ◌/◌, ◌%◌, ◌≤◌, ◌<◌, ◌≡◌, refl, ap, ◌∙◌, false, not, ◌&&◌, Option, none, some,
  List, [], ◌∷◌, ◌++◌, ◌==◌, arith, length, drop,
}
use native.Mathlib.Nat.{mod-eq_of_lt}
use learn_framework.Common.Int.{pos}
use learn_framework.Hex.{hex_digit, digit, convert_from, hex_convert_memory}
use learn_framework.Hex.ReadBack.{AllBytes, digit_reads}

-- `sscanf(text, "%2hhx", bin)`: the byte that it stores, if it stores one.
pub record Scanner : Type 0 where
  pub scan : List ℕ → Option ℕ
  pub scan_digits :
      (c d a b : ℕ) (rest : List ℕ)
      → hex_digit c ≡ pos a
      → hex_digit d ≡ pos b
      → scan (c ∷ d ∷ rest) ≡ some (16 * a + b)

abbrev pub stored : Option ℕ → ℕ → ℕ
stored none old = old
stored (some new) old = new

-- The text is what lies ahead of its first 0, and the buffer goes from `bin` to `end`. The result is
-- the buffer; `none` where `ph += 2` steps over the end of the text, which is read next.
unfoldable pub hex_to_bin : Scanner → List ℕ → List ℕ → Option (List ℕ)
hex_to_bin s [] bin = some bin
hex_to_bin s (c ∷ ph) [] = some []
hex_to_bin s (c ∷ []) (b ∷ bin) = none
hex_to_bin s (c ∷ d ∷ ph) (b ∷ bin) = elim (hex_to_bin s ph bin) [
  | none ↦ none
  | some rest ↦ some (stored (s.scan (c ∷ d ∷ ph)) b ∷ rest)
]

-- Within the first line of the text there is no space.
no_gap : (width n i : ℕ) → i < n → n ≤ width → (i % width == width - 1 && not (i == n - 1)) ≡ false
no_gap width n i l w = let same : i % width ≡ i = mod-eq_of_lt (omega arith) in ground (arith, same)

hex_to_bin_pair :
    (s : Scanner) (c d v : ℕ) (ph : List ℕ) (b : ℕ) (bin out : List ℕ)
    → s.scan (c ∷ d ∷ ph) ≡ some v
    → hex_to_bin s ph bin ≡ some out
    → hex_to_bin s (c ∷ d ∷ ph) (b ∷ bin) ≡ some (v ∷ out)
unfolding hex_to_bin
hex_to_bin_pair s c d v ph b bin out took next = ground (arith, took, next)

hex_to_bin-convert_from :
    (s : Scanner) (width n i : ℕ) (m bin : List ℕ)
    → AllBytes m
    → i + length m ≡ n
    → n ≤ width
    → length m ≤ length bin
    → hex_to_bin s (convert_from width n i m) bin ≡ some (m ++ drop (length m) bin)
unfolding hex_to_bin convert_from
hex_to_bin-convert_from s width n i [] bin v e w h = refl
hex_to_bin-convert_from s width n i (c ∷ m) [] v e w h = absurd (omega arith)
hex_to_bin-convert_from s width n i (c ∷ m) (b ∷ bin) v e w h =
    let (hi, _) = digit_reads (c / 16) (omega (arith, v.0)) in
    let (lo, _) = digit_reads (c % 16) (omega arith) in
    let whole : 16 * (c / 16) + c % 16 ≡ c = omega arith in
    let rest = convert_from width n (i + 1) m in
    let took = s.scan_digits (digit (c / 16)) (digit (c % 16)) (c / 16) (c % 16) rest hi lo in
    let next = hex_to_bin-convert_from s width n (i + 1) m bin v.1 (omega arith) w (omega arith) in
    rw (no_gap width n i (omega arith) w) (
      hex_to_bin_pair s (digit (c / 16)) (digit (c % 16)) (16 * (c / 16) + c % 16) rest b bin
        (m ++ drop (length m) bin) took next
      ∙ ap (λ x. some (x ∷ (m ++ drop (length m) bin))) whole)

-- Let `sscanf` store the value of two digits. What `hex_convert_memory` writes of bytes in one line,
-- `hex_to_bin` reads back into any buffer that has room for them, and the rest of the buffer stays.
pub hex_to_bin-hex_convert_memory :
    (s : Scanner) (m bin : List ℕ) (width : ℕ)
    → AllBytes m
    → 1 ≤ width
    → length m ≤ width
    → length m ≤ length bin
    → (text : List ℕ) × (hex_convert_memory m width ≡ some text)
      × (hex_to_bin s text bin ≡ some (m ++ drop (length m) bin))
unfolding hex_convert_memory
hex_to_bin-hex_convert_memory s m bin width v one line room = (
  convert_from width (length m) 0 m,
  ground arith,
  hex_to_bin-convert_from s width (length m) 0 m bin v (omega arith) line room,
)
