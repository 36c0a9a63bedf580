-- ===== src/Hex/ReadBack.antt =====
-- learnopenssl/src/main.cpp: the text of `hex_convert_memory` against the table of digits.
use learn_framework.Common.{
  ℕ, zero, suc, ◌+◌, ◌-◌, ◌*◌, ◌/◌, ◌%◌, ◌≤◌, ◌<◌, ◌≡◌, refl, ap, ◌∙◌, Bool, true, false, not, ◌&&◌,
  Option, none, some, List, [], ◌∷◌, ◌==◌, arith, if◌then◌else◌, inl, inr, Bool-cases, length,
}
use learn_framework.Common.Int.{ℤ, pos, negsuc}
use learn_framework.Hex.{hexdigits, hex_digit, digit, convert_from, hex_convert_memory}

-- The text without its spaces.
pub unspaced : List ℕ → List ℕ
unspaced [] = []
unspaced (c ∷ cs) = if c == 32 then unspaced cs else c ∷ unspaced cs

abbrev pub byte_of : ℤ → ℤ → Option (List ℕ) → Option (List ℕ)
byte_of (pos a) (pos b) (some m) = some ((16 * a + b) ∷ m)
byte_of _ _ _ = none

-- The bytes of a text of pairs of digits, by the table.
unfoldable pub pairs : List ℕ → Option (List ℕ)
pairs [] = some []
pairs (c ∷ []) = none
pairs (c ∷ d ∷ cs) = byte_of (hex_digit c) (hex_digit d) (pairs cs)

-- Each entry is a byte.
abbrev pub AllBytes : List ℕ → Type 0
AllBytes [] = Unit
AllBytes (c ∷ m) = (c < 256) × AllBytes m

abbrev is_pos : ℕ → ℤ → Bool
is_pos k (pos n) = n == k
is_pos k (negsuc n) = false

is_pos-eq : (k : ℕ) (z : ℤ) → is_pos k z ≡ true → z ≡ pos k
is_pos-eq k (pos n) h = ground arith
is_pos-eq k (negsuc n) h = cc

-- The digit is no space, and the table reads it.
abbrev reads : ℕ → Bool
reads k = is_pos k (hex_digit (digit k)) && not (digit k == 32)

reads_below : ℕ → Bool
reads_below zero = true
reads_below (suc n) = reads n && reads_below n

reads-below : (n k : ℕ) → reads_below n ≡ true → k < n → reads k ≡ true
unfolding reads_below
reads-below zero k h l = absurd (omega arith)
reads-below (suc n) k h l = elim (Bool-cases (k == n)) [
  | inl e ↦ let same : k ≡ n = ground arith in rw same (ground arith)
  | inr e ↦ reads-below n k (ground arith) (ground arith)
]

all_read : reads_below 16 ≡ true
unfolding reads_below hexdigits hex_digit digit
all_read = refl

pub digit_reads : (k : ℕ) → k < 16 → (hex_digit (digit k) ≡ pos k) × ((digit k == 32) ≡ false)
digit_reads k l =
    let r : reads k ≡ true = reads-below 16 k all_read l in
    (is_pos-eq k (hex_digit (digit k)) (ground arith), ground arith)

head_byte :
    (a b : ℕ) (m cs : List ℕ)
    → a < 16
    → b < 16
    → pairs cs ≡ some m
    → pairs (digit a ∷ digit b ∷ cs) ≡ some ((16 * a + b) ∷ m)
unfolding pairs
head_byte a b m cs la lb h =
    let (ra, _) = digit_reads a la in let (rb, _) = digit_reads b lb in rw (ra, rb, h) refl

unspaced_digits :
    (a b : ℕ) (cs : List ℕ)
    → a < 16
    → b < 16
    → unspaced (digit a ∷ digit b ∷ cs) ≡ digit a ∷ digit b ∷ unspaced cs
unfolding unspaced
unspaced_digits a b cs la lb =
    let (_, sa) = digit_reads a la in let (_, sb) = digit_reads b lb in rw (sa, sb) refl

unspaced_space : (q : Bool) (cs : List ℕ) → unspaced (if q then 32 ∷ cs else cs) ≡ unspaced cs
unfolding unspaced
unspaced_space true cs = refl
unspaced_space false cs = refl

pairs-convert_from :
    (width n i : ℕ) (m : List ℕ) → AllBytes m → pairs (unspaced (convert_from width n i m)) ≡ some m
unfolding convert_from pairs unspaced
pairs-convert_from width n i [] v = refl
pairs-convert_from width n i (c ∷ m) v =
    let la : c / 16 < 16 = omega (arith, v.0) in
    let lb : c % 16 < 16 = omega arith in
    let whole : 16 * (c / 16) + c % 16 ≡ c = omega arith in
    let rest = convert_from width n (i + 1) m in
    let gap = i % width == width - 1 && not (i == n - 1) in
    rw
      (
        unspaced_digits (c / 16) (c % 16) (if gap then 32 ∷ rest else rest) la lb,
        unspaced_space gap rest,
      )
      (head_byte (c / 16) (c % 16) m (unspaced rest) la lb
          (pairs-convert_from width n (i + 1) m v.1)
        ∙ ap (λ x. some (x ∷ m)) whole)

-- For a width of at least 1, `hex_convert_memory` writes a text whose digits, without the spaces, the
-- table reads back as the bytes.
pub read-hex_convert_memory :
    (m : List ℕ) (width : ℕ)
    → AllBytes m
    → 1 ≤ width
    → (text : List ℕ) × (hex_convert_memory m width ≡ some text) × (pairs (unspaced text) ≡ some m)
unfolding hex_convert_memory
read-hex_convert_memory m width v h =
    (convert_from width (length m) 0 m, ground arith, pairs-convert_from width (length m) 0 m v)
