-- ===== src/Datum/Pieces.antt =====
-- learneth/src/main.cpp: `PutDecodedDatumInto` on the text of one datum.
use learn_framework.Common.{
  ℕ, suc, ◌+◌, ◌-◌, ◌*◌, ◌^◌, ◌<◌, ◌≡◌, refl, ap, Bool, true, false, ◌&&◌, ◌||◌, not, none, some,
  [], ◌∷◌, ◌++◌, arith, ltb, leb, ◌==◌, length, length-append, take, drop, drop-append, ok,
}
use learn_framework.Common.Int.{ℤ, pos}
use learn_framework.Datum.{
  Text, Codec, datum, find, starts_with, word32, word64, digits, atoi, is_digit, is_space,
  past_space, repeat_of, take_to, drop_to, plain,
}

-- Every entry of a text passes a test.
abbrev pub Each : (ℕ → Bool) → Text → Type 0
Each p [] = Unit
Each p (c ∷ s) = (p c ≡ true) × Each p s

abbrev pub is_other : ℕ → ℕ → Bool
is_other c d = not (d == c)

abbrev pub is_hex : ℕ → Bool
is_hex c = (leb b'0' c && leb c b'9') || ((leb b'a' c && leb c b'f') || (leb b'A' c && leb c b'F'))

-- What may come behind a datum: nothing, or a space and more.
pub data IsTail : Text → Type 0 where
  done : IsTail []
  more : (s : Text) → IsTail (b' ' ∷ s)

pub find_at : (c : ℕ) (s t : Text) → Each (is_other c) s → find c (s ++ (c ∷ t)) ≡ some (length s)
unfolding find
find_at c [] t h = ground arith
find_at c (d ∷ s) t h = ground (arith, find_at c s t h.1)

pub find-none : (c : ℕ) (s : Text) → Each (is_other c) s → find c s ≡ none
unfolding find
find-none c [] h = refl
find-none c (d ∷ s) h = ground (arith, find-none c s h.1)

pub take-append : (s t : Text) → take (length s) (s ++ t) ≡ s
take-append [] t = refl
take-append (c ∷ s) t = ap (λ x. c ∷ x) (take-append s t)

-- Past a separator.
pub drop_past : (c : ℕ) (s t : Text) → drop (suc (length s)) (s ++ (c ∷ t)) ≡ t
drop_past c [] t = refl
drop_past c (d ∷ s) t = drop_past c s t

append_nil : (s : Text) → s ++ [] ≡ s
append_nil [] = refl
append_nil (c ∷ s) = ap (λ x. c ∷ x) (append_nil s)

Each-hex : (s : Text) → Each is_hex s → Each (is_other b' ') s
Each-hex [] h = tt
Each-hex (c ∷ s) h = (ground arith, Each-hex s h.1)

Each-digit : (s : Text) → Each is_digit s → Each (is_other b' ') s
Each-digit [] h = tt
Each-digit (c ∷ s) h = (ground arith, Each-digit s h.1)

no_prefix :
    (c : ℕ) (s t : Text)
    → is_hex c ≡ true
    → Each is_hex s
    → IsTail t
    → starts_with (b'0' ∷ b'x' ∷ []) (c ∷ (s ++ t)) ≡ false
unfolding starts_with
no_prefix c [] [] h a done = ground arith
no_prefix c [] _ h a (more s) = ground arith
no_prefix c (d ∷ s) t h a i = ground arith

-- Up to the first space, and from there on.
cut :
    (s t : Text)
    → Each (is_other b' ') s
    → IsTail t
    → (take_to (find b' ' (s ++ t)) (s ++ t) ≡ s) × (drop_to (find b' ' (s ++ t)) (s ++ t) ≡ t)
cut s [] h done = rw (append_nil s, find-none b' ' s h) (refl, refl)
cut s _ h (more u) =
    rw (find_at b' ' s u h) (take-append s (b' ' ∷ u), drop-append (length s) s (b' ' ∷ u) refl)

no_word :
    (c d : ℕ) (p s : Text)
    → is_hex c ≡ true
    → is_hex d ≡ false
    → starts_with (d ∷ p) (c ∷ s) ≡ false
unfolding starts_with
no_word c d p s h w = ground arith

digits-append : (n : ℕ) (s t : Text) → Each is_digit s → digits n (s ++ (b' ' ∷ t)) ≡ digits n s
unfolding digits
digits-append n [] t h = refl
digits-append n (c ∷ s) t h = ground (arith, digits-append (10 * n + (c - b'0')) s t h.1)

atoi-digits :
    (c : ℕ) (s t : Text)
    → is_digit c ≡ true
    → Each is_digit s
    → atoi (c ∷ (s ++ (b' ' ∷ t))) ≡ pos (digits 0 (c ∷ s))
unfolding atoi
atoi-digits c s t h a =
    let no_blank : is_space c ≡ false = ground arith in
    let no_minus : (c == b'-') ≡ false = ground arith in
    let no_plus : (c == b'+') ≡ false = ground arith in
    rw (no_blank, no_minus, no_plus) (ap pos (digits-append 0 (c ∷ s) t (h, a)))

past_space_lem : (s t : Text) → Each (is_other b' ') s → past_space (s ++ (b' ' ∷ t)) ≡ t
unfolding past_space
past_space_lem s t h =
    let one : length s + 1 ≡ suc (length s) = omega arith in
    rw (find_at b' ' s t h, past_space) (rw (one, drop_past b' ' s t) refl)

pub repeat_of-digits :
    (c : ℕ) (s t : Text)
    → is_digit c ≡ true
    → Each is_digit s
    → digits 0 (c ∷ s) < 2 ^ 31
    → repeat_of (b'r' ∷ c ∷ (s ++ (b' ' ∷ t))) ≡ ok (pos (digits 0 (c ∷ s)), t)
unfolding repeat_of
repeat_of-digits c s t h a small =
    let fits : ltb (digits 0 (c ∷ s)) (2 ^ 31) ≡ true = ground arith in
    rw (atoi-digits c s t h a, fits, past_space_lem (c ∷ s) t (Each-digit (c ∷ s) (h, a))) refl

module _ (codec : Codec) where
  open codec use {hex_decode}

  pub plain_hex :
      (repeat : ℤ) (c : ℕ) (s t : Text)
      → is_hex c ≡ true
      → Each is_hex s
      → IsTail t
      → plain codec repeat (c ∷ (s ++ t)) ≡ ok (datum repeat (hex_decode (c ∷ s)) t)
  unfolding plain
  plain_hex repeat c s t h a i =
      let not_quote : (c == b'"') ≡ false = ground arith in
      let (front, back) = cut (c ∷ s) t (Each-hex (c ∷ s) (h, a)) i in
      rw
        (
          no_word c b'w' (drop 1 word64) (s ++ t) h refl,
          no_word c b'w' (drop 1 word32) (s ++ t) h refl,
          not_quote,
          no_prefix c s t h a i,
          front,
          back,
        )
        refl

  pub plain_quoted :
      (repeat : ℤ) (s t : Text)
      → Each (is_other b'"') s
      → plain codec repeat (b'"' ∷ (s ++ (b'"' ∷ t))) ≡ ok (datum repeat s t)
  unfolding plain starts_with
  plain_quoted repeat s t h =
      let room : leb (length s + 2) (suc (length (s ++ (b'"' ∷ t)))) ≡ true =
        ground (arith, length-append s (b'"' ∷ t)) in
      let two : length s + 2 ≡ suc (suc (length s)) = omega arith in
      rw (find_at b'"' s t h, take-append s (b'"' ∷ t), room, two, drop_past b'"' s t) refl
