-- ===== src/Datum/Printed.antt =====
-- learneth/src/main.cpp: `PutDecodedDatumInto` on data that are printed one behind another.
use learn_framework.Common.{
  ℕ, ◌^◌, ◌<◌, ◌≡◌, refl, ap, sym, ◌∙◌, true, false, List, [], ◌∷◌, ◌++◌, arith, ◌==◌, Result, ok,
  ◌>>=◌,
}
use learn_framework.Common.Int.{ℤ, pos}
use learn_framework.Datum.{
  Text, Codec, Stop, Item, datum, skip, digits, is_digit, repeat_of, plain, next_item,
}
use learn_framework.Datum.Delivers.{repeated}
use learn_framework.Datum.Pieces.{
  Each, is_other, is_hex, IsTail, more, plain_hex, plain_quoted, repeat_of-digits,
}

-- A datum in hexadecimal digits, its first apart, or between quotes.
pub data Body : Type 0 where
  hex : (c : ℕ) (s : Text) → Body
  quote : (s : Text) → Body

-- Once, or as often as these digits say, the first of them apart.
pub data Entry : Type 0 where
  once : (b : Body) → Entry
  times : (c : ℕ) (s : Text) (b : Body) → Entry

unfoldable pub body_onto : Body → Text → Text
body_onto (hex c s) t = c ∷ (s ++ t)
body_onto (quote s) t = b'"' ∷ (s ++ (b'"' ∷ t))

unfoldable pub entry_onto : Entry → Text → Text
unfolding body_onto
entry_onto (once b) t = body_onto b t
entry_onto (times c s b) t = b'r' ∷ c ∷ (s ++ (b' ' ∷ body_onto b t))

-- More data, each behind one space, and then the text `t`.
unfoldable pub spaced_onto : List Entry → Text → Text
spaced_onto [] t = t
spaced_onto (e ∷ es) t = b' ' ∷ entry_onto e (spaced_onto es t)

-- Data with one space between any two, and then the text `t`.
unfoldable pub print_onto : List Entry → Text → Text
unfolding spaced_onto
print_onto [] t = t
print_onto (e ∷ es) t = entry_onto e (spaced_onto es t)

abbrev pub IsBody : Body → Type 0
IsBody (hex c s) = (is_hex c ≡ true) × Each is_hex s
IsBody (quote s) = Each (is_other b'"') s

abbrev pub IsEntry : Entry → Type 0
IsEntry (once b) = IsBody b
IsEntry (times c s b) =
    (is_digit c ≡ true) × Each is_digit s × (digits 0 (c ∷ s) < 2 ^ 31) × IsBody b

abbrev pub AreEntries : List Entry → Type 0
AreEntries [] = Unit
AreEntries (e ∷ es) = IsEntry e × AreEntries es

abbrev pub body : Entry → Body
body (once b) = b
body (times c s b) = b

abbrev pub count : Entry → ℕ
count (once b) = 1
count (times c s b) = digits 0 (c ∷ s)

pub spaced_onto-IsTail : (es : List Entry) (t : Text) → IsTail t → IsTail (spaced_onto es t)
unfolding spaced_onto
spaced_onto-IsTail [] t i = i
spaced_onto-IsTail (e ∷ es) t i = more (entry_onto e (spaced_onto es t))

skip_lem : (c : ℕ) (s : Text) → (c == b' ') ≡ false → skip (c ∷ s) ≡ c ∷ s
unfolding skip
skip_lem c s h = rw (h, skip) refl

skip_space : (c : ℕ) (s : Text) → (c == b' ') ≡ false → skip (b' ' ∷ c ∷ s) ≡ c ∷ s
unfolding skip
skip_space c s h = rw (h, skip) refl

module _ (codec : Codec) where
  open codec use {hex_decode}

  unfoldable pub body_bytes : Body → List ℕ
  body_bytes (hex c s) = hex_decode (c ∷ s)
  body_bytes (quote s) = s

  -- The bytes of the data.
  unfoldable pub values : List Entry → List ℕ
  unfolding body_bytes
  values [] = []
  values (e ∷ es) = repeated (count e) (body_bytes (body e)) ++ values es

  plain_body :
      (repeat : ℤ) (b : Body) (t : Text)
      → IsBody b
      → IsTail t
      → plain codec repeat (body_onto b t) ≡ ok (datum repeat (body_bytes b) t)
  unfolding body_onto body_bytes
  plain_body repeat (hex c s) t v i = plain_hex codec repeat c s t v.0 v.1 i
  plain_body repeat (quote s) t v i = plain_quoted codec repeat s t v

  -- The item of a text that starts with an entry, once its spaces are skipped.
  item_of : Text → Result Stop Item
  item_of s = repeat_of s >>= λ r. plain codec r.0 r.1

  entry_item :
      (e : Entry) (t : Text)
      → IsEntry e
      → IsTail t
      → item_of (entry_onto e t) ≡ ok (datum (pos (count e)) (body_bytes (body e)) t)
  unfolding item_of entry_onto repeat_of
  entry_item (once (hex c s)) t v i =
      let no_repeat : (c == b'r') ≡ false = ground arith in
      rw no_repeat (plain_body (pos 1) (hex c s) t v i)
  entry_item (once (quote s)) t v i = plain_body (pos 1) (quote s) t v i
  entry_item (times c s b) t v i =
      rw (repeat_of-digits c s (body_onto b t) v.0 v.1 v.2)
        (plain_body (pos (digits 0 (c ∷ s))) b t v.3 i)

  pub entry_head :
      (e : Entry) (t : Text)
      → IsEntry e
      → (c : ℕ) × (s : Text) × (entry_onto e t ≡ c ∷ s) × ((c == b' ') ≡ false)
  unfolding entry_onto
  entry_head (once (hex c s)) t v = (c, s ++ t, refl, ground arith)
  entry_head (once (quote s)) t v = (b'"', s ++ (b'"' ∷ t), refl, refl)
  entry_head (times c s b) t v = (b'r', c ∷ (s ++ (b' ' ∷ body_onto b t)), refl, refl)

  next_skipped : (c : ℕ) (s t : Text) → skip t ≡ c ∷ s → next_item codec t ≡ item_of (c ∷ s)
  unfolding item_of next_item repeat_of
  next_skipped c s t h = rw (h, next_item) refl

  pub next_entry :
      (e : Entry) (t : Text)
      → IsEntry e
      → IsTail t
      → (next_item codec (entry_onto e t) ≡ ok (datum (pos (count e)) (body_bytes (body e)) t))
        × (next_item codec (b' ' ∷ entry_onto e t)
            ≡ ok (datum (pos (count e)) (body_bytes (body e)) t))
  next_entry e t v i =
      let (c, s, starts, no_space) = entry_head e t v in
      let found = sym (ap item_of starts) ∙ entry_item e t v i in
      rw starts (
        next_skipped c s (c ∷ s) (skip_lem c s no_space) ∙ found,
        next_skipped c s (b' ' ∷ c ∷ s) (skip_space c s no_space) ∙ found,
      )
