-- ===== src/Datum/Rounds.antt =====
-- learneth/src/main.cpp: the rounds of `PutDecodedDatumInto` on printed data.
use mathlib.Core.List.{append_assoc}
use learn_framework.Common.{
  ℕ, zero, suc, ◌+◌, ◌≡◌, refl, ap, sym, ◌∙◌, List, [], ◌∷◌, ◌++◌, arith, length, Result, ok, err,
  ◌>>=◌,
}
use learn_framework.Common.Int.{pos}
use learn_framework.Datum.{Text, Codec, Stop, unfinished, datum, next_item}
use learn_framework.Datum.Delivers.{decoded, repeated}
use learn_framework.Datum.Pieces.{IsTail}
use learn_framework.Datum.Printed.{
  Entry, entry_onto, spaced_onto, print_onto, AreEntries, IsEntry, body, count, body_bytes, values,
  spaced_onto-IsTail, entry_head, next_entry,
}

-- More bytes in front of a result.
abbrev behind : List ℕ → Result Stop (List ℕ) → Result Stop (List ℕ)
behind bytes r = r >>= λ more. ok (bytes ++ more)

behind_nil : (r : Result Stop (List ℕ)) → r ≡ behind [] r
behind_nil (ok bytes) = refl
behind_nil (err why) = refl

behind-append :
    (b c : List ℕ) (r : Result Stop (List ℕ)) → behind b (behind c r) ≡ behind (b ++ c) r
behind-append b c (ok bytes) = ap ok (sym (append_assoc b c bytes))
behind-append b c (err why) = refl

module _ (codec : Codec) where
  decoded-zero : (s : Text) → decoded codec zero s ≡ err unfinished
  unfolding decoded
  decoded-zero s = refl

  decoded-next :
      (fuel n : ℕ) (bytes : List ℕ) (c : ℕ) (s t : Text)
      → next_item codec (c ∷ s) ≡ ok (datum (pos n) bytes t)
      → decoded codec (suc fuel) (c ∷ s)
        ≡ (decoded codec fuel t >>= λ more. ok (repeated n bytes ++ more))
  unfolding decoded
  decoded-next fuel n bytes c s t h = rw h refl

  decoded-entry :
      (fuel : ℕ) (e : Entry) (t : Text)
      → IsEntry e
      → IsTail t
      → decoded codec (suc fuel) (entry_onto e t)
        ≡ behind (repeated (count e) (body_bytes codec (body e))) (decoded codec fuel t)
  decoded-entry fuel e t v i =
      let (c, s, starts, _) = entry_head codec e t v in
      rw starts (
        decoded-next fuel (count e) (body_bytes codec (body e)) c s t
          (sym (ap (next_item codec) starts) ∙ (next_entry codec e t v i).0))

  decoded-space_entry :
      (fuel : ℕ) (e : Entry) (t : Text)
      → IsEntry e
      → IsTail t
      → decoded codec (suc fuel) (b' ' ∷ entry_onto e t)
        ≡ behind (repeated (count e) (body_bytes codec (body e))) (decoded codec fuel t)
  decoded-space_entry fuel e t v i =
      decoded-next fuel (count e) (body_bytes codec (body e)) b' ' (entry_onto e t) t
        (next_entry codec e t v i).1

  -- Data take one round each.
  decoded-spaced_onto :
      (es : List Entry) (fuel : ℕ) (t : Text)
      → AreEntries es
      → IsTail t
      → decoded codec (length es + fuel) (spaced_onto es t)
        ≡ behind (values codec es) (decoded codec fuel t)
  unfolding spaced_onto values
  decoded-spaced_onto [] fuel t v i =
      let none_more : 0 + fuel ≡ fuel = omega arith in
      rw none_more (behind_nil (decoded codec fuel t))
  decoded-spaced_onto (e ∷ es) fuel t v i =
      let shift : suc (length es) + fuel ≡ suc (length es + fuel) = omega arith in
      let bytes = repeated (count e) (body_bytes codec (body e)) in
      rw shift (
        decoded-space_entry (length es + fuel) e (spaced_onto es t) v.0 (spaced_onto-IsTail es t i)
        ∙ ap (behind bytes) (decoded-spaced_onto es fuel t v.1 i)
        ∙ behind-append bytes (values codec es) (decoded codec fuel t))

  pub decoded-print_onto :
      (es : List Entry) (fuel : ℕ) (t : Text)
      → AreEntries es
      → IsTail t
      → decoded codec (length es + fuel) (print_onto es t)
        ≡ behind (values codec es) (decoded codec fuel t)
  unfolding print_onto values
  decoded-print_onto [] fuel t v i = decoded-spaced_onto [] fuel t v i
  decoded-print_onto (e ∷ es) fuel t v i =
      let shift : suc (length es) + fuel ≡ suc (length es + fuel) = omega arith in
      let bytes = repeated (count e) (body_bytes codec (body e)) in
      rw shift (
        decoded-entry (length es + fuel) e (spaced_onto es t) v.0 (spaced_onto-IsTail es t i)
        ∙ ap (behind bytes) (decoded-spaced_onto es fuel t v.1 i)
        ∙ behind-append bytes (values codec es) (decoded codec fuel t))

  -- Without enough rounds for what comes behind them, data do not help.
  pub print_onto-unfinished :
      (es : List Entry) (t : Text)
      → AreEntries es
      → IsTail t
      → ((fuel : ℕ) → decoded codec fuel t ≡ err unfinished)
      → (fuel : ℕ) → decoded codec fuel (print_onto es t) ≡ err unfinished
  unfolding print_onto
  print_onto-unfinished [] t v i h fuel = h fuel
  print_onto-unfinished (e ∷ es) t v i h zero = decoded-zero (entry_onto e (spaced_onto es t))
  print_onto-unfinished (e ∷ es) t v i h (suc fuel) =
      decoded-entry fuel e (spaced_onto es t) v.0 (spaced_onto-IsTail es t i)
      ∙ ap (behind (repeated (count e) (body_bytes codec (body e)))) (spaced es v.1 fuel)
    where
      spaced :
          (fs : List Entry)
          → AreEntries fs
          → (n : ℕ) → decoded codec n (spaced_onto fs t) ≡ err unfinished
      spaced [] w n = h n
      spaced (f ∷ fs) w zero = decoded-zero (spaced_onto (f ∷ fs) t)
      spaced (f ∷ fs) w (suc n) =
          decoded-space_entry n f (spaced_onto fs t) w.0 (spaced_onto-IsTail fs t i)
          ∙ ap (behind (repeated (count f) (body_bytes codec (body f)))) (spaced fs w.1 n)
