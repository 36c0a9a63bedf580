-- ===== src/Datum/Conserve.antt =====
-- learneth/src/main.cpp: `RandomizedTransfer` moves bytes, whatever the random numbers.
use mathlib.Core.List.{append_assoc, append-nil}
use learn_framework.Common.{
  ℕ, zero, suc, ◌+◌, ◌*◌, ◌/◌, ◌≤◌, ◌<◌, ◌≡◌, refl, sym, ap, ◌∙◌, Bool, true, inl, inr, Bool-cases,
  List, [], ◌∷◌, ◌++◌, arith, ltb, leb, if◌then◌else◌, length, length-drop, take, drop, min, ok,
}
use learn_framework.Datum.Transfer.{Buffers, Moving, move_some, transfer, randomized_transfer}

unfoldable pub flat : List (List ℕ) → List ℕ
flat [] = []
flat (c ∷ cs) = c ++ flat cs

flat-append_last : (cs : List (List ℕ)) (c : List ℕ) → flat (cs ++ (c ∷ [])) ≡ flat cs ++ c
unfolding flat
flat-append_last [] c = append-nil c
flat-append_last (d ∷ cs) c =
    ap (λ x. d ++ x) (flat-append_last cs c) ∙ sym (append_assoc d (flat cs) c)

take-append-drop {ℓ} : {A : Type ℓ} (n : ℕ) (xs : List A) → take n xs ++ drop n xs ≡ xs
take-append-drop zero xs = refl
take-append-drop (suc n) [] = refl
take-append-drop (suc n) (x ∷ xs) = ap (λ ys. x ∷ ys) (take-append-drop n xs)

module _ (buffers : Buffers) where
  open buffers use {contents, get, draw, get-contents, draw_bounds}

  -- All that the target was given, and behind it what the source still holds.
  unfoldable pub given : Moving buffers → List ℕ
  given m = flat m.target ++ contents m.source

  abbrev pub left_over : Moving buffers → ℕ
  left_over m = length (contents m.source)

  move_some-given :
      (m : Moving buffers)
      → 1 ≤ left_over m
      → (m' : Moving buffers) × (move_some buffers m ≡ ok m')
        × (given m' ≡ given m)
        × (left_over m' < left_over m)
  unfolding move_some given
  move_some-given m h = (moved, rw room refl, same, fewer)
    where
      len : ℕ
      len = draw (m.draws + 1) 1 (min 4096 (3 * left_over m / 2))

      len_bounds : (1 ≤ len) × (len ≤ min 4096 (3 * left_over m / 2))
      len_bounds = draw_bounds (m.draws + 1) 1 (min 4096 (3 * left_over m / 2)) (omega arith)

      room : leb (draw m.draws 0 63 + len) (4096 + 64) ≡ true
      room = ground (arith, draw_bounds m.draws 0 63 (omega arith), len_bounds)

      moved : Moving buffers
      moved = record {
        source = (get m.source len).1;
        target = m.target ++ ((get m.source len).0 ∷ []);
        draws = m.draws + 2;
      }

      same : given moved ≡ given m
      same =
          rw
            (
              flat-append_last m.target (get m.source len).0,
              (get-contents m.source len).0,
              (get-contents m.source len).1,
            )
            (append_assoc (flat m.target) (take len (contents m.source))
                (drop len (contents m.source))
              ∙ ap (λ x. flat m.target ++ x) (take-append-drop len (contents m.source)))

      fewer : left_over moved < left_over m
      fewer = omega (
        arith,
        len_bounds,
        ap length (get-contents m.source len).1,
        length-drop len (contents m.source),
      )

  -- The limit at which the loop stops.
  abbrev pub kept : Bool → ℕ
  kept finish = if finish then 0 else 4096

  transfer-given :
      (fuel : ℕ) (finish : Bool) (m : Moving buffers)
      → left_over m < fuel
      → (m' : Moving buffers) × (transfer buffers fuel finish m ≡ ok m')
        × (given m' ≡ given m)
        × (left_over m' ≤ kept finish)
  unfolding transfer
  transfer-given zero finish m h = absurd (omega arith)
  transfer-given (suc fuel) finish m h = elim (Bool-cases (ltb (kept finish) (left_over m))) [
    | inl more ↦
        let (m1, e1, same1, fewer) = move_some-given m (ground arith) in
        let (m2, e2, same2, low) = transfer-given fuel finish m1 (omega arith) in
        (m2, rw (more, e1) e2, same2 ∙ same1, low)
    | inr done ↦ (m, rw done refl, refl, ground arith)
  ]

  -- With the random numbers in their bounds, `RandomizedTransfer` stays in its buffer and returns: it
  -- has moved bytes from the front of the source to the target, in order, until at most 4096 are left,
  -- or none if it is to finish.
  pub randomized_transfer-given :
      (finish : Bool) (m : Moving buffers)
      → (m' : Moving buffers) × (randomized_transfer buffers finish m ≡ ok m')
        × (given m' ≡ given m)
        × (left_over m' ≤ kept finish)
  unfolding randomized_transfer
  randomized_transfer-given finish m = transfer-given (suc (left_over m)) finish m (omega arith)
