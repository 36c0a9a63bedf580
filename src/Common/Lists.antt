-- ===== src/Common/Lists.antt =====
-- Lists measured and indexed by native numbers, under the library's names, and sums over a list.
use Prim.Native.Nat.{ℕ, zero, suc, ◌+◌, ◌-◌, ◌≤◌, min}
use mathlib.Core.Path.{◌≡◌, refl, ap}
use mathlib.Core.Logic.{◌≢◌}
use mathlib.Core.List.{List, [], ◌∷◌, ◌++◌}
use mathlib.Core.Option.{Option, none, some}
use native.Mathlib.Omega.{arith}

module _ {ℓ} {A : Type ℓ} where
  abbrev pub length : List A → ℕ
  length [] = 0
  length (x ∷ xs) = suc (length xs)

  abbrev pub get_elem? : List A → ℕ → Option A
  get_elem? [] i = none
  get_elem? (x ∷ xs) zero = some x
  get_elem? (x ∷ xs) (suc i) = get_elem? xs i

  -- A write out of bounds changes nothing.
  abbrev pub set : List A → ℕ → A → List A
  set [] i v = []
  set (x ∷ xs) zero v = v ∷ xs
  set (x ∷ xs) (suc i) v = x ∷ set xs i v

  abbrev pub take : ℕ → List A → List A
  take zero xs = []
  take (suc n) [] = []
  take (suc n) (x ∷ xs) = x ∷ take n xs

  abbrev pub drop : ℕ → List A → List A
  drop zero xs = xs
  drop (suc n) [] = []
  drop (suc n) (x ∷ xs) = drop n xs

  pub length-append : (xs ys : List A) → length (xs ++ ys) ≡ length xs + length ys
  length-append [] ys = omega arith
  length-append (x ∷ xs) ys = omega (arith, length-append xs ys)

  pub length-take : (n : ℕ) (xs : List A) → length (take n xs) ≡ min n (length xs)
  length-take zero xs = omega arith
  length-take (suc n) [] = omega arith
  length-take (suc n) (x ∷ xs) = omega (arith, length-take n xs)

  pub length-drop : (n : ℕ) (xs : List A) → length (drop n xs) ≡ length xs - n
  length-drop zero xs = omega arith
  length-drop (suc n) [] = omega arith
  length-drop (suc n) (x ∷ xs) = omega (arith, length-drop n xs)

-- The sum of a weight over a list.
module _ {ℓ} {A : Type ℓ} (w : A → ℕ) where
  abbrev pub total : List A → ℕ
  total [] = 0
  total (x ∷ xs) = w x + total xs

  pub total-append : (xs ys : List A) → total (xs ++ ys) ≡ total xs + total ys
  total-append [] ys = omega arith
  total-append (x ∷ xs) ys = omega (arith, total-append xs ys)

  pub total-set :
      (xs : List A) (i : ℕ) (x y : A)
      → get_elem? xs i ≡ some x
      → total (set xs i y) + w x ≡ total xs + w y
  total-set [] i x y h = ground arith
  total-set (z ∷ xs) zero x y h = ground arith
  total-set (z ∷ xs) (suc i) x y h = omega (arith, total-set xs i x y h)

  pub total-take-drop : (n : ℕ) (xs : List A) → total (take n xs) + total (drop n xs) ≡ total xs
  total-take-drop zero xs = omega arith
  total-take-drop (suc n) [] = omega arith
  total-take-drop (suc n) (x ∷ xs) = omega (arith, total-take-drop n xs)

  pub total-get_elem? : (xs : List A) (i : ℕ) (x : A) → get_elem? xs i ≡ some x → w x ≤ total xs
  total-get_elem? [] i x h = ground arith
  total-get_elem? (z ∷ xs) zero x h = ground arith
  total-get_elem? (z ∷ xs) (suc i) x h = omega (arith, total-get_elem? xs i x h)

module _ {ℓ} {A : Type ℓ} where
  -- Writing what stands at one place to another keeps it at the first.
  pub get_elem?-set_copy :
      (xs : List A) (i j : ℕ) (x : A) → get_elem? xs i ≡ some x → get_elem? (set xs j x) i ≡ some x
  get_elem?-set_copy [] i j x h = h
  get_elem?-set_copy (z ∷ xs) zero zero x h = refl
  get_elem?-set_copy (z ∷ xs) zero (suc j) x h = h
  get_elem?-set_copy (z ∷ xs) (suc i) zero x h = h
  get_elem?-set_copy (z ∷ xs) (suc i) (suc j) x h = get_elem?-set_copy xs i j x h

  pub get_elem?-set :
      (xs : List A) (i : ℕ) (x y : A) → get_elem? xs i ≡ some x → get_elem? (set xs i y) i ≡ some y
  get_elem?-set [] i x y h = ground arith
  get_elem?-set (z ∷ xs) zero x y h = refl
  get_elem?-set (z ∷ xs) (suc i) x y h = get_elem?-set xs i x y h

  pub get_elem?-set_ne :
      (xs : List A) (i j : ℕ) (x : A) → i ≢ j → get_elem? (set xs i x) j ≡ get_elem? xs j
  get_elem?-set_ne [] i j x h = refl
  get_elem?-set_ne (z ∷ xs) zero zero x h = absurd (h refl)
  get_elem?-set_ne (z ∷ xs) zero (suc j) x h = refl
  get_elem?-set_ne (z ∷ xs) (suc i) zero x h = refl
  get_elem?-set_ne (z ∷ xs) (suc i) (suc j) x h = get_elem?-set_ne xs i j x (λ e. h (ap suc e))

  pub get_elem?-append_last :
      (xs : List A) (x : A) → get_elem? (xs ++ (x ∷ [])) (length xs) ≡ some x
  get_elem?-append_last [] x = refl
  get_elem?-append_last (z ∷ xs) x = get_elem?-append_last xs x

pub total_mono {ℓ} :
    {A : Type ℓ} (w v : A → ℕ) (xs : List A) → ((a : A) → w a ≤ v a) → total w xs ≤ total v xs
total_mono w v [] h = omega arith
total_mono w v (x ∷ xs) h = omega (arith, h x, total_mono w v xs h)

-- The other entries of a list, where one weight is below another.
pub total-le_others {ℓ} :
    {A : Type ℓ} (w v : A → ℕ) (xs : List A) (i : ℕ) (x : A)
    → ((a : A) → w a ≤ v a)
    → get_elem? xs i ≡ some x
    → total w xs + v x ≤ total v xs + w x
total-le_others w v [] i x h e = ground arith
total-le_others w v (z ∷ xs) zero x h e = ground (arith, total_mono w v xs h)
total-le_others w v (z ∷ xs) (suc i) x h e = omega (arith, h z, total-le_others w v xs i x h e)

-- Dropping a prefix of that length.
pub drop-append {ℓ} : {A : Type ℓ} (n : ℕ) (xs ys : List A) → length xs ≡ n → drop n (xs ++ ys) ≡ ys
drop-append zero [] ys h = refl
drop-append zero (x ∷ xs) ys h = absurd (omega arith)
drop-append (suc n) [] ys h = absurd (omega arith)
drop-append (suc n) (x ∷ xs) ys h = drop-append n xs ys (omega arith)
