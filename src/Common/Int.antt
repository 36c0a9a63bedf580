-- ===== src/Common/Int.antt =====
-- The values of a C++ `int`, as integers over the native numbers; `negsuc n` is -(n + 1).
use Prim.Native.Nat.{ℕ, zero, suc, ◌+◌}
use mathlib.Core.Path.{◌≡◌}
use mathlib.Core.Bool.{Bool, true, false}
use native.Mathlib.Omega.{arith}

pub data ℤ : Type 0 where
  pos : ℕ → ℤ
  negsuc : ℕ → ℤ

abbrev pub pos_part : ℤ → ℕ
pos_part (pos n) = n
pos_part (negsuc n) = 0

abbrev pub neg_part : ℤ → ℕ
neg_part (pos n) = 0
neg_part (negsuc n) = suc n

-- z++
unfoldable pub increment : ℤ → ℤ
increment (pos n) = pos (suc n)
increment (negsuc zero) = pos 0
increment (negsuc (suc n)) = negsuc n

-- z--
unfoldable pub decrement : ℤ → ℤ
decrement (pos zero) = negsuc 0
decrement (pos (suc n)) = pos n
decrement (negsuc n) = negsuc (suc n)

-- z < 1
abbrev pub below_one : ℤ → Bool
below_one (pos zero) = true
below_one (pos (suc n)) = false
below_one (negsuc n) = true

pub increment_parts :
    (z : ℤ) → pos_part (increment z) + neg_part z ≡ neg_part (increment z) + pos_part z + 1
unfolding increment
increment_parts (pos n) = omega arith
increment_parts (negsuc zero) = omega arith
increment_parts (negsuc (suc n)) = omega arith
