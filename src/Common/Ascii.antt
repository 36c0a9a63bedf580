-- ===== src/Common/Ascii.antt =====
-- Texts as lists of bytes.
use Prim.Native.Char.{code}
use Prim.Native.String.{String}
use learn_framework.Common.{ℕ, ◌≡◌, refl, Bool, true, false, ◌&&◌, ◌==◌, List, [], ◌∷◌, arith}

-- The bytes of an ASCII literal.
abbrev pub codes : String → List ℕ
codes String.[] = []
codes (String.◌∷◌ c s) = code c ∷ codes s

-- Whether two texts are the same, byte by byte.
unfoldable pub same : List ℕ → List ℕ → Bool
same [] [] = true
same (a ∷ s) (b ∷ t) = (a == b) && same s t
same _ _ = false

pub same_self : (s : List ℕ) → same s s ≡ true
unfolding same
same_self [] = refl
same_self (a ∷ s) = ground (arith, same_self s)
