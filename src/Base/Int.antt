-- ===== src/Base/Int.antt =====
-- Signed integers, as C's `int` results are tested: by their sign.
use Prim.Native.Nat.{ℕ, zero, suc}
use mathlib.Core.Bool.{Bool, true, false}

-- `negsuc n` is -(n + 1).
pub data ℤ : Type 0 where
  pos : ℕ → ℤ
  negsuc : ℕ → ℤ

-- z <= 0
abbrev pub le_zero : ℤ → Bool
le_zero (pos zero) = true
le_zero (pos (suc n)) = false
le_zero (negsuc n) = true

-- z >= 0
abbrev pub ge_zero : ℤ → Bool
ge_zero (pos n) = true
ge_zero (negsuc n) = false

-- z < 0
abbrev pub lt_zero : ℤ → Bool
lt_zero (pos n) = false
lt_zero (negsuc n) = true
