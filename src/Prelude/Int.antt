-- ===== src/Prelude/Int.antt =====
-- C's `int` where the source clamps a negative value: an integer is `pos n` or -(n + 1).
use Prim.Native.Nat.{ℕ}

pub data ℤ : Type 0 where
  pos : ℕ → ℤ
  negsuc : ℕ → ℤ

-- `if (v < 0) v = 0;`
abbrev pub clamp_zero : ℤ → ℕ
clamp_zero (pos n) = n
clamp_zero (negsuc n) = 0
