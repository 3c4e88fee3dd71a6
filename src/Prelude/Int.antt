-- ===== src/Prelude/Int.antt =====
-- Signed integers over the native numbers, as far as the program compares and counts them.
use Prim.Native.Nat.{ℕ, zero, suc, ◌+◌}
use mathlib.Core.Bool.{Bool}
use radioactive_ralph.Prelude.Tests.{ltb}

-- `negsuc n` is -(n + 1).
pub data ℤ : Type 0 where
  pos : ℕ → ℤ
  negsuc : ℕ → ℤ

abbrev pub pos_part : ℤ → ℕ
pos_part (pos n) = n
pos_part (negsuc n) = 0

abbrev pub neg_part : ℤ → ℕ
neg_part (pos n) = 0
neg_part (negsuc n) = suc n

abbrev pub ltb_ℤ : ℤ → ℤ → Bool
ltb_ℤ a b = ltb (pos_part a + neg_part b) (pos_part b + neg_part a)

-- `n++`
abbrev pub succ_ℤ : ℤ → ℤ
succ_ℤ (pos n) = pos (suc n)
succ_ℤ (negsuc zero) = pos 0
succ_ℤ (negsuc (suc n)) = negsuc n
