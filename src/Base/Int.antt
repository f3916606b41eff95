-- ===== src/Base/Int.antt =====
-- C's `int`, where a function returns a negative number.
use Prim.Native.Nat.{ℕ, zero, suc}
use mathlib.Core.Bool.{Bool, true, false}

-- `negsuc n` is -(n + 1).
pub data ℤ : Type 0 where
  pos : ℕ → ℤ
  negsuc : ℕ → ℤ

-- The value as a condition: only 0 is false.
abbrev pub truth : ℤ → Bool
truth (pos n) = elim n [ zero ↦ false | suc m ↦ true ]
truth (negsuc n) = true

abbrev pub is_negative : ℤ → Bool
is_negative (pos n) = false
is_negative (negsuc n) = true

-- `n > 0`
abbrev pub is_positive : ℤ → Bool
is_positive (pos n) = elim n [ zero ↦ false | suc m ↦ true ]
is_positive (negsuc n) = false
