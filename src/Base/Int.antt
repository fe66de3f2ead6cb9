-- ===== src/Base/Int.antt =====
-- Signed numbers over the native ones: results of calls, where a negative one is an error.
use Prim.Native.Nat.{ℕ}
use mathlib.Core.Bool.{Bool, true, false}
use ax88179_aroma_driver.Base.Tests.{◌==◌}

-- `negsuc n` is -(n + 1).
pub data ℤ : Type 0 where
  pos : ℕ → ℤ
  negsuc : ℕ → ℤ

abbrev pub is_neg : ℤ → Bool
is_neg (pos n) = false
is_neg (negsuc n) = true

-- `r == n`, for `n` not negative.
abbrev pub eq_nat : ℤ → ℕ → Bool
eq_nat (pos n) m = n == m
eq_nat (negsuc n) m = false

abbrev pub minus_one : ℤ
minus_one = negsuc 0
