-- ===== src/Base/Int.antt =====
-- Signed 64-bit integers, under the library's names over the native numbers.
use Prim.Native.Nat.{ℕ, ◌+◌, ◌-◌, ◌^◌}
use mathlib.Core.Bool.{Bool, true, false}
use digi_erp_connector.Base.Tests.{◌==◌, ltb, if◌then◌else◌}

-- `negsuc n` is -(n + 1).
pub data ℤ : Type 0 where
  pos : ℕ → ℤ
  negsuc : ℕ → ℤ

abbrev pub int_is_zero : ℤ → Bool
int_is_zero (pos n) = n == 0
int_is_zero (negsuc n) = false

abbrev pub int_lt : ℤ → ℤ → Bool
int_lt (pos m) (pos n) = ltb m n
int_lt (pos m) (negsuc n) = false
int_lt (negsuc m) (pos n) = true
int_lt (negsuc m) (negsuc n) = ltb n m

abbrev pub max_int64 : ℕ
max_int64 = 2 ^ 63 - 1

-- `n + 1` in int64 for n from 0 to the largest int64: past it, it wraps to the least int64.
unfoldable pub suc_int64 : ℕ → ℤ
suc_int64 n = if n == max_int64 then negsuc max_int64 else pos (n + 1)
