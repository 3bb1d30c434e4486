-- ===== src/Base/Int.antt =====
-- `std::int64_t` values: signed integers over the native numbers. `negsuc n` is -(n + 1).
use range_vec_kv.Base.Tests.{◌==◌}
use Prim.Native.Nat.{ℕ}
use mathlib.Core.Bool.{Bool, false}

pub data ℤ : Type 0 where
  pos : ℕ → ℤ
  negsuc : ℕ → ℤ

abbrev pub is_zero : ℤ → Bool
is_zero (pos n) = n == 0
is_zero (negsuc n) = false
