-- ===== src/Base/Int.antt =====
-- Signed integers over the native numbers, Go's division, and the wrap-around of `int64` and `int32`.
use Prim.Native.Nat.{ℕ, suc, ◌-◌, ◌*◌, ◌/◌, ◌%◌, ◌<◌}
use mathlib.Core.Path.{◌≡◌}
use native.Mathlib.Omega.{arith}
use adbc_driver_spark.Base.Tests.{ltb, ◌==◌, if◌then◌else◌}

-- `negsuc n` is -(n + 1).
pub data ℤ : Type 0 where
  pos : ℕ → ℤ
  negsuc : ℕ → ℤ

abbrev pub pos_part : ℤ → ℕ
pos_part (pos n) = n
pos_part (negsuc n) = 0

abbrev pub neg_part : ℤ → ℕ
neg_part (pos n) = 0
neg_part (negsuc n) = suc n

-- -n
abbrev pub neg_ℕ : ℕ → ℤ
neg_ℕ n = if n == 0 then pos 0 else negsuc (n - 1)

-- z * n for a positive constant n
abbrev pub times : ℤ → ℕ → ℤ
times (pos m) n = pos (m * n)
times (negsuc m) n = neg_ℕ (suc m * n)

-- z / n in Go: the quotient is truncated toward zero.
abbrev pub quot : ℤ → ℕ → ℤ
quot (pos m) n = pos (m / n)
quot (negsuc m) n = neg_ℕ (suc m / n)

-- The quotient rounded down: -(m + 1) / n rounded down is -(m / n) - 1.
abbrev pub floor_div : ℤ → ℕ → ℤ
floor_div (pos m) n = pos (m / n)
floor_div (negsuc m) n = negsuc (m / n)

abbrev pub two63 : ℕ
two63 = 9223372036854775808

abbrev pub two64 : ℕ
two64 = 18446744073709551616

abbrev pub two31 : ℕ
two31 = 2147483648

abbrev pub two32 : ℕ
two32 = 4294967296

-- What remains of z in 64 bits, as a signed number: z is congruent to it modulo 2 ^ 64.
abbrev pub signed64 : ℕ → ℤ
signed64 n = if ltb n two63 then pos n else negsuc (two64 - 1 - n)

abbrev pub wrap64 : ℤ → ℤ
wrap64 (pos n) = signed64 (n % two64)
wrap64 (negsuc n) = signed64 (two64 - 1 - n % two64)

abbrev pub signed32 : ℕ → ℤ
signed32 n = if ltb n two31 then pos n else negsuc (two32 - 1 - n)

abbrev pub wrap32 : ℤ → ℤ
wrap32 (pos n) = signed32 (n % two32)
wrap32 (negsuc n) = signed32 (two32 - 1 - n % two32)

-- The magnitude of a value of 64 bits: -2^63 to 2^63 - 1.
abbrev pub IsInt64 : ℤ → Type 0
IsInt64 (pos n) = n < two63
IsInt64 (negsuc n) = n < two63

abbrev pub IsInt32 : ℤ → Type 0
IsInt32 (pos n) = n < two31
IsInt32 (negsuc n) = n < two31

pub wrap64_id : (z : ℤ) → IsInt64 z → wrap64 z ≡ z
wrap64_id (pos n) h = ground arith
wrap64_id (negsuc n) h = ground arith

pub wrap32_id : (z : ℤ) → IsInt32 z → wrap32 z ≡ z
wrap32_id (pos n) h = ground arith
wrap32_id (negsuc n) h = ground arith
