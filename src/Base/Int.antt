-- ===== src/Base/Int.antt =====
-- `i64` values as integers, with the casts of the program between `i64`, `u64` and `u32`.
use Prim.Native.Nat.{ℕ, suc, ◌-◌, ◌%◌, ◌^◌}
use mathlib.Core.Bool.{Bool, true, false}
use nl_wireguard.Base.Tests.{ltb, if◌then◌else◌, ◌==◌}

-- `negsuc n` is -(n + 1).
pub data ℤ : Type 0 where
  pos : ℕ → ℤ
  negsuc : ℕ → ℤ

abbrev pub is_zero : ℤ → Bool
is_zero (pos n) = n == 0
is_zero (negsuc n) = false

abbrev pub is_nonneg : ℤ → Bool
is_nonneg (pos n) = true
is_nonneg (negsuc n) = false

-- `z < k` for a natural number `k`
abbrev pub is_below : ℤ → ℕ → Bool
is_below (pos n) k = ltb n k
is_below (negsuc n) k = true

-- `-z` of an `i32`, which wraps around: the smallest value is its own negation.
abbrev pub neg_i32 : ℤ → ℤ
neg_i32 (pos n) = if n == 0 then pos 0 else negsuc (n - 1)
neg_i32 (negsuc n) = if suc n == 2 ^ 31 then negsuc n else pos (suc n)

-- `z as u64` and `z as u32` of an `i64`: the low bits of its two's complement.
abbrev pub as_u64 : ℤ → ℕ
as_u64 (pos n) = n % 2 ^ 64
as_u64 (negsuc n) = 2 ^ 64 - 1 - n % 2 ^ 64

abbrev pub as_u32 : ℤ → ℕ
as_u32 (pos n) = n % 2 ^ 32
as_u32 (negsuc n) = 2 ^ 32 - 1 - n % 2 ^ 32

-- `n as i64` of a `u64`
abbrev pub as_i64 : ℕ → ℤ
as_i64 n = if ltb n (2 ^ 63) then pos n else negsuc (2 ^ 64 - 1 - n)
