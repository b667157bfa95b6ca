-- ===== src/Prelude/Int.antt =====
-- Signed integers: `negsuc n` is -(n + 1).
use Prim.Native.Nat.{ℕ, ◌+◌, ◌-◌, ◌*◌, ◌%◌, ◌^◌}
use claviger.Prelude.Tests.{ltb, if◌then◌else◌}

pub data ℤ : Type 0 where
  pos : ℕ → ℤ
  negsuc : ℕ → ℤ

-- A 64-bit pattern read as an int64.
abbrev pub as_int64 : ℕ → ℤ
as_int64 p = if ltb p (2 ^ 63) then pos p else negsuc (2 ^ 64 - 1 - p)

-- The product of two nonnegative int64, with its wrap-around.
abbrev pub mul_int64 : ℕ → ℕ → ℤ
mul_int64 a b = as_int64 (a * b % 2 ^ 64)

-- A time moved by a signed duration.
abbrev pub shift : ℕ → ℤ → ℕ
shift t (pos d) = t + d
shift t (negsuc d) = t - (d + 1)
