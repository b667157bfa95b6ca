-- ===== src/Recipe/Expiry.antt =====
-- expiresAt of internal/recipe/recipe.go: a token's lifetime in seconds as an absolute expiry.
use claviger.Prelude.{ℕ, zero, suc, ◌+◌, ◌*◌, ◌/◌, ◌^◌, ◌<◌, ◌≡◌, ltb, arith, if◌then◌else◌}
use claviger.Prelude.Int.{ℤ, pos, negsuc, mul_int64, shift}
use Prim.Native.Nat.{min}

-- time.Second, in nanoseconds
abbrev pub second : ℕ
second = 1000000000

-- `int64(1<<62) / int64(time.Second)`
abbrev pub max_seconds : ℕ
max_seconds = 2 ^ 62 / second

-- The clamp, the multiplication of int64 and the addition to the current time.
unfoldable pub after_seconds : ℕ → ℕ → ℕ
after_seconds s now = shift now (mul_int64 (if ltb max_seconds s then max_seconds else s) second)

-- The product never wraps: a lifetime of s > 0 seconds ends after now, by s seconds or by the
-- largest lifetime that is used, and that is below 2^63 nanoseconds away.
pub after_seconds_bounds :
    (s now : ℕ)
    → 0 < s
    → (after_seconds s now ≡ now + min s max_seconds * second)
      × (now < after_seconds s now)
      × (after_seconds s now < now + 2 ^ 63)
unfolding after_seconds
after_seconds_bounds s now h = ground arith

-- expiresAt, where `now` is read only for a positive lifetime
unfoldable pub expires_at : {W : Type 0} → (W → ℕ × W) → ℤ → W → ℕ × W
unfolding after_seconds
expires_at clock (negsuc n) w = (0, w)
expires_at clock (pos zero) w = (0, w)
expires_at clock (pos (suc n)) w = let (t, w') = clock w in (after_seconds (suc n) t, w')
