-- ===== src/Prelude/Int.antt =====
-- Signed integers over the native numbers, for differences of times.
use Prim.Native.Nat.{ℕ, ◌-◌, ◌/◌}
use mathlib.Core.Bool.{Bool, true, false}
use guardtrak_api.Prelude.Tests.{ltb, leb, if◌then◌else◌}

-- `negsuc n` is -(n + 1).
pub data ℤ : Type 0 where
  pos : ℕ → ℤ
  negsuc : ℕ → ℤ

-- a - b, as an integer.
abbrev pub sub_ℕ : ℕ → ℕ → ℤ
sub_ℕ a b = if leb b a then pos (a - b) else negsuc (b - a - 1)

-- `Math.max(0, a)`
abbrev pub pos_part : ℤ → ℕ
pos_part (pos n) = n
pos_part (negsuc n) = 0

-- `Math.floor(a / d)`
abbrev pub floor_div : ℤ → ℕ → ℤ
floor_div (pos n) d = pos (n / d)
floor_div (negsuc n) d = negsuc (n / d)

-- a < b
abbrev pub ltb_ℤ : ℤ → ℤ → Bool
ltb_ℤ (pos a) (pos b) = ltb a b
ltb_ℤ (pos a) (negsuc b) = false
ltb_ℤ (negsuc a) (pos b) = true
ltb_ℤ (negsuc a) (negsuc b) = ltb b a

-- A JavaScript number whose fractional part plays no role: an integer, or NaN and the infinities.
pub data JsNumber : Type 0 where
  fin : ℤ → JsNumber
  non_finite : JsNumber
