-- ===== src/Base/Int32.antt =====
-- Go's `int32`: an integer from -2^31 to 2^31 - 1. Its operations wrap around modulo 2^32.
use flash_deals.Base.Tests.{ltb, if◌then◌else◌}
use flash_deals.Base.Int.{ℤ, pos, negsuc, ◌+ℤ◌, ◌-ℤ◌, ◌*ℤ◌, ◌≤ℤ◌}
use Prim.Native.Nat.{ℕ, ◌-◌, ◌%◌, ◌^◌}
use mathlib.Core.Path.{◌≡◌, refl}
use native.Mathlib.Omega.{arith}

abbrev pub max_int32 : ℤ
max_int32 = pos 2147483647

abbrev pub min_int32 : ℤ
min_int32 = negsuc 2147483647

abbrev pub InInt32 : ℤ → Type 0
InInt32 z = (min_int32 ≤ℤ z) × (z ≤ℤ max_int32)

-- The integer that a 32-bit pattern stands for.
abbrev signed32 : ℕ → ℤ
signed32 w = if ltb w (2 ^ 31) then pos w else negsuc (2 ^ 32 - w - 1)

-- The conversion `int32(z)`: the last 32 bits of z, read as a signed number.
unfoldable pub wrap32 : ℤ → ℤ
wrap32 (pos n) = signed32 (n % 2 ^ 32)
wrap32 (negsuc n) = signed32 (2 ^ 32 - 1 - n % 2 ^ 32)

unfoldable pub add32 : ℤ → ℤ → ℤ
unfolding wrap32 ◌+ℤ◌
add32 a b = wrap32 (a +ℤ b)

unfoldable pub sub32 : ℤ → ℤ → ℤ
unfolding wrap32 ◌-ℤ◌
sub32 a b = wrap32 (a -ℤ b)

unfoldable pub neg32 : ℤ → ℤ
unfolding wrap32 ◌-ℤ◌
neg32 a = wrap32 (pos 0 -ℤ a)

unfoldable pub mul32 : ℤ → ℤ → ℤ
unfolding wrap32 ◌*ℤ◌
mul32 a b = wrap32 (a *ℤ b)

pub wrap32-InInt32 : (z : ℤ) → InInt32 (wrap32 z)
unfolding wrap32
wrap32-InInt32 (pos n) = ground arith
wrap32-InInt32 (negsuc n) = ground arith

pub wrap32_id : (z : ℤ) → InInt32 z → wrap32 z ≡ z
unfolding wrap32
wrap32_id (pos n) h = ground arith
wrap32_id (negsuc n) h = ground arith

-- Where the true sum fits, the sum of the machine is the true sum.
pub add32_exact : (a b : ℤ) → InInt32 (a +ℤ b) → add32 a b ≡ a +ℤ b
unfolding add32
add32_exact a b h = wrap32_id (a +ℤ b) h

pub neg32_exact : (a : ℤ) → InInt32 (pos 0 -ℤ a) → neg32 a ≡ pos 0 -ℤ a
unfolding neg32
neg32_exact a h = wrap32_id (pos 0 -ℤ a) h

wraps : add32 max_int32 (pos 1) ≡ min_int32
unfolding add32
wraps = refl

neg_min : neg32 min_int32 ≡ min_int32
unfolding neg32
neg_min = refl
