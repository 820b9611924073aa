-- ===== src/Base/Text.antt =====
-- The decimal text of an integer, as `fmt` prints it with `%d`.
use flash_deals.Base.Tests.{ltb, if◌then◌else◌}
use flash_deals.Base.Int.{ℤ, pos, negsuc}
use Prim.Native.Nat.{ℕ, zero, suc, ◌+◌, ◌/◌, ◌%◌}
use Prim.Native.String.{String, slice, ◌++◌}

abbrev digit : ℕ → String
digit d = slice "0123456789" d (d + 1)

-- The fuel bounds the number of digits.
decimal : ℕ → ℕ → String
decimal zero n = ""
decimal (suc fuel) n =
    let high = decimal fuel (n / 10) in if ltb n 10 then digit n else high ++ digit (n % 10)

-- An integer of 64 bits has at most 20 digits.
pub show_ℤ : ℤ → String
unfolding decimal
show_ℤ (pos n) = decimal 20 n
show_ℤ (negsuc n) = "-" ++ decimal 20 (n + 1)
