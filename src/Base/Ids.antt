-- ===== src/Base/Ids.antt =====
-- UUIDs, which the program compares, prints and parses only. A UUID is a number here; its text is
-- that of the library github.com/google/uuid, a parameter of the model.
use flash_deals.Base.Calls.{Result, ok}
use Prim.Native.Nat.{ℕ}
use Prim.Native.String.{String}
use mathlib.Core.Path.{◌≡◌}

abbrev pub Uuid : Type 0
Uuid = ℕ

-- `uuid.UUID.String` and `uuid.Parse`, which returns an error with its message.
pub record UuidText : Type 0 where
  pub format : Uuid → String
  pub parse : String → Result String Uuid
  -- the documented round trip
  pub parse_format : (u : Uuid) → parse (format u) ≡ ok u
