-- ===== src/Order/Client/Init.antt =====
-- `InitClient` and `Close` of services/order/go/internal/product/client.go: the client is made once.
use Prim.Native.String.{◌++◌ as append}
use flash_deals.Base.{◌≡◌, String, Bool, true, false, Option, none, some, arith, if◌then◌else◌}

-- `once` says whether `clientOnce` has run, `connected` whether `conn` is open, and `has_client` whether
-- `client` is set.
pub record ClientState : Type 0 where
  pub once : Bool
  pub connected : Bool
  pub has_client : Bool

abbrev pub no_client : ClientState
no_client = record { once = false; connected = false; has_client = false }

-- `dial` is the error of `grpc.NewClient`, if it has one. The answer is an error, or nil.
unfoldable pub init_client : Option String → ClientState → Option String × ClientState
init_client dial s = if s.once then (none, s) else (elim dial [
  | none ↦ (none, record { once = true; connected = true; has_client = true })
  | some e ↦ (
    some (append "failed to connect to product service: " e),
    record { once = true; connected = false; has_client = false },
  )
])

-- The client stays set.
unfoldable pub close_client : ClientState → ClientState
close_client s = if s.connected then (record s { connected = false }) else s

-- Whatever the first call has met, a second one changes nothing and has no error.
pub init_client-again :
    (dial dial' : Option String) (s : ClientState)
    → init_client dial' (init_client dial s).1 ≡ (none, (init_client dial s).1)
unfolding init_client
init_client-again dial dial' s = ground arith
