-- ===== src/Product/Hotdeal.antt =====
-- The stock of a hot deal in Redis, services/product/go/internal/repository/hotdeal_repository.go.
-- A nil `*redis.Client` is `connected = false`. Redis keeps the number as a text of up to 64 bits;
-- the keys `hotdeal:stock:ID` hold nothing but the numbers that this code writes.
pub mod Script
pub mod Sales
pub mod Deal
use flash_deals.Base.{
  ℤ, pos, negsuc, ◌+ℤ◌, ◌-ℤ◌, ltb_ℤ, eq_ℤ, wrap32, ◌==◌, String, Bool, true, false, ◌&&◌, Option,
  none, some, List, [], ◌∷◌, Uuid, Result, ok, err, Exec, pure, raise, ◌>>=◌, ◌>>◌, find_by,
  if◌then◌else◌,
}
use flash_deals.Product.State.{ProductWorld, Redis, Error, redis_nil, message, wrapped, on_redis}

-- The keys of Redis as a map.
abbrev pub key_of : Uuid × ℤ → Uuid
key_of (k, _) = k

abbrev pub stock_at : Uuid → Redis → Option ℤ
stock_at id r = elim (find_by key_of id r.stocks) [ none ↦ none | some (_, n) ↦ some n ]

abbrev pub remove_key : Uuid → List (Uuid × ℤ) → List (Uuid × ℤ)
remove_key k [] = []
remove_key k ((j, v) ∷ kvs) =
    let others = remove_key k kvs in if j == k then others else (j, v) ∷ others

-- GET, SET, DEL and INCRBY of a stock key
abbrev pub get_key : Uuid → Exec Redis Error ℤ
get_key id r = (elim (stock_at id r) [ none ↦ err redis_nil | some n ↦ ok n ], r)

abbrev pub set_key : Uuid → ℤ → Redis → Redis
set_key id n r = record r { stocks = (id, n) ∷ remove_key id r.stocks }

abbrev pub del_key : Uuid → Exec Redis Error (Unit {0})
del_key id r = (ok tt, record r { stocks = remove_key id r.stocks })

abbrev pub incr_by : Uuid → ℤ → Exec Redis Error ℤ
incr_by id n r =
    let total = (elim (stock_at id r) [ none ↦ pos 0 | some m ↦ m ]) +ℤ n in
    (ok total, set_key id total r)

-- The Lua script, which Redis runs as one step: -1 if there is no key, -2 if the stock is too low.
unfoldable pub decrement_stock_script : Uuid → ℤ → Exec Redis Error ℤ
decrement_stock_script id delta r = elim (stock_at id r) [
  | none ↦ (ok (negsuc 0), r)
  | some current ↦
      if ltb_ℤ current delta
      then (ok (negsuc 1), r)
      else (ok (current -ℤ delta), set_key id (current -ℤ delta) r)
]

pub record HotdealRepository : Type 0 where
  pub connected : Bool
  pub enabled : Bool

unfoldable pub is_enabled : HotdealRepository → Bool
is_enabled h = h.enabled && h.connected

-- an error as the cause of another, `fmt.Errorf("...: %w", err)`
abbrev wrap_error : {A : Type 0} → String → Exec ProductWorld Error A → Exec ProductWorld Error A
wrap_error text m w =
    let (r, w') = m w in (elim r [ ok a ↦ ok a | err e ↦ err (wrapped text e) ], w')

unfoldable pub load_stock : HotdealRepository → Uuid → ℤ → Exec ProductWorld Error (Unit {0})
unfolding is_enabled
load_stock h id stock =
    if is_enabled h
    then wrap_error "failed to load stock to Redis: " (on_redis λ r. (ok tt, set_key id stock r))
    else pure tt

-- `err == redis.Nil`
abbrev is_nil : Error → Bool
is_nil redis_nil = true
is_nil _ = false

unfoldable pub delete_stock : Uuid → ℤ → Exec ProductWorld Error ℤ
delete_stock id stock = do
  wrap_error "failed to delete stock from Redis: " (on_redis (del_key id))
  pure (wrap32 stock)

unfoldable pub unload_stock : HotdealRepository → Uuid → Exec ProductWorld Error ℤ
unfolding is_enabled delete_stock
unload_stock h id w =
    if is_enabled h
    then (let (r, w') = on_redis (get_key id) w in
        elim r [
          | ok stock ↦ delete_stock id stock w'
          | err e ↦
              if is_nil e
              then (ok (pos 0), w')
              else (err (wrapped "failed to get stock from Redis: " e), w')
        ])
    else (ok (pos 0), w)

abbrev not_enabled : Error
not_enabled = message "hotdeal stock redis not enabled"

-- The `switch` on what the script returns.
abbrev script_result : ℤ → Result Error ℤ
script_result n =
    if eq_ℤ n (negsuc 0)
    then err (message "hotdeal stock not found in Redis")
    else if eq_ℤ n (negsuc 1)
    then err (message "insufficient stock")
    else ok (wrap32 n)

unfoldable pub decrement_stock : HotdealRepository → Uuid → ℤ → Exec ProductWorld Error ℤ
unfolding is_enabled decrement_stock_script
decrement_stock h id quantity =
    if is_enabled h
    then (do
      n ←
          wrap_error "failed to run decrement script: "
            (on_redis (decrement_stock_script id quantity))
      λ w. (script_result n, w))
    else raise not_enabled

unfoldable pub increment_stock : HotdealRepository → Uuid → ℤ → Exec ProductWorld Error ℤ
unfolding is_enabled
increment_stock h id quantity =
    if is_enabled h
    then (do
      n ← wrap_error "failed to increment stock: " (on_redis (incr_by id quantity))
      pure (wrap32 n))
    else raise not_enabled

unfoldable pub get_stock : HotdealRepository → Uuid → Exec ProductWorld Error ℤ
unfolding is_enabled
get_stock h id w =
    if is_enabled h
    then (let (r, w') = on_redis (get_key id) w in
        elim r [
          | ok stock ↦ (ok (wrap32 stock), w')
          | err e ↦
              if is_nil e
              then (err (message "hotdeal stock not found"), w')
              else (err (wrapped "failed to get stock: " e), w')
        ])
    else (err not_enabled, w)

-- EXISTS of a stock key; a failure counts as no.
unfoldable pub has_stock : HotdealRepository → Uuid → ProductWorld → Bool × ProductWorld
unfolding is_enabled
has_stock h id w =
    if is_enabled h
    then (let (r, w') =
          on_redis (λ s. (ok (elim (stock_at id s) [ none ↦ false | some _ ↦ true ]), s)) w in
        (elim r [ ok found ↦ found | err _ ↦ false ], w'))
    else (false, w)
