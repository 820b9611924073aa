-- ===== src/Product/Server/View.antt =====
-- The stock that the gRPC server shows: the number in Redis while a hot deal has one, or else the one
-- in the table.
use flash_deals.Base.{
  ℤ, pos, negsuc, ◌+ℤ◌, ◌≤ℤ◌, max_int32, Bool, true, false, ◌≡◌, Option, none, some, [], Uuid, ◌⊎◌,
  Result, ok, err,
}
use flash_deals.Rpc.{Status}
use flash_deals.Rpc.Stock.{StockView, Shift}
use flash_deals.Product.State.{ProductProduct, ProductWorld}
use flash_deals.Product.Queries.{find_product}
use flash_deals.Product.Repository.{db_repository}
use flash_deals.Product.Hotdeal.{HotdealRepository, stock_at, is_enabled}
use flash_deals.Product.Server.{ProductServer}

-- The server over PostgreSQL, with or without hot deals in Redis.
abbrev pub db_server : Option HotdealRepository → ProductServer
db_server h = record { repo = db_repository; hotdeal_repo = h }

abbrev pub active : Option HotdealRepository → Bool
active none = false
active (some h) = is_enabled h

abbrev pub table_stock : Option ProductProduct → ℤ
table_stock none = pos 0
table_stock (some p) = p.stock

abbrev pub redis_stock : Bool → Option ℤ → Option ℤ
redis_stock true o = o
redis_stock false o = none

abbrev pub shown_stock : Option ℤ → Option ProductProduct → ℤ
shown_stock (some n) o = n
shown_stock none o = table_stock o

abbrev pub InStock : ℤ → Type 0
InStock n = (pos 0 ≤ℤ n) × (n ≤ℤ max_int32)

abbrev pub IsKnown : Uuid → ProductWorld → Type 0
IsKnown id w = (p : ProductProduct) × (find_product id w.db ≡ some p)

-- No call fails, every stock is a natural number of 31 bits, and a hot deal is of a known product.
pub record IsCalm (h : Option HotdealRepository) (w : ProductWorld) : Type 0 where
  pub no_faults : w.script ≡ []
  pub no_cancels : w.waits ≡ []
  pub products : (id : Uuid) (p : ProductProduct) → find_product id w.db ≡ some p → InStock p.stock
  pub stocks :
      (id : Uuid) (n : ℤ)
      → redis_stock (active h) (stock_at id w.redis) ≡ some n
      → InStock n × IsKnown id w

abbrev pub server_view : Option HotdealRepository → StockView ProductWorld
server_view h = record {
  Valid = IsCalm h;
  Known = λ w id. IsKnown id w;
  stock = λ w id. shown_stock (redis_stock (active h) (stock_at id w.redis)) (find_product id w.db);
}

-- What `UpdateStock` has done: an error has changed nothing, and comes only for an
-- unknown product or a stock that is too low.
abbrev pub Stocks :
    {A : Type 0}
    → Option HotdealRepository
    → Uuid
    → ℤ
    → ProductWorld
    → Result Status A × ProductWorld
    → Type 0
Stocks h id delta w (ok n, w') = Shift (server_view h) id delta w w' × IsKnown id w'
Stocks h id delta w (err e, w') =
    (w' ≡ w) × ((find_product id w.db ≡ none) ⊎ ((server_view h).stock w id +ℤ delta ≤ℤ negsuc 0))

-- The changes that the order service asks for.
abbrev pub IsChange : Option HotdealRepository → Uuid → ℤ → ProductWorld → Type 0
IsChange h id delta w =
    (negsuc 2147483646 ≤ℤ delta)
    × (delta ≤ℤ max_int32)
    × ((server_view h).stock w id +ℤ delta ≤ℤ max_int32)
