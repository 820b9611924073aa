-- ===== src/Product/Server/Cache/Stocks.antt =====
-- What `UpdateStock` of the gRPC server does to the stock, with the cache or without.
use mathlib.Core.Path.{subst}
use flash_deals.Base.{
  ℤ, ◌+ℤ◌, ◌≤ℤ◌, negsuc, Bool, ◌≡◌, sym, ap, ◌∙◌, ◌⊎◌, Option, none, Uuid, UuidText, Result, ok,
  err,
}
use flash_deals.Rpc.{Status, ProductMessage}
use flash_deals.Rpc.Stock.{Shift}
use flash_deals.Product.State.{ProductWorld}
use flash_deals.Product.Queries.{find_product}
use flash_deals.Product.Hotdeal.{HotdealRepository}
use flash_deals.Product.Repository.Cached.Coherence.{CacheIsRight, uncached}
use flash_deals.Product.Server.{update_stock}
use flash_deals.Product.Server.View.{db_server, IsCalm, IsKnown, server_view, Stocks, IsChange}
use flash_deals.Product.Server.Promises.{update_stock-Stocks}
use flash_deals.Product.Server.Cache.Promises.{
  server_over, view_over, Alike, update_stock-Alike, Shift-over, IsKnown-uncached,
}

-- What `UpdateStock` has done, by how it ended: an error has changed nothing but the cache.
abbrev pub StocksOver :
    {A : Type 0}
    → Bool
    → Option HotdealRepository
    → Uuid
    → ℤ
    → ProductWorld
    → Result Status A × ProductWorld
    → Type 0
StocksOver cached h id delta w (ok n, w') = Shift (view_over cached h) id delta w w' × IsKnown id w'
StocksOver cached h id delta w (err e, w') =
    (uncached w' ≡ uncached w)
    × CacheIsRight cached w'
    × ((find_product id w.db ≡ none) ⊎ ((server_view h).stock w id +ℤ delta ≤ℤ negsuc 0))

-- With the cache or without, where no call fails and no caller leaves, every stock is a natural number of
-- 31 bits, every hot deal is of a known product and cached products (if they are cached) are those of the
-- table, for a delta above the least int32 and a stock that stays within int32: `UpdateStock` changes the
-- stock of its product alone, by its delta, in Redis or in the table, or it changes nothing but the cache
-- and the product is unknown or has not enough. The same holds of calls, stocks and cache afterwards.
pub update_stock-StocksOver :
    (ids : UuidText) (cached : Bool) (h : Option HotdealRepository) (id : Uuid) (delta : ℤ)
    (w : ProductWorld)
    → IsCalm h w
    → CacheIsRight cached w
    → IsChange h id delta w
    → StocksOver cached h id delta w
        (update_stock ids (server_over cached h) (ids.format id) delta w)
update_stock-StocksOver ids cached h id delta w c right b =
    go (update_stock ids (server_over cached h) (ids.format id) delta w)
      (update_stock ids (db_server h) (ids.format id) delta w)
      (update_stock-Alike ids h cached (ids.format id) delta w c right)
      (update_stock-Stocks ids h id delta w c b)
  where
    go :
        (p q : Result Status ProductMessage × ProductWorld)
        → Alike cached p q
        → Stocks {A = ProductMessage} h id delta w q
        → StocksOver {A = ProductMessage} cached h id delta w p
    go (r, u) (ok n, u') a (shift, known) =
        subst (λ o. StocksOver {A = ProductMessage} cached h id delta w (o, u)) (sym a.answer)
          (
            Shift-over cached h id delta w u u' a.state a.right shift,
            IsKnown-uncached cached h u u' id a.state known,
          )
    go (r, u) (err e, u') a (same, why) =
        subst (λ o. StocksOver {A = ProductMessage} cached h id delta w (o, u)) (sym a.answer)
          (a.state ∙ ap uncached same, a.right, why)
