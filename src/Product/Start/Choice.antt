-- ===== src/Product/Start/Choice.antt =====
-- The server that the start-up chooses, and that its choice cannot be told by a change of the stock.
use mathlib.Core.Path.{subst}
use flash_deals.Base.{
  ℤ, String, Bool, true, false, ◌&&◌, ◌≡◌, refl, sym, Option, [], UuidText, Result, if◌then◌else◌,
}
use flash_deals.Env.{Environment}
use flash_deals.Rpc.{Status}
use flash_deals.Product.State.{ProductWorld}
use flash_deals.Product.Hotdeal.{HotdealRepository}
use flash_deals.Product.Repository.{db_repository}
use flash_deals.Product.Repository.Cached.{cached_repository}
use flash_deals.Product.Repository.Cached.Coherence.{IsCoherent, uncached}
use flash_deals.Product.Server.{update_stock}
use flash_deals.Product.Server.View.{db_server}
use flash_deals.Product.Server.Cache.{update_stock-Agrees}
use flash_deals.Product.Server.Cache.Promises.{server_over}
use flash_deals.Product.Start.{
  Config, load, start_repository, start_hotdeal_repository, start_server,
}

-- The same answer, and the same state but for the cache.
abbrev pub SameButCache :
    {A : Type 0} → Result Status A × ProductWorld → Result Status A × ProductWorld → Type 0
SameButCache p q = (p.0 ≡ q.0) × (uncached p.1 ≡ uncached q.1)

-- Products are cached if the cache is switched on and Redis has answered.
pub start_server-over :
    (cfg : Config) (redis_up : Bool)
    → start_server cfg redis_up
      ≡ server_over (cfg.enable_cache && redis_up) (start_hotdeal_repository cfg redis_up)
unfolding start_server start_repository
start_server-over cfg redis_up =
    go (cfg.enable_cache && redis_up) (start_hotdeal_repository cfg redis_up)
  where
    go :
        (b : Bool) (h : Option HotdealRepository)
        → record { repo = if b then cached_repository else db_repository; hotdeal_repo = h }
          ≡ server_over b h
    go true h = refl
    go false h = refl

-- Whatever the environment says, and whether Redis answers at the start: with no failing call after it, no
-- caller that leaves, and cached products that are those of the table, `UpdateStock` of the server that is
-- started answers as a server without a cache, and does the same to tables and stocks.
pub update_stock-start_server :
    (env : Environment) (redis_up : Bool) (ids : UuidText) (product_id : String) (delta : ℤ)
    (w : ProductWorld)
    → w.script ≡ []
    → w.waits ≡ []
    → IsCoherent w
    → SameButCache (update_stock ids (start_server (load env) redis_up) product_id delta w) (
        update_stock ids
          (db_server (start_hotdeal_repository (load env) redis_up))
          product_id
          delta
          w)
update_stock-start_server env redis_up ids product_id delta w calm quiet c =
    subst
      (λ s.
        SameButCache (update_stock ids s product_id delta w)
          (update_stock ids (db_server hot) product_id delta w))
      (sym (start_server-over (load env) redis_up)) (go ((load env).enable_cache && redis_up))
  where
    hot : Option HotdealRepository
    hot = start_hotdeal_repository (load env) redis_up

    go :
        (b : Bool)
        → SameButCache
            (update_stock ids (server_over b hot) product_id delta w)
            (update_stock ids (db_server hot) product_id delta w)
    go false = (refl, refl)
    go true =
        let a = update_stock-Agrees ids hot product_id delta w calm quiet c in (a.answer, a.state)
