-- ===== src/Product/Hotdeal/Deal.antt =====
-- A whole hot deal in Redis: the stock is loaded, and unloaded at its end.
use mathlib.Core.Path.{subst}
use flash_deals.Base.{
  ◌==◌, ℤ, ◌≡◌, refl, sym, true, none, some, Uuid, Result, ok, arith, if◌then◌else◌, wrap32, [],
}
use flash_deals.Product.State.{ProductWorld, Error}
use flash_deals.Product.Hotdeal.{
  HotdealRepository, stock_at, set_key, remove_key, is_enabled, load_stock, unload_stock,
  delete_stock,
}
use flash_deals.Product.Hotdeal.Script.{stock_at-set_key, find-remove_key}

module _ (h : HotdealRepository) (id : Uuid) (w : ProductWorld) where
  pub load_stock_lem :
      (stock : ℤ)
      → is_enabled h ≡ true
      → w.script ≡ []
      → load_stock h id stock w ≡ (ok tt, record w { redis = set_key id stock w.redis })
  unfolding load_stock is_enabled
  load_stock_lem stock on calm = ground (arith, on, calm)

  pub unload_stock_lem :
      (stock : ℤ)
      → is_enabled h ≡ true
      → w.script ≡ []
      → stock_at id w.redis ≡ some stock
      → unload_stock h id w ≡ (
        ok (wrap32 stock),
        record w { redis = record w.redis { stocks = remove_key id w.redis.stocks } },
      )
  unfolding unload_stock is_enabled delete_stock
  unload_stock_lem stock on calm key = ground (arith, on, calm, key)

-- With hot deals enabled and no failure of Redis: what `LoadStock` has loaded is what `UnloadStock`
-- returns, in 32 bits; after it the product has no key, and every other product has the key it had.
pub unload_stock-load_stock :
    (h : HotdealRepository) (id : Uuid) (stock : ℤ) (w : ProductWorld)
    → is_enabled h ≡ true
    → w.script ≡ []
    → ((unload_stock h id (load_stock h id stock w).1).0 ≡ ok (wrap32 stock))
      × ((j : Uuid)
          → stock_at j (unload_stock h id (load_stock h id stock w).1).1.redis
            ≡ (if j == id then none else stock_at j w.redis))
unload_stock-load_stock h id stock w on calm =
    subst
      (λ (p : Result Error (Unit {0}) × ProductWorld).
        ((unload_stock h id p.1).0 ≡ ok (wrap32 stock))
        × ((j : Uuid)
            → stock_at j (unload_stock h id p.1).1.redis
              ≡ (if j == id then none else stock_at j w.redis)))
      (sym (load_stock_lem h id w stock on calm))
      (subst
        (λ (p : Result Error ℤ × ProductWorld).
          (p.0 ≡ ok (wrap32 stock))
          × ((j : Uuid) → stock_at j p.1.redis ≡ (if j == id then none else stock_at j w.redis)))
        (sym (
          unload_stock_lem h id (record w { redis = set_key id stock w.redis }) stock on calm
            (ground (arith, stock_at-set_key id id stock w.redis))))
        (
          refl,
          λ j. ground (
            arith,
            find-remove_key j id (set_key id stock w.redis).stocks,
            find-remove_key j id w.redis.stocks,
          ),
        ))
