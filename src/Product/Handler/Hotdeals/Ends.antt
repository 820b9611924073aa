-- ===== src/Product/Handler/Hotdeals/Ends.antt =====
-- What starting and ending a hot deal leaves in the table and in Redis, with the cache and without.
use mathlib.Core.Path.{subst}
use flash_deals.Base.{
  ℤ, pos, ltb_ℤ, wrap32, wrap32_id, InInt32, String, Bool, true, ◌≡◌, sym, ap, ◌∙◌, none, some, [],
  Uuid, UuidText, ok, arith, ◌==◌, if◌then◌else◌,
}
use flash_deals.Product.State.{ProductProduct, ProductWorld}
use flash_deals.Product.Queries.{find_product}
use flash_deals.Product.Repository.Cached.Coherence.{uncached, CacheIsRight}
use flash_deals.Product.Handler.Over.{handler_over}
use flash_deals.Product.Hotdeal.{HotdealRepository, is_enabled, remove_key, set_key, stock_at}
use flash_deals.Product.Hotdeal.Script.{stock_at-set_key}
use flash_deals.Product.Handler.Hotdeals.{start_hotdeal, end_hotdeal, hotdeal_ended}
use flash_deals.Product.Handler.Hotdeals.Synced.{
  EndedOver, Alike-Ended, kept_right, without_key, start_hotdeal_lem, ended, sync_stock-Ended,
  sync_stock-Alike,
}

module _ (ids : UuidText) (hot : HotdealRepository) (on : is_enabled hot ≡ true) (id_str : String)
    (id : Uuid) (parsed : ids.parse id_str ≡ ok id) where
  -- With the cache or without, with hot deals enabled, an identifier that parses, a known product that has
  -- the number `n` in Redis, no failing call, and cached products (if they are cached) that are those of
  -- the table, `EndHotdeal` answers 200 with `n` in 32 bits, the product's hot deal key is gone and every
  -- other hot deal key is as it was, and the table gets that stock if it is above zero; if it is not, as
  -- when all is sold, the table keeps the stock from before the deal. Cached products are those of the
  -- table afterwards.
  pub end_hotdeal-Ended :
      (cached : Bool) (w : ProductWorld) (p : ProductProduct) (n : ℤ)
      → w.script ≡ []
      → CacheIsRight cached w
      → find_product id w.db ≡ some p
      → stock_at id w.redis ≡ some n
      → EndedOver ids cached id w p
          (wrap32 n)
          (end_hotdeal ids (handler_over cached (some hot)) id_str w)
  end_hotdeal-Ended cached w p n calm c found key =
      subst (EndedOver ids cached id w p (wrap32 n))
        (sym (ended ids hot on id_str id parsed cached w n calm key))
        (Alike-Ended ids cached id w p (wrap32 n) _ _
          (sync_stock-Alike ids hot on id_str id parsed cached (without_key id w) (wrap32 n) calm
            (kept_right cached w (remove_key id w.redis.stocks) c))
          (sync_stock-Ended ids hot on id_str id parsed w p (wrap32 n) calm found))

  -- With the cache or without, with hot deals enabled, an identifier that parses, a known product whose
  -- stock is in 32 bits, no failing call, and cached products (if they are cached) that are those of the
  -- table, starting a hot deal and ending it before anything is sold gives the stock back: 200 with the
  -- stock, no hot deal key of the product left in Redis, every other hot deal key as it was, and the table
  -- with the stock it had. Cached products are those of the table afterwards.
  pub end_hotdeal-start_hotdeal :
      (cached : Bool) (w : ProductWorld) (p : ProductProduct)
      → w.script ≡ []
      → CacheIsRight cached w
      → find_product id w.db ≡ some p
      → InInt32 p.stock
      → EndedOver ids cached id w p p.stock (
          end_hotdeal ids
            (handler_over cached (some hot))
            id_str
            (start_hotdeal ids (handler_over cached (some hot)) id_str w).1)
  end_hotdeal-start_hotdeal cached w p calm c found fits =
      subst
        (λ u.
          EndedOver ids cached id w p p.stock
            (end_hotdeal ids (handler_over cached (some hot)) id_str u))
        (sym loaded)
        (
          (
            over.0.0 ∙ ap (hotdeal_ended ids id) (wrap32_id p.stock fits),
            λ j.
                over.0.1 j
                ∙ ground (arith, stock_at-set_key j id p.stock w1.redis)
                ∙ ap (λ (u : ProductWorld). if j == id then none else stock_at j u.redis) same,
            over.0.2
                ∙ ap
                    (λ (u : ProductWorld). some (
                      if ltb_ℤ (pos 0) (wrap32 p.stock)
                      then record p { stock = wrap32 p.stock; updated_at = u.db.clock }
                      else p))
                    same
                ∙ ap some (
                    ap
                      (λ n.
                        if ltb_ℤ (pos 0) n
                        then record p { stock = n; updated_at = w.db.clock }
                        else p)
                      (wrap32_id p.stock fits)),
          ),
          over.1,
        )
    where
      started :
          (u : ProductWorld) × (uncached u ≡ uncached w)
          × CacheIsRight cached u
          × ((start_hotdeal ids (handler_over cached (some hot)) id_str w).1
              ≡ record u { redis = set_key id p.stock u.redis })
      started = start_hotdeal_lem ids hot on id_str id parsed cached w p calm c found

      w1 : ProductWorld
      w1 = started.0

      same : uncached w1 ≡ uncached w
      same = started.1

      loaded :
          (start_hotdeal ids (handler_over cached (some hot)) id_str w).1
          ≡ record w1 { redis = set_key id p.stock w1.redis }
      loaded = started.3

      w2 : ProductWorld
      w2 = record w1 { redis = set_key id p.stock w1.redis }

      over :
          EndedOver ids cached id w2 p
            (wrap32 p.stock)
            (end_hotdeal ids (handler_over cached (some hot)) id_str w2)
      over =
          end_hotdeal-Ended cached w2 p p.stock (ap (λ (u : ProductWorld). u.script) same ∙ calm)
            (kept_right cached w1 _ started.2)
            (ap (λ (u : ProductWorld). find_product id u.db) same ∙ found)
            (ground (arith, stock_at-set_key id id p.stock w1.redis))
