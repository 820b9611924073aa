-- ===== src/Product/Server/Cache/NewStock.antt =====
-- The change of the stock, the first part of `UpdateStock`, over the cached repository.
use mathlib.Core.Path.{subst}
use flash_deals.Base.{
  ℤ, Bool, true, false, ◌≡◌, refl, sym, ap, ◌∙◌, Option, none, some, [], Uuid, Result, ok, err,
  arith, if◌then◌else◌,
}
use flash_deals.Rpc.{Status}
use flash_deals.Product.State.{ProductWorld, Error}
use flash_deals.Product.Queries.{UpdateStockRow, find_product}
use flash_deals.Product.Repository
use flash_deals.Product.Repository.{db_repository}
use flash_deals.Product.Repository.Cached.{cached_repository, cached_at}
use flash_deals.Product.Repository.Cached.Coherence.{IsCoherent, Agrees}
use flash_deals.Product.Repository.Cached.Updates.{update_stock_with_lock-Agrees}
use flash_deals.Product.Hotdeal.{
  HotdealRepository, stock_at, is_enabled, decrement_stock, increment_stock,
}
use flash_deals.Product.Hotdeal.Script.{has_stock_lem}
use flash_deals.Product.StockQueue.{queue_update_stock}
use flash_deals.Product.Server.{
  ProductServer, queued_reply, update_queued_stock, update_hotdeal_stock, new_stock,
}
use flash_deals.Product.Repository.Touches.{TouchesOne, update_stock_with_lock-TouchesOne}
use flash_deals.Product.Server.View.{db_server}

abbrev pub cached_server : Option HotdealRepository → ProductServer
cached_server h = record { repo = cached_repository; hotdeal_repo = h }

kept-IsCoherent :
    (w w' : ProductWorld)
    → w'.db ≡ w.db
    → w'.redis.cached_products ≡ w.redis.cached_products
    → IsCoherent w
    → IsCoherent w'
kept-IsCoherent w w' e k c id p f =
    ap (λ d. find_product id d) e
    ∙ c id p (ap (λ l. cached_at id (record w.redis { cached_products = l })) (sym k) ∙ f)

queued-Agrees :
    (p q : Result Error UpdateStockRow × ProductWorld)
    → Agrees p q
    → Agrees (queued_reply p) (queued_reply q)
queued-Agrees (ok r, w) (ok r', w') a = record {
  answer = ap (λ o. (queued_reply (o, w)).0) a.answer;
  state = a.state;
  coherent = a.coherent;
}
queued-Agrees (ok r, w) (err e, w') a = record {
  answer = ap (λ o. (queued_reply (o, w)).0) a.answer;
  state = a.state;
  coherent = a.coherent;
}
queued-Agrees (err e, w) (ok r, w') a = record {
  answer = ap (λ o. (queued_reply (o, w)).0) a.answer;
  state = a.state;
  coherent = a.coherent;
}
queued-Agrees (err e, w) (err e', w') a = record {
  answer = ap (λ o. (queued_reply (o, w)).0) a.answer;
  state = a.state;
  coherent = a.coherent;
}

queued-script :
    (id : Uuid) (w : ProductWorld) (p : Result Error UpdateStockRow × ProductWorld)
    → TouchesOne id w p
    → (queued_reply p).1.script ≡ w.script
queued-script id w (ok r, w') (d, e, same) = ap (λ (u : ProductWorld). u.script) e
queued-script id w (err x, w') e = ap (λ (u : ProductWorld). u.script) e

module _ (id : Uuid) (delta : ℤ) (w : ProductWorld) (calm : w.script ≡ []) where
  hot-db : (h : HotdealRepository) → (update_hotdeal_stock h id delta w).1.db ≡ w.db
  unfolding update_hotdeal_stock decrement_stock increment_stock
  hot-db h = ground (arith, calm)

  hot-cached :
      (h : HotdealRepository)
      → (update_hotdeal_stock h id delta w).1.redis.cached_products ≡ w.redis.cached_products
  unfolding update_hotdeal_stock decrement_stock increment_stock
  hot-cached h = ground (arith, calm)

  module _ (quiet : w.waits ≡ []) (c : IsCoherent w) where
    update_queued_stock-Agrees :
        Agrees
          (update_queued_stock cached_repository id delta w)
          (update_queued_stock db_repository id delta w)
    unfolding update_queued_stock queue_update_stock
    update_queued_stock-Agrees =
        subst
          (λ ws.
            Agrees (update_queued_stock cached_repository id delta (record w { waits = ws }))
              (update_queued_stock db_repository id delta (record w { waits = ws })))
          (sym quiet)
          (queued-Agrees _ _
            (update_stock_with_lock-Agrees (record w { waits = [] }) calm c id delta))

    pub new_stock-Agrees :
        (h : Option HotdealRepository)
        → Agrees (new_stock (cached_server h) id delta w) (new_stock (db_server h) id delta w)
    unfolding new_stock
    new_stock-Agrees none = update_queued_stock-Agrees
    new_stock-Agrees (some h) =
        subst
          (λ (q : Bool × ProductWorld).
            Agrees {E = Status} {A = ℤ}
              (if q.0
                then update_hotdeal_stock h id delta q.1
                else update_queued_stock cached_repository id delta q.1)
              (if q.0
                then update_hotdeal_stock h id delta q.1
                else update_queued_stock db_repository id delta q.1))
          (sym (has_stock_lem h id w calm))
          (either (
            if is_enabled h
            then (elim (stock_at id w.redis) [ none ↦ false | some _ ↦ true ])
            else false))
      where
        either :
            (b : Bool)
            → Agrees {E = Status} {A = ℤ}
                (if b
                  then update_hotdeal_stock h id delta w
                  else update_queued_stock cached_repository id delta w)
                (if b
                  then update_hotdeal_stock h id delta w
                  else update_queued_stock db_repository id delta w)
        either true = record {
          answer = refl;
          state = refl;
          coherent =
              kept-IsCoherent w (update_hotdeal_stock h id delta w).1 (hot-db h) (hot-cached h) c;
        }
        either false = update_queued_stock-Agrees

    queued-calm : (update_queued_stock db_repository id delta w).1.script ≡ []
    unfolding update_queued_stock queue_update_stock
    queued-calm =
        subst
          (λ ws.
            (update_queued_stock db_repository id delta (record w { waits = ws })).1.script ≡ [])
          (sym quiet)
          (queued-script id (record w { waits = [] })
              (Repository.update_stock_with_lock id delta (record w { waits = [] }))
              (update_stock_with_lock-TouchesOne id delta (record w { waits = [] }) calm)
            ∙ calm)

    hot-calm : (h : HotdealRepository) → (update_hotdeal_stock h id delta w).1.script ≡ []
    unfolding update_hotdeal_stock decrement_stock increment_stock
    hot-calm h = ground (arith, calm)

    pub new_stock-calm :
        (h : Option HotdealRepository) → (new_stock (db_server h) id delta w).1.script ≡ []
    unfolding new_stock
    new_stock-calm none = queued-calm
    new_stock-calm (some h) = ground (arith, has_stock_lem h id w calm, hot-calm h, queued-calm)
