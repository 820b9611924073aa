-- ===== src/Product/Repository/Cached/Updates.antt =====
-- The updates of the cached repository, against those of the repository over PostgreSQL.
use mathlib.Core.Path.{subst}
use flash_deals.Base.{
  ℤ, ◌≡◌, refl, sym, ap, ◌∙◌, some, List, [], Uuid, Result, ok, err, ◌>>=◌, ◌>>◌, arith,
}
use flash_deals.Product.State.{ProductProduct, ProductWorld, json, Error}
use flash_deals.Product.Queries
use flash_deals.Product.Queries.{UpdateProductParams, UpdateStockRow}
use flash_deals.Product.Repository
use flash_deals.Product.Repository.Touches.{
  TouchesOne, on_db-TouchesOne, update_stock_with_lock-TouchesOne, update_stock-TouchesRow,
  update_product-TouchesRow,
}
use flash_deals.Product.Repository.Cached.{
  list_at, ignoring, invalidate_product, invalidate_product_list, update_stock,
  update_stock_with_lock, update_product, list_products,
}
use flash_deals.Product.Repository.Cached.Coherence.{IsCoherent, Agrees, uncached, dropping-Agrees}
use flash_deals.Product.Repository.Cached.Pages.{HasFreshPages}
use flash_deals.Product.Repository.Cached.Lists.{with_lists, invalidate_product_list_lem}

update_product_touched :
    (arg : UpdateProductParams) (w : ProductWorld)
    → w.script ≡ []
    → TouchesOne arg.id w (Repository.update_product arg w)
unfolding Repository.update_product
update_product_touched arg w calm =
    on_db-TouchesOne arg.id (Queries.update_product arg) w calm (update_product-TouchesRow arg w.db)

module _ (w : ProductWorld) (calm : w.script ≡ []) (c : IsCoherent w) where
  -- With no failing call and cached products that are right, `UpdateStockWithLock` through the cache
  -- answers as without it, does the same to the tables, and leaves the cached products right.
  pub update_stock_with_lock-Agrees :
      (id : Uuid) (delta : ℤ)
      → Agrees (update_stock_with_lock id delta w) (Repository.update_stock_with_lock id delta w)
  unfolding update_stock_with_lock
  update_stock_with_lock-Agrees id delta =
      dropping-Agrees id (Repository.update_stock_with_lock id delta) w calm c
        (update_stock_with_lock-TouchesOne id delta w calm)

  -- The same for `UpdateStock`, which sets a stock.
  pub update_stock-Agrees :
      (id : Uuid) (stock : ℤ)
      → Agrees (update_stock id stock w) (Repository.update_stock id stock w)
  unfolding update_stock Repository.update_stock
  update_stock-Agrees id stock = dropping-Agrees id (Repository.update_stock id stock) w calm c (
      on_db-TouchesOne id (Queries.update_stock id stock) w calm
        (update_stock-TouchesRow id stock w.db))

  -- With no failing call and cached products that are those of the table, `UpdateProduct` through the
  -- cache answers as without it, does the same to the tables, and the cached products afterwards are
  -- those of the table.
  pub update_product-Agrees :
      (arg : UpdateProductParams) → Agrees (update_product arg w) (Repository.update_product arg w)
  unfolding update_product
  update_product-Agrees arg =
      go (Repository.update_product arg w) touched
        (dropping-Agrees arg.id (Repository.update_product arg) w calm c touched)
    where
      touched : TouchesOne arg.id w (Repository.update_product arg w)
      touched = update_product_touched arg w calm

      go :
          (p : Result Error ProductProduct × ProductWorld)
          → TouchesOne arg.id w p
          → Agrees {E = Error} {A = ProductProduct}
              (((λ _. p) >>= λ a. ignoring (invalidate_product arg.id) a) w)
              p
          → Agrees {E = Error} {A = ProductProduct}
              (((λ _. p) >>= λ a.
                  ignoring (invalidate_product arg.id) tt >> ignoring invalidate_product_list a)
                w)
              p
      go (ok a, w1) (d, e, same) g =
          subst
            (λ (q : Result Error (Unit {0}) × ProductWorld).
              Agrees {E = Error} {A = ProductProduct} (ok a, q.1) (ok a, w1))
            (sym (
              invalidate_product_list_lem (invalidate_product arg.id w1).1 (
                ap (λ (u : ProductWorld). u.script) g.state
                ∙ ap (λ (u : ProductWorld). u.script) e
                ∙ calm)))
            (record {
              answer = refl;
              state = ap (λ u. uncached (with_lists [] u)) g.state;
              coherent = g.coherent;
            })
      go (err x, w1) e g = g

-- What an update of a product through the cache has done: the same as without it, but for the cache, in
-- which products and pages are those of the table.
pub record Refreshes (p q : Result Error ProductProduct × ProductWorld) : Type 0 where
  pub agrees : Agrees p q
  pub fresh : HasFreshPages p.1

module _ (w : ProductWorld) (calm : w.script ≡ []) (c : IsCoherent w) (f : HasFreshPages w) where
  -- With no failing call, and cached products and cached pages that are those of the table, `UpdateProduct`
  -- through the cache answers as without it and does the same to the tables, and the cached products and
  -- the cached pages afterwards are those of the table, changed as it is.
  pub update_product-Refreshes :
      (arg : UpdateProductParams)
      → Refreshes (update_product arg w) (Repository.update_product arg w)
  unfolding update_product invalidate_product
  update_product-Refreshes arg = record {
    agrees = update_product-Agrees w calm c arg;
    fresh = go (Repository.update_product arg w) (update_product_touched arg w calm);
  }
    where
      go :
          (p : Result Error ProductProduct × ProductWorld)
          → TouchesOne arg.id w p
          → HasFreshPages
              (((λ _. p) >>= λ a.
                  ignoring (invalidate_product arg.id) tt >> ignoring invalidate_product_list a)
                w).1
      go (ok a, w1) (d, e, same) =
          subst (λ (q : Result Error (Unit {0}) × ProductWorld). HasFreshPages q.1)
            (sym (
              invalidate_product_list_lem (invalidate_product arg.id w1).1
                (ground (arith, ap (λ (u : ProductWorld). u.script) e, calm))))
            (λ limit offset ps none_left. ground (arith, none_left))
      go (err x, w1) e = subst HasFreshPages (sym e) f

-- A page of products that is cached is not dropped when a stock changes: while the key lives,
-- `ListProducts` answers with the stocks from before the change.
pub list_products-update_stock_with_lock :
    (id : Uuid) (delta limit offset : ℤ) (w : ProductWorld) (page : List ProductProduct)
    → w.script ≡ []
    → list_at (limit, offset) w.redis.cached_lists ≡ some (json page)
    → (list_products limit offset (update_stock_with_lock id delta w).1).0 ≡ ok page
unfolding update_stock_with_lock list_products invalidate_product
list_products-update_stock_with_lock id delta limit offset w page calm cached =
    go (Repository.update_stock_with_lock id delta w)
      (update_stock_with_lock-TouchesOne id delta w calm)
  where
    served :
        (u : ProductWorld)
        → u.script ≡ []
        → u.redis.cached_lists ≡ w.redis.cached_lists
        → (list_products limit offset u).0 ≡ ok page
    served u quiet same = ground (arith, quiet, cached, same)

    go :
        (p : Result Error UpdateStockRow × ProductWorld)
        → TouchesOne id w p
        → (list_products limit offset
            (((λ _. p) >>= λ a. ignoring (invalidate_product id) a) w).1).0
          ≡ ok page
    go (ok a, w1) (d, e, same) =
        subst (λ u. (list_products limit offset (invalidate_product id u).1).0 ≡ ok page) (sym e)
          (served (invalidate_product id (record w { db = d })).1 (ground (arith, calm))
            (ground (arith, calm)))
    go (err x, w1) e =
        subst (λ u. (list_products limit offset u).0 ≡ ok page) (sym e) (served w calm refl)
