-- ===== src/Tests/Products.antt =====
-- Changes of stock in the product service.
use flash_deals.Base.{
  true, ok, none, Uuid, ◌==◌, if◌then◌else◌, wrap32, int_laws, add32, pos, negsuc, ◌≡◌, refl, some,
  [], ◌∷◌, arith, err,
}
use flash_deals.Product.State.{ProductWorld, message, gone_after}
use flash_deals.Product.Queries.{find_product, set_stock}
use flash_deals.Product.Repository.{db_repository, update_stock_with_lock}
use flash_deals.Product.Repository.Locking.{locked, update_stock_with_lock_lem}
use flash_deals.Product.Hotdeal.{is_enabled, stock_at, load_stock, unload_stock}
use flash_deals.Product.Hotdeal.Deal.{unload_stock-load_stock}
use flash_deals.Product.Hotdeal.Sales.{Adds, sell, sell-Adds}
use flash_deals.Product.StockQueue.{queue_update_stock}
use flash_deals.Product.StockQueue.Cancelled.{queue_update_stock-gone_after}
use flash_deals.Product.Server.{update_stock}
use flash_deals.Product.Server.Cache.Promises.{server_over}
use flash_deals.Product.Server.Cache.Stocks.{StocksOver, update_stock-StocksOver}
use flash_deals.Tests.Cache.{warm, warm-IsCoherent}
use flash_deals.Tests.World.{unary_ids, hotdeals, shop, lamp}
use flash_deals.Tests.Orders.{warm_start-IsReady}

update_stock-StocksOver_example :
    StocksOver true
      (some hotdeals)
      2
      (negsuc 1)
      warm
      (update_stock unary_ids (server_over true (some hotdeals)) "uu" (negsuc 1) warm)
unfolding is_enabled
update_stock-StocksOver_example =
    update_stock-StocksOver unary_ids true (some hotdeals) 2 (negsuc 1) warm
      warm_start-IsReady.valid.0 warm-IsCoherent (ground arith, ground arith, omega int_laws)

update_stock_with_lock_lem_example :
    update_stock_with_lock 1 (negsuc 3) shop ≡ locked 1 (negsuc 3) shop
update_stock_with_lock_lem_example = update_stock_with_lock_lem 1 (negsuc 3) shop refl

-- Four buyers ask for the three chairs.
sell-Adds_example : Adds 2 (pos 3) (sell hotdeals 2 (pos 2 ∷ pos 2 ∷ pos 1 ∷ pos 1 ∷ []) shop)
unfolding is_enabled
sell-Adds_example =
    sell-Adds hotdeals 2 (pos 2 ∷ pos 2 ∷ pos 1 ∷ pos 1 ∷ []) (pos 3) shop refl refl refl
      (ground arith) (ground arith, (ground arith, (ground arith, (ground arith, tt))))

abbrev impatient : ProductWorld
impatient = record shop { waits = gone_after ∷ [] }

queue_update_stock-gone_after_example :
    ((queue_update_stock db_repository 1 (negsuc 3) impatient).0
      ≡ err (message "context cancelled while waiting for response"))
    × (find_product 1 (queue_update_stock db_repository 1 (negsuc 3) impatient).1.db
        ≡ some (set_stock (pos 6) 5 lamp))
unfolding add32
queue_update_stock-gone_after_example =
    queue_update_stock-gone_after 1 (negsuc 3) impatient [] lamp refl refl refl refl

unload_stock-load_stock_example :
    ((unload_stock hotdeals 1 (load_stock hotdeals 1 (pos 8) shop).1).0 ≡ ok (wrap32 (pos 8)))
    × ((j : Uuid)
        → stock_at j (unload_stock hotdeals 1 (load_stock hotdeals 1 (pos 8) shop).1).1.redis
          ≡ (if j == 1 then none else stock_at j shop.redis))
unfolding is_enabled
unload_stock-load_stock_example = unload_stock-load_stock hotdeals 1 (pos 8) shop refl refl
