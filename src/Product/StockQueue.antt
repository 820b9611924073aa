-- ===== src/Product/StockQueue.antt =====
-- One request through the stock queue, services/product/go/internal/queue/stock_queue.go, as the
-- caller of `UpdateStock` sees it.
pub mod Cancelled
pub mod Channel
use flash_deals.Base.{ℤ, List, [], ◌∷◌, Uuid, Result, ok, err, Exec}
use flash_deals.Product.State.{
  ProductWorld, Error, message, Wait, answered, gone_before, gone_after,
}
use flash_deals.Product.Queries.{UpdateStockRow}
use flash_deals.Product.Repository.{ProductRepository}

abbrev pub next_wait : List Wait → Wait
next_wait [] = answered
next_wait (a ∷ as') = a

abbrev pub rest_waits : List Wait → List Wait
rest_waits [] = []
rest_waits (a ∷ as') = as'

-- The two `select`s: the worker runs the update in the background, so a caller that leaves after
-- its request is queued does not stop it.
unfoldable pub queue_update_stock :
    ProductRepository → Uuid → ℤ → Exec ProductWorld Error UpdateStockRow
queue_update_stock repo id delta w =
    let w' : ProductWorld = record w { waits = rest_waits w.waits } in
    elim (next_wait w.waits) [
      | answered ↦ repo.update_stock_with_lock id delta w'
      | gone_before ↦ (err (message "context cancelled while enqueueing"), w')
      | gone_after ↦ (
        err (message "context cancelled while waiting for response"),
        (repo.update_stock_with_lock id delta w').1,
      )
    ]
