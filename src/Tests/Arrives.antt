-- ===== src/Tests/Arrives.antt =====
-- An order through the queue: two lamps and a chair, which are accepted and written.
use mathlib.Core.Path.{subst}
use flash_deals.Base.{
  true, pos, ◌≡◌, refl, none, some, [], ◌∷◌, Result, ok, arith, add32, neg32, mul32,
}
use flash_deals.Product.State.{ProductWorld}
use flash_deals.Product.Queries as PQ
use flash_deals.Product.Repository
use flash_deals.Product.Hotdeal.{has_stock, decrement_stock}
use flash_deals.Product.StockQueue.{queue_update_stock}
use flash_deals.Product.Server
use flash_deals.Product.Server.View.{server_view}
use flash_deals.Product.Server.Promises.{server_laws}
use flash_deals.Order.State.{OrderWorld, OrderRequest}
use flash_deals.Order.Client
use flash_deals.Order.Queue.{enqueue}
use flash_deals.Order.Service.{OrderResponse, Failure}
use flash_deals.Order.Service.Pricing.{price_items}
use flash_deals.Order.Service.Stock.{decrease_items}
use flash_deals.Order.Service.Async.{async_create_order, enqueue_or_restore, queued_response}
use flash_deals.Order.Worker.{work}
use flash_deals.Order.Worker.Writes.{IsWritable}
use flash_deals.Order.Worker.Arrives.{Arrives, async_create_order-work}
use flash_deals.Tests.World.{unary_ids, hotdeals, start}
use flash_deals.Tests.Orders.{two_items, two_items-AllOrdered, start-IsReady}
use flash_deals.Tests.Async.{message}
use flash_deals.Tests.Lifecycle.{svc, start-IsValid}

abbrev answer : OrderResponse
answer = queued_response message (pos 450) none

abbrev run : Result Failure OrderResponse × OrderWorld ProductWorld
run = async_create_order unary_ids svc true 7 two_items none start

abbrev after : OrderWorld ProductWorld
after = run.1

accepted : (run.0 ≡ ok answer) × (after.script ≡ []) × (after.queue ≡ message ∷ [])
unfolding async_create_order price_items decrease_items enqueue_or_restore enqueue
    Client.get_product Client.decrease_stock Server.get_product Server.product_message
    Server.update_stock Server.update_queued_stock Server.update_hotdeal_stock
    Repository.get_product_by_id Repository.update_stock_with_lock Repository.write_stock
    PQ.get_product_by_id PQ.get_stock_for_update PQ.update_stock has_stock decrement_stock
    queue_update_stock add32 neg32 mul32
accepted = (refl, refl, refl)

message-IsWritable : IsWritable message
unfolding add32 mul32
message-IsWritable = (refl, (refl, (refl, tt)))

writable : (m : OrderRequest) → after.queue ≡ m ∷ [] → IsWritable m
writable m e =
    subst IsWritable {x = message} {y = m} (ground (arith, e, accepted.2)) message-IsWritable

async_create_order-work_example :
    Arrives (server_view (some hotdeals)) 7 two_items answer start (work after)
unfolding server_laws
async_create_order-work_example =
    async_create_order-work unary_ids svc (server_laws unary_ids (some hotdeals)) 7 two_items none
      answer start after true start-IsReady tt two_items-AllOrdered start-IsValid refl
      (λ i. (accepted.0 i, after)) accepted.1 writable
