-- ===== src/Tests/Async.antt =====
-- An order through the queue and the worker.
use flash_deals.Base.{true, pos, refl, ◌≡◌, none, some, List, [], ◌∷◌}
use flash_deals.Product.State.{ProductWorld}
use flash_deals.Product.Server.{product_service}
use flash_deals.Product.Server.View.{db_server, server_view}
use flash_deals.Product.Server.Promises.{server_laws}
use flash_deals.Order.State.{OrderWorld, OrderRequest}
use flash_deals.Order.Queue.{enqueue, dequeue}
use flash_deals.Order.Queue.Fifo.{Enqueues, Dequeues, queue-Fifo}
use flash_deals.Order.Service.Pricing.{OrderItemData, item_data}
use flash_deals.Order.Service.Async.{async_create_order, order_request}
use flash_deals.Order.Service.Async.Sent.{Queues}
use flash_deals.Order.Service.Async.Queued.{async_create_order-Queues}
use flash_deals.Order.Worker.{process_order}
use flash_deals.Order.Worker.Processed.{Processes, process_order-Processes}
use flash_deals.Order.Worker.Drains.{turns, work-drains}
use flash_deals.Tests.World.{unary_ids, hotdeals, start, request}
use flash_deals.Tests.Orders.{start-IsReady, two_items, two_items-AllOrdered}

async_create_order-Queues_example : Queues (server_view (some hotdeals)) 7 two_items none start (
    async_create_order unary_ids
      (product_service unary_ids (db_server (some hotdeals)))
      true
      7
      two_items
      none
      start)
unfolding server_laws
async_create_order-Queues_example =
    async_create_order-Queues unary_ids (product_service unary_ids (db_server (some hotdeals)))
      (server_laws unary_ids (some hotdeals)) 7 two_items none true start start-IsReady tt
      two_items-AllOrdered

abbrev pub lines : List OrderItemData
lines =
    item_data (request 1 (pos 2)) (pos 100) "lamp"
    ∷ item_data (request 2 (pos 1)) (pos 250) "chair"
    ∷ []

abbrev pub message : OrderRequest
message = order_request 30 7 lines none 9

abbrev earlier : OrderRequest
earlier = order_request 29 8 [] none 8

abbrev waiting : OrderWorld ProductWorld
waiting = record start { queue = earlier ∷ [] }

queue-Fifo_example :
    Enqueues message waiting (enqueue message waiting) × Dequeues waiting (dequeue waiting)
queue-Fifo_example = queue-Fifo message waiting tt

process_order-Processes_example : Processes message start (process_order message start)
process_order-Processes_example = process_order-Processes message start tt

-- Two messages wait, the oldest last in the list.
abbrev busy : OrderWorld ProductWorld
busy = record start { queue = message ∷ earlier ∷ [] }

work-drains_example : ((turns 2 busy).0 ≡ earlier ∷ message ∷ []) × ((turns 2 busy).1.queue ≡ [])
work-drains_example = work-drains busy refl
