-- ===== src/Order/Lifecycle.antt =====
-- How a request of services/order/go/internal/service/order.go, or a turn of the worker of
-- internal/queue/worker.go, may change the tables and the queue of orders, whatever the calls of the
-- database, of Redis and of the product service do.
pub mod Calls
pub mod Rows
pub mod Create
pub mod Async
pub mod Status
pub mod Work
pub mod Runs
pub mod Valid
pub mod Waiting
pub mod Invariant
pub mod Follows
use flash_deals.Base.{
  ◌+◌, ◌≤◌, ◌≡◌, true, pos, List, [], ◌∷◌, ◌++◌, none, some, Option, String, Uuid,
}
use flash_deals.Order.State.{
  OrderWorld, OrderDb, OrdersOrder, OrdersOrderItem, OrderRequest, pending, confirmed,
}
use flash_deals.Order.Queries.{find_order, confirmed_row, cancelled_row}
use flash_deals.Order.Service.Pricing.{OrderItemData}
use flash_deals.Order.Service.Pricing.Total.{AllPriced, add_subtotals}
use flash_deals.Order.Service.Create.Insert.{AreLines}
use flash_deals.Order.Service.Status.{is_cancellable}
use flash_deals.Order.Service.Status.Checks.{with_order}

-- What the order service has stored: its tables, and its queue in Redis.
pub record Stored : Type 0 where
  pub db : OrderDb
  pub queue : List OrderRequest

abbrev pub stored : {R : Type 0} → OrderWorld R → Stored
stored w = record { db = w.db; queue = w.queue }

-- One order more, with its items, whose subtotals it sums up.
pub record Adds (order : OrdersOrder) (w w' : Stored) : Type 0 where
  pub rows : List OrdersOrderItem
  pub lines : List OrderItemData
  pub added_order : w'.db.orders ≡ order ∷ w.db.orders
  pub added_items : w'.db.order_items ≡ w.db.order_items ++ rows
  pub are_lines : AreLines order.id lines rows
  pub priced : AllPriced lines
  pub summed : order.total_amount ≡ add_subtotals (pos 0) lines

-- The tables are the same, but for identifiers that have been drawn.
abbrev pub SameTables : Stored → Stored → Type 0
SameTables w w' =
    (w'.db.orders ≡ w.db.orders)
    × (w'.db.order_items ≡ w.db.order_items)
    × (w.db.next_id ≤ w'.db.next_id)

pub data Change (w w' : Stored) : Type 0 where
  kept : SameTables w w' → w'.queue ≡ w.queue → Change w w'
  placed :
      (order : OrdersOrder)
      → Adds order w w'
      → order.id ≡ w.db.next_id
      → order.status ≡ pending
      → w.db.next_id + 1 ≤ w'.db.next_id
      → w'.queue ≡ w.queue
      → Change w w'
  queued :
      (m : OrderRequest)
      → m.order_id ≡ w.db.next_id
      → SameTables w w'
      → w.db.next_id + 1 ≤ w'.db.next_id
      → w'.queue ≡ m ∷ w.queue
      → Change w w'
  taken : (m : OrderRequest) → SameTables w w' → w.queue ≡ w'.queue ++ m ∷ [] → Change w w'
  worked :
      (m : OrderRequest) (order : OrdersOrder)
      → Adds order w w'
      → order.id ≡ m.order_id
      → order.status ≡ confirmed
      → find_order m.order_id w.db ≡ none
      → w.db.next_id ≤ w'.db.next_id
      → w.queue ≡ w'.queue ++ m ∷ []
      → Change w w'
  confirmed_order :
      (id : Uuid) (o : OrdersOrder)
      → find_order id w.db ≡ some o
      → o.status ≡ pending
      → w'.db ≡ with_order id (confirmed_row w.db.clock) w.db
      → w'.queue ≡ w.queue
      → Change w w'
  cancelled_order :
      (id : Uuid) (reason : Option String) (o : OrdersOrder)
      → find_order id w.db ≡ some o
      → is_cancellable o.status ≡ true
      → w'.db ≡ with_order id (cancelled_row w.db.clock reason) w.db
      → w'.queue ≡ w.queue
      → Change w w'
