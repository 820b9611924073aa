-- ===== src/Order/Worker/Arrives.antt =====
-- An order through the queue: what `AsyncCreateOrder` accepts, the worker writes.
use mathlib.Core.Path.{◌∙◌, subst}
use flash_deals.Base.{
  pos, ◌+ℤ◌, ◌≡◌, refl, sym, ap, Option, none, List, [], ◌∷◌, ◌++◌, map, Uuid, UuidText, Result, ok,
  NoLost, Bool, find_by, arith,
}
use flash_deals.Rpc.{ProductService}
use flash_deals.Rpc.Stock.{StockView, StockLaws}
use flash_deals.Order.State.{OrderWorld, OrdersOrder, OrdersOrderItem, OrderRequest, confirmed}
use flash_deals.Order.Queries.{find_order, order_id}
use flash_deals.Order.Queue.{dequeue}
use flash_deals.Order.Client.Stock.{IsReady}
use flash_deals.Order.Service.{OrderItemRequest, ShippingAddress, OrderResponse, Failure}
use flash_deals.Order.Service.Pricing.{OrderItemData}
use flash_deals.Order.Service.Pricing.Total.{AllPriced, request_of}
use flash_deals.Order.Service.Stock.{decreased}
use flash_deals.Order.Service.Stock.Restore.{demand}
use flash_deals.Order.Service.Stock.Decrease.{AllOrdered}
use flash_deals.Order.Service.Create.Insert.{AreLines}
use flash_deals.Order.Service.Async.{async_create_order, order_request}
use flash_deals.Order.Service.Async.Sent.{Queues}
use flash_deals.Order.Service.Async.Queued.{async_create_order-Queues}
use flash_deals.Order.Lifecycle.{stored}
use flash_deals.Order.Lifecycle.Valid.{IsValid}
use flash_deals.Order.Worker.{process_order, work}
use flash_deals.Order.Worker.Agreement.{message-Agreement}
use flash_deals.Order.Worker.Drains.{process_order-Waits}
use flash_deals.Order.Worker.Processed.{Processes, process_order-Processes}
use flash_deals.Order.Worker.Writes.{IsWritable, process_order_calm}

-- From `w` to `w'` the order of the answer is written, and its stock is taken.
pub record Arrives {R : Type 0} (v : StockView R) (user_id : Uuid) (items : List OrderItemRequest)
    (response : OrderResponse) (w w' : OrderWorld R) : Type 0 where
  pub order : OrdersOrder
  pub rows : List OrdersOrderItem
  pub lines : List OrderItemData
  pub for_items : map request_of lines ≡ items
  pub priced : AllPriced lines
  pub are_lines : AreLines response.id lines rows
  pub id : order.id ≡ response.id
  pub user : order.user_id ≡ user_id
  pub status : order.status ≡ confirmed
  pub total : order.total_amount ≡ response.total_amount
  pub added_order : w'.db.orders ≡ order ∷ w.db.orders
  pub added_items : w'.db.order_items ≡ w.db.order_items ++ rows
  pub drained : w'.queue ≡ []
  pub sold : (j : Uuid) → v.stock w'.remote j +ℤ demand (map decreased items) j ≡ v.stock w.remote j

module _ {R : Type 0} where
  -- A turn takes the only message, and processes it.
  work_one :
      (m : OrderRequest) (w : OrderWorld R)
      → w.queue ≡ m ∷ []
      → w.script ≡ []
      → work w ≡ (process_order m (record w { queue = []; script = [] })).1
  unfolding work dequeue
  work_one m w q calm = ground (arith, q, calm)

  -- The message is written.
  written :
      (m : OrderRequest) (w : OrderWorld R)
      → w.queue ≡ m ∷ []
      → w.script ≡ []
      → find_order m.order_id w.db ≡ none
      → IsWritable m
      → Processes m (record w { queue = []; script = [] }) (ok tt, work w)
  written m w q calm new fits =
      let w0 : OrderWorld R = record w { queue = []; script = [] } in
      let (w', e) = process_order_calm w0 m new fits in
      subst (λ u. Processes m w0 (ok tt, u))
        (sym (work_one m w q calm ∙ ap (λ (p : Result Failure (Unit {0}) × OrderWorld R). p.1) e))
        (subst (Processes m w0) e (process_order-Processes m w0 tt))

module _ {R : Type 0} (ids : UuidText) (svc : ProductService R) (laws : StockLaws ids svc)
    (user_id : Uuid) (items : List OrderItemRequest) (shipping : Option ShippingAddress)
    (response : OrderResponse) (w w1 : OrderWorld R) where
  open laws use {view}

  sent-Arrives :
      Queues view user_id items shipping w (ok response, w1)
      → IsValid (stored w)
      → w.queue ≡ []
      → w1.script ≡ []
      → ((m : OrderRequest) → w1.queue ≡ m ∷ [] → IsWritable m)
      → Arrives view user_id items response w (work w1)
  sent-Arrives (sold, sent, (same_orders, same_items)) valid empty calm fits =
      let m = order_request w.db.next_id user_id sent.lines shipping w.db.clock in
      let alone : w1.queue ≡ m ∷ [] = sent.sent ∙ ap (λ l. m ∷ l) empty in
      let unused : find_order w.db.next_id w1.db ≡ none =
        ap (λ l. find_by order_id w.db.next_id l) same_orders
        ∙ valid.fresh w.db.next_id (omega arith) in
      let w0 : OrderWorld R = record w1 { queue = []; script = [] } in
      let (order, rows, (id, user, status, total), _, lines, orders, its_items, remote) =
        written m w1 alone calm unused (fits m alone) in
      let (same_lines, sum) = message-Agreement sent.lines (pos 0) sent.priced in
      let told : response.id ≡ w.db.next_id = ap (λ (r : OrderResponse). r.id) sent.answered in
      record {
        order = order;
        rows = rows;
        lines = sent.lines;
        for_items = sent.for_items;
        priced = sent.priced;
        are_lines =
            subst (λ i. AreLines i sent.lines rows) (sym told)
              (subst (λ l. AreLines w.db.next_id l rows) same_lines lines);
        id = id ∙ sym told;
        user = user;
        status = status;
        total = total ∙ sum ∙ sym (ap (λ (r : OrderResponse). r.total_amount) sent.answered);
        added_order = orders ∙ ap (λ l. order ∷ l) same_orders;
        added_items = its_items ∙ ap (λ l. l ++ rows) same_items;
        drained =
            ap (λ (u : OrderWorld R). u.queue) (work_one m w1 alone calm)
            ∙ (process_order-Waits [] m w0 (refl, refl)).0;
        sold = λ j. ap (λ r. view.stock r j +ℤ demand (map decreased items) j) remote ∙ sold.0 j;
      }

  -- Over a product service that keeps the stock laws, in a state where they hold, and a reliable
  -- connection, with no lost answer of Redis, from valid tables with no message that waits: if
  -- `AsyncCreateOrder` accepts an order with positive quantities, no call fails afterwards, and the
  -- columns can hold the rows of its message, then the next turn of the worker writes the order: under the
  -- identifier and with the total that the caller was told, confirmed, with a priced line for each item.
  -- The queue is empty again, and exactly the stock of the items is taken.
  pub async_create_order-work :
      (has_queue : Bool)
      → IsReady view w
      → NoLost w.script
      → AllOrdered items
      → IsValid (stored w)
      → w.queue ≡ []
      → async_create_order ids svc has_queue user_id items shipping w ≡ (ok response, w1)
      → w1.script ≡ []
      → ((m : OrderRequest) → w1.queue ≡ m ∷ [] → IsWritable m)
      → Arrives view user_id items response w (work w1)
  async_create_order-work has_queue ready n ordered valid empty accepted calm fits =
      sent-Arrives
        (subst (Queues view user_id items shipping w) accepted (
          async_create_order-Queues ids svc laws user_id items shipping has_queue w ready n
            ordered))
        valid empty calm fits
