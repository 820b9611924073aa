-- ===== src/Order/Worker/Writes.antt =====
-- Where no call fails, the worker writes an order that the columns can hold.
use flash_deals.Base.{
  ==_self, true, ◌≡◌, refl, none, some, List, [], ◌∷◌, map, Uuid, ok, arith, ◌++◌, ◌+◌,
}
use flash_deals.Order.State.{OrderWorld, OrderDb, OrdersOrder, OrdersOrderItem, OrderRequest}
use flash_deals.Order.Queries
use flash_deals.Order.Queries.{find_order, valid_order, valid_item, order_row, item_row}
use flash_deals.Order.Queries.WithId.{create_order_with_id, columns}
use flash_deals.Order.Service.Pricing.{OrderItemData}
use flash_deals.Order.Service.Create.{item_params, insert_items}
use flash_deals.Order.Worker.{worker_params, requested_line, process_order}

-- The rows of the items pass the checks of their table.
abbrev pub AreWritable : Uuid → List OrderItemData → Type 0
AreWritable id [] = Unit {0}
AreWritable id (d ∷ ds) = (valid_item (item_params id d) ≡ true) × AreWritable id ds

-- So do all rows of the message.
abbrev pub IsWritable : OrderRequest → Type 0
IsWritable m =
    (valid_order (columns (worker_params m)) ≡ true)
    × AreWritable m.order_id (map requested_line m.items)

module _ {R : Type 0} (w : OrderWorld R) where
  -- No call fails any more.
  abbrev quiet : OrderWorld R
  quiet = record w { script = [] }

  insert_items_calm :
      (id : Uuid) (ds : List OrderItemData) (tx : OrderDb) (o : OrdersOrder)
      → find_order id tx ≡ some o
      → AreWritable id ds
      → (p : List OrdersOrderItem × OrderDb) × (insert_items id ds tx quiet ≡ (ok p, quiet))
  unfolding insert_items Queries.create_order_item
  insert_items_calm id [] tx o found v = (([], tx), refl)
  insert_items_calm id (d ∷ ds) tx o found (v, vs) =
      let row = item_row tx.next_id tx.clock (item_params id d) in
      let tx1 : OrderDb = record tx {
        order_items = tx.order_items ++ row ∷ [];
        next_id = tx.next_id + 1;
      } in
      let (p, e) = insert_items_calm id ds tx1 o found vs in
      ((row ∷ p.0, p.1), ground (arith, found, v, e))

  pub process_order_calm :
      (m : OrderRequest)
      → find_order m.order_id w.db ≡ none
      → IsWritable m
      → (w' : OrderWorld R) × (process_order m quiet ≡ (ok tt, w'))
  unfolding process_order create_order_with_id
  process_order_calm m new (v, vs) =
      let row = order_row m.order_id w.db.clock (columns (worker_params m)) in
      let tx : OrderDb = record w.db { orders = row ∷ w.db.orders } in
      let (p, e) =
        insert_items_calm m.order_id (map requested_line m.items) tx row (rw (==_self m.order_id))
          vs in
      (record quiet { db = p.1 }, ground (arith, new, v, e))
