-- ===== src/Tests/Joined.antt =====
-- The LEFT JOIN of the orders with their items.
use flash_deals.Base.{pos, ◌≡◌, refl, ok, none, some, [], ◌∷◌, flat_map, HaveKeys, arith}
use flash_deals.Order.State.{OrdersOrder, OrdersOrderItem, OrderDb}
use flash_deals.Order.Queries.Lists.{created, list_orders_by_user_id}
use flash_deals.Order.Queries.Joined.{joined, rows_of_order, list_orders_with_items_by_user_id}
use flash_deals.Order.Queries.Joined.Grouped.{list_orders_with_items_lem}
use flash_deals.Tests.World.{old_order, old_item}

abbrev new_order : OrdersOrder
new_order = record old_order { id = 40; created_at = 5; updated_at = 5 }

abbrev second_item : OrdersOrderItem
second_item = record old_item { id = 22; product_id = 2; created_at = 2 }

-- An order with two items, and a newer one with none.
abbrev two_orders : OrderDb
two_orders = record {
  orders = old_order ∷ new_order ∷ [];
  order_items = old_item ∷ second_item ∷ [];
  next_id = 50;
  clock = 9;
}

different : HaveKeys created (old_order ∷ new_order ∷ [])
different = ((ground arith, tt), (tt, tt))

list_orders_with_items_lem_example :
    (list_orders_with_items_by_user_id
      (record { user_id = 7; limit = pos 3; offset = pos 0 })
      two_orders).0
    ≡ ok (flat_map (rows_of_order two_orders) (new_order ∷ old_order ∷ []))
unfolding list_orders_by_user_id
list_orders_with_items_lem_example =
    list_orders_with_items_lem two_orders 7 2 3 (new_order ∷ old_order ∷ []) different (omega arith)
      refl (omega arith)

-- A page of two rows ends inside the older order.
page_cuts_order :
    (list_orders_with_items_by_user_id
      (record { user_id = 7; limit = pos 2; offset = pos 0 })
      two_orders).0
    ≡ ok (joined new_order none ∷ joined old_order (some old_item) ∷ [])
unfolding list_orders_with_items_by_user_id
page_cuts_order = refl
