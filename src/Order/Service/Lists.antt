-- ===== src/Order/Service/Lists.antt =====
-- `ListOrders` of services/order/go/internal/service/order.go.
pub mod Own
pub mod Shows
pub mod Pages
use flash_deals.Base.{
  ℤ, pos, sub32, mul32, String, Option, none, some, List, [], ◌∷◌, Uuid, ok, err, Exec, pure, ◌>>=◌,
}
use flash_deals.Order.State.{OrderWorld, OrderDb, OrdersOrder, OrdersOrderItem, Error, on_db}
use flash_deals.Order.Queries
use flash_deals.Order.Queries.Lists.{
  count_orders_by_user_id, count_orders_by_user_id_and_status, list_orders_by_user_id,
  list_orders_by_user_id_and_status,
}
use flash_deals.Order.Service.Transaction.{or_fail}
use flash_deals.Order.Service.{OrderResponse, Failure, raw, to_order_response}
use flash_deals.Order.Service.Status.{or_nil}

-- The two branches on the status, of the count and of the page.
unfoldable pub count_query : Uuid → Option String → Exec OrderDb Error ℤ
count_query user_id none = count_orders_by_user_id user_id
count_query user_id (some status) =
    count_orders_by_user_id_and_status (record { user_id = user_id; status = status })

unfoldable pub list_query : Uuid → ℤ → ℤ → Option String → Exec OrderDb Error (List OrdersOrder)
list_query user_id limit offset none =
    list_orders_by_user_id (record { user_id = user_id; limit = limit; offset = offset })
list_query user_id limit offset (some status) =
    list_orders_by_user_id_and_status
      (record { user_id = user_id; status = status; limit = limit; offset = offset })

module _ {R : Type 0} where
  -- The loop over the rows: an order whose items cannot be read has none in the answer.
  unfoldable pub with_items : List OrdersOrder → Exec (OrderWorld R) Failure (List OrderResponse)
  with_items [] = pure []
  with_items (order ∷ orders) = do
    items ← or_nil (on_db (Queries.get_order_items_by_order_id order.id))
    results ← with_items orders
    pure (to_order_response order items none ∷ results)

  -- The offset is an `int32`, as `page` and `size` are.
  unfoldable pub list_orders :
      Uuid → ℤ → ℤ → Option String → Exec (OrderWorld R) Failure (List OrderResponse × ℤ)
  unfolding count_query list_query with_items
  list_orders user_id page size status = do
    total ← or_fail raw (on_db (count_query user_id status))
    orders ← or_fail raw (on_db (list_query user_id size (mul32 (sub32 page (pos 1)) size) status))
    results ← with_items orders
    pure (results, total)
