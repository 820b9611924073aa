-- ===== src/Order/Service/Stock.antt =====
-- Step 2 of `CreateOrder` in services/order/go/internal/service/order.go: the stock is taken item by
-- item, and given back where a later step fails. `CancelOrder` gives back by the same loop.
pub mod Restore
pub mod Decrease
use flash_deals.Base.{ℤ, List, [], ◌∷◌, ◌++◌, Uuid, UuidText, ok, err, Exec}
use flash_deals.Rpc.{ProductService}
use flash_deals.Order.State.{OrderWorld}
use flash_deals.Order.Client.{decrease_stock, increase_stock}
use flash_deals.Order.Service.{OrderItemRequest, Failure, of_client}

pub record DecreasedItem : Type 0 where
  pub product_id : Uuid
  pub quantity : ℤ

abbrev pub decreased : OrderItemRequest → DecreasedItem
decreased item = record { product_id = item.product_id; quantity = item.quantity }

module _ {R : Type 0} (ids : UuidText) (svc : ProductService R) where
  -- `for _, d := range decreasedItems { product.IncreaseStock(...) }`, whatever the answers are
  unfoldable pub restore_stock : List DecreasedItem → OrderWorld R → OrderWorld R
  restore_stock [] w = w
  restore_stock (d ∷ ds) w = restore_stock ds (increase_stock ids svc d.product_id d.quantity w).1

  unfoldable pub decrease_items :
      List OrderItemRequest → List DecreasedItem → Exec (OrderWorld R) Failure (List DecreasedItem)
  unfolding restore_stock
  decrease_items [] taken w = (ok taken, w)
  decrease_items (item ∷ items) taken w =
      let (r, w') = decrease_stock ids svc item.product_id item.quantity w in
      elim r [
        | ok _ ↦ decrease_items items (taken ++ decreased item ∷ []) w'
        | err e ↦ (err (of_client e), restore_stock taken w')
      ]
