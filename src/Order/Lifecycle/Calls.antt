-- ===== src/Order/Lifecycle/Calls.antt =====
-- The calls of the product service leave the order service alone, whatever their outcomes: those of the
-- loops of services/order/go/internal/service/order.go.
use flash_deals.Base.{
  ℤ, String, Option, none, some, List, [], ◌∷◌, ◌++◌, add32, mul32, Uuid, UuidText, Result, ok, err,
  Exec, ◌>>=◌, pure, bind_keeps,
}
use flash_deals.Rpc.{ProductService}
use flash_deals.Order.State.{OrderWorld}
use flash_deals.Order.Client.{
  StockResult, ClientError, decrease_stock, increase_stock, get_product, get_deal,
}
use flash_deals.Order.Client.Stock.{
  Kept, Kept-trans, get_product-Kept, get_deal-Kept, decrease_stock-Kept, increase_stock-Kept,
}
use flash_deals.Order.Service.{OrderItemRequest, Failure, of_client}
use flash_deals.Order.Service.Pricing.{from_client, deal_price, price_of, price_items, item_data}
use flash_deals.Order.Service.Stock.{DecreasedItem, decreased, restore_stock, decrease_items}

module _ {R : Type 0} (ids : UuidText) (svc : ProductService R) (w0 : OrderWorld R) where
  price_of-Kept :
      (item : OrderItemRequest) (w : OrderWorld R) → Kept w0 w → Kept w0 (price_of ids svc item w).1
  unfolding price_of
  price_of-Kept item w k = go item.deal_id
    where
      go :
          (d : Option Uuid)
          → (let m : Exec (OrderWorld R) Failure (ℤ × String) = elim d [
            | some id ↦
                from_client (get_deal ids svc id) >>= λ deal v. (deal_price ids svc item deal, v)
            | none ↦ from_client (get_product ids svc item.product_id) >>= λ prod.
                pure (prod.price, prod.name)
          ] in
              Kept w0 (m w).1)
      go none =
          bind_keeps (Kept w0) (from_client (get_product ids svc item.product_id))
            (λ prod. pure (prod.price, prod.name)) w
            (Kept-trans w0 w (get_product ids svc item.product_id w).1 k
              (get_product-Kept ids svc item.product_id w))
            (λ a w1 h. h)
      go (some id) =
          bind_keeps (Kept w0) (from_client (get_deal ids svc id))
            (λ deal v. (deal_price ids svc item deal, v)) w
            (Kept-trans w0 w (get_deal ids svc id w).1 k (get_deal-Kept ids svc id w)) (λ a w1 h. h)

  pub price_items-Kept :
      (items : List OrderItemRequest) (total : ℤ) (w : OrderWorld R)
      → Kept w0 w
      → Kept w0 (price_items ids svc items total w).1
  unfolding price_items
  price_items-Kept [] total w k = k
  price_items-Kept (item ∷ items) total w k =
      bind_keeps (Kept w0) (price_of ids svc item)
        (λ a. price_items ids svc items (add32 total (mul32 a.0 item.quantity)) >>= λ b.
          pure (item_data item a.0 a.1 ∷ b.0, b.1))
        w (price_of-Kept item w k)
        (λ a w1 k1.
          bind_keeps (Kept w0) (price_items ids svc items (add32 total (mul32 a.0 item.quantity)))
            (λ b. pure (item_data item a.0 a.1 ∷ b.0, b.1)) w1
            (price_items-Kept items (add32 total (mul32 a.0 item.quantity)) w1 k1) (λ b w2 k2. k2))

  pub restore_stock-Kept :
      (ds : List DecreasedItem) (w : OrderWorld R)
      → Kept w0 w
      → Kept w0 (restore_stock ids svc ds w)
  unfolding restore_stock
  restore_stock-Kept [] w k = k
  restore_stock-Kept (d ∷ ds) w k =
      restore_stock-Kept ds (increase_stock ids svc d.product_id d.quantity w).1 (
        Kept-trans w0 w (increase_stock ids svc d.product_id d.quantity w).1 k
          (increase_stock-Kept ids svc d.product_id d.quantity w))

  pub decrease_items-Kept :
      (items : List OrderItemRequest) (taken : List DecreasedItem) (w : OrderWorld R)
      → Kept w0 w
      → Kept w0 (decrease_items ids svc items taken w).1
  unfolding decrease_items
  decrease_items-Kept [] taken w k = k
  decrease_items-Kept (item ∷ items) taken w k =
      go (decrease_stock ids svc item.product_id item.quantity w) after (
        decrease_items-Kept items (taken ++ decreased item ∷ [])
          (decrease_stock ids svc item.product_id item.quantity w).1 after)
    where
      after : Kept w0 (decrease_stock ids svc item.product_id item.quantity w).1
      after =
          Kept-trans w0 w (decrease_stock ids svc item.product_id item.quantity w).1 k
            (decrease_stock-Kept ids svc item.product_id item.quantity w)

      go :
          (p : Result ClientError StockResult × OrderWorld R)
          → Kept w0 p.1
          → Kept w0 (decrease_items ids svc items (taken ++ decreased item ∷ []) p.1).1
          → (let q : Result Failure (List DecreasedItem) × OrderWorld R = elim p.0 [
            | ok _ ↦ decrease_items ids svc items (taken ++ decreased item ∷ []) p.1
            | err e ↦ (err (of_client e), restore_stock ids svc taken p.1)
          ] in
              Kept w0 q.1)
      go (ok a, w1) k1 k2 = k2
      go (err e, w1) k1 k2 = restore_stock-Kept taken w1 k1
