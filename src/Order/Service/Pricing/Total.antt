-- ===== src/Order/Service/Pricing/Total.antt =====
-- What `price_items` returns: one priced line for each item, and the sum of the lines.
use flash_deals.Base.{
  ℤ, add32, mul32, ◌≡◌, refl, List, [], ◌∷◌, map, String, UuidText, Result, ok, err, ap, Exec, pure,
  ◌>>=◌, bind_cases,
}
use flash_deals.Rpc.{ProductService}
use flash_deals.Order.State.{OrderWorld}
use flash_deals.Order.Service.{OrderItemRequest, Failure}
use flash_deals.Order.Service.Pricing.{OrderItemData, item_data, price_of, price_items}

-- The sum of the lines as the machine adds them up, from a first amount.
abbrev pub add_subtotals : ℤ → List OrderItemData → ℤ
add_subtotals total [] = total
add_subtotals total (d ∷ ds) = add_subtotals (add32 total d.subtotal) ds

abbrev pub request_of : OrderItemData → OrderItemRequest
request_of d = record { product_id = d.product_id; deal_id = d.deal_id; quantity = d.quantity }

-- Each subtotal is the price times the quantity, in 32 bits.
abbrev pub AllPriced : List OrderItemData → Type 0
AllPriced [] = Unit {0}
AllPriced (d ∷ ds) = (d.subtotal ≡ mul32 d.unit_price d.quantity) × AllPriced ds

abbrev pub Prices : ℤ → List OrderItemRequest → Result Failure (List OrderItemData × ℤ) → Type 0
Prices total items (ok (ds, total')) =
    (map request_of ds ≡ items) × AllPriced ds × (total' ≡ add_subtotals total ds)
Prices total items (err e) = Unit {0}

last_line :
    {R : Type 0} (item : OrderItemRequest) (items : List OrderItemRequest) (total price : ℤ)
    (name : String) (m : Exec (OrderWorld R) Failure (List OrderItemData × ℤ)) (w : OrderWorld R)
    → Prices (add32 total (mul32 price item.quantity)) items (m w).0
    → Prices total (item ∷ items) ((m >>= λ q. pure (item_data item price name ∷ q.0, q.1)) w).0
last_line item items total price name m w h =
    bind_cases (λ p. Prices total (item ∷ items) p.0) m
      (λ q. pure (item_data item price name ∷ q.0, q.1)) w
      (λ q w' e.
        let h' : Prices (add32 total (mul32 price item.quantity)) items (ok q) = rw e at h in
        (ap (◌∷◌ item) h'.0, (refl, h'.1), h'.2))
      (λ e w' _. tt)

module _ {R : Type 0} (ids : UuidText) (svc : ProductService R) where
  -- If the prices of all items are found: one line for each item, in order, whose subtotal is price
  -- times quantity in 32 bits, and their 32-bit sum added to the first total.
  pub price_items-Prices :
      (items : List OrderItemRequest) (total : ℤ) (w : OrderWorld R)
      → Prices total items (price_items ids svc items total w).0
  unfolding price_items
  price_items-Prices [] total w = (refl, tt, refl)
  price_items-Prices (item ∷ items) total w =
      bind_cases (λ p. Prices total (item ∷ items) p.0) (price_of ids svc item)
        (λ a. price_items ids svc items (add32 total (mul32 a.0 item.quantity)) >>= λ q.
          pure (item_data item a.0 a.1 ∷ q.0, q.1))
        w
        (λ a w' _.
          last_line item items total a.0 a.1
            (price_items ids svc items (add32 total (mul32 a.0 item.quantity))) w'
            (price_items-Prices items (add32 total (mul32 a.0 item.quantity)) w'))
        (λ e w' _. tt)
