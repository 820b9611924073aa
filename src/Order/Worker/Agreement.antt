-- ===== src/Order/Worker/Agreement.antt =====
-- The worker writes what the caller of `AsyncCreateOrder` was told.
use flash_deals.Base.{ℤ, add32, mul32, ◌≡◌, refl, sym, ap, List, [], ◌∷◌, map}
use mathlib.Core.Path.{◌∙◌}
use flash_deals.Order.Service.Pricing.{OrderItemData}
use flash_deals.Order.Service.Pricing.Total.{AllPriced, add_subtotals}
use flash_deals.Order.Service.Async.{item_req}
use flash_deals.Order.Worker.{order_total, requested_line}

requested_line-item_req :
    (d : OrderItemData)
    → d.subtotal ≡ mul32 d.unit_price d.quantity
    → requested_line (item_req d) ≡ d
requested_line-item_req d h = cc h

-- A message has no subtotals. For lines whose subtotals are price times quantity, the lines that the
-- worker makes of the message are the lines that were priced, and the total it adds up, from any first
-- amount, is the total of their subtotals.
pub message-Agreement :
    (lines : List OrderItemData) (total : ℤ)
    → AllPriced lines
    → (map requested_line (map item_req lines) ≡ lines)
      × (order_total total (map item_req lines) ≡ add_subtotals total lines)
message-Agreement [] total h = (refl, refl)
message-Agreement (d ∷ ds) total (h, hs) =
    let (same, _) = message-Agreement ds total hs in
    let (_, sum) = message-Agreement ds (add32 total (mul32 d.unit_price d.quantity)) hs in
    (
      ap (λ l. l ∷ map requested_line (map item_req ds)) (requested_line-item_req d h)
          ∙ ap (λ l. d ∷ l) same,
      sum ∙ ap (λ s. add_subtotals (add32 total s) ds) (sym h),
    )
