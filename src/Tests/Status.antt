-- ===== src/Tests/Status.antt =====
-- Confirmations, cancellations, and the transaction of a new order.
use flash_deals.Base.{
  true, int_laws, pos, ◌+ℤ◌, ◌≤ℤ◌, max_int32, ◌==◌, ==→eq, Bool-cases, inl, inr, sym, none, some,
  Uuid, List, [], ◌∷◌, arith, map,
}
use mathlib.Core.Path.{subst}
use flash_deals.Product.Hotdeal.{is_enabled}
use flash_deals.Product.Server.{product_service}
use flash_deals.Product.Server.View.{db_server, server_view}
use flash_deals.Product.Server.Promises.{server_laws}
use flash_deals.Order.Service.Pricing.{OrderItemData, item_data, price_items}
use flash_deals.Order.Service.Pricing.Total.{Prices, price_items-Prices}
use flash_deals.Order.Service.Stock.Restore.{demand}
use flash_deals.Order.Service.Status.Read.{Gets, get_order-Gets}
use flash_deals.Order.Service.Status.{get_order, confirm_order, cancel_order, to_restore}
use flash_deals.Order.Service.Status.Confirm.{Confirms, confirm_order-Confirms}
use flash_deals.Order.Service.Status.Cancel.{Cancels, cancel_order-Cancels}
use flash_deals.System.{cancel_order-server}
use flash_deals.Tests.World.{old_item, unary_ids, hotdeals, shop, start, request}
use flash_deals.Product.Server.Cache.Promises.{server_over, view_over}
use flash_deals.Tests.Orders.{start-IsReady, warm_start, warm_start-IsReady, lamp-IsKnown}

confirm_order-Confirms_example : Confirms 20 7 start (confirm_order 20 7 start)
confirm_order-Confirms_example = confirm_order-Confirms 20 7 start tt

-- The lamps of the old order fit into the stock.
old_room :
    (j : Uuid)
    → (server_view (some hotdeals)).stock shop j +ℤ demand (map to_restore (old_item ∷ [])) j
      ≤ℤ max_int32
unfolding is_enabled
old_room j = elim (Bool-cases (j == 1)) [
  | inl e ↦
      subst
        (λ i.
          (server_view (some hotdeals)).stock shop i +ℤ demand (map to_restore (old_item ∷ [])) i
          ≤ℤ max_int32)
        (sym (==→eq j 1 e)) (omega int_laws)
  | inr e ↦ elim (Bool-cases (j == 2)) [
    | inl f ↦
        subst
          (λ i.
            (server_view (some hotdeals)).stock shop i +ℤ demand (map to_restore (old_item ∷ [])) i
            ≤ℤ max_int32)
          (sym (==→eq j 2 f)) (omega int_laws)
    | inr f ↦ grind (int_laws, e, f)
  ]
]

cancel_order-server_example :
    Cancels (view_over true (some hotdeals)) 20 7 (some "too late") warm_start (
      cancel_order unary_ids
        (product_service unary_ids (server_over true (some hotdeals)))
        20
        7
        (some "too late")
        warm_start)
cancel_order-server_example =
    cancel_order-server unary_ids true (some hotdeals) 7 warm_start warm_start-IsReady tt 20
      (some "too late") (lamp-IsKnown, tt) ((ground arith, ground arith), tt) old_room

cancel_order-Cancels_example :
    Cancels (server_view (some hotdeals)) 20 7 none start (
      cancel_order unary_ids
        (product_service unary_ids (db_server (some hotdeals)))
        20
        7
        none
        start)
unfolding server_laws
cancel_order-Cancels_example =
    cancel_order-Cancels unary_ids (product_service unary_ids (db_server (some hotdeals)))
      (server_laws unary_ids (some hotdeals)) 20 7 none start start-IsReady tt (lamp-IsKnown, tt)
      ((ground arith, ground arith), tt) old_room

price_items-Prices_example :
    Prices
      (pos 0)
      (request 1 (pos 2) ∷ request 2 (pos 1) ∷ [])
      (price_items unary_ids
        (product_service unary_ids (db_server (some hotdeals)))
        (request 1 (pos 2) ∷ request 2 (pos 1) ∷ [])
        (pos 0)
        start).0
price_items-Prices_example =
    price_items-Prices unary_ids (product_service unary_ids (db_server (some hotdeals)))
      (request 1 (pos 2) ∷ request 2 (pos 1) ∷ []) (pos 0) start

abbrev one_line : List OrderItemData
one_line = item_data (request 1 (pos 2)) (pos 100) "lamp" ∷ []

get_order-Gets_example : Gets 20 7 start (get_order 20 7 start)
get_order-Gets_example = get_order-Gets 20 7 start
