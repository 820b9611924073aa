-- ===== src/Tests/Http.antt =====
-- Requests over HTTP.
use flash_deals.Base.{
  String, ℤ, pos, negsuc, ok, some, none, Option, List, [], ◌∷◌, map, ◌≡◌, refl, arith, int_laws,
  true, if◌then◌else◌, add32, wrap32,
}
use mathlib.Core.Path.{subst}
use flash_deals.Http.{status_ok, status_not_found, reply, refuse}
use flash_deals.Order.Service.{OrderItemRequest}
use flash_deals.Order.Service.Stock.Decrease.{AllOrdered}
use flash_deals.Product.Hotdeal.{is_enabled}
use flash_deals.Product.Queries.{find_product, valid_product}
use flash_deals.Product.Repository
use flash_deals.Product.Handler.{
  UpdateProductRequest, list_products, update_product, int_param, to_product_response,
}
use flash_deals.Product.Handler.Stock.{change_stock}
use flash_deals.Product.Handler.Stock.Serial.{db_handler, change_stock-change_stock}
use flash_deals.Product.Handler.Hotdeals.{end_hotdeal, start_hotdeal}
use flash_deals.Product.Handler.Hotdeals.Synced.{EndedOver}
use flash_deals.Product.Handler.Hotdeals.Ends.{end_hotdeal-Ended, end_hotdeal-start_hotdeal}
use flash_deals.Product.Handler.Over.{handler_over, IsUnchanged, PagesAreRight}
use flash_deals.Tests.Cache.{warm, warm-IsCoherent, fresh, fresh-HasFreshPages}
use flash_deals.Product.Handler.Overwrites.{update_product-overwritten, overwritten}
use flash_deals.Product.Handler.Listing.{Pages, asked, list_products-Pages}
use flash_deals.Product.Server.{product_service}
use flash_deals.Order.Handler.Create.{
  OrderHandler, CreateOrderRequest, create_order_handler, decode,
}
use flash_deals.Order.Handler.Decode.{sent, decode-sent}
use flash_deals.System.Http.{HttpPlaces, create_order_handler-HttpPlaces}
use flash_deals.Tests.World.{unary_ids, hotdeals, shop, lamp, chair, request}
use flash_deals.Product.Server.Cache.Promises.{server_over}
use flash_deals.Tests.Orders.{warm_start, warm_start-IsReady, two_items, two_items-AllOrdered}

-- 10 lamps: one request takes 3, the other 4, and 6 are left.
change_stock-change_stock_example :
    (Repository.get_stock_for_update 1 shop ≡ (ok (record { id = 1; stock = pos 10 }), shop))
    × ((change_stock unary_ids (db_handler none) 1 (pos 10) (negsuc 2) shop).0.status ≡ status_ok)
    × ((change_stock unary_ids
          (db_handler none)
          1
          (pos 10)
          (negsuc 3)
          (change_stock unary_ids (db_handler none) 1 (pos 10) (negsuc 2) shop).1).0.status
        ≡ status_ok)
    × (find_product 1
          (change_stock unary_ids
            (db_handler none)
            1
            (pos 10)
            (negsuc 3)
            (change_stock unary_ids (db_handler none) 1 (pos 10) (negsuc 2) shop).1).1.db
        ≡ some (record lamp { stock = add32 (pos 10) (negsuc 3); updated_at = 5 }))
unfolding add32
change_stock-change_stock_example =
    change_stock-change_stock unary_ids none 1 lamp (negsuc 2) (negsuc 3) shop refl refl refl refl

end_hotdeal-Ended_example :
    EndedOver unary_ids true 2 warm chair
      (wrap32 (pos 3))
      (end_hotdeal unary_ids (handler_over true (some hotdeals)) "uu" warm)
unfolding is_enabled
end_hotdeal-Ended_example =
    end_hotdeal-Ended unary_ids hotdeals refl "uu" 2 refl true warm chair (pos 3) refl
      warm-IsCoherent refl refl

end_hotdeal-start_hotdeal_example : EndedOver unary_ids true 1 warm lamp (pos 10) (
    end_hotdeal unary_ids
      (handler_over true (some hotdeals))
      "u"
      (start_hotdeal unary_ids (handler_over true (some hotdeals)) "u" warm).1)
unfolding is_enabled
end_hotdeal-start_hotdeal_example =
    end_hotdeal-start_hotdeal unary_ids hotdeals refl "u" 1 refl true warm lamp refl warm-IsCoherent
      refl (omega int_laws, omega int_laws)

-- Only a description is sent.
abbrev described : UpdateProductRequest
described = record {
  name = none;
  description = some "bright";
  price = none;
  category = none;
  image_url = none;
}

update_product-overwritten_example :
    ((update_product unary_ids (db_handler none) "u" (some described) shop).0 ≡ (
      if valid_product (overwritten described shop lamp)
      then reply status_ok (to_product_response unary_ids (overwritten described shop lamp))
      else refuse status_not_found "Product not found"))
    × (find_product 1 (update_product unary_ids (db_handler none) "u" (some described) shop).1.db
        ≡ some (
            if valid_product (overwritten described shop lamp)
            then overwritten described shop lamp
            else lamp))
update_product-overwritten_example =
    update_product-overwritten unary_ids none "u" 1 described shop lamp refl refl refl

-- No text is a number here.
abbrev no_number : String → Option ℤ
no_number t = none

list_products-Pages_example :
    IsUnchanged true fresh
      (list_products unary_ids no_number (handler_over true none) "" "1" "" fresh).1
    × PagesAreRight true
        (list_products unary_ids no_number (handler_over true none) "" "1" "" fresh).1
    × Pages unary_ids
        (int_param no_number "1" (pos 20))
        (int_param no_number "" (pos 0))
        (asked "" fresh.db.products)
        (list_products unary_ids no_number (handler_over true none) "" "1" "" fresh).0.status
        (list_products unary_ids no_number (handler_over true none) "" "1" "" fresh).0.body
list_products-Pages_example =
    list_products-Pages unary_ids no_number true none "" "1" "" fresh refl fresh-HasFreshPages

abbrev pub body : CreateOrderRequest
body = record { items = map (sent unary_ids) two_items; shipping_address = none }

pub body-AllOrdered :
    (items : List OrderItemRequest) → decode unary_ids (some body) ≡ ok items → AllOrdered items
body-AllOrdered items e =
    subst AllOrdered {x = two_items}
      (ground (arith, e, decode-sent unary_ids (request 1 (pos 2)) (request 2 (pos 1) ∷ []) none))
      two_items-AllOrdered

-- Orders are taken by the queue.
abbrev queue_handler : OrderHandler
queue_handler = record { async_enabled = true; has_queue = true }

create_order_handler-HttpPlaces_example :
    HttpPlaces unary_ids true (some hotdeals) "uuuuuuu" (some body) warm_start true (
      create_order_handler unary_ids
        (product_service unary_ids (server_over true (some hotdeals)))
        queue_handler
        "uuuuuuu"
        (some body)
        warm_start)
create_order_handler-HttpPlaces_example =
    create_order_handler-HttpPlaces unary_ids true (some hotdeals) warm_start warm_start-IsReady tt
      "uuuuuuu" (some body) queue_handler body-AllOrdered
