-- ===== src/Order/Handler/Decode.antt =====
-- The body of a request to create an order, read back.
use flash_deals.Base.{◌≡◌, refl, Option, none, some, List, [], ◌∷◌, map, Uuid, UuidText, ok, arith}
use flash_deals.Order.Service.{OrderItemRequest}
use flash_deals.Order.Handler.Create.{
  CreateOrderItemRequest, ShippingAddressRequest, convert_item, convert_items, decode,
}

module _ (ids : UuidText) where
  -- What a client sends for an item.
  abbrev pub sent : OrderItemRequest → CreateOrderItemRequest
  sent i = record {
    product_id = ids.format i.product_id;
    deal_id = elim i.deal_id [ none ↦ none | some d ↦ some (ids.format d) ];
    quantity = i.quantity;
  }

  convert_item-sent : (i : OrderItemRequest) → convert_item ids (sent i) ≡ ok i
  unfolding convert_item
  convert_item-sent i = go i.deal_id
    where
      go :
          (d : Option Uuid)
          → convert_item ids (sent (record i { deal_id = d })) ≡ ok (record i { deal_id = d })
      go none = ground (arith, ids.parse_format i.product_id)
      go (some d) = ground (arith, ids.parse_format i.product_id, ids.parse_format d)

  convert_items-sent : (is : List OrderItemRequest) → convert_items ids (map sent is) ≡ ok is
  unfolding convert_items
  convert_items-sent [] = refl
  convert_items-sent (i ∷ is) = ground (arith, convert_item-sent i, convert_items-sent is)

  -- The items that a client sends, at least one, are those that the handler reads: with the same products,
  -- deals and quantities, in the same order, whatever the address.
  pub decode-sent :
      (i : OrderItemRequest) (is : List OrderItemRequest) (address : Option ShippingAddressRequest)
      → decode ids (some (record { items = map sent (i ∷ is); shipping_address = address }))
        ≡ ok (i ∷ is)
  unfolding decode
  decode-sent i is address = convert_items-sent (i ∷ is)
