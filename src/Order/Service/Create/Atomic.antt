-- ===== src/Order/Service/Create/Atomic.antt =====
-- `CreateOrder` over a service that keeps its promises: the order and its stock, or nothing of both.
use mathlib.Core.Path.{◌∙◌, subst}
use flash_deals.Base.{
  ℕ, ℤ, pos, ◌≤ℤ◌, max_int32, int_laws, ◌≡◌, refl, sym, ap, Option, List, [], ◌∷◌, ◌++◌, map, Uuid,
  UuidText, Result, ok, err, ◌>>=◌, bind_cases, NoLost,
}
use flash_deals.Rpc.{ProductService}
use flash_deals.Rpc.Stock.{StockView, StockLaws}
use flash_deals.Order.State.{OrderWorld, OrderDb, OrdersOrder, OrdersOrderItem}
use flash_deals.Order.Queries.{CreateOrderParams}
use flash_deals.Order.Client.Stock.{IsReady}
use flash_deals.Order.Service.{
  OrderItemRequest, ShippingAddress, OrderResponse, Failure, to_order_response,
}
use flash_deals.Order.Service.Pricing.{OrderItemData, price_items}
use flash_deals.Order.Service.Pricing.Total.{
  Prices, AllPriced, add_subtotals, request_of, price_items-Prices,
}
use flash_deals.Order.Service.Pricing.Reads.{Reads, price_items-Reads}
use flash_deals.Order.Service.Stock.{DecreasedItem, decreased, decrease_items, restore_stock}
use flash_deals.Order.Service.Stock.Decrease.{AllOrdered, TakesAll, Took, decrease_items-TakesAll}
use flash_deals.Order.Service.Create.{create_params, insert_order, insert_or_restore, create_order}
use flash_deals.Order.Service.Create.Insert.{AreLines, AtTime}
use flash_deals.Order.Service.Create.Commit.{InsertsOrder, IsOrder, insert_order-InsertsOrder}
use flash_deals.Order.Service.Create.Taken.{Sold, Took-Beside, Took-Sold, restored}

-- One new order, whose items are the lines of the request at their prices, with their sum for total.
pub record Placed {R : Type 0} (user_id : Uuid) (items : List OrderItemRequest)
    (shipping : Option ShippingAddress) (response : OrderResponse) (w w' : OrderWorld R)
    : Type 0 where
  pub order : OrdersOrder
  pub rows : List OrdersOrderItem
  pub lines : List OrderItemData
  pub added_order : w'.db.orders ≡ order ∷ w.db.orders
  pub added_items : w'.db.order_items ≡ w.db.order_items ++ rows
  pub for_items : map request_of lines ≡ items
  pub priced : AllPriced lines
  pub are_lines : AreLines order.id lines rows
  pub is_order : IsOrder (create_params user_id (add_subtotals (pos 0) lines) shipping) w.db order
  pub times : (t : ℕ) × AtTime t rows
  pub answered : response ≡ to_order_response order rows shipping

-- What `create_order` has done, by how it ended.
abbrev pub Places :
    {R : Type 0}
    → StockView R
    → Uuid
    → List OrderItemRequest
    → Option ShippingAddress
    → OrderWorld R
    → Result Failure OrderResponse × OrderWorld R
    → Type 0
Places v user_id items shipping w (ok response, w') =
    Sold v items w w' × Placed user_id items shipping response w w'
Places v user_id items shipping w (err e, w') =
    ((j : Uuid) → v.stock w'.remote j ≡ v.stock w.remote j) × (w'.db ≡ w.db)

module _ {R : Type 0} (ids : UuidText) (svc : ProductService R) (laws : StockLaws ids svc) where
  open laws use {view}

  module _ (user_id : Uuid) (items : List OrderItemRequest)
      (shipping : Option ShippingAddress) where
    -- Step 3, from the world in which every stock has been taken.
    insert_or_restore-Places :
        (ds : List OrderItemData) (taken : List DecreasedItem) (w w2 : OrderWorld R)
        → ((j : Uuid) → view.stock w.remote j ≤ℤ max_int32)
        → Prices (pos 0) items (ok (ds, add_subtotals (pos 0) ds))
        → taken ≡ map decreased items
        → Took view (view.stock w.remote) taken w2
        → w2.db ≡ w.db
        → NoLost w2.script
        → Places view user_id items shipping w
            (insert_or_restore ids svc user_id (add_subtotals (pos 0) ds) shipping ds taken w2)
    unfolding insert_or_restore
    insert_or_restore-Places ds taken w w2 small (same, priced, _) all t d n =
        go (insert_order params ds w2) (insert_order-InsertsOrder params ds w2 n)
      where
        params : CreateOrderParams
        params = create_params user_id (add_subtotals (pos 0) ds) shipping

        go :
            (p : Result Failure (OrdersOrder × List OrdersOrderItem) × OrderWorld R)
            → InsertsOrder params ds w2 p
            → Places view user_id items shipping w (elim p.0 [
              | ok a ↦ (ok (to_order_response a.0 a.1 shipping), p.1)
              | err e ↦ (err e, restore_stock ids svc taken p.1)
            ])
        go (ok (order, rows), w3) (is, lines, os, is', b, times) = (
          Took-Sold ids svc laws items taken w w3 all
              (Took-Beside ids svc laws (view.stock w.remote) taken w2 w3 t b),
          record {
            order = order;
            rows = rows;
            lines = ds;
            added_order = os ∙ ap (λ (db : OrderDb). order ∷ db.orders) d;
            added_items = is' ∙ ap (λ (db : OrderDb). db.order_items ++ rows) d;
            for_items = same;
            priced = priced;
            are_lines = lines;
            is_order = subst (λ db. IsOrder params db order) d is;
            times = times;
            answered = refl;
          },
        )
        go (err e, w3) (d3, b) =
            let (back, kept) =
              restored ids svc laws (view.stock w.remote) taken w3 small
                (Took-Beside ids svc laws (view.stock w.remote) taken w2 w3 t b) in
            (back, kept.0 ∙ d3 ∙ d)

    -- Steps 2 and 3, after the prices.
    take_and_insert :
        (ds : List OrderItemData) (total : ℤ) (w w1 : OrderWorld R)
        → IsReady view w
        → NoLost w.script
        → AllOrdered items
        → Prices (pos 0) items (ok (ds, total))
        → Reads view w w1
        → Places view user_id items shipping w (
            (decrease_items ids svc items [] >>= λ taken.
            insert_or_restore ids svc user_id total shipping ds taken)
              w1)
    take_and_insert ds total w w1 h n q (same, priced, sum) r =
        go (decrease_items ids svc items [] w1) (
          decrease_items-TakesAll ids svc laws (view.stock w.remote) small items [] w1
            (record {
              ready = r.same.valid;
              known = tt;
              quantities = tt;
              at = λ j. grind (int_laws, r.same.at j);
            })
            q)
      where
        small : (j : Uuid) → view.stock w.remote j ≤ℤ max_int32
        small j = (laws.bounded w.remote j h.valid).1

        go :
            (p : Result Failure (List DecreasedItem) × OrderWorld R)
            → TakesAll view (view.stock w.remote) (map decreased items) w1 p
            → Places view user_id items shipping w (
                ((λ _. p) >>= λ taken. insert_or_restore ids svc user_id total shipping ds taken)
                  w1)
        go (ok taken, w2) (all, took, kept) =
            subst
              (λ t.
                Places view user_id items shipping w
                  (insert_or_restore ids svc user_id t shipping ds taken w2))
              (sym sum)
              (insert_or_restore-Places ds taken w w2 small (same, priced, refl) all took
                (kept.0 ∙ r.kept.0) (subst NoLost (sym (kept.1 ∙ r.kept.1)) n))
        go (err e, w2) (untouched, kept) = (untouched.at, kept.0 ∙ r.kept.0)

    -- Over a product service that keeps the stock laws, in a state where they hold (it takes stock or
    -- changes nothing, and never fails to give stock back), over a reliable
    -- connection and with no lost answer of the database, for positive quantities: an order that fails leaves
    -- every stock and every row as they were; one that succeeds has taken exactly the stock that its
    -- items ask for, and has added one order with a line for each item and their sum for total.
    pub create_order-Places :
        (w : OrderWorld R)
        → IsReady view w
        → NoLost w.script
        → AllOrdered items
        → Places view user_id items shipping w (create_order ids svc user_id items shipping w)
    unfolding create_order
    create_order-Places w h n q =
        bind_cases (Places view user_id items shipping w) (price_items ids svc items (pos 0))
          (λ a. decrease_items ids svc items [] >>= λ taken.
            insert_or_restore ids svc user_id a.1 shipping a.0 taken)
          w
          (λ a w1 e.
            take_and_insert a.0 a.1 w w1 h n q
              (subst
                (λ (p : Result Failure (List OrderItemData × ℤ) × OrderWorld R).
                  Prices (pos 0) items p.0)
                e (price_items-Prices ids svc items (pos 0) w))
              (reads _ w1 e))
          (λ x w1 e. let r = reads _ w1 e in (r.same.at, r.kept.0))
      where
        reads :
            (a : Result Failure (List OrderItemData × ℤ)) (w1 : OrderWorld R)
            → price_items ids svc items (pos 0) w ≡ (a, w1)
            → Reads view w w1
        reads a w1 e =
            subst (λ (p : Result Failure (List OrderItemData × ℤ) × OrderWorld R). Reads view w p.1)
              e (price_items-Reads ids svc laws items (pos 0) w h)
