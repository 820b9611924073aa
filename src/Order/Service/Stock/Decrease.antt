-- ===== src/Order/Service/Stock/Decrease.antt =====
-- `decrease_items` takes the stock of all items, or leaves every stock as it was.
use mathlib.Core.List.{append-nil, append_assoc}
use flash_deals.Base.{
  ℤ, pos, ◌+ℤ◌, ◌-ℤ◌, ◌≤ℤ◌, max_int32, int_laws, ◌≡◌, refl, sym, List, [], ◌∷◌, ◌++◌, map, Uuid,
  UuidText, Result, ok, err,
}
use flash_deals.Rpc.{ProductService}
use flash_deals.Rpc.Stock.{IsQuantity, StockView, Shift, Same, Takes, StockLaws}
use flash_deals.Order.State.{OrderWorld}
use flash_deals.Order.Client.{ClientError, StockResult, decrease_stock}
use flash_deals.Order.Client.Stock.{
  IsReady, order_view, Kept, Kept-trans, decrease_stock-Kept, decrease_stock-Takes,
}
use flash_deals.Order.Service.{OrderItemRequest, Failure, of_client}
use flash_deals.Order.Service.Stock.{DecreasedItem, decreased, restore_stock, decrease_items}
use flash_deals.Order.Service.Stock.Restore.{
  demand, demand-append, AllQuantities, AllQuantities-append, AllKnown, AllKnown-later,
  AllKnown-append, Restored, restore_stock-Restored,
}

-- The stocks began at `start`, and `taken` is what has been taken from them.
pub record Took {R : Type 0} (v : StockView R) (start : Uuid → ℤ) (taken : List DecreasedItem)
    (w : OrderWorld R) : Type 0 where
  pub ready : IsReady v w
  pub known : AllKnown v w.remote taken
  pub quantities : AllQuantities taken
  pub at : (j : Uuid) → v.stock w.remote j +ℤ demand taken j ≡ start j

-- The stocks are back where they began.
pub record Untouched {R : Type 0} (v : StockView R) (start : Uuid → ℤ) (w : OrderWorld R)
    : Type 0 where
  pub ready : IsReady v w
  pub at : (j : Uuid) → v.stock w.remote j ≡ start j

-- What `decrease_items` has done, by how it ended.
abbrev pub TakesAll :
    {R : Type 0}
    → StockView R
    → (Uuid → ℤ)
    → List DecreasedItem
    → OrderWorld R
    → Result Failure (List DecreasedItem) × OrderWorld R
    → Type 0
TakesAll v start all w (ok taken, w') = (taken ≡ all) × Took v start taken w' × Kept w w'
TakesAll v start all w (err e, w') = Untouched v start w' × Kept w w'

abbrev pub AllOrdered : List OrderItemRequest → Type 0
AllOrdered [] = Unit {0}
AllOrdered (i ∷ is) = IsQuantity i.quantity × AllOrdered is

module _ {R : Type 0} (v : StockView R) (start : Uuid → ℤ) where
  TakesAll-later :
      (all : List DecreasedItem) (w0 w : OrderWorld R)
      (p : Result Failure (List DecreasedItem) × OrderWorld R)
      → Kept w0 w
      → TakesAll v start all w p
      → TakesAll v start all w0 p
  TakesAll-later all w0 w (ok taken, w') k (e, t, l) = (e, t, Kept-trans w0 w w' k l)
  TakesAll-later all w0 w (err e, w') k (u, l) = (u, Kept-trans w0 w w' k l)

  Took-more :
      (d : DecreasedItem) (taken : List DecreasedItem) (w w' : OrderWorld R)
      → Took v start taken w
      → IsQuantity d.quantity
      → Shift (order_view v) d.product_id (pos 0 -ℤ d.quantity) w w'
      → v.Known w'.remote d.product_id
      → Took v start (taken ++ d ∷ []) w'
  Took-more d taken w w' t q s k = record {
    ready = s.valid;
    known =
        AllKnown-append v w'.remote taken (d ∷ [])
          (AllKnown-later v w.remote w'.remote taken s.known t.known) (k, tt);
    quantities = AllQuantities-append taken (d ∷ []) t.quantities (q, tt);
    at = λ j. grind (int_laws, t.at j, s.at j, demand-append taken (d ∷ []) j);
  }

module _ {R : Type 0} (ids : UuidText) (svc : ProductService R) (laws : StockLaws ids svc) where
  open laws use {view}

  module _ (start : Uuid → ℤ) (small : (j : Uuid) → start j ≤ℤ max_int32) where
    -- The failing item has taken nothing, and the others are given back.
    give_back :
        (taken : List DecreasedItem) (w w' : OrderWorld R)
        → Took view start taken w
        → Same (order_view view) w w'
        → Untouched view start (restore_stock ids svc taken w')
          × Kept w' (restore_stock ids svc taken w')
    give_back taken w w' t s =
        let back : Restored view taken w' (restore_stock ids svc taken w') =
          restore_stock-Restored ids svc laws taken w' s.valid
            (AllKnown-later view w.remote w'.remote taken s.known t.known) t.quantities
            (λ j. grind (int_laws, t.at j, s.at j, small j)) in
        (
          record { ready = back.ready; at = λ j. grind (int_laws, back.at j, s.at j, t.at j) },
          back.kept,
        )

    -- Over a product service that keeps the stock laws, in a state where they hold (it takes stock or
    -- changes nothing, and never fails to give stock back), over a reliable
    -- connection, for positive quantities, and where `taken` has been taken from stocks
    -- that began at `start`, none above the largest int32: the loop returns `taken` with all its items,
    -- and has taken them; or a product could not be taken, and every stock is back at `start`. No row
    -- changes.
    pub decrease_items-TakesAll :
        (items : List OrderItemRequest) (taken : List DecreasedItem) (w : OrderWorld R)
        → Took view start taken w
        → AllOrdered items
        → TakesAll view start
            (taken ++ map decreased items)
            w
            (decrease_items ids svc items taken w)
    unfolding decrease_items
    decrease_items-TakesAll [] taken w t q = (sym (append-nil taken), t, (refl, refl, refl))
    decrease_items-TakesAll (item ∷ items) taken w t q =
        step (decrease_stock ids svc item.product_id item.quantity w)
          (decrease_stock-Takes ids svc laws item.product_id item.quantity w t.ready q.0)
          (decrease_stock-Kept ids svc item.product_id item.quantity w)
          (λ w' t'. decrease_items-TakesAll items (taken ++ decreased item ∷ []) w' t' q.1)
      where
        step :
            (p : Result ClientError StockResult × OrderWorld R)
            → Takes (order_view view) item.product_id item.quantity w p
            → Kept w p.1
            → ((w' : OrderWorld R)
                → Took view start (taken ++ decreased item ∷ []) w'
                → TakesAll view start
                    ((taken ++ decreased item ∷ []) ++ map decreased items)
                    w'
                    (decrease_items ids svc items (taken ++ decreased item ∷ []) w'))
            → TakesAll view start (taken ++ map decreased (item ∷ items)) w (elim p.0 [
              | ok _ ↦ decrease_items ids svc items (taken ++ decreased item ∷ []) p.1
              | err e ↦ (err (of_client e), restore_stock ids svc taken p.1)
            ])
        step (ok a, w') (s, k) kept more = TakesAll-later view start _ w w' _ kept (
            rw append_assoc at
              (more w' (Took-more view start (decreased item) taken w w' t q.0 s k)))
        step (err e, w') s kept more =
            let (u, l) = give_back taken w w' t s in
            (u, Kept-trans w w' (restore_stock ids svc taken w') kept l)
