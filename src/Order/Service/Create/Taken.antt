-- ===== src/Order/Service/Create/Taken.antt =====
-- The stock that an order has taken: it stays taken while only the database answers, and a failed
-- transaction gives it back.
use mathlib.Core.Path.{◌∙◌, subst}
use flash_deals.Base.{ℤ, ◌+ℤ◌, ◌≤ℤ◌, max_int32, int_laws, ◌≡◌, sym, List, map, Uuid, UuidText}
use flash_deals.Rpc.{ProductService}
use flash_deals.Rpc.Stock.{StockView, StockLaws}
use flash_deals.Order.State.{OrderWorld}
use flash_deals.Order.Client.Stock.{Kept, IsReady}
use flash_deals.Order.Service.Transaction.{Beside}
use flash_deals.Order.Service.{OrderItemRequest}
use flash_deals.Order.Service.Stock.{DecreasedItem, decreased, restore_stock}
use flash_deals.Order.Service.Stock.Restore.{
  demand, AllKnown, AllQuantities, Restored, restore_stock-Restored,
}
use flash_deals.Order.Service.Stock.Decrease.{Took}

-- Every product has what it had before, less what the items ask for, and the products are there.
abbrev pub Sold :
    {R : Type 0} → StockView R → List OrderItemRequest → OrderWorld R → OrderWorld R → Type 0
Sold v items w w' =
    ((j : Uuid) → v.stock w'.remote j +ℤ demand (map decreased items) j ≡ v.stock w.remote j)
    × IsReady v w'
    × AllKnown v w'.remote (map decreased items)
    × AllQuantities (map decreased items)

IsReady-Beside :
    {R : Type 0} (v : StockView R) (w w' : OrderWorld R) → IsReady v w → Beside w w' → IsReady v w'
IsReady-Beside v w w' h (r, n, c) = record {
  valid = subst v.Valid (sym r) h.valid;
  no_faults = n ∙ h.no_faults;
  connected = c ∙ h.connected;
}

module _ {R : Type 0} (ids : UuidText) (svc : ProductService R) (laws : StockLaws ids svc) where
  open laws use {view}

  pub Took-Beside :
      (start : Uuid → ℤ) (taken : List DecreasedItem) (w w' : OrderWorld R)
      → Took view start taken w
      → Beside w w'
      → Took view start taken w'
  Took-Beside start taken w w' t (r, n, c) = record {
    ready = IsReady-Beside view w w' t.ready (r, n, c);
    known = rw r t.known;
    quantities = t.quantities;
    at = λ j. rw r (t.at j);
  }

  -- A failed transaction gives back all that was taken.
  pub restored :
      (start : Uuid → ℤ) (taken : List DecreasedItem) (w : OrderWorld R)
      → ((j : Uuid) → start j ≤ℤ max_int32)
      → Took view start taken w
      → ((j : Uuid) → view.stock (restore_stock ids svc taken w).remote j ≡ start j)
        × Kept w (restore_stock ids svc taken w)
  restored start taken w small t =
      let back : Restored view taken w (restore_stock ids svc taken w) =
        restore_stock-Restored ids svc laws taken w t.ready t.known t.quantities
          (λ j. grind (int_laws, t.at j, small j)) in
      (λ j. back.at j ∙ t.at j, back.kept)

  -- All that the items ask for has been taken.
  pub Took-Sold :
      (items : List OrderItemRequest) (taken : List DecreasedItem) (w w' : OrderWorld R)
      → taken ≡ map decreased items
      → Took view (view.stock w.remote) taken w'
      → Sold view items w w'
  Took-Sold items taken w w' all t =
      let t' : Took view (view.stock w.remote) (map decreased items) w' =
        subst (λ ts. Took view (view.stock w.remote) ts w') all t in
      (t'.at, t'.ready, t'.known, t'.quantities)
