-- ===== src/Order/Service/Stock/Restore.antt =====
-- The compensation of `CreateOrder`: what was taken is given back, product by product.
use flash_deals.Base.{
  ◌==◌, ℤ, pos, ◌+ℤ◌, ◌≤ℤ◌, max_int32, int_laws, if◌then◌else◌, ◌≡◌, refl, List, [], ◌∷◌, ◌++◌,
  Uuid, UuidText, Result, ok, err, arith,
}
use flash_deals.Rpc.{ProductService}
use flash_deals.Rpc.Stock.{IsQuantity, StockView, Shift, Gives, StockLaws}
use flash_deals.Order.State.{OrderWorld}
use flash_deals.Order.Client.{increase_stock}
use flash_deals.Order.Client.Stock.{
  IsReady, order_view, Kept, Kept-trans, increase_stock-Kept, increase_stock-Gives,
}
use flash_deals.Order.Service.Stock.{DecreasedItem, restore_stock}

-- How much of a product a list of items has.
abbrev pub demand : List DecreasedItem → Uuid → ℤ
demand [] j = pos 0
demand (d ∷ ds) j = if j == d.product_id then demand ds j +ℤ d.quantity else demand ds j

abbrev pub AllQuantities : List DecreasedItem → Type 0
AllQuantities [] = Unit {0}
AllQuantities (d ∷ ds) = IsQuantity d.quantity × AllQuantities ds

abbrev pub AllKnown : {R : Type 0} → StockView R → R → List DecreasedItem → Type 0
AllKnown v r [] = Unit {0}
AllKnown v r (d ∷ ds) = v.Known r d.product_id × AllKnown v r ds

pub demand_nonneg : (ds : List DecreasedItem) (j : Uuid) → AllQuantities ds → pos 0 ≤ℤ demand ds j
demand_nonneg [] j h = omega arith
demand_nonneg (d ∷ ds) j h = grind (int_laws, demand_nonneg ds j h.1)

pub demand-append :
    (ds es : List DecreasedItem) (j : Uuid) → demand (ds ++ es) j ≡ demand ds j +ℤ demand es j
demand-append [] es j = omega int_laws
demand-append (d ∷ ds) es j = grind (int_laws, demand-append ds es j)

pub AllQuantities-append :
    (ds es : List DecreasedItem) → AllQuantities ds → AllQuantities es → AllQuantities (ds ++ es)
AllQuantities-append [] es h k = k
AllQuantities-append (d ∷ ds) es h k = (h.0, AllQuantities-append ds es h.1 k)

module _ {R : Type 0} (v : StockView R) where
  pub AllKnown-later :
      (r r' : R) (ds : List DecreasedItem)
      → ((j : Uuid) → v.Known r j → v.Known r' j)
      → AllKnown v r ds
      → AllKnown v r' ds
  AllKnown-later r r' [] f h = tt
  AllKnown-later r r' (d ∷ ds) f h = (f d.product_id h.0, AllKnown-later r r' ds f h.1)

  pub AllKnown-append :
      (r : R) (ds es : List DecreasedItem)
      → AllKnown v r ds
      → AllKnown v r es
      → AllKnown v r (ds ++ es)
  AllKnown-append r [] es h k = k
  AllKnown-append r (d ∷ ds) es h k = (h.0, AllKnown-append r ds es h.1 k)

-- Each product has what it had and what the items say.
pub record Restored {R : Type 0} (v : StockView R) (ds : List DecreasedItem) (w w' : OrderWorld R)
    : Type 0 where
  pub ready : IsReady v w'
  pub kept : Kept w w'
  pub at : (j : Uuid) → v.stock w'.remote j ≡ v.stock w.remote j +ℤ demand ds j

module _ {R : Type 0} (ids : UuidText) (svc : ProductService R) (laws : StockLaws ids svc) where
  open laws use {view}

  increase_Shift :
      (d : DecreasedItem) (w : OrderWorld R)
      → IsReady view w
      → view.Known w.remote d.product_id
      → IsQuantity d.quantity
      → view.stock w.remote d.product_id +ℤ d.quantity ≤ℤ max_int32
      → Shift
          (order_view view)
          d.product_id
          d.quantity
          w
          (increase_stock ids svc d.product_id d.quantity w).1
  increase_Shift d w h k q room =
      go (increase_stock ids svc d.product_id d.quantity w)
        (increase_stock-Gives ids svc laws d.product_id d.quantity w h k q room)
    where
      go :
          {E A : Type 0} (p : Result E A × OrderWorld R)
          → Gives (order_view view) d.product_id d.quantity w p
          → Shift (order_view view) d.product_id d.quantity w p.1
      go (ok a, w') g = g
      go (err e, w') g = absurd g

  -- Over a reliable connection, for known products and positive quantities, and while no stock would
  -- pass the largest int32: `restore_stock` adds to each stock what the list has of it, and changes no
  -- row.
  pub restore_stock-Restored :
      (ds : List DecreasedItem) (w : OrderWorld R)
      → IsReady view w
      → AllKnown view w.remote ds
      → AllQuantities ds
      → ((j : Uuid) → view.stock w.remote j +ℤ demand ds j ≤ℤ max_int32)
      → Restored view ds w (restore_stock ids svc ds w)
  unfolding restore_stock
  restore_stock-Restored [] w h k q room = record {
    ready = h;
    kept = (refl, refl, refl);
    at = λ j. omega int_laws;
  }
  restore_stock-Restored (d ∷ ds) w h k q room =
      let w1 : OrderWorld R = (increase_stock ids svc d.product_id d.quantity w).1 in
      let s : Shift (order_view view) d.product_id d.quantity w w1 =
        increase_Shift d w h k.0 q.0
          (grind (int_laws, room d.product_id, demand_nonneg ds d.product_id q.1)) in
      let kept : Kept w w1 = increase_stock-Kept ids svc d.product_id d.quantity w in
      let tail : Restored view ds w1 (restore_stock ids svc ds w1) =
        restore_stock-Restored ds w1 s.valid (AllKnown-later view w.remote w1.remote ds s.known k.1)
          q.1 (λ j. grind (int_laws, room j, s.at j)) in
      record {
        ready = tail.ready;
        kept = Kept-trans w w1 (restore_stock ids svc ds w1) kept tail.kept;
        at = λ j. grind (int_laws, tail.at j, s.at j);
      }
