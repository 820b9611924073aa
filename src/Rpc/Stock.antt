-- ===== src/Rpc/Stock.antt =====
-- What a product service promises about the stock, for the order service to rely on.
use flash_deals.Base.{
  ◌==◌, ℤ, pos, ◌+ℤ◌, ◌-ℤ◌, ◌≤ℤ◌, max_int32, neg32, String, if◌then◌else◌, ◌≡◌, Uuid, UuidText,
  Result, ok, err,
}
use flash_deals.Rpc.{ProductService}

-- A stock level for each product, with a change at one product.
abbrev pub shifted : Uuid → ℤ → (Uuid → ℤ) → Uuid → ℤ
shifted id delta stock j = if j == id then stock j +ℤ delta else stock j

-- The quantity of an item that the checks on orders are about.
abbrev pub IsQuantity : ℤ → Type 0
IsQuantity q = (pos 1 ≤ℤ q) × (q ≤ℤ max_int32)

-- `Valid` says which states of the service the promises are about, and `Known` that a product exists.
pub record StockView (R : Type 0) : Type 1 where
  pub Valid : R → Type 0
  pub Known : R → Uuid → Type 0
  pub stock : R → Uuid → ℤ

-- From `r` to `r'` the stock of one product changes by `delta`, and no other.
pub record Shift {R : Type 0} (v : StockView R) (id : Uuid) (delta : ℤ) (r r' : R) : Type 0 where
  pub valid : v.Valid r'
  pub known : (j : Uuid) → v.Known r j → v.Known r' j
  pub at : (j : Uuid) → v.stock r' j ≡ shifted id delta (v.stock r) j

-- A read changes no stock.
pub record Same {R : Type 0} (v : StockView R) (r r' : R) : Type 0 where
  pub valid : v.Valid r'
  pub known : (j : Uuid) → v.Known r j → v.Known r' j
  pub at : (j : Uuid) → v.stock r' j ≡ v.stock r j

-- Stock is taken and the product is known, or there is an error and nothing has changed.
abbrev pub Takes : {R E A : Type 0} → StockView R → Uuid → ℤ → R → Result E A × R → Type 0
Takes v id q r (ok _, r') = Shift v id (pos 0 -ℤ q) r r' × v.Known r' id
Takes v id q r (err _, r') = Same v r r'

abbrev pub Gives : {R E A : Type 0} → StockView R → Uuid → ℤ → R → Result E A × R → Type 0
Gives v id q r (ok _, r') = Shift v id q r r'
Gives v id q r (err _, r') = ⊥

pub record StockLaws {R : Type 0} (ids : UuidText) (svc : ProductService R) : Type 1 where
  pub view : StockView R
  pub bounded :
      (r : R) (id : Uuid)
      → view.Valid r
      → (pos 0 ≤ℤ view.stock r id) × (view.stock r id ≤ℤ max_int32)
  pub get_product_Same :
      (r : R) (text : String) → view.Valid r → Same view r (svc.get_product text r).1
  pub get_deal_Same : (r : R) (text : String) → view.Valid r → Same view r (svc.get_deal text r).1
  pub takes :
      (r : R) (id : Uuid) (q : ℤ)
      → view.Valid r
      → IsQuantity q
      → Takes view id q r (svc.update_stock (ids.format id) (neg32 q) r)
  pub gives :
      (r : R) (id : Uuid) (q : ℤ)
      → view.Valid r
      → view.Known r id
      → IsQuantity q
      → view.stock r id +ℤ q ≤ℤ max_int32
      → Gives view id q r (svc.update_stock (ids.format id) q r)
