-- ===== src/Product/Queries/Lists/Paging.antt =====
-- What a page of products or deals has.
use flash_deals.Base.{
  ℕ, ◌+◌, ◌≤◌, ℤ, pos, ltb_ℤ, Bool, true, ◌≡◌, refl, sym, ap, ◌∙◌, Option, none, some, List, [],
  ◌∷◌, ◌++◌, Result, ok, err, length, take, filter_by, order_by_desc, page, IsDescending,
  IsDescending-order_by_desc, length-order_by_desc, take-append-drop, take-length,
  filter_by-order_by_desc, AllOf, OfPage, OfPage-page, AllOf-order_by_desc, suc, arith, Bool-cases,
  Option-cases, inl, inr,
}
use flash_deals.Product.State.{ProductProduct, ProductDeal, Db}
use flash_deals.Product.Queries.{find_product}
use flash_deals.Product.Queries.Deals.{joined_row}
use flash_deals.Product.Queries.Lists.{
  ListActiveDealsRow, list_products, list_active_deals, count_active_deals, created, starts,
  is_active, with_products, or_bad_page,
}

-- The rows of an answer.
abbrev pub rows_of : {E A : Type 0} → Result E (List A) → List A
rows_of (ok rows) = rows
rows_of (err e) = []

-- Two pages of `ListProducts`, one after the other, are one longer page, and together they go over all
-- products: the pages are of a list with the newest first that has the same products as the table.
pub list_products-pages :
    (a b c : ℕ) (db : Db)
    → (rows_of (list_products (record { limit = pos a; offset = pos c }) db).0
          ++ rows_of (list_products (record { limit = pos b; offset = pos (c + a) }) db).0
        ≡ rows_of (list_products (record { limit = pos (a + b); offset = pos c }) db).0)
      × ((list_products (record { limit = pos a; offset = pos 0 }) db).0
          ≡ ok (take a (order_by_desc created db.products)))
      × IsDescending created (order_by_desc created db.products)
      × ((p : ProductProduct → Bool)
          → length (filter_by p (order_by_desc created db.products))
            ≡ length (filter_by p db.products))
unfolding list_products
list_products-pages a b c db = (
  take-append-drop a b c (order_by_desc created db.products),
  refl,
  IsDescending-order_by_desc created db.products,
  λ p. filter_by-order_by_desc created p db.products,
)

-- The deal can be bought at that time.
abbrev pub CanBuy : ℕ → ListActiveDealsRow → Type 0
CanBuy now row =
    (row.starts_at ≤ now) × (now ≤ row.ends_at) × (ltb_ℤ (pos 0) row.remaining_stock ≡ true)

with_products-some :
    (db : Db) (d : ProductDeal) (ds : List ProductDeal) (p : ProductProduct)
    → find_product d.product_id db ≡ some p
    → with_products db (d ∷ ds) ≡ joined_row d p ∷ with_products db ds
with_products-some db d ds p e = ground (arith, e)

with_products-none :
    (db : Db) (d : ProductDeal) (ds : List ProductDeal)
    → find_product d.product_id db ≡ none
    → with_products db (d ∷ ds) ≡ with_products db ds
with_products-none db d ds e = ground (arith, e)

filter_by-CanBuy :
    (now : ℕ) (db : Db) (ds : List ProductDeal)
    → AllOf (CanBuy now) (with_products db (filter_by (is_active now) ds))
filter_by-CanBuy now db [] = tt
filter_by-CanBuy now db (d ∷ ds) = elim (Bool-cases (is_active now d)) [
  | inr e ↦ rw e (filter_by-CanBuy now db ds)
  | inl e ↦ rw e (elim (Option-cases (find_product d.product_id db)) [
    | inl f ↦
        rw (with_products-none db d (filter_by (is_active now) ds) f) (filter_by-CanBuy now db ds)
    | inr (p, f) ↦
        rw (with_products-some db d (filter_by (is_active now) ds) p f)
          ((ground (arith, e), ground (arith, e), ground (arith, e)), filter_by-CanBuy now db ds)
  ])
]

-- Every deal on a page of `ListActiveDeals` has begun, has not ended, and has stock left.
pub list_active_deals-CanBuy :
    (now : ℕ) (limit offset : ℤ) (db : Db)
    → AllOf (CanBuy now) (
        rows_of
          (list_active_deals (record { starts_at = now; limit = limit; offset = offset }) db).0)
unfolding list_active_deals
list_active_deals-CanBuy now limit offset db = go (page limit offset sorted) (
    OfPage-page (CanBuy now) limit offset sorted
      (AllOf-order_by_desc (CanBuy now) starts found (filter_by-CanBuy now db db.deals)))
  where
    found : List ListActiveDealsRow
    found = with_products db (filter_by (is_active now) db.deals)

    sorted : List ListActiveDealsRow
    sorted = order_by_desc starts found

    go :
        (o : Option (List ListActiveDealsRow))
        → OfPage (CanBuy now) o
        → AllOf (CanBuy now) (rows_of (or_bad_page o))
    go none h = tt
    go (some rows) h = h

with_products-length :
    (db : Db) (ds : List ProductDeal)
    → AllOf (λ d. (p : ProductProduct) × (find_product d.product_id db ≡ some p)) ds
    → length (with_products db ds) ≡ length ds
with_products-length db [] h = refl
with_products-length db (d ∷ ds) ((p, e), hs) =
    ap length (with_products-some db d ds p e) ∙ ap suc (with_products-length db ds hs)

-- Where the product of every active deal is in the table, `CountActiveDeals` is the number of rows
-- of a page that is long enough for all.
pub count_active_deals-list_active_deals :
    (now n : ℕ) (db : Db)
    → AllOf
        (λ d. (p : ProductProduct) × (find_product d.product_id db ≡ some p))
        (filter_by (is_active now) db.deals)
    → length (filter_by (is_active now) db.deals) ≤ n
    → (count_active_deals now db).0
      ≡ ok (
          pos (
            length (
              rows_of
                (list_active_deals
                  (record { starts_at = now; limit = pos n; offset = pos 0 })
                  db).0)))
unfolding count_active_deals list_active_deals
count_active_deals-list_active_deals now n db known long =
    ap (λ k. ok (pos k)) (sym (take-length n sorted (omega (arith, sizes)) ∙ sizes))
  where
    sorted : List ListActiveDealsRow
    sorted = order_by_desc starts (with_products db (filter_by (is_active now) db.deals))

    sizes : length sorted ≡ length (filter_by (is_active now) db.deals)
    sizes =
        length-order_by_desc starts (with_products db (filter_by (is_active now) db.deals))
        ∙ with_products-length db (filter_by (is_active now) db.deals) known
