-- ===== src/Product/Handler/Listing.antt =====
-- The answers of the handlers that list products and change one.
use mathlib.Core.Path.{subst}
use text.Mathlib.Text.{◌==◌ as str_eq}
use flash_deals.Base.{
  ℕ, ◌≤◌, ℤ, pos, negsuc, ◌≤ℤ◌, String, Bool, true, false, ◌≡◌, refl, sym, ap, ◌∙◌, ◌⊎◌, Option,
  none, some, List, [], ◌∷◌, UuidText, Result, ok, err, inl, inr, arith, Bool-cases, Option-cases,
  if◌then◌else◌, length, map, page, order_by_desc, filter_by, length-order_by_desc, page-bounded,
  page_none, suc,
}
use flash_deals.Http.{Response, reply, refuse, status_ok, status_internal_server_error}
use flash_deals.Product.State.{ProductProduct, ProductWorld, Error, error_text}
use flash_deals.Product.Queries.Lists
use flash_deals.Product.Queries.Lists.{created, in_category, bad_page, or_bad_page}
use flash_deals.Product.Repository
use flash_deals.Product.Repository.Cached
use flash_deals.Product.Repository.Cached.Coherence.{uncached}
use flash_deals.Product.Repository.Cached.Pages.{
  HasFreshPages, page_of, read_page, list_products-ListAgrees,
}
use flash_deals.Product.Handler.Over.{handler_over, PagesAreRight, IsUnchanged}
use flash_deals.Product.Hotdeal.{HotdealRepository}
use flash_deals.Product.Handler.{
  ProductHandler, ProductListResponse, listed, list_products, int_param, to_product_response,
}
use flash_deals.Product.Handler.Stock.Serial.{db_handler}

-- The rows that a category asks for; an empty one asks for all.
abbrev pub asked : String → List ProductProduct → List ProductProduct
asked category ps = if str_eq category "" then ps else filter_by (in_category (some category)) ps

abbrev found_page : Option (List ProductProduct) → ℕ → Result Error (List ProductProduct × ℤ)
found_page none n = err bad_page
found_page (some rows) n = ok (rows, pos n)

module _ (hot : Option HotdealRepository) (category : String) (limit offset : ℤ) (w : ProductWorld)
    (calm : w.script ≡ []) where
  listed_lem : listed (db_handler hot) category limit offset w ≡ (
    found_page
        (page limit offset (order_by_desc created (asked category w.db.products)))
        (length (asked category w.db.products)),
    w,
  )
  unfolding listed Repository.list_products Repository.count_products
      Repository.list_products_by_category Repository.count_products_by_category Lists.list_products
      Lists.list_products_by_category Lists.count_products Lists.count_products_by_category
  listed_lem = elim (Bool-cases (str_eq category "")) [
    | inl any ↦ elim (Option-cases (page limit offset (order_by_desc created w.db.products))) [
      | inl e ↦ ground (arith, any, calm, e)
      | inr (rows, e) ↦ ground (arith, any, calm, e)
    ]
    | inr one ↦
        elim (Option-cases (
          page limit offset
            (order_by_desc created (filter_by (in_category (some category)) w.db.products)))) [
              | inl e ↦ ground (arith, one, calm, e)
              | inr (rows, e) ↦ ground (arith, one, calm, e)
            ]
  ]

-- What is found, with the world after it.
abbrev Listed :
    Bool
    → String
    → ℤ
    → ℤ
    → ProductWorld
    → Result Error (List ProductProduct × ℤ) × ProductWorld
    → Type 0
Listed cached category limit offset w q =
    (w' : ProductWorld) × IsUnchanged cached w w'
    × PagesAreRight cached w'
    × (q ≡ (
      found_page (page limit offset (order_by_desc created (asked category w.db.products)))
          (length (asked category w.db.products)),
      w',
    ))

-- With the cache, a page of all products may come out of it.
module _ (hot : Option HotdealRepository) (category : String) (limit offset : ℤ) (w : ProductWorld)
    (calm : w.script ≡ []) where
  listed_all :
      HasFreshPages w
      → str_eq category "" ≡ true
      → Listed true category limit offset w (listed (handler_over true hot) category limit offset w)
  unfolding listed Repository.count_products Lists.list_products Lists.count_products
  listed_all f any =
      let a = list_products-ListAgrees limit offset w calm f in
      let w1 = (Cached.list_products limit offset w).1 in
      let same : uncached w1 ≡ uncached w =
        a.state
        ∙ ap (λ (q : Result Error (List ProductProduct) × ProductWorld). uncached q.1)
            (read_page limit offset w calm) in
      let quiet : w1.script ≡ [] = ap (λ (u : ProductWorld). u.script) same ∙ calm in
      let rows : w1.db.products ≡ w.db.products = ap (λ (u : ProductWorld). u.db.products) same in
      let read : (Cached.list_products limit offset w).0 ≡ page_of limit offset w =
        a.answer
        ∙ ap (λ (q : Result Error (List ProductProduct) × ProductWorld). q.0)
            (read_page limit offset w calm) in
      (
        w1,
        same,
        a.fresh,
        elim (Option-cases (page limit offset (order_by_desc created w.db.products))) [
          | inl e ↦ ground (arith, any, read, quiet, rows, e)
          | inr (ps, e) ↦ ground (arith, any, read, quiet, rows, e)
        ],
      )

  -- Categories are not cached.
  listed_category :
      str_eq category "" ≡ false
      → listed (handler_over true hot) category limit offset w
        ≡ listed (db_handler hot) category limit offset w
  unfolding listed
  listed_category one = ground (arith, one)

  listed-Listed :
      (cached : Bool)
      → PagesAreRight cached w
      → Listed cached category limit offset w
          (listed (handler_over cached hot) category limit offset w)
  listed-Listed false right = (w, refl, tt, listed_lem hot category limit offset w calm)
  listed-Listed true right = elim (Bool-cases (str_eq category "")) [
    | inl any ↦ listed_all right any
    | inr one ↦ (w, refl, right, listed_category one ∙ listed_lem hot category limit offset w calm)
  ]

length-map : {A B : Type 0} (f : A → B) (xs : List A) → length (map f xs) ≡ length xs
length-map f [] = refl
length-map f (x ∷ xs) = ap suc (length-map f xs)

module _ (ids : UuidText) where
  -- A page of rows: 200 with the rows of the page in their order, at most `limit` of them, and the
  -- number of all; or 500, where the limit or the offset is below zero.
  abbrev pub Pages : ℤ → ℤ → List ProductProduct → ℕ → Result String ProductListResponse → Type 0
  Pages limit offset rows status (ok l) =
      (status ≡ status_ok)
      × (l.limit ≡ limit)
      × (l.skip ≡ offset)
      × (l.total ≡ pos (length rows))
      × (pos (length l.items) ≤ℤ limit)
      × (length l.items ≤ length rows)
      × ((page_rows : List ProductProduct) × (page limit offset (order_by_desc created rows)
            ≡ some page_rows)
          × (l.items ≡ map (to_product_response ids) page_rows))
  Pages limit offset rows status (err e) =
      (status ≡ status_internal_server_error) × ((limit ≤ℤ negsuc 0) ⊎ (offset ≤ℤ negsuc 0))

  abbrev list_answer :
      ℤ → ℤ → Result Error (List ProductProduct × ℤ) → Response String ProductListResponse
  list_answer limit offset (err e) = refuse status_internal_server_error (error_text e)
  list_answer limit offset (ok (products, total)) = reply status_ok (record {
    items = map (to_product_response ids) products;
    total = total;
    limit = limit;
    skip = offset;
  })

  -- The handler after its page.
  list_products-listed :
      (atoi : String → Option ℤ) (h : ProductHandler) (category : String)
      (limit_text skip_text : String) (w w' : ProductWorld)
      (r : Result Error (List ProductProduct × ℤ))
      → listed h category (int_param atoi limit_text (pos 20)) (int_param atoi skip_text (pos 0)) w
        ≡ (r, w')
      → list_products ids atoi h category limit_text skip_text w ≡ (
        list_answer (int_param atoi limit_text (pos 20)) (int_param atoi skip_text (pos 0)) r,
        w',
      )
  unfolding list_products
  list_products-listed atoi h category limit_text skip_text w w' (err x) e = ground (arith, e)
  list_products-listed atoi h category limit_text skip_text w w' (ok (ps, n)) e = ground (arith, e)

  paged :
      (limit offset : ℤ) (rows : List ProductProduct) (o : Option (List ProductProduct))
      → page limit offset (order_by_desc created rows) ≡ o
      → Pages limit offset rows
          (list_answer limit offset (found_page o (length rows))).status
          (list_answer limit offset (found_page o (length rows))).body
  paged limit offset rows none e = (refl, page_none limit offset (order_by_desc created rows) e)
  paged limit offset rows (some found) e = (
    refl,
    refl,
    refl,
    refl,
    subst (λ n. pos n ≤ℤ limit) (sym (length-map (to_product_response ids) found)) bounded.0,
    ground (
      arith,
      length-map (to_product_response ids) found,
      length-order_by_desc created rows,
      bounded.1,
    ),
    (found, e, refl),
  )
    where
      bounded : (pos (length found) ≤ℤ limit) × (length found ≤ length (order_by_desc created rows))
      bounded = page-bounded limit offset (order_by_desc created rows) found e

  -- `ListProducts`, with the cache or without, with no failing call and cached pages (if they are cached)
  -- that are those of the table, changes nothing but the cache, whose pages are right afterwards. With the
  -- limit and the offset that the two texts mean (20 and 0 for an empty text or one that is no number), and
  -- the rows of the category, or all rows for an empty one, it answers 200 with the page of these rows,
  -- newest first, at most `limit` of them and no more than there are, and their number; or 500, and then
  -- the limit or the offset is below zero.
  pub list_products-Pages :
      (atoi : String → Option ℤ) (cached : Bool) (hot : Option HotdealRepository)
      (category : String) (limit_text skip_text : String) (w : ProductWorld)
      → w.script ≡ []
      → PagesAreRight cached w
      → (let q = list_products ids atoi (handler_over cached hot) category limit_text skip_text w in
          IsUnchanged cached w q.1
          × PagesAreRight cached q.1
          × Pages
              (int_param atoi limit_text (pos 20))
              (int_param atoi skip_text (pos 0))
              (asked category w.db.products)
              q.0.status
              q.0.body)
  list_products-Pages atoi cached hot category limit_text skip_text w calm right =
      let limit = int_param atoi limit_text (pos 20) in
      let offset = int_param atoi skip_text (pos 0) in
      let (w', unchanged, fresh, e) = listed-Listed hot category limit offset w calm cached right in
      subst
        (λ (q : Response String ProductListResponse × ProductWorld).
          IsUnchanged cached w q.1
          × PagesAreRight cached q.1
          × Pages limit offset (asked category w.db.products) q.0.status q.0.body)
        (sym (
          list_products-listed atoi (handler_over cached hot) category limit_text skip_text w w' _
            e))
        (unchanged, fresh, paged limit offset (asked category w.db.products) _ refl)
