-- ===== src/Product/Handler/Overwrites.antt =====
-- The handler that changes a product.
use mathlib.Core.Path.{subst}
use flash_deals.Base.{
  pos, String, ◌≡◌, sym, ap, ◌∙◌, Option, some, [], Uuid, UuidText, Result, ok, err, inl, inr,
  arith, Bool-cases, if◌then◌else◌,
}
use flash_deals.Http.{Response, reply, refuse, status_ok, status_not_found}
use flash_deals.Product.State.{ProductProduct, ProductWorld, Db, Error}
use flash_deals.Product.Queries
use flash_deals.Product.Queries.{find_product, valid_product, updated_product, coalesce?}
use flash_deals.Product.Repository
use flash_deals.Product.Repository.Touches.{
  on_db_calm, with_product, update_product_some, update_product_bad, find_product-with_product,
}
use flash_deals.Product.Hotdeal.{HotdealRepository}
use flash_deals.Product.Handler.{
  ProductResponse, UpdateProductRequest, update_params, or_zero, update_product,
  to_product_response,
}
use flash_deals.Product.Handler.Stock.Serial.{db_handler}

-- The row that a request makes of a product.
abbrev pub overwritten : UpdateProductRequest → ProductWorld → ProductProduct → ProductProduct
overwritten req w p = record p {
  name = or_zero "" req.name;
  description = coalesce? req.description p.description;
  price = or_zero (pos 0) req.price;
  category = coalesce? req.category p.category;
  image_url = coalesce? req.image_url p.image_url;
  updated_at = w.db.clock;
}

module _ (ids : UuidText) (hot : Option HotdealRepository) (id_str : String) (id : Uuid)
    (req : UpdateProductRequest) (w : ProductWorld) (p : ProductProduct)
    (parsed : ids.parse id_str ≡ ok id) (calm : w.script ≡ [])
    (found : find_product id w.db ≡ some p) where
  stored :
      (q : Result Error ProductProduct × ProductWorld)
      → Repository.update_product (update_params id req) w ≡ q
      → update_product ids (db_handler hot) id_str (some req) w ≡ (elim q.0 [
        | err e ↦ (refuse status_not_found "Product not found", q.1)
        | ok p' ↦ (reply status_ok (to_product_response ids p'), q.1)
      ])
  unfolding update_product
  stored q e =
      subst
        (λ q'. update_product ids (db_handler hot) id_str (some req) w ≡ (elim q'.0 [
          | err e ↦ (refuse status_not_found "Product not found", q'.1)
          | ok p' ↦ (reply status_ok (to_product_response ids p'), q'.1)
        ]))
        e (ground (arith, parsed))

  queried :
      (q : Result Error ProductProduct × Db)
      → Queries.update_product (update_params id req) w.db ≡ q
      → Repository.update_product (update_params id req) w ≡ (q.0, record w { db = q.1 })
  unfolding Repository.update_product
  queried q e =
      on_db_calm (Queries.update_product (update_params id req)) w calm
      ∙ ap (λ r. (r.0, record w { db = r.1 })) e

  -- For an identifier that parses, a body that is a request, a known product and no failing call,
  -- `UpdateProduct` answers 200 with the new row, which the table then has, where that row meets
  -- the table's checks; else it answers 404, and the product is as it was. In the new row a
  -- description, category or image that is not sent stays, but a name or price that is not sent
  -- becomes "" or 0.
  pub update_product-overwritten :
      ((update_product ids (db_handler hot) id_str (some req) w).0 ≡ (
        if valid_product (overwritten req w p)
        then reply status_ok (to_product_response ids (overwritten req w p))
        else refuse status_not_found "Product not found"))
      × (find_product id (update_product ids (db_handler hot) id_str (some req) w).1.db
          ≡ some (if valid_product (overwritten req w p) then overwritten req w p else p))
  update_product-overwritten = elim (Bool-cases (valid_product (overwritten req w p))) [
    | inl good ↦
        subst Outcome
          (sym
            (stored _ (queried _ (update_product_some (update_params id req) w.db p found good))))
          (ground (arith, good), changed ∙ ap some (ground (arith, good)))
    | inr bad ↦
        subst Outcome
          (sym (stored _ (queried _ (update_product_bad (update_params id req) w.db p found bad))))
          (ground (arith, bad), found ∙ ap some (ground (arith, bad)))
  ]
    where
      Outcome : Response String ProductResponse × ProductWorld → Type 0
      Outcome q =
          (q.0 ≡ (
            if valid_product (overwritten req w p)
            then reply status_ok (to_product_response ids (overwritten req w p))
            else refuse status_not_found "Product not found"))
          × (find_product id q.1.db
              ≡ some (if valid_product (overwritten req w p) then overwritten req w p else p))

      changed :
          find_product id (with_product (update_params id req) w.db) ≡ some (overwritten req w p)
      changed = ground (arith, found, find_product-with_product (update_params id req) w.db id)
