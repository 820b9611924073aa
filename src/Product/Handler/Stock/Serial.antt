-- ===== src/Product/Handler/Stock/Serial.antt =====
-- The HTTP update of a stock, alone and beside another.
use mathlib.Core.Path.{subst}
use flash_deals.Base.{
  ℤ, pos, add32, ltb_ℤ, String, false, ◌≡◌, sym, ap, ◌∙◌, Option, some, [], Uuid, UuidText, Result,
  ok, err, arith,
}
use flash_deals.Http.{
  Response, reply, refuse, status_ok, status_bad_request, status_not_found,
  status_internal_server_error,
}
use flash_deals.Product.State.{
  ProductProduct, ProductWorld, Error, error_text, no_rows, insufficient,
}
use flash_deals.Product.Queries
use flash_deals.Product.Queries.{UpdateStockRow, GetStockForUpdateRow, find_product}
use flash_deals.Product.Repository
use flash_deals.Product.Repository.{db_repository}
use flash_deals.Product.Repository.Locking.{with_stock, with_stock-find_product}
use flash_deals.Product.Repository.Touches.{on_db_calm, update_stock_some}
use flash_deals.Product.Hotdeal.{HotdealRepository}
use flash_deals.Product.Handler.{ProductHandler}
use flash_deals.Product.Handler.Stock.{StockResponse, store_stock, change_stock, update_stock}

abbrev pub db_handler : Option HotdealRepository → ProductHandler
db_handler hot = record { repo = db_repository; hotdeal_repo = hot }

module _ (ids : UuidText) where
  abbrev stock_response : UpdateStockRow → StockResponse
  stock_response row = record {
    id = ids.format row.id;
    stock = row.stock;
    updated_at = row.updated_at;
  }

  -- The answer for a result of `UpdateStockWithLock`.
  abbrev pub stock_answer : Result Error UpdateStockRow → Response String StockResponse
  stock_answer (ok row) = reply status_ok (stock_response row)
  stock_answer (err no_rows) = refuse status_not_found "Product not found"
  stock_answer (err (insufficient current delta)) = refuse status_bad_request "Insufficient stock"
  stock_answer (err e) = refuse status_internal_server_error (error_text e)

module _ (ids : UuidText) (hot : Option HotdealRepository) (id : Uuid) (w : ProductWorld)
    (calm : w.script ≡ []) where
  module _ (p : ProductProduct) (e : find_product id w.db ≡ some p) where
    read_some :
        Repository.get_stock_for_update id w ≡ (ok (record { id = p.id; stock = p.stock }), w)
    unfolding Repository.get_stock_for_update Queries.get_stock_for_update
    read_some = ground (arith, calm, e)

    pub write_some :
        (stock : ℤ)
        → ltb_ℤ stock (pos 0) ≡ false
        → Repository.update_stock id stock w ≡ (
          ok (record { id = p.id; stock = stock; updated_at = w.db.clock }),
          record w { db = with_stock id stock w.db },
        )
    unfolding Repository.update_stock
    write_some stock room =
        on_db_calm (Queries.update_stock id stock) w calm
        ∙ ap (λ q. (q.0, record w { db = q.1 })) (update_stock_some id stock w.db p e room)

    change_stock_room :
        (current delta : ℤ)
        → ltb_ℤ (add32 current delta) (pos 0) ≡ false
        → change_stock ids (db_handler hot) id current delta w ≡ (
          reply status_ok (record {
            id = ids.format p.id;
            stock = add32 current delta;
            updated_at = w.db.clock;
          }),
          record w { db = with_stock id (add32 current delta) w.db },
        )
    unfolding change_stock store_stock
    change_stock_room current delta room =
        ground (arith, room, write_some (add32 current delta) room)

-- For a known product and two changes that each leave no stock below zero, with no failing call:
-- if two requests of the handler read the same stock before either writes, the read having changed
-- nothing, both answer 200, and the product ends with the stock of the second request as if the
-- first had never been.
pub change_stock-change_stock :
    (ids : UuidText) (hot : Option HotdealRepository) (id : Uuid) (p : ProductProduct) (d e : ℤ)
    (w : ProductWorld)
    → w.script ≡ []
    → find_product id w.db ≡ some p
    → ltb_ℤ (add32 p.stock d) (pos 0) ≡ false
    → ltb_ℤ (add32 p.stock e) (pos 0) ≡ false
    → (Repository.get_stock_for_update id w ≡ (ok (record { id = p.id; stock = p.stock }), w))
      × ((change_stock ids (db_handler hot) id p.stock d w).0.status ≡ status_ok)
      × ((change_stock ids
            (db_handler hot)
            id
            p.stock
            e
            (change_stock ids (db_handler hot) id p.stock d w).1).0.status
          ≡ status_ok)
      × (find_product id
            (change_stock ids
              (db_handler hot)
              id
              p.stock
              e
              (change_stock ids (db_handler hot) id p.stock d w).1).1.db
          ≡ some (record p { stock = add32 p.stock e; updated_at = w.db.clock }))
change_stock-change_stock ids hot id p d e w calm found room_d room_e = (
  read_some ids hot id w calm p found,
  ap (λ q. q.0.status) first,
  ap (λ q. q.0.status) second,
  ap (λ q. find_product id q.1.db) second
      ∙ with_stock-find_product id (add32 p.stock e) (with_stock id (add32 p.stock d) w.db)
          (record p { stock = add32 p.stock d; updated_at = w.db.clock }) stored,
)
  where
    stored :
        find_product id (with_stock id (add32 p.stock d) w.db)
        ≡ some (record p { stock = add32 p.stock d; updated_at = w.db.clock })
    stored = with_stock-find_product id (add32 p.stock d) w.db p found

    first : change_stock ids (db_handler hot) id p.stock d w ≡ (
      reply status_ok
          (record { id = ids.format p.id; stock = add32 p.stock d; updated_at = w.db.clock }),
      record w { db = with_stock id (add32 p.stock d) w.db },
    )
    first = change_stock_room ids hot id w calm p found p.stock d room_d

    second :
        change_stock ids
          (db_handler hot)
          id
          p.stock
          e
          (change_stock ids (db_handler hot) id p.stock d w).1
        ≡ (
          reply status_ok
              (record { id = ids.format p.id; stock = add32 p.stock e; updated_at = w.db.clock }),
          record w { db = with_stock id (add32 p.stock e) (with_stock id (add32 p.stock d) w.db) },
        )
    second =
        subst
          (λ q. change_stock ids (db_handler hot) id p.stock e q.1 ≡ (
            reply status_ok
                (record { id = ids.format p.id; stock = add32 p.stock e; updated_at = w.db.clock }),
            record w {
              db = with_stock id (add32 p.stock e) (with_stock id (add32 p.stock d) w.db);
            },
          ))
          (sym first)
          (change_stock_room ids hot id (record w { db = with_stock id (add32 p.stock d) w.db })
            calm (record p { stock = add32 p.stock d; updated_at = w.db.clock }) stored p.stock e
            room_e)
