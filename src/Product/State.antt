-- ===== src/Product/State.antt =====
-- What the product service works on: the rows of its tables, its keys in Redis, its errors and the
-- calls of the two servers. From services/product/go/internal/db/models.go, and the schema in
-- services/product/db.
use Prim.Native.String.{◌++◌ as append}
use flash_deals.Base.{
  ℕ, ℤ, String, Option, List, Uuid, ok, err, Exec, Outcome, next, rest, under, show_ℤ,
}

pub record ProductProduct : Type 0 where
  pub id : Uuid
  pub name : String
  pub description : Option String
  pub price : ℤ
  pub stock : ℤ
  pub category : Option String
  pub image_url : Option String
  pub created_at : ℕ
  pub updated_at : ℕ

pub record ProductDeal : Type 0 where
  pub id : Uuid
  pub product_id : Uuid
  pub deal_price : ℤ
  pub deal_stock : ℤ
  pub remaining_stock : ℤ
  pub starts_at : ℕ
  pub ends_at : ℕ
  pub created_at : ℕ

-- `gen_random_uuid()` is a counter here: each value is new. `clock` is what `NOW()` reads.
pub record Db : Type 0 where
  pub products : List ProductProduct
  pub deals : List ProductDeal
  pub next_id : Uuid
  pub clock : ℕ

-- The bytes under a cache key: the JSON of a value, or a text that `json.Unmarshal` refuses.
pub data Stored (A : Type 0) : Type 0 where
  json : A → Stored A
  garbage : String → Stored A

-- The keys of Redis by their family: `hotdeal:stock:ID`, `product:ID`, `products:list:LIMIT:OFFSET`.
pub record Redis : Type 0 where
  pub stocks : List (Uuid × ℤ)
  pub cached_products : List (Uuid × Stored ProductProduct)
  pub cached_lists : List ((ℤ × ℤ) × Stored (List ProductProduct))

-- Go errors: the two sentinels, the error of `UpdateStockWithLock`, a text, and a text with a cause.
pub data Error : Type 0 where
  no_rows redis_nil : Error
  insufficient : ℤ → ℤ → Error
  message : String → Error
  wrapped : String → Error → Error

-- `err.Error()`
unfoldable pub error_text : Error → String
error_text no_rows = "no rows in result set"
error_text redis_nil = "redis: nil"
error_text (insufficient current delta) =
    append "insufficient stock"
      (append ": current=" (append (show_ℤ current) (append ", delta=" (show_ℤ delta))))
error_text (message m) = m
error_text (wrapped m e) = append m (error_text e)

-- How the wait for the stock queue ends: with the worker's answer, with a context that is cancelled
-- before the request is queued, or with one that is cancelled before the answer comes.
pub data Wait : Type 0 where
  answered gone_before gone_after : Wait

-- One service with its servers. `script` has the outcomes of the calls of PostgreSQL and Redis to
-- come, in their order, and `waits` those of the waits for the stock queue.
pub record ProductWorld : Type 0 where
  pub db : Db
  pub redis : Redis
  pub script : List (Outcome Error)
  pub waits : List Wait

-- One call of PostgreSQL or Redis.
abbrev pub call : {A : Type 0} → Exec ProductWorld Error A → Exec ProductWorld Error A
call op w = under (next w.script) op (record w { script = rest w.script })

-- A query in a transaction of its own.
abbrev pub on_db : {A : Type 0} → Exec Db Error A → Exec ProductWorld Error A
on_db q = call λ w. let (r, d) = q w.db in (r, record w { db = d })

abbrev pub on_redis : {A : Type 0} → Exec Redis Error A → Exec ProductWorld Error A
on_redis q = call λ w. let (r, d) = q w.redis in (r, record w { redis = d })

-- `pool.Begin`: the tables as the transaction sees them. They are dropped on an early return, as
-- the deferred `tx.Rollback` does.
abbrev pub begin_tx : Exec ProductWorld Error Db
begin_tx = call λ w. (ok w.db, w)

-- A query inside a transaction, with the tables after it.
abbrev pub in_tx : {A : Type 0} → Exec Db Error A → Db → Exec ProductWorld Error (A × Db)
in_tx q tx = call λ w. let (r, tx') = q tx in (elim r [ ok a ↦ ok (a, tx') | err e ↦ err e ], w)

-- `tx.Commit`
abbrev pub commit_tx : Db → Exec ProductWorld Error (Unit {0})
commit_tx tx = call λ w. (ok tt, record w { db = tx })
