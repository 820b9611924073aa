-- ===== src/Product/Repository/Cached/Coherence.antt =====
-- The cached products are those of the table, and the cache cannot be told from the table by its
-- answers.
use mathlib.Core.Path.{subst}
use flash_deals.Base.{
  ◌==◌, Bool, true, false, ◌≡◌, refl, sym, ap, ◌∙◌, Option, none, some, [], Uuid, Result, ok, err,
  Exec, ◌>>=◌, arith, Bool-cases, inl, inr, ==→eq,
}
use flash_deals.Product.State.{
  ProductProduct, ProductWorld, Db, Stored, json, garbage, Error, no_rows, on_redis,
}
use flash_deals.Product.Queries
use flash_deals.Product.Queries.{find_product, or_no_rows}
use flash_deals.Product.Repository
use flash_deals.Product.Repository.Cached.{
  cached_at, get_product_key, set_product_key, del_product_key, cache_hit, ignoring,
  invalidate_product, load_product, get_product_by_id,
}
use flash_deals.Product.Repository.Touches.{TouchesOne}
use flash_deals.Product.Repository.Cached.Keys.{cached_at-del, cached_at-set}

-- Every cached product is the row of the table. The cached pages are those of Pages.
abbrev pub IsCoherent : ProductWorld → Type 0
IsCoherent w =
    (id : Uuid) (p : ProductProduct)
    → cached_at id w.redis ≡ some (json p)
    → find_product id w.db ≡ some p

-- Where there is a cache, its products are those of the table.
abbrev pub CacheIsRight : Bool → ProductWorld → Type 0
CacheIsRight true w = IsCoherent w
CacheIsRight false w = Unit {0}

-- The world without its cache.
abbrev pub uncached : ProductWorld → ProductWorld
uncached w = record w { redis = record w.redis { cached_products = []; cached_lists = [] } }

-- The same answer and the same state but for the cache, and the cached products are those of the table.
pub record Agrees {E A : Type 0} (p q : Result E A × ProductWorld) : Type 0 where
  pub answer : p.0 ≡ q.0
  pub state : uncached p.1 ≡ uncached q.1
  pub coherent : IsCoherent p.1

-- The time to live of a key ends.
abbrev pub expire : Uuid → ProductWorld → ProductWorld
expire id w = record w { redis = (del_product_key id w.redis).1 }

-- Dropping the key of a product whose row has changed keeps the rest right.
dropped-IsCoherent :
    (id : Uuid) (d : Db) (w : ProductWorld)
    → IsCoherent w
    → ((j : Uuid) → (j == id) ≡ false → find_product j d ≡ find_product j w.db)
    → IsCoherent (record w { db = d; redis = (del_product_key id w.redis).1 })
dropped-IsCoherent id d w c same j p k = elim (Bool-cases (j == id)) [
  | inl e ↦ ground (arith, cached_at-del j id w.redis, e, k)
  | inr e ↦ same j e ∙ c j p (ground (arith, cached_at-del j id w.redis, e, k))
]

pub expire-IsCoherent : (id : Uuid) (w : ProductWorld) → IsCoherent w → IsCoherent (expire id w)
expire-IsCoherent id w c = dropped-IsCoherent id w.db w c (λ j e. refl)

module _ (id : Uuid) (w : ProductWorld) (calm : w.script ≡ []) where
  pub read_table : Repository.get_product_by_id id w ≡ (or_no_rows (find_product id w.db), w)
  unfolding Repository.get_product_by_id Queries.get_product_by_id
  read_table = ground (arith, calm)

  hit :
      (p : ProductProduct)
      → cached_at id w.redis ≡ some (json p)
      → get_product_by_id id w ≡ (ok p, w)
  unfolding get_product_by_id
  hit p e = ground (arith, calm, e)

  miss :
      cache_hit (get_product_key id w.redis).0 ≡ none → get_product_by_id id w ≡ load_product id w
  unfolding get_product_by_id
  miss e = ground (arith, calm, e)

  load_none : find_product id w.db ≡ none → load_product id w ≡ (err no_rows, w)
  unfolding load_product
  load_none e = ground (arith, read_table, e)

  load_some :
      (p : ProductProduct)
      → find_product id w.db ≡ some p
      → load_product id w ≡ (ok p, record w { redis = (set_product_key id p w.redis).1 })
  unfolding load_product
  load_some p e = ground (arith, read_table, e, calm)

  set-IsCoherent :
      (p : ProductProduct)
      → IsCoherent w
      → find_product id w.db ≡ some p
      → IsCoherent (record w { redis = (set_product_key id p w.redis).1 })
  set-IsCoherent p c e j q k = elim (Bool-cases (j == id)) [
    | inl f ↦
        subst (λ i. find_product i w.db ≡ some q) (sym (==→eq j id f))
          (ground (arith, cached_at-set j id p w.redis, f, k, e))
    | inr f ↦ c j q (ground (arith, cached_at-set j id p w.redis, f, k))
  ]

  -- With no failing call and cached products that are those of the table, reading a product
  -- through the cache answers as reading the table, changes nothing but the cache, and the
  -- cached products afterwards are those of the table.
  pub get_product_by_id-Agrees :
      IsCoherent w → Agrees (get_product_by_id id w) (Repository.get_product_by_id id w)
  get_product_by_id-Agrees c =
      subst (Agrees (get_product_by_id id w)) (sym read_table) (go (cached_at id w.redis) refl)
    where
      read : Result Error ProductProduct × ProductWorld
      read = (or_no_rows (find_product id w.db), w)

      loaded :
          (o : Option ProductProduct) → find_product id w.db ≡ o → Agrees (load_product id w) read
      loaded none e =
          subst (λ q. Agrees q read) (sym (load_none e))
            (record { answer = ap or_no_rows (sym e); state = refl; coherent = c })
      loaded (some p) e =
          subst (λ q. Agrees q read) (sym (load_some p e))
            (record {
              answer = ap or_no_rows (sym e);
              state = refl;
              coherent = set-IsCoherent p c e;
            })

      go :
          (o : Option (Stored ProductProduct))
          → cached_at id w.redis ≡ o
          → Agrees (get_product_by_id id w) read
      go (some (json p)) e =
          subst (λ q. Agrees q read) (sym (hit p e))
            (record { answer = ap or_no_rows (sym (c id p e)); state = refl; coherent = c })
      go (some (garbage t)) e =
          subst (λ q. Agrees q read) (sym (miss (ground (arith, e))))
            (loaded (find_product id w.db) refl)
      go none e =
          subst (λ q. Agrees q read) (sym (miss (ground (arith, e))))
            (loaded (find_product id w.db) refl)

del_calm :
    (id : Uuid) (w : ProductWorld)
    → w.script ≡ []
    → (on_redis (del_product_key id) w).1 ≡ record w { redis = (del_product_key id w.redis).1 }
del_calm id w calm = ground (arith, calm)

-- Such an update, with the key dropped after a success.
pub dropping-Agrees :
    {A : Type 0} (id : Uuid) (m : Exec ProductWorld Error A) (w : ProductWorld)
    → w.script ≡ []
    → IsCoherent w
    → TouchesOne id w (m w)
    → Agrees ((m >>= λ a. ignoring (invalidate_product id) a) w) (m w)
unfolding invalidate_product
dropping-Agrees {A} id m w calm c t = go (m w) t
  where
    ended :
        (r : Result Error A) (d : Db)
        → ((j : Uuid) → (j == id) ≡ false → find_product j d ≡ find_product j w.db)
        → Agrees {E = Error} {A = A}
            (r, (on_redis (del_product_key id) (record w { db = d })).1)
            (r, record w { db = d })
    ended r d same =
        subst (λ w'. Agrees {E = Error} {A = A} (r, w') (r, record w { db = d }))
          (sym (del_calm id (record w { db = d }) calm))
          (record { answer = refl; state = refl; coherent = dropped-IsCoherent id d w c same })

    go :
        (p : Result Error A × ProductWorld)
        → TouchesOne id w p
        → Agrees {E = Error} {A = A} (((λ _. p) >>= λ a. ignoring (invalidate_product id) a) w) p
    go (ok a, w') (d, e, same) =
        subst
          (λ u. Agrees {E = Error} {A = A} (ok a, (on_redis (del_product_key id) u).1) (ok a, u))
          (sym e) (ended (ok a) d same)
    go (err x, w') e = record { answer = refl; state = refl; coherent = subst IsCoherent (sym e) c }
