-- ===== src/Order/Lifecycle/Waiting.antt =====
-- The messages of the queue of orders, and the identifiers that they bring.
use flash_deals.Base.{◌≤◌, ◌<◌, ◌≡◌, ◌≢◌, sym, none, Uuid, List, [], ◌∷◌, ◌++◌, AllOf, arith}
use flash_deals.Order.State.{OrderDb, OrderRequest}
use flash_deals.Order.Queries.{find_order}
use flash_deals.Order.Lifecycle.Valid.{Wait}

-- The messages that wait go on waiting where their identifiers stay free.
pub Wait-later :
    (db db' : OrderDb) (q : List OrderRequest)
    → db.next_id ≤ db'.next_id
    → ((k : OrderRequest)
        → k.order_id < db.next_id
        → find_order k.order_id db ≡ none
        → find_order k.order_id db' ≡ none)
    → Wait db q
    → Wait db' q
Wait-later db db' [] n free h = tt
Wait-later db db' (m ∷ ms) n free (small, new, others, h) =
    (omega arith, free m small new, others, Wait-later db db' ms n free h)

-- So too where the identifier of a message that was taken is used up.
pub Wait-used :
    (db db' : OrderDb) (m : OrderRequest) (q : List OrderRequest)
    → db.next_id ≤ db'.next_id
    → ((k : OrderRequest)
        → k.order_id ≢ m.order_id
        → find_order k.order_id db ≡ none
        → find_order k.order_id db' ≡ none)
    → AllOf (λ (k : OrderRequest). k.order_id ≢ m.order_id) q
    → Wait db q
    → Wait db' q
Wait-used db db' m [] n free differ h = tt
Wait-used db db' m (k ∷ ks) n free (d, differ) (small, new, others, h) =
    (omega arith, free k d new, others, Wait-used db db' m ks n free differ h)

AllOf-last :
    (id : Uuid) (q : List OrderRequest) (m : OrderRequest)
    → AllOf (λ (k : OrderRequest). k.order_id ≢ id) (q ++ m ∷ [])
    → AllOf (λ (k : OrderRequest). k.order_id ≢ id) q × (m.order_id ≢ id)
AllOf-last id [] m (h, _) = (tt, h)
AllOf-last id (k ∷ ks) m (d, h) = let (rest, last) = AllOf-last id ks m h in ((d, rest), last)

-- The last message, and those before it.
pub Wait-last :
    (db : OrderDb) (q : List OrderRequest) (m : OrderRequest)
    → Wait db (q ++ m ∷ [])
    → Wait db q
      × AllOf (λ (k : OrderRequest). k.order_id ≢ m.order_id) q
      × (m.order_id < db.next_id)
Wait-last db [] m (small, _, _, _) = (tt, tt, small)
Wait-last db (k ∷ ks) m (small, new, others, h) =
    let (rest, differ, s) = Wait-last db ks m h in
    let (others', last) = AllOf-last k.order_id ks m others in
    ((small, new, others', rest), (λ e. last (sym e), differ), s)

-- A new message has an identifier that no message has.
pub Wait-new :
    (db : OrderDb) (id : Uuid) (q : List OrderRequest)
    → db.next_id ≤ id
    → Wait db q
    → AllOf (λ (k : OrderRequest). k.order_id ≢ id) q
Wait-new db id [] n h = tt
Wait-new db id (m ∷ ms) n (small, _, _, h) = (λ e. absurd (omega arith), Wait-new db id ms n h)
