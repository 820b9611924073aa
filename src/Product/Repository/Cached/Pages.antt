-- ===== src/Product/Repository/Cached/Pages.antt =====
-- The cached pages are those of the table, and reading a page through the cache cannot be told from
-- reading the table by its answer.
use mathlib.Core.Path.{subst}
use flash_deals.Base.{
  ◌+◌, ==→eq, ℤ, pos, negsuc, eq_ℤ, true, false, ◌≡◌, refl, sym, ap, ◌∙◌, Option, none, some, List,
  [], ◌∷◌, Result, ok, err, arith, Bool-cases, inl, inr,
}
use flash_deals.Product.State.{ProductProduct, ProductWorld, Stored, json, garbage, Error}
use flash_deals.Product.Queries.Lists
use flash_deals.Product.Repository
use flash_deals.Product.Repository.Cached.{
  same_page, list_at, drop_list, get_list_key, set_list_key, cache_hit, load_list, list_products,
}
use flash_deals.Product.Repository.Cached.Coherence.{uncached}

-- A page of the table.
abbrev pub page_of : ℤ → ℤ → ProductWorld → Result Error (List ProductProduct)
page_of limit offset w = (Lists.list_products (record { limit = limit; offset = offset }) w.db).0

-- Every cached page is that of the table.
abbrev pub HasFreshPages : ProductWorld → Type 0
HasFreshPages w =
    (limit offset : ℤ) (ps : List ProductProduct)
    → list_at (limit, offset) w.redis.cached_lists ≡ some (json ps)
    → page_of limit offset w ≡ ok ps

-- The same answer and the same state but for the cache, and the cached pages are right.
pub record ListAgrees (p q : Result Error (List ProductProduct) × ProductWorld) : Type 0 where
  pub answer : p.0 ≡ q.0
  pub state : uncached p.1 ≡ uncached q.1
  pub fresh : HasFreshPages p.1

eq_ℤ→eq : (a b : ℤ) → eq_ℤ a b ≡ true → a ≡ b
eq_ℤ→eq (pos a) (pos b) e = ap pos (omega (arith, ==→eq (a + 0) (b + 0) e))
eq_ℤ→eq (pos a) (negsuc b) e = absurd (omega (arith, ==→eq _ _ e))
eq_ℤ→eq (negsuc a) (pos b) e = absurd (omega (arith, ==→eq _ _ e))
eq_ℤ→eq (negsuc a) (negsuc b) e = ap negsuc (omega (arith, ==→eq _ _ e))

pub same_page→eq : (l o l' o' : ℤ) → same_page (l, o) (l', o') ≡ true → (l ≡ l') × (o ≡ o')
same_page→eq l o l' o' e = elim (Bool-cases (eq_ℤ l l')) [
  | inl f ↦ (eq_ℤ→eq l l' f, eq_ℤ→eq o o' (ground (arith, e, f)))
  | inr f ↦ absurd (ground (arith, e, f))
]

-- A page that is there after others are dropped was there before.
list_at-drop_list :
    (j k : ℤ × ℤ) (kvs : List ((ℤ × ℤ) × Stored (List ProductProduct)))
    (v : Stored (List ProductProduct))
    → same_page k j ≡ false
    → list_at j (drop_list k kvs) ≡ some v
    → list_at j kvs ≡ some v
list_at-drop_list j k [] v d e = e
list_at-drop_list (l, o) (l1, o1) (((l2, o2), u) ∷ kvs) v d e =
    elim (Bool-cases (same_page (l2, o2) (l1, o1))) [
      | inl f ↦
          let (same_limit, same_offset) = same_page→eq l2 o2 l1 o1 f in
          let other : same_page (l2, o2) (l, o) ≡ false =
            subst (λ i. same_page (i, o2) (l, o) ≡ false) (sym same_limit)
              (subst (λ i. same_page (l1, i) (l, o) ≡ false) (sym same_offset) d) in
          rw other (list_at-drop_list (l, o) (l1, o1) kvs v d (rw f at e))
      | inr f ↦ elim (Bool-cases (same_page (l2, o2) (l, o))) [
        | inl g ↦ ground (arith, e, f, g)
        | inr g ↦ rw g (list_at-drop_list (l, o) (l1, o1) kvs v d (rw (f, g) at e))
      ]
    ]

module _ (limit offset : ℤ) (w : ProductWorld) (calm : w.script ≡ []) where
  pub read_page : Repository.list_products limit offset w ≡ (page_of limit offset w, w)
  unfolding Repository.list_products Lists.list_products
  read_page = ground (arith, calm)

  hit :
      (ps : List ProductProduct)
      → list_at (limit, offset) w.redis.cached_lists ≡ some (json ps)
      → list_products limit offset w ≡ (ok ps, w)
  unfolding list_products
  hit ps e = ground (arith, calm, e)

  miss :
      cache_hit (get_list_key (limit, offset) w.redis).0 ≡ none
      → list_products limit offset w ≡ load_list limit offset w
  unfolding list_products
  miss e = ground (arith, calm, e)

  load_err : (e : Error) → page_of limit offset w ≡ err e → load_list limit offset w ≡ (err e, w)
  unfolding load_list
  load_err e h = ground (arith, read_page, h)

  load_ok :
      (ps : List ProductProduct)
      → page_of limit offset w ≡ ok ps
      → load_list limit offset w
        ≡ (ok ps, record w { redis = (set_list_key (limit, offset) ps w.redis).1 })
  unfolding load_list
  load_ok ps h = ground (arith, read_page, h, calm)

  set_list-HasFreshPages :
      (ps : List ProductProduct)
      → HasFreshPages w
      → page_of limit offset w ≡ ok ps
      → HasFreshPages (record w { redis = (set_list_key (limit, offset) ps w.redis).1 })
  set_list-HasFreshPages ps f h l o qs e = elim (Bool-cases (same_page (limit, offset) (l, o))) [
    | inl s ↦
        let (same_limit, same_offset) = same_page→eq limit offset l o s in
        subst (λ i. page_of i o w ≡ ok qs) same_limit
          (subst (λ i. page_of limit i w ≡ ok qs) same_offset (h ∙ ap ok (ground (arith, e, s))))
    | inr s ↦ f l o qs (
        list_at-drop_list (l, o) (limit, offset) w.redis.cached_lists (json qs) s
          (ground (arith, e, s)))
  ]

  -- With no failing call and cached pages that are those of the table, a page that is read through the
  -- cache is that of the table, nothing changes but the cache, and the cached pages are still right.
  pub list_products-ListAgrees :
      HasFreshPages w
      → ListAgrees (list_products limit offset w) (Repository.list_products limit offset w)
  list_products-ListAgrees f =
      subst (ListAgrees (list_products limit offset w)) (sym read_page)
        (go (list_at (limit, offset) w.redis.cached_lists) refl)
    where
      read : Result Error (List ProductProduct) × ProductWorld
      read = (page_of limit offset w, w)

      loaded :
          (r : Result Error (List ProductProduct))
          → page_of limit offset w ≡ r
          → ListAgrees (load_list limit offset w) read
      loaded (err x) e =
          subst (λ q. ListAgrees q read) (sym (load_err x e))
            (record { answer = sym e; state = refl; fresh = f })
      loaded (ok ps) e =
          subst (λ q. ListAgrees q read) (sym (load_ok ps e))
            (record { answer = sym e; state = refl; fresh = set_list-HasFreshPages ps f e })

      go :
          (o : Option (Stored (List ProductProduct)))
          → list_at (limit, offset) w.redis.cached_lists ≡ o
          → ListAgrees (list_products limit offset w) read
      go (some (json ps)) e =
          subst (λ q. ListAgrees q read) (sym (hit ps e))
            (record { answer = sym (f limit offset ps e); state = refl; fresh = f })
      go (some (garbage t)) e =
          subst (λ q. ListAgrees q read) (sym (miss (ground (arith, e))))
            (loaded (page_of limit offset w) refl)
      go none e =
          subst (λ q. ListAgrees q read) (sym (miss (ground (arith, e))))
            (loaded (page_of limit offset w) refl)
