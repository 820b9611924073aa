-- ===== src/Order/Handler/Bounds.antt =====
-- What the handler that lists orders can answer.
use mathlib.Core.Path.{subst}
use text.Mathlib.Text.{◌==◌ as str_eq}
use flash_deals.Base.{
  ℕ, ℤ, pos, ◌≤ℤ◌, ltb_ℤ, leb_ℤ, wrap32, wrap32_id, InInt32, wrap32-InInt32, String, Bool, true,
  false, ◌&&◌, ◌≡◌, refl, sym, ap, Option, none, some, List, [], ◌∷◌, map, Uuid, UuidText, Result,
  ok, err, inl, inr, arith, Bool-cases, if◌then◌else◌, AllOf,
}
use flash_deals.Http.{Response, status_ok}
use flash_deals.Order.State.{OrderWorld}
use flash_deals.Order.Service
use flash_deals.Order.Service.{Failure, service, raw, panicked}
use flash_deals.Order.Service.Status.Read.{Still}
use flash_deals.Order.Service.Lists.{list_orders}
use flash_deals.Order.Service.Lists.Shows.{Shows, list_orders-Shows}
use flash_deals.Order.Handler.Cases.{with_user_cases}
use flash_deals.Order.Handler.{
  Refusal, OrderResponse, OrderListResponse, list_answer, to_order_response, page_param, size_param,
  status_param, answer_list, list_orders_handler,
}

-- A size that is taken is in 32 bits as it is.
small :
    (n : ℤ)
    → (ltb_ℤ (pos 0) n && leb_ℤ n (pos 100)) ≡ true
    → (pos 1 ≤ℤ wrap32 n) × (wrap32 n ≤ℤ pos 100)
small n h =
    subst (λ z. (pos 1 ≤ℤ z) × (z ≤ℤ pos 100))
      (sym (wrap32_id n (ground (arith, h), ground (arith, h))))
      (ground (arith, h), ground (arith, h))

size_param_bounds :
    (atoi : String → Option ℤ) (t : String)
    → (pos 1 ≤ℤ size_param atoi t) × (size_param atoi t ≤ℤ pos 100)
size_param_bounds atoi t = go (str_eq t "") (atoi t)
  where
    go :
        (b : Bool) (o : Option ℤ)
        → (pos 1 ≤ℤ (
            if b then pos 20 else (elim o [
              | none ↦ pos 20
              | some n ↦ if ltb_ℤ (pos 0) n && leb_ℤ n (pos 100) then wrap32 n else pos 20
            ])))
          × ((if b then pos 20 else (elim o [
            | none ↦ pos 20
            | some n ↦ if ltb_ℤ (pos 0) n && leb_ℤ n (pos 100) then wrap32 n else pos 20
          ]))
              ≤ℤ pos 100)
    go true o = (omega arith, omega arith)
    go false none = (omega arith, omega arith)
    go false (some n) = elim (Bool-cases (ltb_ℤ (pos 0) n && leb_ℤ n (pos 100))) [
      | inl e ↦ rw e (small n e)
      | inr e ↦ rw e (omega arith, omega arith)
    ]

page_param-InInt32 : (atoi : String → Option ℤ) (t : String) → InInt32 (page_param atoi t)
page_param-InInt32 atoi t = go (str_eq t "") (atoi t)
  where
    go :
        (b : Bool) (o : Option ℤ)
        → InInt32 (
            if b
            then pos 1
            else (elim o [ none ↦ pos 1 | some n ↦ if ltb_ℤ (pos 0) n then wrap32 n else pos 1 ]))
    go true o = (omega arith, omega arith)
    go false none = (omega arith, omega arith)
    go false (some n) = elim (Bool-cases (ltb_ℤ (pos 0) n)) [
      | inl e ↦ rw e (wrap32-InInt32 n)
      | inr e ↦ rw e (omega arith, omega arith)
    ]

module _ (ids : UuidText) where
  -- An answer with a list: of the user's orders, on a page of 1 to 100.
  abbrev pub IsOwnList : Uuid → ℕ → Result Refusal OrderListResponse → Type 0
  IsOwnList user_id status (ok l) =
      (status ≡ status_ok)
      × (pos 1 ≤ℤ l.size)
      × (l.size ≤ℤ pos 100)
      × InInt32 l.page
      × AllOf (λ (o : OrderResponse). o.user_id ≡ ids.format user_id) l.items
  IsOwnList user_id status (err e) = Unit {0}

  all_formatted :
      (user_id : Uuid) (os : List Service.OrderResponse)
      → AllOf (λ (o : Service.OrderResponse). o.user_id ≡ user_id) os
      → AllOf
          (λ (o : OrderResponse). o.user_id ≡ ids.format user_id)
          (map (to_order_response ids) os)
  unfolding to_order_response
  all_formatted user_id [] h = tt
  all_formatted user_id (o ∷ os) (h, hs) = (ap ids.format h, all_formatted user_id os hs)

  -- What the handler has done for a header: the list is that of the header's user.
  abbrev pub Lists :
      {R : Type 0}
      → String
      → OrderWorld R
      → Response Refusal OrderListResponse × OrderWorld R
      → Type 0
  Lists user_id_str w q = Still w q.1 × (elim q.0.body [
    | ok l ↦
        (user_id : Uuid) × (ids.parse user_id_str ≡ ok user_id)
        × IsOwnList user_id q.0.status (ok l)
    | err e ↦ Unit {0}
  ])

  abbrev list_response :
      (String → Option ℤ) → String → String → List Service.OrderResponse × ℤ → OrderListResponse
  list_response atoi page_text size_text p = record {
    items = map (to_order_response ids) p.0;
    total = p.1;
    page = page_param atoi page_text;
    size = size_param atoi size_text;
  }

  module _ {R : Type 0} (atoi : String → Option ℤ) (page_text size_text : String) where
    answered-Lists :
        (user_id_str : String) (user_id : Uuid) (w : OrderWorld R)
        (p : Result Failure (List Service.OrderResponse × ℤ) × OrderWorld R)
        → ids.parse user_id_str ≡ ok user_id
        → Shows user_id w p
        → Lists {R = R} user_id_str w
            (list_answer (list_response atoi page_text size_text) p.0, p.1)
    answered-Lists user_id_str user_id w (ok (os, n), w') parsed (own, still) = (
      still,
      (
        user_id,
        parsed,
        (
          refl,
          (size_param_bounds atoi size_text).0,
          (size_param_bounds atoi size_text).1,
          page_param-InInt32 atoi page_text,
          all_formatted user_id os own,
        ),
      ),
    )
    answered-Lists user_id_str user_id w (err (service e), w') parsed still = (still, tt)
    answered-Lists user_id_str user_id w (err (raw e), w') parsed still = (still, tt)
    answered-Lists user_id_str user_id w (err (panicked t), w') parsed still = (still, tt)

    -- Whatever the texts of the request are, and whatever the database does, `ListOrders` changes nothing;
    -- an answer with a list is 200, its size is from 1 to 100, its page is in 32 bits, and every order in
    -- it is one of the user of the header.
    pub list_orders_handler-Lists :
        (user_id_str status_text : String) (w : OrderWorld R)
        → Lists user_id_str w
            (list_orders_handler ids atoi user_id_str page_text size_text status_text w)
    unfolding list_orders_handler answer_list
    list_orders_handler-Lists user_id_str status_text w =
        with_user_cases ids (Lists user_id_str w) user_id_str
          (answer_list ids atoi page_text size_text status_text) w
          (λ code error message. ((refl, refl, refl), tt))
          (λ user_id parsed.
            answered-Lists user_id_str user_id w
              (list_orders user_id (page_param atoi page_text) (size_param atoi size_text)
                (status_param status_text) w)
              parsed
              (list_orders-Shows user_id (page_param atoi page_text) (size_param atoi size_text)
                (status_param status_text) w))
