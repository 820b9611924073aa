-- ===== src/Order/Handler/Cases.antt =====
-- The ways that the head of a handler ends: refused with nothing done, or with the user and the order.
use text.Mathlib.Text.{◌==◌ as str_eq}
use flash_deals.Base.{
  ℕ, String, Bool, true, false, ◌≡◌, refl, Uuid, UuidText, Result, ok, err, if◌then◌else◌,
}
use flash_deals.Http.{Response, status_bad_request, status_unauthorized}
use flash_deals.Order.State.{OrderWorld}
use flash_deals.Order.Handler.{Refusal, error_json, Handle, with_user, with_order}

module _ {R A : Type 0} (ids : UuidText) (Q : Response Refusal A × OrderWorld R → Type 0)
    (text : String) (h : Uuid → Handle R A) (w : OrderWorld R)
    (refusal : (code : ℕ) (error message : String) → Q (error_json code error message, w))
    (good : (id : Uuid) → ids.parse text ≡ ok id → Q (h id w)) where
  pub with_order_cases : Q (with_order ids text h w)
  unfolding with_order
  with_order_cases = go (ids.parse text) refl
    where
      go :
          (r : Result String Uuid)
          → ids.parse text ≡ r
          → Q (elim r [
            | err e ↦
                (error_json status_bad_request "INVALID_ORDER_ID" "Invalid order ID format", w)
            | ok order_id ↦ h order_id w
          ])
      go (ok id) e = good id e
      go (err x) e = refusal status_bad_request "INVALID_ORDER_ID" "Invalid order ID format"

  pub with_user_cases : Q (with_user ids text h w)
  unfolding with_user
  with_user_cases = go (str_eq text "") (ids.parse text) refl
    where
      go :
          (b : Bool) (r : Result String Uuid)
          → ids.parse text ≡ r
          → Q (
              if b
              then (error_json status_unauthorized "UNAUTHORIZED" "X-User-ID header required", w)
              else (elim r [
                | err e ↦
                    (error_json status_bad_request "INVALID_USER_ID" "Invalid user ID format", w)
                | ok user_id ↦ h user_id w
              ]))
      go true r e = refusal status_unauthorized "UNAUTHORIZED" "X-User-ID header required"
      go false (ok id) e = good id e
      go false (err x) e = refusal status_bad_request "INVALID_USER_ID" "Invalid user ID format"
