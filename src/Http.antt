-- ===== src/Http.antt =====
-- What the HTTP handlers of the two services answer with: a status of net/http, and the value that
-- `c.JSON` is given.
use flash_deals.Base.{ℕ, Result, ok, err}

abbrev pub status_ok : ℕ
status_ok = 200

abbrev pub status_created : ℕ
status_created = 201

abbrev pub status_accepted : ℕ
status_accepted = 202

abbrev pub status_bad_request : ℕ
status_bad_request = 400

abbrev pub status_unauthorized : ℕ
status_unauthorized = 401

abbrev pub status_not_found : ℕ
status_not_found = 404

abbrev pub status_internal_server_error : ℕ
status_internal_server_error = 500

-- `E` is the body of an error, `A` that of a success.
pub record Response (E A : Type 0) : Type 0 where
  pub status : ℕ
  pub body : Result E A

abbrev pub reply : {E A : Type 0} → ℕ → A → Response E A
reply code a = record { status = code; body = ok a }

abbrev pub refuse : {E A : Type 0} → ℕ → E → Response E A
refuse code e = record { status = code; body = err e }
