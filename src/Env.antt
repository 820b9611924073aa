-- ===== src/Env.antt =====
-- The helpers that read the environment, of services/product/go/internal/config/config.go; the order
-- service has the first two in the same words. `os.Getenv` and the parsers of strconv are parameters.
use text.Mathlib.Text.{◌==◌ as str_eq}
use flash_deals.Base.{ℤ, String, Bool, Option, none, some, if◌then◌else◌}

pub record Environment : Type 0 where
  pub get : String → String
  pub parse_bool : String → Option Bool
  pub atoi : String → Option ℤ

unfoldable pub get_env : Environment → String → String → String
get_env env key default = let value = env.get key in if str_eq value "" then default else value

unfoldable pub get_env_bool : Environment → String → Bool → Bool
get_env_bool env key default =
    let value = env.get key in
    if str_eq value ""
    then default
    else (elim (env.parse_bool value) [ none ↦ default | some parsed ↦ parsed ])

unfoldable pub get_env_int : Environment → String → ℤ → ℤ
get_env_int env key default =
    let value = env.get key in
    if str_eq value ""
    then default
    else (elim (env.atoi value) [ none ↦ default | some parsed ↦ parsed ])
