-- ===== src/Product/Start.antt =====
-- The configuration of services/product/go/internal/config/config.go, and what
-- services/product/go/cmd/server/main.go builds from it.
pub mod Choice
pub mod Main
pub mod Ready
use Prim.Native.String.{◌++◌ as append}
use flash_deals.Base.{ℤ, pos, String, Bool, true, false, ◌&&◌, Option, none, some, if◌then◌else◌}
use flash_deals.Env.{Environment, get_env, get_env_bool, get_env_int}
use flash_deals.Product.Repository.{ProductRepository, db_repository}
use flash_deals.Product.Repository.Cached.{cached_repository}
use flash_deals.Product.Hotdeal.{HotdealRepository}
use flash_deals.Product.Handler.{ProductHandler}
use flash_deals.Product.Server.{ProductServer}

pub record Config : Type 0 where
  pub app_port : String
  pub db_host : String
  pub db_port : String
  pub db_name : String
  pub db_user : String
  pub db_password : String
  pub redis_host : String
  pub redis_port : String
  pub enable_cache : Bool
  pub cache_ttl : ℤ
  pub hotdeal_stock_redis : Bool
  pub grpc_enabled : Bool
  pub grpc_port : String
  pub otel_enabled : Bool
  pub otel_service_name : String
  pub otel_exporter_endpoint : String

unfoldable pub load : Environment → Config
unfolding get_env get_env_bool get_env_int
load env = record {
  app_port = get_env env "APP_PORT" "8002";
  db_host = get_env env "DB_HOST" "localhost";
  db_port = get_env env "DB_PORT" "5432";
  db_name = get_env env "DB_NAME" "flash_deals";
  db_user = get_env env "DB_USER" "flash";
  db_password = get_env env "DB_PASSWORD" "flash1234";
  redis_host = get_env env "REDIS_HOST" "localhost";
  redis_port = get_env env "REDIS_PORT" "6379";
  enable_cache = get_env_bool env "ENABLE_CACHE" true;
  cache_ttl = get_env_int env "CACHE_TTL" (pos 60);
  hotdeal_stock_redis = get_env_bool env "HOTDEAL_STOCK_REDIS" false;
  grpc_enabled = get_env_bool env "GRPC_ENABLED" false;
  grpc_port = get_env env "GRPC_PORT" "50051";
  otel_enabled = get_env_bool env "OTEL_ENABLED" false;
  otel_service_name = get_env env "OTEL_SERVICE_NAME" "product-service";
  otel_exporter_endpoint = get_env env "OTEL_EXPORTER_OTLP_ENDPOINT" "http://localhost:4317";
}

unfoldable pub redis_addr : Config → String
redis_addr c = append c.redis_host (append ":" c.redis_port)

-- `redis_up` says whether the ping of Redis has succeeded.
unfoldable pub start_repository : Config → Bool → ProductRepository
start_repository cfg redis_up =
    if cfg.enable_cache && redis_up then cached_repository else db_repository

unfoldable pub start_hotdeal_repository : Config → Bool → Option HotdealRepository
start_hotdeal_repository cfg redis_up =
    if redis_up then some (record { connected = true; enabled = cfg.hotdeal_stock_redis }) else none

unfoldable pub start_handler : Config → Bool → ProductHandler
unfolding start_repository start_hotdeal_repository
start_handler cfg redis_up = record {
  repo = start_repository cfg redis_up;
  hotdeal_repo = start_hotdeal_repository cfg redis_up;
}

-- The server that `StartGRPCServer` makes of the same two.
unfoldable pub start_server : Config → Bool → ProductServer
unfolding start_repository start_hotdeal_repository
start_server cfg redis_up = record {
  repo = start_repository cfg redis_up;
  hotdeal_repo = start_hotdeal_repository cfg redis_up;
}

unfoldable pub database_url : Config → String
database_url c = append "postgres://" (
    append c.db_user (
      append ":" (
        append c.db_password (
          append "@" (
            append c.db_host (
              append ":" (append c.db_port (append "/" (append c.db_name "?sslmode=disable")))))))))
