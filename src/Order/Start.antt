-- ===== src/Order/Start.antt =====
-- The configuration of services/order/go/internal/config/config.go, and the handler that
-- services/order/go/cmd/server/main.go builds from it.
pub mod Main
pub mod Ready
use Prim.Native.String.{◌++◌ as append}
use flash_deals.Base.{String, Bool, false}
use flash_deals.Env.{Environment, get_env, get_env_bool}

pub record Config : Type 0 where
  pub app_port : String
  pub db_host : String
  pub db_port : String
  pub db_name : String
  pub db_user : String
  pub db_password : String
  pub redis_host : String
  pub redis_port : String
  pub async_order_enabled : Bool
  pub product_grpc_host : String
  pub product_grpc_port : String
  pub otel_enabled : Bool
  pub otel_service_name : String
  pub otel_exporter_endpoint : String

unfoldable pub load : Environment → Config
unfolding get_env get_env_bool
load env = record {
  app_port = get_env env "APP_PORT" "8003";
  db_host = get_env env "DB_HOST" "localhost";
  db_port = get_env env "DB_PORT" "5432";
  db_name = get_env env "DB_NAME" "flash_deals";
  db_user = get_env env "DB_USER" "flash";
  db_password = get_env env "DB_PASSWORD" "flash1234";
  redis_host = get_env env "REDIS_HOST" "redis";
  redis_port = get_env env "REDIS_PORT" "6379";
  async_order_enabled = get_env_bool env "ASYNC_ORDER_ENABLED" false;
  product_grpc_host = get_env env "PRODUCT_GRPC_HOST" "product";
  product_grpc_port = get_env env "PRODUCT_GRPC_PORT" "50051";
  otel_enabled = get_env_bool env "OTEL_ENABLED" false;
  otel_service_name = get_env env "OTEL_SERVICE_NAME" "order-service";
  otel_exporter_endpoint = get_env env "OTEL_EXPORTER_OTLP_ENDPOINT" "http://localhost:4317";
}

unfoldable pub redis_addr : Config → String
redis_addr c = append c.redis_host (append ":" c.redis_port)

unfoldable pub product_grpc_addr : Config → String
product_grpc_addr c = append c.product_grpc_host (append ":" c.product_grpc_port)

unfoldable pub database_url : Config → String
database_url c = append "postgres://" (
    append c.db_user (
      append ":" (
        append c.db_password (
          append "@" (
            append c.db_host (
              append ":" (append c.db_port (append "/" (append c.db_name "?sslmode=disable")))))))))
