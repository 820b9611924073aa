-- ===== src/Product.antt =====
-- The product service, services/product/go.
pub mod State
pub mod Queries
pub mod Repository
pub mod Hotdeal
pub mod StockQueue
pub mod Server
pub mod Handler
pub mod Start
