-- ===== src/Order.antt =====
-- The order service, services/order/go.
pub mod State
pub mod Queries
pub mod Queue
pub mod Client
pub mod Service
pub mod Handler
pub mod Worker
pub mod Lifecycle
pub mod Start
