-- ===== src/Tests.antt =====
-- Concrete runs of the two services, and the theorems applied to them.
mod World
mod Orders
mod Placed
mod Status
mod Async
mod Products
mod Http
mod Cache
mod Lifecycle
mod Lists
mod Joined
mod Queue
mod Start
mod Arrives
