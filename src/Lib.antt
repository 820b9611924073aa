-- ===== src/Lib.antt =====
-- The order service and the product service of flash-deals, in Go.
--
-- The order service takes orders over HTTP. It asks the product service for prices by gRPC, has it
-- take the stock of each item, and writes the order with its items in one transaction of its own
-- PostgreSQL; where a later step fails it gives the stock back. The product service keeps the stock of
-- a product in its PostgreSQL, behind a row lock and a queue in front of it, or in Redis while a hot
-- deal has it there.
--
-- Files and code:
--   Rpc            the messages and operations of api/proto/product.proto, with their errors
--   Rpc/Stock      the interface: what a product service promises about the stock, as a record of laws
--   Order/State    the rows of services/order/go/internal/db/models.go and the outside world
--   Order/Queries  the statements of services/order/go/internal/db/query.sql.go, on the tables; Joined
--                  has the two with a LEFT JOIN
--   Order/Client   GetProduct, GetDeal, DecreaseStock and IncreaseStock of
--                  services/order/go/internal/product/client.go; Client/Stock has their effect, and
--                  Client/Init is InitClient and Close
--   Order/Service  services/order/go/internal/service/order.go: Pricing, Stock and Create are the steps
--                  of CreateOrder, Async is AsyncCreateOrder, Status has GetOrder, ConfirmOrder and
--                  CancelOrder, Lists is ListOrders; Transaction has the rules for the calls of a
--                  transaction, and Undo is an order that is created and then cancelled
--   Order/Lifecycle     the whole order service as a step relation, whose steps are requests and turns
--                  of the worker under any failures; Valid and Waiting are its invariant, Invariant and
--                  Follows what holds of its runs
--   Order/Handler  services/order/go/internal/handler/order.go, the HTTP handlers; Create is
--                  CreateOrder, and Cases has the ways that a handler's head ends
--   Order/Queue    services/order/go/internal/queue/order_queue.go, the queue of orders in Redis
--   Order/Worker   services/order/go/internal/queue/worker.go, which writes the queued orders;
--                  Drains is its loop over the whole queue, and Arrives an order through the queue
--   Product/State  the rows of services/product/go/internal/db/models.go, Redis, the outside world
--   Product/Queries     the statements of services/product/go/internal/db/query.sql.go
--   Product/Repository  internal/repository/interface.go and db_repository.go of services/product/go;
--                  Cached is cached_repository.go (Coherence has what holds of its
--                  products, Pages of its pages), Touches says which rows an update changes
--   Product/Hotdeal     internal/repository/hotdeal_repository.go, with its Lua script
--   Product/StockQueue  internal/queue/stock_queue.go, as one caller sees it; Channel has the channel and
--                  its worker as a step relation, Fifo and Drains what holds of its runs
--   Product/Server      internal/grpc/server.go; Promises shows that it keeps the laws of Rpc/Stock,
--                  Cache and its NewStock compare it over the two repositories, and
--                  Cache/Promises keeps the laws over either,
--                  Cache/Stocks says what a change of the stock does
--   Product/Handler     internal/handler/product.go, the HTTP handlers: Stock, Deals and Hotdeals have
--                  those of stocks, deals and hot deals; Over has the handlers with
--                  the cache or without
--   Http           statuses and answers of the handlers of both services
--   Order/Start, Product/Start, Env   internal/config/config.go of both services, and what their
--                  cmd/server/main.go builds from it; Main is main itself, Ready which starts succeed
--   System         the two services together, with the cache or without; Http has an order that comes
--                  in over HTTP, Started one where both services are as their main has built them
--   Tests          concrete runs
--   Base           integers, tables, calls with failures, texts, sorting
--
-- How it is modelled. A method is a function on a world: the tables, Redis, and the outcomes of the
-- calls of other processes that are still to come. A call is done, or refused with no effect, or done
-- with its answer lost on the way back; every failure is an outcome that the model can have. A
-- transaction is a copy of the tables, which `Commit` puts in the place of the old ones and which an
-- early return drops. int32 arithmetic wraps around. SQL statements come with the CHECKs, the foreign
-- keys and the column widths of services/order/db/schema.sql and services/product/db/schema.sql.
--
-- Bounds: there is no fuel in the services, since every loop goes over a list. A number is printed with
-- fuel for 20 digits, and an int32 has 10 at most. A UUID is a number, and its text is a parameter with
-- the round trip of format and parse as its law. `gen_random_uuid` and `NOW` are read from the tables'
-- counter and clock.
--
-- A handler is a function of the texts of its request (header, path and query), of what `c.Bind` makes
-- of the body, and of the world; `strconv.Atoi` and `time.Now` are arguments. A SELECT is a filter, a
-- sort and a page of the table; rows with equal keys stay in the table's order, which SQL leaves open.
-- A cached key may be dropped at any time, as its time to live does.
--
-- Order/Lifecycle runs whole methods one after the other, each with any outcome of its calls.
--
-- Not modelled: two requests that interleave inside one method, except in the HTTP update of a stock,
-- whose two transactions are steps of their own (PostgreSQL's row lock and Redis's single thread keep
-- the steps of the other updates together); Echo's matching of routes, which are a table here, its
-- middleware, telemetry and logging; the end of the processes; the generated protobuf code.
pub mod Base
pub mod Http
pub mod Env
pub mod Rpc
pub mod Product
pub mod Order
pub mod System
pub mod Tests
