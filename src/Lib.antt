-- ===== src/Lib.antt =====
-- Verification of the limit order book: an in-memory exchange that takes orders from a TCP server or
-- a user interface, queues them per symbol, and matches them by price and time.
--
-- The parts, from the outside in. `TcpServer::HandleConnection` (src/Networking) cuts the bytes of a
-- connection into frames and hands each decoded request to `CoreEngine` (src/Engine), which passes it
-- to `OrderRouter` (src/Routing). The router gives every symbol an id, its resources and a worker, and
-- pushes the order into the symbol's `LockFreeQueue` (include/Concurrency). The worker's loop
-- (`SymbolWorker::Run`) pops it, places it in a slot of the `OrderPool` (src/Memory) and runs
-- `MatchingEngine` (include/Engine) on the symbol's order book (src/Storage). Trades go into the
-- `TradeHistory` (include/Domain).
--
-- The files follow the source:
--   Domain       include/Domain, src/Domain: enumerations and names, structures, `float` prices,
--                the trade history
--   Memory       include/Memory, src/Memory: the pool of orders and the map from ids to slots
--   Storage      include/Storage, src/Storage: `Levels` is the four-level bitmap of prices,
--                `LinkedList` the queue of a price, `PriceMap` the paged map of queues, `Binary` the
--                book made of them, `Multiset` the book on sorted sets
--   Engine       include/Engine, src/Engine: `Matching` over any book (`BookApi` is what the template
--                parameter must have, `Matching/Trading` what matching relies on in it, which
--                `Matching/Binary` shows of the binary book), `CoreEngine` the interface to the rest,
--                with `CoreEngine/Csv` and `Saving` for orders.csv
--   Concurrency  include/Concurrency, src/Concurrency: `LockFreeQueue` as its calls run alone,
--                `LockFreeQueue/Threads` as producers and the consumer interleave, `SymbolWorker` a
--                round of the worker's loop, `SymbolWorker/Life` all that happens to a symbol,
--                `OrderQueue` the queue behind a mutex with its waiting threads, `Worker` its loop,
--                `ClientSimulator` the client that sends random orders
--   Routing      include/Routing, src/Routing
--   Networking   include/Networking, src/Networking: the protocol, the framing, and in
--                `TcpServer/Lifecycle` the threads of the server as they interleave
--   UserInterface  include/UI, src/UI: the order form
--   Prelude      shared names, lists, arrays and words; Tests: runs and examples
--
-- Function names are those of the source in lower case: `AddOrder` is `add_order`. State is passed
-- explicitly; a book and the pool that it shares with its symbol go together. Numbers are natural
-- numbers; where the source computes in 32 or 64 bits the remainder is written out. An `int` is its
-- 32-bit pattern. A vector or array is a function of the index with its size, read and written below
-- the size. A `float` is its exact value, and its operations round as IEEE 754 single precision does.
--
-- Loops that follow links or match orders run on fuel. A price queue and the matching loop have at
-- most as many rounds as the pool has slots (`default_capacity`); a scan of a 64-bit word has at most
-- 64; the framing loop takes 20 bytes or more in a round, so the length of the buffer is enough; a
-- 64-bit number has at most 20 digits; `Worker::run` takes a request from its queue in each round.
--
-- Parameters: the readings of the clock, the draws of a random generator, what the user enters, what
-- the compiled code makes of a conversion from `float` that C++ leaves undefined, and in orders.csv
-- the text of a `float` as the standard library writes and reads it.
--
-- Not modelled: the other panels of the user interface and the entry point (drawing), the set-up of
-- sockets (input and output), and memory orders weaker than sequential consistency.
pub mod Prelude
pub mod Domain
pub mod Memory
pub mod Storage
pub mod Engine
pub mod Concurrency
pub mod Routing
pub mod Networking
pub mod UserInterface
pub mod Tests
