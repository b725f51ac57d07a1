-- ===== src/Concurrency/SymbolWorker/Life.antt =====
-- All that happens to a symbol: orders arrive in its queue, its worker runs, and orders are cancelled,
-- in any order. A round and a cancellation hold `StateMutex`, so each is one step.
use limit_order_book_v.Prelude.{
  ℕ, suc, ◌+◌, ◌%◌, ◌^◌, ◌<◌, ◌≡◌, refl, arith, Bool-cases, true, inl, inr, Option, none, some,
  ◌==◌, [], ap,
}
use limit_order_book_v.Domain.Pods.{OrderPod, nil_index}
use limit_order_book_v.Memory.OrderPool
use limit_order_book_v.Memory.OrderPool.{OrderPool, allocate, put, get}
use limit_order_book_v.Memory.OrderPool.Ownership.{init-Owns}
use limit_order_book_v.Storage.Levels.Update.{price_limit}
use limit_order_book_v.Storage.Binary.{BinaryOrderBook}
use limit_order_book_v.Storage.Binary.Book.Init.{nobody, init-IsBook}
use limit_order_book_v.Storage.Binary.Book.Cancel.{get-put}
use limit_order_book_v.Engine.Matching.{Engine}
use limit_order_book_v.Engine.Matching.Sound.{AtRest}
use limit_order_book_v.Engine.Matching.Sound.Placing.{allocate-Apart}
use limit_order_book_v.Engine.Matching.Processing.{process_order-AtRest}
use limit_order_book_v.Concurrency.LockFreeQueue
use limit_order_book_v.Concurrency.LockFreeQueue.{
  queue_capacity, LockFreeQueue, push, pushed, fill, pop,
}
use limit_order_book_v.Concurrency.SymbolWorker.{
  SymbolResources, SymbolWorker, blank_order, make_resources, started, match_order, record_trades,
  run_order, run_popped, run_round,
}
use limit_order_book_v.Routing.OrderRouter.{cancel_in}

-- A symbol and its worker.
pub record System : Type 0 where
  pub resources : SymbolResources
  pub worker : SymbolWorker

abbrev pub with_round : SymbolResources × SymbolWorker → System
with_round (r, w) = record { resources = r; worker = w }

-- The steps, as long as the counter of order ids does not wrap and the prices that arrive are below
-- `price_limit`, which the code does not test.
pub data Step (now : ℕ → ℕ) (s : System) : System → Type 0 where
  arrive :
      (order : OrderPod) (q : LockFreeQueue OrderPod)
      → order.price < price_limit
      → push queue_capacity order s.resources.queue ≡ pushed q
      → Step now s (record s { resources = record s.resources { queue = q } })
  round :
      s.worker.running ≡ true
      → s.worker.order_id + 1 < 2 ^ 32
      → Step now s (with_round (run_round now s.resources s.worker))
  cancel : (id : ℕ) → Step now s (record s { resources = cancel_in id s.resources })

pub data Reach (now : ℕ → ℕ) (symbol : ℕ) : System → Type 0 where
  start : Reach now symbol (record { resources = make_resources symbol; worker = started })
  later : {s t : System} → Reach now symbol s → Step now s t → Reach now symbol t

-- Every slot of the pool is free or waits in the book, once; the book is valid and not crossed; the
-- ids in it are older than the worker's counter; and the queue holds prices of the book.
pub record IsAlive (s : System) : Type 0 where
  pub rest : AtRest s.worker.order_id s.resources.pool s.resources.order_book
  pub priced : (i : ℕ) → (s.resources.queue.queue i).price < price_limit

pub start-IsAlive :
    (symbol : ℕ) → IsAlive (record { resources = make_resources symbol; worker = started })
unfolding make_resources LockFreeQueue.init
start-IsAlive symbol = record {
  rest = record {
    queue = nobody;
    book = init-IsBook (OrderPool.init blank_order);
    owned = [];
    owns = init-Owns blank_order;
    waiting = λ s p i w. cc;
    held = λ i h. absurd (omega arith);
    apart = λ s p i t. cc;
    mine = λ i t. cc;
    ids = λ s p i w. cc;
    uncrossed = λ p q i j bid ask. cc;
  };
  priced = λ i. omega arith;
}

run_order-AtRest :
    (now : ℕ → ℕ) (order : OrderPod) (r : SymbolResources) (w : SymbolWorker)
    → AtRest w.order_id r.pool r.order_book
    → order.price < price_limit
    → w.order_id + 1 < 2 ^ 32
    → let (r', w') = run_order now order r w in AtRest w'.order_id r'.pool r'.order_book
unfolding run_order match_order record_trades
run_order-AtRest now order r w a limit room =
    let (index, pool') = allocate r.pool in
    let o = record order { order_id = w.order_id } in
    let here = get-put index o pool' in
    elim (Bool-cases (index == nil_index)) [
      | inl e ↦ rw e a
      | inr f ↦
          let next : (w.order_id + 1) % 2 ^ 32 ≡ suc w.order_id = omega arith in
          let e : Engine BinaryOrderBook = record {
            pool = put index o pool';
            book = r.order_book;
            trade_counter = r.trader_counter;
            trades = [];
            readings = r.readings;
          } in
          rw (f, next)
            (process_order-AtRest now w.order_id index e
              (allocate-Apart w.order_id o r.pool r.order_book a (ground arith))
              (ap (λ x. x.order_id) here) (rw here limit))
    ]

pop-priced :
    (q : LockFreeQueue OrderPod)
    → ((i : ℕ) → (q.queue i).price < price_limit)
    → (i : ℕ) → ((pop queue_capacity q).1.queue i).price < price_limit
unfolding pop
pop-priced q h i = ground (arith, h i)

popped-priced :
    (q : LockFreeQueue OrderPod) (order : OrderPod)
    → ((i : ℕ) → (q.queue i).price < price_limit)
    → (pop queue_capacity q).0 ≡ some order
    → order.price < price_limit
unfolding pop
popped-priced q order h e = ground (arith, h (q.head % queue_capacity))

run_order-queue :
    (now : ℕ → ℕ) (order : OrderPod) (r : SymbolResources) (w : SymbolWorker)
    → (run_order now order r w).0.queue ≡ r.queue
unfolding run_order record_trades
run_order-queue now order r w = ground arith

pub run_round-IsAlive :
    (now : ℕ → ℕ) (s : System)
    → IsAlive s
    → s.worker.order_id + 1 < 2 ^ 32
    → IsAlive (with_round (run_round now s.resources s.worker))
unfolding run_round
run_round-IsAlive now s a room =
    let q = (pop queue_capacity s.resources.queue).1 in
    let r = record s.resources { queue = q } in
    let priced = pop-priced s.resources.queue a.priced in
    popped (pop queue_capacity s.resources.queue).0
      (λ order e. popped-priced s.resources.queue order a.priced e) r a.rest priced
  where
    popped :
        (item : Option OrderPod)
        → ((order : OrderPod) → item ≡ some order → order.price < price_limit)
        → (r : SymbolResources) → AtRest s.worker.order_id r.pool r.order_book
        → ((i : ℕ) → (r.queue.queue i).price < price_limit)
        → IsAlive (with_round (run_popped now item r s.worker))
    popped none h r rest priced = record { rest = rest; priced = priced }
    popped (some order) h r rest priced = record {
      rest = run_order-AtRest now order r s.worker rest (h order refl) room;
      priced = λ i. rw (run_order-queue now order r s.worker) (priced i);
    }
