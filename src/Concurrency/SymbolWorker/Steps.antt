-- ===== src/Concurrency/SymbolWorker/Steps.antt =====
-- Every state of a symbol that its steps lead to.
use limit_order_book_v.Prelude.{ℕ, ◌<◌, ◌≡◌, arith, ap, false, write_lem, ◌%◌, inl, inr, true, List}
use limit_order_book_v.Domain.Order.{buy, sell}
use limit_order_book_v.Domain.Pods.{OrderPod}
use limit_order_book_v.Memory.OrderPool.{OrderPool, get}
use limit_order_book_v.Storage.Levels
use limit_order_book_v.Storage.Levels.Best.{is_empty_iff}
use limit_order_book_v.Storage.Levels.Update.{price_limit}
use limit_order_book_v.Storage.LinkedList.Chain.{has_index}
use limit_order_book_v.Storage.Binary.{
  HalfBook, get_best_bid, get_best_ask, is_bid_empty, is_ask_empty,
}
use limit_order_book_v.Storage.Binary.Half
use limit_order_book_v.Storage.Binary.Half.Best.{BestOf, get_best_bid-BestOf, get_best_ask-BestOf}
use limit_order_book_v.Engine.Matching.Sound.Removal.{cancel_order-IsSound}
use limit_order_book_v.Concurrency.LockFreeQueue.{queue_capacity, LockFreeQueue, push, pushed}
use limit_order_book_v.Concurrency.SymbolWorker.Life.{
  System, Step, arrive, round, cancel, Reach, start, later, IsAlive, start-IsAlive,
  run_round-IsAlive,
}
use limit_order_book_v.Routing.OrderRouter.{cancel_in}

push-priced :
    (order : OrderPod) (q q' : LockFreeQueue OrderPod)
    → order.price < price_limit
    → ((i : ℕ) → (q.queue i).price < price_limit)
    → push queue_capacity order q ≡ pushed q'
    → (i : ℕ) → (q'.queue i).price < price_limit
unfolding push
push-priced order q q' limit h e i =
    ground (arith, h i, write_lem q.queue (q.tail % queue_capacity) order i)

Step-IsAlive : {now : ℕ → ℕ} {s t : System} → Step now s t → IsAlive s → IsAlive t
unfolding cancel_in
Step-IsAlive {now} {s} (arrive order q limit e) a = record {
  rest = a.rest;
  priced = push-priced order s.resources.queue q limit a.priced e;
}
Step-IsAlive {now} {s} (round on room) a = run_round-IsAlive now s a room
Step-IsAlive {now} {s} (cancel id) a = record {
  rest = cancel_order-IsSound id s.resources.pool s.resources.order_book a.rest;
  priced = a.priced;
}

-- However arrivals of orders, rounds of the worker and cancellations follow each other, as long as the
-- ids last and the prices are below `price_limit`: the book is valid and is not crossed, every slot
-- of the pool is free or holds one order that waits in the book, and the ids of the orders that wait
-- are older than the worker's counter.
pub Reach-IsAlive : {now : ℕ → ℕ} {symbol : ℕ} {s : System} → Reach now symbol s → IsAlive s
Reach-IsAlive {now} {symbol} start = start-IsAlive symbol
Reach-IsAlive (later r st) = Step-IsAlive st (Reach-IsAlive r)

-- The best order of a side that is not empty waits at its price.
best_waits :
    {better : ℕ → ℕ → Type 0} {pool : OrderPool} {h : HalfBook} {queue : ℕ → List ℕ} (best : ℕ)
    → Half.IsValid pool h queue
    → BestOf better queue best
    → Levels.is_empty h.levels ≡ false
    → has_index best (queue (get pool best).price) ≡ true
best_waits {better} {pool} {h} {queue} best v (inl (e, none_left)) some_order =
    ground (arith, (is_empty_iff v.coherent).1 (λ q. ground (arith, v.marked q, none_left q)))
best_waits {better} {pool} {h} {queue} best v (inr (p, (is, (e, rest)))) some_order =
    let here : has_index best (queue p) ≡ true = ground (arith, ap (has_index best) e) in
    rw (v.priced p best here) here

-- After any arrivals of orders, rounds of the worker and cancellations, as long as the ids last and
-- the prices are below `price_limit`: where both sides have orders, the price of the bid that
-- `GetBestBid` finds is below that of the ask that `GetBestAsk` finds.
pub best_bid-lt-best_ask :
    {now : ℕ → ℕ} {symbol : ℕ} {s : System}
    → Reach now symbol s
    → let pool = s.resources.pool in
      let b = s.resources.order_book in
      is_bid_empty b ≡ false
      → is_ask_empty b ≡ false
      → (get pool (get_best_bid pool b)).price < (get pool (get_best_ask pool b)).price
unfolding is_bid_empty is_ask_empty
best_bid-lt-best_ask {s} r some_bid some_ask =
    let pool = s.resources.pool in
    let b = s.resources.order_book in
    let a = (Reach-IsAlive r).rest in
    a.uncrossed _ _ (get_best_bid pool b) (get_best_ask pool b)
      (best_waits (get_best_bid pool b) (a.book.halves buy)
        (get_best_bid-BestOf pool b (a.book.halves buy)) some_bid)
      (best_waits (get_best_ask pool b) (a.book.halves sell)
        (get_best_ask-BestOf pool b (a.book.halves sell)) some_ask)
