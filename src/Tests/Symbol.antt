-- ===== src/Tests/Symbol.antt =====
-- Examples for a symbol: a sell order at 12 rests, then a buy order at 10.
use limit_order_book_v.Prelude.{ℕ, ◌<◌, ◌≡◌, ◌≢◌, refl, arith, false, true, write}
use limit_order_book_v.Domain.Order.{OrderSide, buy, sell, limit}
use limit_order_book_v.Domain.Pods.{OrderPod, nil_index}
use limit_order_book_v.Memory.OrderPool.{OrderPool, get, put, allocate}
use limit_order_book_v.Storage.Binary.{
  BinaryOrderBook, get_best_bid, get_best_ask, is_bid_empty, is_ask_empty,
}
use limit_order_book_v.Storage.Levels
use limit_order_book_v.Storage.PriceMap
use limit_order_book_v.Memory.IdIndexMap
use limit_order_book_v.Memory.OrderPool
use limit_order_book_v.Storage.Binary
use limit_order_book_v.Storage.Binary.{add_order}
use limit_order_book_v.Prelude.Bits.{set_bit, trailing_zeros}
use limit_order_book_v.Storage.LinkedList.{add_node}
use limit_order_book_v.Concurrency.LockFreeQueue
use limit_order_book_v.Engine.Matching.{
  process_order, process_sell_limit, process_buy_limit, match_order_ask, match_order_bid,
}
use limit_order_book_v.Concurrency.LockFreeQueue.{queue_capacity, LockFreeQueue, push, pushed, fill}
use limit_order_book_v.Concurrency.SymbolWorker.{blank_order, make_resources, started, run_round}
use limit_order_book_v.Concurrency.SymbolWorker.Life.{
  System, with_round, arrive, round, Reach, start, later, IsAlive,
}
use limit_order_book_v.Concurrency.SymbolWorker.Steps.{Reach-IsAlive, best_bid-lt-best_ask}

abbrev pub clock : ℕ → ℕ
clock k = k

abbrev pub order : OrderSide → ℕ → OrderPod
order side price = record blank_order { price = price; side = side; type = limit; quantity = 4 }

abbrev new_system : System
new_system = record { resources = make_resources 0; worker = started }

abbrev arrived : OrderSide → ℕ → System → System
arrived side price s = record s {
  resources = record s.resources {
    queue = fill queue_capacity (order side price) s.resources.queue;
  };
}

abbrev worked : System → System
worked s = with_round (run_round clock s.resources s.worker)

abbrev pub resting : OrderSide → ℕ → System
resting side price = worked (arrived side price new_system)

abbrev pub one_ask : System
one_ask = resting sell 12

abbrev pub one_bid : System
one_bid = resting buy 10

abbrev pub two_orders : System
two_orders = worked (arrived buy 10 one_ask)

-- What the runs come to.
pub record Runs : Type 0 where
  pub first_ask :
      push queue_capacity (order sell 12) new_system.resources.queue
      ≡ pushed (arrived sell 12 new_system).resources.queue
  pub first_bid :
      push queue_capacity (order buy 10) new_system.resources.queue
      ≡ pushed (arrived buy 10 new_system).resources.queue
  pub second :
      push queue_capacity (order buy 10) one_ask.resources.queue
      ≡ pushed (arrived buy 10 one_ask).resources.queue
  pub running : one_ask.worker.running ≡ true
  pub ids : one_ask.worker.order_id ≡ 1
  pub spare_bid : (allocate one_bid.resources.pool).0 ≢ nil_index
  pub spare_ask : (allocate one_ask.resources.pool).0 ≢ nil_index
  pub bid : is_bid_empty two_orders.resources.order_book ≡ false
  pub ask : is_ask_empty two_orders.resources.order_book ≡ false

pub runs : Runs
unfolding is_bid_empty Levels.is_empty run_round LockFreeQueue.pop push fill write make_resources
    LockFreeQueue.init allocate OrderPool.init process_order put process_sell_limit
    process_buy_limit match_order_ask match_order_bid Binary.init Levels.empty add_order add_node
    PriceMap.init PriceMap.at PriceMap.update IdIndexMap.init IdIndexMap.set Levels.set_price
    is_ask_empty Levels.mark set_bit get_best_ask Levels.lowest_price trailing_zeros
runs = record {
  first_ask = refl;
  first_bid = refl;
  second = refl;
  running = refl;
  ids = refl;
  spare_bid = omega arith;
  spare_ask = omega arith;
  bid = refl;
  ask = refl;
}

pub one_ask-Reach : Reach clock 0 one_ask
one_ask-Reach =
    later
      (later start (
        arrive (order sell 12) (fill queue_capacity (order sell 12) new_system.resources.queue)
          (omega arith) runs.first_ask))
      (round refl (omega arith))

pub one_bid-Reach : Reach clock 0 one_bid
one_bid-Reach =
    later
      (later start (
        arrive (order buy 10) (fill queue_capacity (order buy 10) new_system.resources.queue)
          (omega arith) runs.first_bid))
      (round refl (omega arith))

two_orders-Reach : Reach clock 0 two_orders
two_orders-Reach =
    later
      (later one_ask-Reach (
        arrive (order buy 10) (fill queue_capacity (order buy 10) one_ask.resources.queue)
          (omega arith) runs.second))
      (round runs.running (omega (arith, runs.ids)))

Reach-IsAlive_example : IsAlive two_orders
Reach-IsAlive_example = Reach-IsAlive two_orders-Reach

best_bid-lt-best_ask_example :
    let pool = two_orders.resources.pool in
    let b = two_orders.resources.order_book in
    (get pool (get_best_bid pool b)).price < (get pool (get_best_ask pool b)).price
best_bid-lt-best_ask_example = best_bid-lt-best_ask two_orders-Reach runs.bid runs.ask
