-- ===== src/Concurrency/SymbolWorker.antt =====
-- include/Concurrency/SymbolWorker.h and src/Concurrency/SymbolWorker.cpp: what belongs to one symbol,
-- and the loop of its worker thread. A round of the loop runs under `StateMutex`.
pub mod Life
pub mod Steps
use limit_order_book_v.Prelude.{
  ℕ, ◌+◌, ◌%◌, ◌^◌, Bool, true, false, Option, none, some, List, [], ◌∷◌, ◌==◌, if◌then◌else◌,
  length,
}
use limit_order_book_v.Domain.Order.{buy, market, gtc, new}
use limit_order_book_v.Domain.Pods.{OrderPod, TradePod, nil_index}
use limit_order_book_v.Domain.TradeHistory
use limit_order_book_v.Domain.TradeHistory.{TradeHistory, push_all}
use limit_order_book_v.Memory.OrderPool
use limit_order_book_v.Memory.OrderPool.{OrderPool, allocate, put}
use limit_order_book_v.Storage.Binary
use limit_order_book_v.Storage.Binary.{BinaryOrderBook}
use limit_order_book_v.Engine.BookApi.{binary}
use limit_order_book_v.Engine.Matching.{Engine, process_order}
use limit_order_book_v.Concurrency.LockFreeQueue
use limit_order_book_v.Concurrency.LockFreeQueue.{queue_capacity, LockFreeQueue, pop}

abbrev pub trade_history_capacity : ℕ
trade_history_capacity = 10000

pub record SymbolStats : Type 0 where
  pub orders_processed : ℕ
  pub orders_rejected : ℕ
  pub queue_drops : ℕ
  pub trades_total : ℕ
  pub volume_total : ℕ

abbrev pub no_stats : SymbolStats
no_stats = record {
  orders_processed = 0;
  orders_rejected = 0;
  queue_drops = 0;
  trades_total = 0;
  volume_total = 0;
}

-- `trader_counter` is the engine's counter of trade ids, `readings` how often its clock was read.
pub record SymbolResources : Type 0 where
  pub symbol_id : ℕ
  pub pool : OrderPool
  pub queue : LockFreeQueue OrderPod
  pub order_book : BinaryOrderBook
  pub trader_counter : ℕ
  pub trades : TradeHistory TradePod
  pub stats : SymbolStats
  pub readings : ℕ

-- Value-initialised structures.
abbrev pub blank_order : OrderPod
blank_order = record {
  price = 0;
  timestamp = 0;
  order_id = 0;
  trader_id = 0;
  quantity = 0;
  symbol = 0;
  side = buy;
  type = market;
  tif = gtc;
  status = new;
  next = 0;
  prev = 0;
}

abbrev pub blank_trade : TradePod
blank_trade = record {
  price = 0;
  timestamp = 0;
  trade_id = 0;
  maker_id = 0;
  taker_id = 0;
  quantity = 0;
  symbol = 0;
}

unfoldable pub make_resources : ℕ → SymbolResources
make_resources symbol = record {
  symbol_id = symbol;
  pool = OrderPool.init blank_order;
  queue = LockFreeQueue.init queue_capacity blank_order;
  order_book = Binary.init;
  trader_counter = 1;
  trades = TradeHistory.init blank_trade trade_history_capacity;
  stats = no_stats;
  readings = 0;
}

-- The worker's counter of order ids, and `Running_`.
pub record SymbolWorker : Type 0 where
  pub order_id : ℕ
  pub running : Bool

abbrev pub started : SymbolWorker
started = record { order_id = 0; running = true }

unfoldable pub stop : SymbolWorker → SymbolWorker
stop w = record w { running = false }

-- `volume += trade.Quantity` over the trades of an order; `volume` is a `uint64_t`.
unfoldable pub volume_of : List TradePod → ℕ → ℕ
volume_of [] volume = volume
volume_of (t ∷ ts) volume = volume_of ts ((volume + t.quantity) % 2 ^ 64)

-- `now k` is what `NowTimestamp()` returns to the engine at its reading `k`.
module _ (now : ℕ → ℕ) where
  -- The engine on the order in slot `index`, with an empty vector of trades.
  unfoldable pub match_order : ℕ → SymbolResources → Engine BinaryOrderBook
  match_order index r = process_order binary now index (record {
    pool = r.pool;
    book = r.order_book;
    trade_counter = r.trader_counter;
    trades = [];
    readings = r.readings;
  })

  -- The bookkeeping after an order.
  unfoldable pub record_trades : Engine BinaryOrderBook → SymbolResources → SymbolResources
  unfolding volume_of
  record_trades e r = record r {
    pool = e.pool;
    order_book = e.book;
    trader_counter = e.trade_counter;
    readings = e.readings;
    trades = push_all r.trades e.trades;
    stats = record r.stats {
      trades_total = (r.stats.trades_total + length e.trades) % 2 ^ 64;
      volume_total = (r.stats.volume_total + volume_of e.trades 0) % 2 ^ 64;
      orders_processed = (r.stats.orders_processed + 1) % 2 ^ 64;
    };
  }

  abbrev reject_order : SymbolResources → SymbolResources
  reject_order r = record r {
    stats = record r.stats { orders_rejected = (r.stats.orders_rejected + 1) % 2 ^ 64 };
  }

  -- A popped order: it gets a slot and the next id, unless the pool is full.
  unfoldable pub run_order :
      OrderPod → SymbolResources → SymbolWorker → SymbolResources × SymbolWorker
  unfolding match_order record_trades
  run_order order r w =
      let (index, pool') = allocate r.pool in
      if index == nil_index
      then (reject_order r, w)
      else (let placed = record r {
        pool = put index (record order { order_id = w.order_id }) pool';
      } in
          (
            record_trades (match_order index placed) placed,
            record w { order_id = (w.order_id + 1) % 2 ^ 32 },
          ))

  abbrev run_popped :
      Option OrderPod → SymbolResources → SymbolWorker → SymbolResources × SymbolWorker
  run_popped none r w = (r, w)
  run_popped (some order) r w = run_order order r w

  -- One round of `Run`.
  unfoldable pub run_round : SymbolResources → SymbolWorker → SymbolResources × SymbolWorker
  unfolding run_order
  run_round r w =
      let (item, q) = pop queue_capacity r.queue in run_popped item (record r { queue = q }) w
