-- ===== src/Routing/OrderRouter.antt =====
-- include/Routing/OrderRouter.h and src/Routing/OrderRouter.cpp. The maps are written only under
-- `RegisteryMutex_`, so a call sees one state of them.
pub mod Registry
pub mod Routes
pub mod Accepts
pub mod Queueing
use mathlib.Core.Option
use limit_order_book_v.Prelude.{
  ℕ, ◌+◌, ◌%◌, ◌^◌, Option, none, some, List, [], ◌∷◌, ◌++◌, map, if◌then◌else◌, write,
}
use limit_order_book_v.Domain.Text.{Bytes, eq_bytes}
use limit_order_book_v.Domain.Float.{Float, to_ticks}
use limit_order_book_v.Domain.Order.{
  Fault, Result, ok, throw, ◌>>=◌, to_order_side, to_order_type, to_time_in_force, new,
}
use limit_order_book_v.Domain.Pods.{OrderPod, TradePod, OrderRequest, nil_index}
use limit_order_book_v.Domain.TradeHistory.{snapshot}
use limit_order_book_v.Memory.OrderPool.{get, default_capacity}
use limit_order_book_v.Storage.Binary
use limit_order_book_v.Storage.Binary.Depth.{get_best_bids, get_best_asks}
use limit_order_book_v.Concurrency.LockFreeQueue.{
  queue_capacity, Outcome, pushed, refused, spinning, push,
}
use limit_order_book_v.Concurrency.SymbolWorker.{
  SymbolResources, SymbolStats, no_stats, SymbolWorker, make_resources, started, stop,
}

-- `symbol_hash` is the map `SymbolHash_` as a list of its pairs; the latest is first.
pub record OrderRouter : Type 0 where
  pub symbol_hash : List (Bytes × ℕ)
  pub resources : ℕ → Option SymbolResources
  pub worker : ℕ → Option SymbolWorker
  pub symbol_id : ℕ

unfoldable pub init : OrderRouter
init = record { symbol_hash = []; resources = λ _. none; worker = λ _. none; symbol_id = 0 }

unfoldable pub find : Bytes → List (Bytes × ℕ) → Option ℕ
find symbol [] = none
find symbol ((s, id) ∷ rest) = if eq_bytes s symbol then some id else find symbol rest

-- The second part of `CheckRegistery`: a symbol that is not found gets an id, resources and a worker.
unfoldable pub register : Option ℕ → Bytes → OrderRouter → ℕ × OrderRouter
register (some id) symbol r = (id, r)
register none symbol r = (
  r.symbol_id,
  record {
    symbol_hash = (symbol, r.symbol_id) ∷ r.symbol_hash;
    resources = write r.resources r.symbol_id (some (make_resources r.symbol_id));
    worker = write r.worker r.symbol_id (some started);
    symbol_id = (r.symbol_id + 1) % 2 ^ 32;
  },
)

unfoldable pub check_registery : Bytes → OrderRouter → ℕ × OrderRouter
unfolding find register
check_registery symbol r = register (find symbol r.symbol_hash) symbol r

unfoldable pub check_symbol_id : Bytes → OrderRouter → Option ℕ
check_symbol_id symbol r = find symbol r.symbol_hash

-- The order that `Load` and `Route` build. The names are converted in the members' order.
unfoldable pub make_pod : (Float → ℕ) → ℕ → ℕ → OrderRequest Float → Result OrderPod
make_pod undefined timestamp symbol request = to_order_side request.side >>= λ side.
    to_order_type request.type >>= λ type. to_time_in_force request.tif >>= λ tif. ok (record {
      price = to_ticks undefined request.price;
      timestamp = timestamp;
      order_id = nil_index;
      trader_id = request.trader_id;
      quantity = request.quantity;
      symbol = symbol;
      side = side;
      type = type;
      tif = tif;
      status = new;
      next = 0;
      prev = 0;
    })

-- How a call ends: it returns, it throws, or its push goes round until the queue changes.
pub data Call : Type 0 where
  returned spun : OrderRouter → Call
  thrown : Fault → OrderRouter → Call

-- What the push leaves of the symbol's resources.
abbrev pub queued : ℕ → SymbolResources → Outcome OrderPod → OrderRouter → Call
queued id s (pushed q) r =
    returned (record r { resources = write r.resources id (some (record s { queue = q })) })
queued id s refused r = returned (record r {
  resources = write r.resources id (
      some
        (record s { stats = record s.stats { queue_drops = (s.stats.queue_drops + 1) % 2 ^ 64 } }));
})
queued id s spinning r = spun r

-- `Resources_.at(SymbolHash)`, which throws where the id has no resources.
abbrev pub push_to : Option SymbolResources → ℕ → OrderPod → OrderRouter → Call
push_to none id order r = thrown Fault.out_of_range r
push_to (some s) id order r = queued id s (push queue_capacity order s.queue) r

abbrev pub enqueue : ℕ → Result OrderPod → OrderRouter → Call
enqueue id (throw fault) r = thrown fault r
enqueue id (ok order) r = push_to (r.resources id) id order r

-- `Load` takes the timestamp from the caller, `Route` from the clock.
unfoldable pub load : (Float → ℕ) → ℕ → OrderRequest Float → OrderRouter → Call
unfolding check_registery make_pod
load undefined timestamp request r =
    let (id, r') = check_registery request.symbol r in
    enqueue id (make_pod undefined timestamp id request) r'

unfoldable pub route : (Float → ℕ) → ℕ → OrderRequest Float → OrderRouter → Call
unfolding check_registery make_pod
route undefined now request r =
    let (id, r') = check_registery request.symbol r in
    enqueue id (make_pod undefined now id request) r'

-- The resources of a symbol, when it has been registered.
abbrev pub resources_at : Option ℕ → OrderRouter → Option SymbolResources
resources_at none r = none
resources_at (some id) r = r.resources id

abbrev pub resources_of : Bytes → OrderRouter → Option SymbolResources
resources_of symbol r = resources_at (check_symbol_id symbol r) r

unfoldable pub cancel_in : ℕ → SymbolResources → SymbolResources
cancel_in order_id s =
    let (_, pool, book) = Binary.cancel_order order_id s.pool s.order_book in
    record s { pool = pool; order_book = book }

abbrev cancel_at : ℕ → Option ℕ → OrderRouter → OrderRouter
cancel_at order_id none r = r
cancel_at order_id (some id) r = record r {
  resources = write r.resources id (Option.map (cancel_in order_id) (r.resources id));
}

unfoldable pub cancel_order : ℕ → Bytes → OrderRouter → OrderRouter
unfolding cancel_in
cancel_order order_id symbol r = cancel_at order_id (check_symbol_id symbol r) r

-- The queries answer with copies of the orders, and with nothing for an unknown symbol.
abbrev orders_at : SymbolResources → List ℕ → List OrderPod
orders_at s indices = map (get s.pool) indices

abbrev pub query : {B : Type 0} → B → (SymbolResources → B) → Option SymbolResources → B
query missing answer none = missing
query missing answer (some s) = answer s

unfoldable pub get_trades_history : Bytes → OrderRouter → List TradePod
get_trades_history symbol r = query [] (λ s. snapshot s.trades) (resources_of symbol r)

unfoldable pub get_stats : Bytes → OrderRouter → SymbolStats
get_stats symbol r = query no_stats (λ s. s.stats) (resources_of symbol r)

unfoldable pub get_orders : Bytes → OrderRouter → List OrderPod
get_orders symbol r =
    query []
      (λ s.
        orders_at s (get_best_bids default_capacity s.pool s.order_book)
        ++ orders_at s (get_best_asks default_capacity s.pool s.order_book))
      (resources_of symbol r)

-- `x` is an `int`, converted to `uint32_t`.
unfoldable pub get_bids : ℕ → Bytes → OrderRouter → List OrderPod
get_bids x symbol r =
    query [] (λ s. orders_at s (get_best_bids x s.pool s.order_book)) (resources_of symbol r)

unfoldable pub get_asks : ℕ → Bytes → OrderRouter → List OrderPod
get_asks x symbol r =
    query [] (λ s. orders_at s (get_best_asks x s.pool s.order_book)) (resources_of symbol r)

-- The order of the symbols is that of the hash map, which nothing fixes: here it is the list's.
unfoldable pub get_all_orders : OrderRouter → List (Bytes × List OrderPod)
unfolding get_orders
get_all_orders r = map (λ (symbol, id). (symbol, get_orders symbol r)) r.symbol_hash

-- Every worker is told to stop; joining them is waiting for their threads.
unfoldable pub shut_down : OrderRouter → OrderRouter
shut_down r = record r { worker = λ id. Option.map stop (r.worker id) }
