-- ===== src/Engine/CoreEngine.antt =====
-- include/Engine/CoreEngine.h and src/Engine/CoreEngine.cpp: the interface of the trading logic to the
-- server and the user interface. A `float`, an `int` and a time point are as elsewhere a `Float`, a
-- 32-bit pattern and nanoseconds.
pub mod Csv
pub mod Saving
pub mod Reading
pub mod Restart
pub mod Reload
pub mod Answers
use limit_order_book_v.Prelude.{ℕ, List, [], ◌∷◌, map}
use limit_order_book_v.Domain.Text.{Bytes}
use limit_order_book_v.Domain.Float.{Float}
use limit_order_book_v.Domain.Order.{Order, Result, ok, ◌>>=◌, make_order}
use limit_order_book_v.Domain.Pods.{OrderPod, TradePod, Trade}
use limit_order_book_v.Routing.OrderRouter
use limit_order_book_v.Routing.OrderRouter.{OrderRouter, Call}

-- The only state of `CoreEngine` is `Router_`.
unfoldable pub create_order :
    (Float → ℕ)
    → ℕ
    → (price : Float) (quantity : ℕ) (type symbol tif : Bytes) (trader_id : ℕ) (side : Bytes)
    → OrderRouter
    → Call
create_order undefined now price quantity type symbol tif trader_id side r =
    OrderRouter.route undefined now
      (record {
        price = price;
        quantity = quantity;
        type = type;
        symbol = symbol;
        tif = tif;
        trader_id = trader_id;
        side = side;
      })
      r

unfoldable pub cancel_order : ℕ → Bytes → OrderRouter → OrderRouter
cancel_order order_id symbol r = OrderRouter.cancel_order order_id symbol r

-- The constructor of `Trade` checks nothing.
unfoldable pub make_trade : Bytes → TradePod → Trade
make_trade symbol item = record {
  id = item.trade_id;
  maker_id = item.maker_id;
  taker_id = item.taker_id;
  price = item.price;
  quantity = item.quantity;
  symbol = symbol;
  timestamp = item.timestamp;
}

unfoldable pub get_trades_history : Bytes → OrderRouter → List Trade
get_trades_history symbol r = map (make_trade symbol) (OrderRouter.get_trades_history symbol r)

-- What `GetOrder` passes to the constructor of `Order`, which throws on what it does not allow.
abbrev pub as_order : Bytes → OrderPod → Order
as_order symbol item = record {
  order_id = item.order_id;
  trader_id = item.trader_id;
  side = item.side;
  type = item.type;
  symbol = symbol;
  price = item.price;
  quantity = item.quantity;
  timestamp = item.timestamp;
  tif = item.tif;
  status = item.status;
}

unfoldable pub get_order : Bytes → OrderPod → Result Order
get_order symbol item = make_order (as_order symbol item)

-- The loop that fills `result`; the first order that cannot be made ends it.
unfoldable pub make_orders : Bytes → List OrderPod → Result (List Order)
unfolding get_order
make_orders symbol [] = ok []
make_orders symbol (item ∷ items) =
    get_order symbol item >>= λ order. make_orders symbol items >>= λ rest. ok (order ∷ rest)

unfoldable pub get_orders : Bytes → OrderRouter → Result (List Order)
unfolding make_orders
get_orders symbol r = make_orders symbol (OrderRouter.get_orders symbol r)

unfoldable pub get_best_bids : ℕ → Bytes → OrderRouter → Result (List Order)
unfolding make_orders
get_best_bids x symbol r = make_orders symbol (OrderRouter.get_bids x symbol r)

unfoldable pub get_best_asks : ℕ → Bytes → OrderRouter → Result (List Order)
unfolding make_orders
get_best_asks x symbol r = make_orders symbol (OrderRouter.get_asks x symbol r)
