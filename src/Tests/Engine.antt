-- ===== src/Tests/Engine.antt =====
-- Examples for matching over the binary book: an order meets one that rests.
use limit_order_book_v.Prelude.{ℕ, suc, ◌≡◌, ◌≤◌, ap, arith, false, List, [], ◌++◌}
use limit_order_book_v.Domain.Pods.{TradePod}
use limit_order_book_v.Domain.Order.{OrderSide, buy, sell}
use limit_order_book_v.Memory.OrderPool.{get, put, allocate}
use limit_order_book_v.Storage.Binary.{BinaryOrderBook}
use limit_order_book_v.Storage.Binary.Book.Cancel.{get-put}
use limit_order_book_v.Engine.BookApi.{binary}
use limit_order_book_v.Engine.Matching.Priority.{InOrder, AnyPrice}
use limit_order_book_v.Engine.Matching.Priority.Asks.{match_order_bid-InOrder}
use limit_order_book_v.Engine.Matching.Priority.Bids.{match_order_ask-InOrder}
use limit_order_book_v.Engine.Matching.{
  Engine, match_order_bid, match_order_ask, crosses_bid, rounds, process_order,
}
use limit_order_book_v.Engine.Matching.Trading.{Trades, buys_at, sells_at}
use limit_order_book_v.Engine.Matching.Conservation.{match_order_bid-Trades, match_order_ask-Trades}
use limit_order_book_v.Engine.Matching.Rounds.{match_order_ask-rounds}
use limit_order_book_v.Engine.Matching.Sound.{Apart}
use limit_order_book_v.Engine.Matching.Sound.Placing.{allocate-Apart}
use limit_order_book_v.Engine.Matching.Binary.{binary_keeps, binary_keeps-Apart}
use limit_order_book_v.Engine.Matching.Processing.{Quiet, process_order-AtRest}
use limit_order_book_v.Concurrency.SymbolWorker.Life.{System}
use limit_order_book_v.Concurrency.SymbolWorker.Steps.{Reach-IsAlive}
use limit_order_book_v.Tests.Symbol.{
  clock, order, one_ask, one_bid, one_ask-Reach, one_bid-Reach, runs,
}

-- The next slot of a symbol, and its engine when an order has been placed there.
abbrev slot : System → ℕ
slot s = (allocate s.resources.pool).0

abbrev engine : OrderSide → ℕ → System → Engine BinaryOrderBook
engine side price s = record {
  pool =
      put (slot s) (record (order side price) { order_id = s.worker.order_id })
        (allocate s.resources.pool).1;
  book = s.resources.order_book;
  trade_counter = 1;
  trades = [];
  readings = 0;
}

abbrev buying : Engine BinaryOrderBook
buying = engine buy 13 one_ask

abbrev selling : Engine BinaryOrderBook
selling = engine sell 9 one_bid

buying-Apart : Apart one_ask.worker.order_id (slot one_ask) buying.pool buying.book
buying-Apart =
    allocate-Apart one_ask.worker.order_id
      (record (order buy 13) { order_id = one_ask.worker.order_id }) one_ask.resources.pool
      one_ask.resources.order_book (Reach-IsAlive one_ask-Reach).rest runs.spare_ask

selling-Apart : Apart one_bid.worker.order_id (slot one_bid) selling.pool selling.book
selling-Apart =
    allocate-Apart one_bid.worker.order_id
      (record (order sell 9) { order_id = one_bid.worker.order_id }) one_bid.resources.pool
      one_bid.resources.order_book (Reach-IsAlive one_bid-Reach).rest runs.spare_bid

match_order_bid-Trades_example :
    Trades binary
      (binary_keeps one_ask.worker.order_id)
      (slot one_ask)
      (buys_at (get buying.pool (slot one_ask)).price (get buying.pool (slot one_ask)).type)
      buying
      (match_order_bid binary clock 2 (slot one_ask) buying)
match_order_bid-Trades_example =
    match_order_bid-Trades binary clock (binary_keeps one_ask.worker.order_id) 2 (slot one_ask)
      buying
      (binary_keeps-Apart one_ask.worker.order_id (slot one_ask) buying.pool buying.book
        buying-Apart)

match_order_ask-Trades_example :
    Trades binary
      (binary_keeps one_bid.worker.order_id)
      (slot one_bid)
      (sells_at (get selling.pool (slot one_bid)).price (get selling.pool (slot one_bid)).type)
      selling
      (match_order_ask binary clock 2 (slot one_bid) selling)
match_order_ask-Trades_example =
    match_order_ask-Trades binary clock (binary_keeps one_bid.worker.order_id) 2 (slot one_bid)
      selling
      (binary_keeps-Apart one_bid.worker.order_id (slot one_bid) selling.pool selling.book
        selling-Apart)

match_order_ask-rounds_example :
    crosses_bid binary clock
      (slot one_bid)
      (match_order_ask binary clock (rounds binary clock) (slot one_bid) selling)
    ≡ false
match_order_ask-rounds_example =
    match_order_ask-rounds binary clock (binary_keeps one_bid.worker.order_id) (slot one_bid)
      selling
      (binary_keeps-Apart one_bid.worker.order_id (slot one_bid) selling.pool selling.book
        selling-Apart)

process_order-AtRest_example :
    Quiet (suc one_ask.worker.order_id) (process_order binary clock (slot one_ask) buying)
process_order-AtRest_example =
    let placed =
      get-put (slot one_ask) (record (order buy 13) { order_id = one_ask.worker.order_id })
        (allocate one_ask.resources.pool).1 in
    process_order-AtRest clock one_ask.worker.order_id (slot one_ask) buying buying-Apart
      (ap (λ o. o.order_id) placed) (rw placed (omega arith))

match_order_bid-InOrder_example :
    (made : List TradePod) × (((match_order_bid binary clock 2 (slot one_ask) buying).trades
        ≡ buying.trades ++ made)
      × InOrder (λ p q. p ≤ q) AnyPrice made)
match_order_bid-InOrder_example =
    match_order_bid-InOrder clock 2 (slot one_ask) buying buying-Apart.book

match_order_ask-InOrder_example :
    (made : List TradePod) × (((match_order_ask binary clock 2 (slot one_bid) selling).trades
        ≡ selling.trades ++ made)
      × InOrder (λ p q. q ≤ p) AnyPrice made)
match_order_ask-InOrder_example =
    match_order_ask-InOrder clock 2 (slot one_bid) selling selling-Apart.book
