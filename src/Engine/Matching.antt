-- ===== src/Engine/Matching.antt =====
-- include/Engine/MatchingEngine.h: `MatchingEngine` over any `StorageBook`.
pub mod Trading
pub mod Conservation
pub mod Rounds
pub mod Sound
pub mod Binary
pub mod Reach
pub mod Processing
pub mod Priority
use limit_order_book_v.Prelude.{
  ℕ, zero, suc, ◌+◌, ◌-◌, ◌%◌, ◌^◌, Bool, true, false, ◌&&◌, ◌||◌, not, List, [], ◌∷◌, ◌++◌, ◌==◌,
  ltb, leb, if◌then◌else◌, min,
}
use limit_order_book_v.Domain.Order.{
  OrderSide, buy, sell, OrderType, limit, TimeInForce, gtc, fok, rejected, is_market,
}
use limit_order_book_v.Domain.Pods.{OrderPod, TradePod}
use limit_order_book_v.Memory.OrderPool.{OrderPool, get, free, default_capacity}
use limit_order_book_v.Engine.BookApi.{StorageBook}
use limit_order_book_v.Storage.Binary.{set_status, set_quantity}

-- The pool and the book that the engine refers to, the counter of trade ids, the vector `Trades` and
-- the number of times that the clock has been read.
pub record Engine (Book : Type 0) : Type 0 where
  pub pool : OrderPool
  pub book : Book
  pub trade_counter : ℕ
  pub trades : List TradePod
  pub readings : ℕ

abbrev pub is_limit : OrderType → Bool
is_limit limit = true
is_limit _ = false

abbrev pub is_fok : TimeInForce → Bool
is_fok fok = true
is_fok _ = false

abbrev pub is_gtc : TimeInForce → Bool
is_gtc gtc = true
is_gtc _ = false

-- `now k` is what `NowTimestamp()` returns at its reading `k`.
module _ (s : StorageBook) (now : ℕ → ℕ) where
  abbrev pub State : Type 0
  State = Engine s.Book

  abbrev pub order : ℕ → State → OrderPod
  order index e = get e.pool index

  -- The trade of `NewOrder` with the best order of the other side, its id taken from the counter,
  -- which is an `int` and wraps.
  unfoldable pub trade_with : ℕ → ℕ → State → State
  trade_with index best e =
      let quantity = min (order index e).quantity (order best e).quantity in
      let trade : TradePod = record {
        price = (order best e).price;
        timestamp = now e.readings;
        trade_id = e.trade_counter;
        maker_id = (order best e).trader_id;
        taker_id = (order index e).trader_id;
        quantity = quantity;
        symbol = (order index e).symbol;
      } in
      record e {
        pool = set_quantity index ((order index e).quantity - quantity) e.pool;
        trade_counter = (e.trade_counter + 1) % 2 ^ 32;
        trades = e.trades ++ trade ∷ [];
        readings = e.readings + 1;
      }

  abbrev with_book : State → OrderPool × s.Book → State
  with_book e (pool, book) = record e { pool = pool; book = book }

  -- What a trade leaves of the best order: it is popped, or its quantity goes down.
  unfoldable pub settle_ask : ℕ → ℕ → State → State
  settle_ask best quantity e =
      if (order best e).quantity - quantity == 0
      then with_book e (s.pop_best_ask (set_quantity best 0 e.pool) e.book)
      else with_book e (
          s.update_quantity (order best e).order_id ((order best e).quantity - quantity) e.pool
            e.book)

  unfoldable pub settle_bid : ℕ → ℕ → State → State
  settle_bid best quantity e =
      if (order best e).quantity - quantity == 0
      then with_book e (s.pop_best_bid (set_quantity best 0 e.pool) e.book)
      else with_book e (
          s.update_quantity (order best e).order_id ((order best e).quantity - quantity) e.pool
            e.book)

  -- The loop conditions.
  abbrev pub crosses_ask : ℕ → State → Bool
  crosses_ask index e =
      not (s.is_ask_empty e.book)
      && (ltb 0 (order index e).quantity
          && (leb (order (s.get_best_ask e.pool e.book) e).price (order index e).price
              || is_market (order index e).type))

  abbrev pub crosses_bid : ℕ → State → Bool
  crosses_bid index e =
      not (s.is_bid_empty e.book)
      && (ltb 0 (order index e).quantity
          && (leb (order index e).price (order (s.get_best_bid e.pool e.book) e).price
              || is_market (order index e).type))

  -- The bodies of the two loops.
  unfoldable pub match_ask : ℕ → State → State
  unfolding trade_with settle_ask
  match_ask index e =
      let best = s.get_best_ask e.pool e.book in
      settle_ask best (min (order index e).quantity (order best e).quantity)
        (trade_with index best e)

  unfoldable pub match_bid : ℕ → State → State
  unfolding trade_with settle_bid
  match_bid index e =
      let best = s.get_best_bid e.pool e.book in
      settle_bid best (min (order index e).quantity (order best e).quantity)
        (trade_with index best e)

  -- `MatchOrderBid` and `MatchOrderAsk`, with fuel for their rounds.
  unfoldable pub match_order_bid : ℕ → ℕ → State → State
  unfolding match_ask
  match_order_bid zero index e = e
  match_order_bid (suc fuel) index e =
      let rest = match_order_bid fuel index (match_ask index e) in
      if crosses_ask index e then rest else e

  unfoldable pub match_order_ask : ℕ → ℕ → State → State
  unfolding match_bid
  match_order_ask zero index e = e
  match_order_ask (suc fuel) index e =
      let rest = match_order_ask fuel index (match_bid index e) in
      if crosses_bid index e then rest else e

  -- Each round but the last takes a resting order out of the book, and there are no more of those than
  -- the pool has slots.
  abbrev pub rounds : ℕ
  rounds = default_capacity + 1

  abbrev pub free_order : ℕ → State → State
  free_order index e = record e { pool = free index e.pool }

  abbrev pub reject : ℕ → State → State
  reject index e = free_order index (record e { pool = set_status index rejected e.pool })

  -- The end of the `Process…Limit` functions: what is left of a GTC order rests in the book.
  abbrev pub rest_or_free : ℕ → State → State
  rest_or_free index e =
      if is_gtc (order index e).tif && ltb 0 (order index e).quantity
      then with_book e (s.add_order index e.pool e.book)
      else free_order index e

  unfoldable pub process_buy_limit : ℕ → State → State
  process_buy_limit index e =
      let new_order = order index e in
      if is_fok new_order.tif
      then (if s.can_fill_quantity_asks new_order.quantity new_order.price e.pool e.book
          then free_order index (match_order_bid rounds index e)
          else reject index e)
      else rest_or_free index (match_order_bid rounds index e)

  unfoldable pub process_buy_market : ℕ → State → State
  process_buy_market index e =
      let new_order = order index e in
      if is_fok new_order.tif
      then (if s.can_fill_quantity_asks new_order.quantity new_order.price e.pool e.book
          then free_order index (match_order_bid rounds index e)
          else reject index e)
      else free_order index (match_order_bid rounds index e)

  unfoldable pub process_sell_limit : ℕ → State → State
  process_sell_limit index e =
      let new_order = order index e in
      if is_fok new_order.tif
      then (if s.can_fill_quantity_bids new_order.quantity new_order.price e.pool e.book
          then free_order index (match_order_ask rounds index e)
          else reject index e)
      else rest_or_free index (match_order_ask rounds index e)

  unfoldable pub process_sell_market : ℕ → State → State
  process_sell_market index e =
      let new_order = order index e in
      if is_fok new_order.tif
      then (if s.can_fill_quantity_bids new_order.quantity new_order.price e.pool e.book
          then free_order index (match_order_ask rounds index e)
          else reject index e)
      else free_order index (match_order_ask rounds index e)

  abbrev pub process_by_side : OrderSide → ℕ → State → State
  process_by_side buy index e =
      if is_limit (order index e).type
      then process_buy_limit index e
      else process_buy_market index e
  process_by_side sell index e =
      if is_limit (order index e).type
      then process_sell_limit index e
      else process_sell_market index e

  unfoldable pub process_order : ℕ → State → State
  process_order index e = process_by_side (order index e).side index e
