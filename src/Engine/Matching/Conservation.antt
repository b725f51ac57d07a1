-- ===== src/Engine/Matching/Conservation.antt =====
-- What the matching loops make of the quantity of the order that comes in, over any book.
use limit_order_book_v.Prelude.{
  ℕ, zero, suc, ◌-◌, ◌≡◌, ◌≢◌, ◌∙◌, refl, arith, Bool, Bool-cases, true, ◌==◌, inl, inr, min,
}
use limit_order_book_v.Domain.Order.{OrderType}
use limit_order_book_v.Memory.OrderPool.{get}
use limit_order_book_v.Engine.BookApi.{StorageBook}
use limit_order_book_v.Storage.Binary.{set_quantity}
use limit_order_book_v.Storage.Binary.Book.Cancel.{get-put}
use limit_order_book_v.Storage.Binary.Book.Terms.{
  SameTerms-trans, set_quantity-SameKind, set_quantity-SameTerms,
}
use limit_order_book_v.Engine.Matching.{
  Engine, trade_with, settle_ask, settle_bid, match_ask, match_bid, crosses_ask, crosses_bid,
  match_order_bid, match_order_ask,
}
use limit_order_book_v.Engine.Matching.Trading.{
  Keeps, Trades, Settles, Trades-refl, Trades-trans, Settles-Trades, buys_at, sells_at,
}

module _ (s : StorageBook) (now : ℕ → ℕ) (l : Keeps s) where
  pub settle_ask-Settles :
      (index best quantity : ℕ) (e : Engine s.Book)
      → best ≢ index
      → l.Apart index e.pool e.book
      → Settles s l index e (settle_ask s now best quantity e)
  unfolding settle_ask
  settle_ask-Settles index best quantity e ne a =
      let left = (get e.pool best).quantity - quantity in
      elim (Bool-cases (left == 0)) [
        | inl z ↦
            let b = l.quantity index best 0 e.pool e.book a in
            let (c, t) = l.pop_ask index (set_quantity best 0 e.pool) e.book b in
            rw z (record {
              apart = c;
              terms = SameTerms-trans (set_quantity-SameTerms best 0 e.pool index ne) t;
              trades = refl;
            })
        | inr z ↦
            let (c, t) = l.update index (get e.pool best).order_id left e.pool e.book a in
            rw z (record { apart = c; terms = t; trades = refl })
      ]

  pub settle_bid-Settles :
      (index best quantity : ℕ) (e : Engine s.Book)
      → best ≢ index
      → l.Apart index e.pool e.book
      → Settles s l index e (settle_bid s now best quantity e)
  unfolding settle_bid
  settle_bid-Settles index best quantity e ne a =
      let left = (get e.pool best).quantity - quantity in
      elim (Bool-cases (left == 0)) [
        | inl z ↦
            let b = l.quantity index best 0 e.pool e.book a in
            let (c, t) = l.pop_bid index (set_quantity best 0 e.pool) e.book b in
            rw z (record {
              apart = c;
              terms = SameTerms-trans (set_quantity-SameTerms best 0 e.pool index ne) t;
              trades = refl;
            })
        | inr z ↦
            let (c, t) = l.update index (get e.pool best).order_id left e.pool e.book a in
            rw z (record { apart = c; terms = t; trades = refl })
      ]

  trade_with-Trades :
      (index best : ℕ) (ok : ℕ → Bool) (e : Engine s.Book)
      → ok (get e.pool best).price ≡ true
      → l.Apart index e.pool e.book
      → Trades s l index ok e (trade_with s now index best e)
  unfolding trade_with
  trade_with-Trades index best ok e fits a =
      let o = get e.pool index in
      let quantity = min o.quantity (get e.pool best).quantity in
      let g = get-put index (record o { quantity = o.quantity - quantity }) e.pool in
      record {
        made = _;
        trades = refl;
        conserved = rw g (omega arith);
        fair = rw fits refl;
        kind = set_quantity-SameKind index (o.quantity - quantity) e.pool index;
        apart = l.quantity index index (o.quantity - quantity) e.pool e.book a;
      }

  pub match_ask-Trades :
      (index : ℕ) (ok : ℕ → Bool) (e : Engine s.Book)
      → ok (get e.pool (s.get_best_ask e.pool e.book)).price ≡ true
      → l.Apart index e.pool e.book
      → Trades s l index ok e (match_ask s now index e)
  unfolding match_ask
  match_ask-Trades index ok e fits a =
      let best = s.get_best_ask e.pool e.book in
      let t = trade_with-Trades index best ok e fits a in
      Settles-Trades s l t
        (settle_ask-Settles index best _ _ (l.best_ask index e.pool e.book a) t.apart)

  pub match_bid-Trades :
      (index : ℕ) (ok : ℕ → Bool) (e : Engine s.Book)
      → ok (get e.pool (s.get_best_bid e.pool e.book)).price ≡ true
      → l.Apart index e.pool e.book
      → Trades s l index ok e (match_bid s now index e)
  unfolding match_bid
  match_bid-Trades index ok e fits a =
      let best = s.get_best_bid e.pool e.book in
      let t = trade_with-Trades index best ok e fits a in
      Settles-Trades s l t
        (settle_bid-Settles index best _ _ (l.best_bid index e.pool e.book a) t.apart)

  bid_loop :
      (fuel index limit : ℕ) (type : OrderType) (e : Engine s.Book)
      → (get e.pool index).price ≡ limit
      → (get e.pool index).type ≡ type
      → l.Apart index e.pool e.book
      → Trades s l index (buys_at limit type) e (match_order_bid s now fuel index e)
  unfolding match_order_bid
  bid_loop zero index limit type e p t a = Trades-refl s l index (buys_at limit type) e a
  bid_loop (suc fuel) index limit type e p t a = elim (Bool-cases (crosses_ask s now index e)) [
    | inl c ↦
        let m = match_ask-Trades index (buys_at limit type) e (ground arith) a in
        rw c (
          Trades-trans s l m (
            bid_loop fuel index limit type (match_ask s now index e) (m.kind.price ∙ p)
              (m.kind.type ∙ t) m.apart))
    | inr c ↦ rw c (Trades-refl s l index (buys_at limit type) e a)
  ]

  -- Whatever number of rounds `MatchOrderBid` makes, over any book with the laws of `Keeps`, for an
  -- order that stands apart from those that wait in it: it only adds trades to the vector, all of
  -- them at or below the price of the buy order when that is not a market order, the shares traded
  -- and the shares left over are together the shares that it had, and its price, type, side, time in force and id stay.
  pub match_order_bid-Trades :
      (fuel index : ℕ) (e : Engine s.Book)
      → l.Apart index e.pool e.book
      → Trades s l index
          (buys_at (get e.pool index).price (get e.pool index).type)
          e
          (match_order_bid s now fuel index e)
  match_order_bid-Trades fuel index e a = bid_loop fuel index _ _ e refl refl a

  ask_loop :
      (fuel index limit : ℕ) (type : OrderType) (e : Engine s.Book)
      → (get e.pool index).price ≡ limit
      → (get e.pool index).type ≡ type
      → l.Apart index e.pool e.book
      → Trades s l index (sells_at limit type) e (match_order_ask s now fuel index e)
  unfolding match_order_ask
  ask_loop zero index limit type e p t a = Trades-refl s l index (sells_at limit type) e a
  ask_loop (suc fuel) index limit type e p t a = elim (Bool-cases (crosses_bid s now index e)) [
    | inl c ↦
        let m = match_bid-Trades index (sells_at limit type) e (ground arith) a in
        rw c (
          Trades-trans s l m (
            ask_loop fuel index limit type (match_bid s now index e) (m.kind.price ∙ p)
              (m.kind.type ∙ t) m.apart))
    | inr c ↦ rw c (Trades-refl s l index (sells_at limit type) e a)
  ]

  -- Whatever number of rounds `MatchOrderAsk` makes, over any book with the laws of `Keeps`, for an
  -- order that stands apart from those that wait in it: it only adds trades to the vector, all of
  -- them at or above the price of the sell order when that is not a market order, the shares traded
  -- and the shares left over are together the shares that it had, and its price, type, side, time in force and id stay.
  pub match_order_ask-Trades :
      (fuel index : ℕ) (e : Engine s.Book)
      → l.Apart index e.pool e.book
      → Trades s l index
          (sells_at (get e.pool index).price (get e.pool index).type)
          e
          (match_order_ask s now fuel index e)
  match_order_ask-Trades fuel index e a = ask_loop fuel index _ _ e refl refl a
