-- ===== src/Engine/Matching/Priority/Bids.antt =====
-- The prices of the trades of `MatchOrderAsk` with the binary book (include/Engine/MatchingEngine.h).
use limit_order_book_v.Prelude.{
  ℕ, zero, suc, ◌-◌, ◌≤◌, ◌≡◌, ◌∙◌, refl, sym, ap, arith, Bool-cases, inl, inr, ◌==◌, List, [], ◌∷◌,
  ◌++◌, append-nil, append_assoc,
}
use limit_order_book_v.Domain.Order.{buy}
use limit_order_book_v.Domain.Pods.{TradePod}
use limit_order_book_v.Memory.OrderPool.{get}
use limit_order_book_v.Storage.Binary.{
  BinaryOrderBook, set_quantity, pop_best_bid, get_best_bid, is_bid_empty,
}
use limit_order_book_v.Storage.Binary.Half.Best.{get_best_bid-BestOf}
use limit_order_book_v.Storage.Binary.Book.{Waiting, IsBook}
use limit_order_book_v.Storage.Binary.Book.Pop.{pop_best_bid-Pops}
use limit_order_book_v.Engine.BookApi.{binary}
use limit_order_book_v.Engine.Matching.{
  Engine, trade_with, settle_bid, match_bid, crosses_bid, match_order_ask,
}
use limit_order_book_v.Engine.Matching.Priority.{
  Within, InOrder, AnyPrice, set_quantity-Within, update_quantity-Within, Pops-Within,
  BestOf-Within, trade_with-Within,
}

module _ (now : ℕ → ℕ) where
  settle_bid-Within :
      (P : ℕ → Type 0) (best quantity : ℕ) (e : Engine BinaryOrderBook)
      → Within buy P e.pool e.book
      → Within buy P
          (settle_bid binary now best quantity e).pool
          (settle_bid binary now best quantity e).book
  unfolding settle_bid
  settle_bid-Within P best quantity e w =
      let left = (get e.pool best).quantity - quantity in
      elim (Bool-cases (left == 0)) [
        | inl z ↦
            let (queue, (v, all)) = set_quantity-Within buy P e.pool e.book best 0 w in
            let pool = set_quantity best 0 e.pool in
            rw z (
              Pops-Within buy P pool e.book buy (pop_best_bid pool e.book) v all
                (pop_best_bid-Pops pool e.book v))
        | inr z ↦
            rw z (update_quantity-Within buy P e.pool e.book (get e.pool best).order_id left w)
      ]

  settle_bid-trades :
      (best quantity : ℕ) (e : Engine BinaryOrderBook)
      → (settle_bid binary now best quantity e).trades ≡ e.trades
  unfolding settle_bid
  settle_bid-trades best quantity e =
      elim (Bool-cases ((get e.pool best).quantity - quantity == 0)) [
        | inl z ↦ rw z refl
        | inr z ↦ rw z refl
      ]

  -- A round makes one trade, at the price of the best bid.
  match_bid-trades :
      (index : ℕ) (e : Engine BinaryOrderBook)
      → (t : TradePod) × (((match_bid binary now index e).trades ≡ e.trades ++ t ∷ [])
          × (t.price ≡ (get e.pool (get_best_bid e.pool e.book)).price))
  unfolding match_bid trade_with
  match_bid-trades index e =
      let best = get_best_bid e.pool e.book in
      (_, (settle_bid-trades best _ (trade_with binary now index best e), refl))

  match_bid-Within :
      (P : ℕ → Type 0) (index : ℕ) (e : Engine BinaryOrderBook)
      → Within buy P e.pool e.book
      → Within buy P (match_bid binary now index e).pool (match_bid binary now index e).book
  unfolding match_bid
  match_bid-Within P index e w =
      let best = get_best_bid e.pool e.book in
      settle_bid-Within P best _ (trade_with binary now index best e)
        (trade_with-Within now buy P index best e w)

  bid_prices :
      (fuel index : ℕ) (P : ℕ → Type 0) (e : Engine BinaryOrderBook)
      → Within buy P e.pool e.book
      → (made : List TradePod) × (((match_order_ask binary now fuel index e).trades
            ≡ e.trades ++ made)
          × InOrder (λ p q. q ≤ p) P made)
  unfolding match_order_ask is_bid_empty
  bid_prices zero index P e w = ([], (sym (append-nil e.trades), tt))
  bid_prices (suc fuel) index P e w = elim (Bool-cases (crosses_bid binary now index e)) [
    | inl c ↦
        let best = get_best_bid e.pool e.book in
        let (fits, w') =
          BestOf-Within buy P e.pool e.book best w (ground arith)
            (get_best_bid-BestOf e.pool e.book (w.1.0.halves buy)) in
        let (t, (one, price)) = match_bid-trades index e in
        let (made, (grown, sorted)) =
          bid_prices fuel index (λ q. q ≤ (get e.pool best).price) (match_bid binary now index e)
            (match_bid-Within (λ q. q ≤ (get e.pool best).price) index e w') in
        rw c (
          t ∷ made,
          (
            grown ∙ ap (λ l. l ++ made) one ∙ append_assoc e.trades (t ∷ []) made,
            (rw price fits, rw price sorted),
          ),
        )
    | inr c ↦ rw c ([], (sym (append-nil e.trades), tt))
  ]

  -- Whatever number of rounds `MatchOrderAsk` makes with a valid binary book, it only adds trades to the
  -- vector, and the price of each of them is at most that of the one before it.
  pub match_order_ask-InOrder :
      (fuel index : ℕ) (e : Engine BinaryOrderBook) {queue : Waiting}
      → IsBook e.pool e.book queue
      → (made : List TradePod) × (((match_order_ask binary now fuel index e).trades
            ≡ e.trades ++ made)
          × InOrder (λ p q. q ≤ p) AnyPrice made)
  match_order_ask-InOrder fuel index e {queue} v =
      bid_prices fuel index AnyPrice e (queue, (v, λ p i there. tt))
