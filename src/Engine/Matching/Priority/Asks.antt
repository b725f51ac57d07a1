-- ===== src/Engine/Matching/Priority/Asks.antt =====
-- The prices of the trades of `MatchOrderBid` with the binary book (include/Engine/MatchingEngine.h).
use limit_order_book_v.Prelude.{
  ℕ, zero, suc, ◌-◌, ◌≤◌, ◌≡◌, ◌∙◌, refl, sym, ap, arith, Bool-cases, inl, inr, ◌==◌, List, [], ◌∷◌,
  ◌++◌, append-nil, append_assoc,
}
use limit_order_book_v.Domain.Order.{sell}
use limit_order_book_v.Domain.Pods.{TradePod}
use limit_order_book_v.Memory.OrderPool.{get}
use limit_order_book_v.Storage.Binary.{
  BinaryOrderBook, set_quantity, pop_best_ask, get_best_ask, is_ask_empty,
}
use limit_order_book_v.Storage.Binary.Half.Best.{get_best_ask-BestOf}
use limit_order_book_v.Storage.Binary.Book.{Waiting, IsBook}
use limit_order_book_v.Storage.Binary.Book.Pop.{pop_best_ask-Pops}
use limit_order_book_v.Engine.BookApi.{binary}
use limit_order_book_v.Engine.Matching.{
  Engine, trade_with, settle_ask, match_ask, crosses_ask, match_order_bid,
}
use limit_order_book_v.Engine.Matching.Priority.{
  Within, InOrder, AnyPrice, set_quantity-Within, update_quantity-Within, Pops-Within,
  BestOf-Within, trade_with-Within,
}

module _ (now : ℕ → ℕ) where
  settle_ask-Within :
      (P : ℕ → Type 0) (best quantity : ℕ) (e : Engine BinaryOrderBook)
      → Within sell P e.pool e.book
      → Within sell P
          (settle_ask binary now best quantity e).pool
          (settle_ask binary now best quantity e).book
  unfolding settle_ask
  settle_ask-Within P best quantity e w =
      let left = (get e.pool best).quantity - quantity in
      elim (Bool-cases (left == 0)) [
        | inl z ↦
            let (queue, (v, all)) = set_quantity-Within sell P e.pool e.book best 0 w in
            let pool = set_quantity best 0 e.pool in
            rw z (
              Pops-Within sell P pool e.book sell (pop_best_ask pool e.book) v all
                (pop_best_ask-Pops pool e.book v))
        | inr z ↦
            rw z (update_quantity-Within sell P e.pool e.book (get e.pool best).order_id left w)
      ]

  settle_ask-trades :
      (best quantity : ℕ) (e : Engine BinaryOrderBook)
      → (settle_ask binary now best quantity e).trades ≡ e.trades
  unfolding settle_ask
  settle_ask-trades best quantity e =
      elim (Bool-cases ((get e.pool best).quantity - quantity == 0)) [
        | inl z ↦ rw z refl
        | inr z ↦ rw z refl
      ]

  -- A round makes one trade, at the price of the best ask.
  match_ask-trades :
      (index : ℕ) (e : Engine BinaryOrderBook)
      → (t : TradePod) × (((match_ask binary now index e).trades ≡ e.trades ++ t ∷ [])
          × (t.price ≡ (get e.pool (get_best_ask e.pool e.book)).price))
  unfolding match_ask trade_with
  match_ask-trades index e =
      let best = get_best_ask e.pool e.book in
      (_, (settle_ask-trades best _ (trade_with binary now index best e), refl))

  match_ask-Within :
      (P : ℕ → Type 0) (index : ℕ) (e : Engine BinaryOrderBook)
      → Within sell P e.pool e.book
      → Within sell P (match_ask binary now index e).pool (match_ask binary now index e).book
  unfolding match_ask
  match_ask-Within P index e w =
      let best = get_best_ask e.pool e.book in
      settle_ask-Within P best _ (trade_with binary now index best e)
        (trade_with-Within now sell P index best e w)

  ask_prices :
      (fuel index : ℕ) (P : ℕ → Type 0) (e : Engine BinaryOrderBook)
      → Within sell P e.pool e.book
      → (made : List TradePod) × (((match_order_bid binary now fuel index e).trades
            ≡ e.trades ++ made)
          × InOrder (λ p q. p ≤ q) P made)
  unfolding match_order_bid is_ask_empty
  ask_prices zero index P e w = ([], (sym (append-nil e.trades), tt))
  ask_prices (suc fuel) index P e w = elim (Bool-cases (crosses_ask binary now index e)) [
    | inl c ↦
        let best = get_best_ask e.pool e.book in
        let (fits, w') =
          BestOf-Within sell P e.pool e.book best w (ground arith)
            (get_best_ask-BestOf e.pool e.book (w.1.0.halves sell)) in
        let (t, (one, price)) = match_ask-trades index e in
        let (made, (grown, sorted)) =
          ask_prices fuel index (λ q. (get e.pool best).price ≤ q) (match_ask binary now index e)
            (match_ask-Within (λ q. (get e.pool best).price ≤ q) index e w') in
        rw c (
          t ∷ made,
          (
            grown ∙ ap (λ l. l ++ made) one ∙ append_assoc e.trades (t ∷ []) made,
            (rw price fits, rw price sorted),
          ),
        )
    | inr c ↦ rw c ([], (sym (append-nil e.trades), tt))
  ]

  -- Whatever number of rounds `MatchOrderBid` makes with a valid binary book, it only adds trades to the
  -- vector, and the price of each of them is at least that of the one before it.
  pub match_order_bid-InOrder :
      (fuel index : ℕ) (e : Engine BinaryOrderBook) {queue : Waiting}
      → IsBook e.pool e.book queue
      → (made : List TradePod) × (((match_order_bid binary now fuel index e).trades
            ≡ e.trades ++ made)
          × InOrder (λ p q. p ≤ q) AnyPrice made)
  match_order_bid-InOrder fuel index e {queue} v =
      ask_prices fuel index AnyPrice e (queue, (v, λ p i there. tt))
