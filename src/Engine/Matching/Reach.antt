-- ===== src/Engine/Matching/Reach.antt =====
-- An order that is left when its loop ends reaches nobody on the other side.
use limit_order_book_v.Prelude.{
  Bool, ℕ, ◌≤◌, ◌≡◌, refl, arith, Bool-cases, true, false, inl, inr, ltb, is_nil, ap, List, [], ◌∷◌,
}
use limit_order_book_v.Domain.Order.{buy, sell, is_market}
use limit_order_book_v.Memory.OrderPool.{OrderPool, get}
use limit_order_book_v.Storage.Levels
use limit_order_book_v.Storage.Levels.Best.{is_empty_iff}
use limit_order_book_v.Storage.LinkedList.Chain.{has_index}
use limit_order_book_v.Storage.Binary.{
  BinaryOrderBook, HalfBook, is_ask_empty, is_bid_empty, get_best_ask, get_best_bid,
}
use limit_order_book_v.Storage.Binary.Half
use limit_order_book_v.Storage.Binary.Half.Best.{BestOf, get_best_bid-BestOf, get_best_ask-BestOf}
use limit_order_book_v.Engine.BookApi.{binary}
use limit_order_book_v.Engine.Matching.{Engine, crosses_ask, crosses_bid}
use limit_order_book_v.Engine.Matching.Sound.{IsSound}
use limit_order_book_v.Engine.Matching.Sound.Placing.{ReachesNobody}

pub not_nil : (j : ℕ) (is : List ℕ) → has_index j is ≡ true → is_nil is ≡ false
not_nil j [] w = cc
not_nil j (i ∷ is) w = refl

somebody_waits :
    {pool : OrderPool} {h : HalfBook} {queue : ℕ → List ℕ} (q j : ℕ)
    → Half.IsValid pool h queue
    → has_index j (queue q) ≡ true
    → Levels.is_empty h.levels ≡ false
somebody_waits {pool} {h} {queue} q j v w = elim (Bool-cases (Levels.is_empty h.levels)) [
  | inl e ↦ ground (arith, (is_empty_iff v.coherent).0 e q, v.marked q, not_nil j (queue q) w)
  | inr f ↦ f
]

-- The best order of a side where somebody waits has a price that is not worse.
best_price :
    {better : ℕ → ℕ → Type 0} {pool : OrderPool} {h : HalfBook} {queue : ℕ → List ℕ} (best q j : ℕ)
    → Half.IsValid pool h queue
    → BestOf better queue best
    → has_index j (queue q) ≡ true
    → better (get pool best).price q
best_price {better} {pool} {h} {queue} best q j v (inl (e, none_left)) w =
    absurd (ground (arith, none_left q, not_nil j (queue q) w))
best_price {better} {pool} {h} {queue} best q j v (inr (p, (is, (e, better_than)))) w =
    let here : has_index best (queue p) ≡ true = ground (arith, ap (has_index best) e) in
    rw (v.priced p best here) (better_than q (not_nil j (queue q) w))

module _ (now : ℕ → ℕ) {bound : ℕ} {taker : ℕ → Bool} (index : ℕ) (e : Engine BinaryOrderBook)
    (a : IsSound bound taker e.pool e.book) (limited : is_market (get e.pool index).type ≡ false)
    (left : ltb 0 (get e.pool index).quantity ≡ true) where
  pub buy-ReachesNobody :
      crosses_ask binary now index e ≡ false → ReachesNobody buy (get e.pool index).price a.queue
  unfolding is_ask_empty
  buy-ReachesNobody done q j w =
      let some_ask = somebody_waits q j (a.book.halves sell) w in
      let best : (get e.pool (get_best_ask e.pool e.book)).price ≤ q =
        best_price (get_best_ask e.pool e.book) q j (a.book.halves sell)
          (get_best_ask-BestOf e.pool e.book (a.book.halves sell)) w in
      ground arith

  pub sell-ReachesNobody :
      crosses_bid binary now index e ≡ false → ReachesNobody sell (get e.pool index).price a.queue
  unfolding is_bid_empty
  sell-ReachesNobody done q j w =
      let some_bid = somebody_waits q j (a.book.halves buy) w in
      let best : q ≤ (get e.pool (get_best_bid e.pool e.book)).price =
        best_price (get_best_bid e.pool e.book) q j (a.book.halves buy)
          (get_best_bid-BestOf e.pool e.book (a.book.halves buy)) w in
      ground arith
