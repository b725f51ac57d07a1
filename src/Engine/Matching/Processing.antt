-- ===== src/Engine/Matching/Processing.antt =====
-- `ProcessOrder` over the binary book.
use limit_order_book_v.Prelude.{
  ℕ, suc, ◌<◌, ◌≡◌, ◌∙◌, refl, arith, Bool-cases, true, false, inl, inr, ◌&&◌, ltb, ap,
}
use limit_order_book_v.Domain.Order.{OrderType, OrderSide, buy, sell, rejected, is_market}
use limit_order_book_v.Domain.Pods.{OrderPod}
use limit_order_book_v.Memory.OrderPool.{OrderPool, get}
use limit_order_book_v.Storage.Levels.Update.{price_limit}
use limit_order_book_v.Storage.Binary.{BinaryOrderBook, set_status}
use limit_order_book_v.Storage.Binary.Book.Frame.{set_status-frame, SameKind}
use limit_order_book_v.Storage.Binary.Book.Cancel.{put-free_index}
use limit_order_book_v.Storage.Binary.Book.Terms.{set_status-SameTerms}
use limit_order_book_v.Engine.BookApi.{binary}
use limit_order_book_v.Engine.Matching.{
  Engine, match_order_bid, match_order_ask, rounds, reject, free_order, rest_or_free,
  process_buy_limit, process_buy_market, process_sell_limit, process_sell_market, process_order,
  process_by_side, is_limit, is_fok, is_gtc,
}
use limit_order_book_v.Engine.Matching.Conservation.{match_order_bid-Trades, match_order_ask-Trades}
use limit_order_book_v.Engine.Matching.Rounds.{match_order_bid-rounds, match_order_ask-rounds}
use limit_order_book_v.Engine.Matching.Binary.{binary_keeps, binary_keeps-Apart, Apart-binary_keeps}
use limit_order_book_v.Engine.Matching.Sound.{AtRest, Apart, same-IsSound}
use limit_order_book_v.Engine.Matching.Reach.{buy-ReachesNobody, sell-ReachesNobody}
use limit_order_book_v.Engine.Matching.Sound.Placing.{ReachesNobody, free-AtRest, add_order-AtRest}

-- Later ids are allowed too.
AtRest-suc :
    (bound : ℕ) (pool : OrderPool) (b : BinaryOrderBook)
    → AtRest bound pool b
    → AtRest (suc bound) pool b
AtRest-suc bound pool b a = record {
  queue = a.queue;
  book = a.book;
  owned = a.owned;
  owns = a.owns;
  waiting = a.waiting;
  held = a.held;
  apart = a.apart;
  mine = a.mine;
  ids = λ s p i w. omega (arith, a.ids s p i w);
  uncrossed = a.uncrossed;
}

-- The engine's pool and book are at rest.
abbrev pub Quiet : ℕ → Engine BinaryOrderBook → Type 0
Quiet bound e = AtRest bound e.pool e.book

module _ (now : ℕ → ℕ) (bound index : ℕ) where
  free_order-Quiet :
      (e : Engine BinaryOrderBook)
      → Apart bound index e.pool e.book
      → Quiet (suc bound) (free_order binary now index e)
  free_order-Quiet e a = AtRest-suc bound _ e.book (free-AtRest bound index e.pool e.book a)

  reject-Quiet :
      (e : Engine BinaryOrderBook)
      → Apart bound index e.pool e.book
      → Quiet (suc bound) (reject binary now index e)
  reject-Quiet e a =
      let pool' = set_status index rejected e.pool in
      free_order-Quiet (record e { pool = pool' })
        (same-IsSound e.pool pool' e.book a (set_status-frame index rejected a.book)
          (put-free_index index (record (get e.pool index) { status = rejected }) e.pool)
          (λ j. (set_status-SameTerms index rejected e.pool j).kind))

  -- What a matching loop leaves.
  record Matched (e e' : Engine BinaryOrderBook) : Type 0 where
    apart : Apart bound index e'.pool e'.book
    kind : SameKind (get e.pool index) (get e'.pool index)

  bid-Matched :
      (e : Engine BinaryOrderBook)
      → Apart bound index e.pool e.book
      → Matched e (match_order_bid binary now (rounds binary now) index e)
  bid-Matched e a =
      let t =
        match_order_bid-Trades binary now (binary_keeps bound) (rounds binary now) index e
          (binary_keeps-Apart bound index e.pool e.book a) in
      record { apart = Apart-binary_keeps bound index _ _ t.apart; kind = t.kind }

  ask-Matched :
      (e : Engine BinaryOrderBook)
      → Apart bound index e.pool e.book
      → Matched e (match_order_ask binary now (rounds binary now) index e)
  ask-Matched e a =
      let t =
        match_order_ask-Trades binary now (binary_keeps bound) (rounds binary now) index e
          (binary_keeps-Apart bound index e.pool e.book a) in
      record { apart = Apart-binary_keeps bound index _ _ t.apart; kind = t.kind }

  -- The order that is processed: it has the next id and a price of the book.
  record IsNext (s : OrderSide) (o : OrderPod) : Type 0 where
    side : o.side ≡ s
    id : o.order_id ≡ bound
    limit : o.price < price_limit

  IsNext-kind :
      {side : OrderSide} {o o' : OrderPod} → IsNext side o → SameKind o o' → IsNext side o'
  IsNext-kind n k = record {
    side = k.side ∙ n.side;
    id = k.order_id ∙ n.id;
    limit = rw (k.price) n.limit;
  }

  rest_or_free-Quiet :
      (side : OrderSide) (e : Engine BinaryOrderBook) (a : Apart bound index e.pool e.book)
      → IsNext side (get e.pool index)
      → (ltb 0 (get e.pool index).quantity ≡ true
          → ReachesNobody side (get e.pool index).price a.queue)
      → Quiet (suc bound) (rest_or_free binary now index e)
  rest_or_free-Quiet side e a n reach =
      elim (Bool-cases (is_gtc (get e.pool index).tif && ltb 0 (get e.pool index).quantity)) [
        | inl c ↦
            let r = reach (ground arith) in
            rw c (add_order-AtRest bound index e.pool e.book a n.id n.limit (rw n.side r))
        | inr c ↦ rw c (free_order-Quiet e a)
      ]

  process_buy_limit-Quiet :
      (e : Engine BinaryOrderBook)
      → Apart bound index e.pool e.book
      → IsNext buy (get e.pool index)
      → is_market (get e.pool index).type ≡ false
      → Quiet (suc bound) (process_buy_limit binary now index e)
  unfolding process_buy_limit
  process_buy_limit-Quiet e a n limited =
      let o = get e.pool index in
      let e' = match_order_bid binary now (rounds binary now) index e in
      let m = bid-Matched e a in
      let done =
        match_order_bid-rounds binary now (binary_keeps bound) index e
          (binary_keeps-Apart bound index e.pool e.book a) in
      elim (Bool-cases (is_fok o.tif)) [
        | inl f ↦
            elim (Bool-cases (binary.can_fill_quantity_asks o.quantity o.price e.pool e.book)) [
              | inl g ↦ rw (f, g) (free_order-Quiet e' m.apart)
              | inr g ↦ rw (f, g) (reject-Quiet e a)
            ]
        | inr f ↦ rw f (
            rest_or_free-Quiet buy e' m.apart (IsNext-kind n m.kind) (λ left.
              buy-ReachesNobody now index e' m.apart (ap is_market m.kind.type ∙ limited) left
                done))
      ]

  process_sell_limit-Quiet :
      (e : Engine BinaryOrderBook)
      → Apart bound index e.pool e.book
      → IsNext sell (get e.pool index)
      → is_market (get e.pool index).type ≡ false
      → Quiet (suc bound) (process_sell_limit binary now index e)
  unfolding process_sell_limit
  process_sell_limit-Quiet e a n limited =
      let o = get e.pool index in
      let e' = match_order_ask binary now (rounds binary now) index e in
      let m = ask-Matched e a in
      let done =
        match_order_ask-rounds binary now (binary_keeps bound) index e
          (binary_keeps-Apart bound index e.pool e.book a) in
      elim (Bool-cases (is_fok o.tif)) [
        | inl f ↦
            elim (Bool-cases (binary.can_fill_quantity_bids o.quantity o.price e.pool e.book)) [
              | inl g ↦ rw (f, g) (free_order-Quiet e' m.apart)
              | inr g ↦ rw (f, g) (reject-Quiet e a)
            ]
        | inr f ↦ rw f (
            rest_or_free-Quiet sell e' m.apart (IsNext-kind n m.kind) (λ left.
              sell-ReachesNobody now index e' m.apart (ap is_market m.kind.type ∙ limited) left
                done))
      ]

  process_buy_market-Quiet :
      (e : Engine BinaryOrderBook)
      → Apart bound index e.pool e.book
      → Quiet (suc bound) (process_buy_market binary now index e)
  unfolding process_buy_market
  process_buy_market-Quiet e a =
      let o = get e.pool index in
      let e' = match_order_bid binary now (rounds binary now) index e in
      let m = bid-Matched e a in
      elim (Bool-cases (is_fok o.tif)) [
        | inl f ↦
            elim (Bool-cases (binary.can_fill_quantity_asks o.quantity o.price e.pool e.book)) [
              | inl g ↦ rw (f, g) (free_order-Quiet e' m.apart)
              | inr g ↦ rw (f, g) (reject-Quiet e a)
            ]
        | inr f ↦ rw f (free_order-Quiet e' m.apart)
      ]

  process_sell_market-Quiet :
      (e : Engine BinaryOrderBook)
      → Apart bound index e.pool e.book
      → Quiet (suc bound) (process_sell_market binary now index e)
  unfolding process_sell_market
  process_sell_market-Quiet e a =
      let o = get e.pool index in
      let e' = match_order_ask binary now (rounds binary now) index e in
      let m = ask-Matched e a in
      elim (Bool-cases (is_fok o.tif)) [
        | inl f ↦
            elim (Bool-cases (binary.can_fill_quantity_bids o.quantity o.price e.pool e.book)) [
              | inl g ↦ rw (f, g) (free_order-Quiet e' m.apart)
              | inr g ↦ rw (f, g) (reject-Quiet e a)
            ]
        | inr f ↦ rw f (free_order-Quiet e' m.apart)
      ]

  limit_not_market : (t : OrderType) → is_limit t ≡ true → is_market t ≡ false
  limit_not_market t h = ground arith

  by_side-Quiet :
      (side : OrderSide) (e : Engine BinaryOrderBook)
      → Apart bound index e.pool e.book
      → IsNext side (get e.pool index)
      → Quiet (suc bound) (process_by_side binary now side index e)
  by_side-Quiet buy e a n = elim (Bool-cases (is_limit (get e.pool index).type)) [
    | inl t ↦ rw t (process_buy_limit-Quiet e a n (limit_not_market _ t))
    | inr t ↦ rw t (process_buy_market-Quiet e a)
  ]
  by_side-Quiet sell e a n = elim (Bool-cases (is_limit (get e.pool index).type)) [
    | inl t ↦ rw t (process_sell_limit-Quiet e a n (limit_not_market _ t))
    | inr t ↦ rw t (process_sell_market-Quiet e a)
  ]

  -- `ProcessOrder` of the order in a slot of its own, with the next id and a price below `price_limit`,
  -- on a sound pool and book: whatever the order's side, type and time in force, afterwards the book
  -- is valid, every slot of the pool either is free or holds one order that waits in the book, the
  -- order's own slot included, no bid reaches an ask, and all ids in the book are older than the one
  -- after the order's.
  pub process_order-AtRest :
      (e : Engine BinaryOrderBook)
      → Apart bound index e.pool e.book
      → (get e.pool index).order_id ≡ bound
      → (get e.pool index).price < price_limit
      → Quiet (suc bound) (process_order binary now index e)
  unfolding process_order
  process_order-AtRest e a id limit =
      by_side-Quiet (get e.pool index).side e a (record { side = refl; id = id; limit = limit })
