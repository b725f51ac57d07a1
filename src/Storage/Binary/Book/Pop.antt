-- ===== src/Storage/Binary/Book/Pop.antt =====
-- `PopBestBid` and `PopBestAsk` on a valid book.
use limit_order_book_v.Prelude.{
  ℕ, ◌≤◌, ◌≡◌, ◌⊎◌, inl, inr, refl, ap, arith, is_nil, true, false, Option, none, some, List, ◌∷◌,
}
use limit_order_book_v.Domain.Order.{OrderSide, buy, sell, filled}
use limit_order_book_v.Memory.OrderPool.{OrderPool, get}
use limit_order_book_v.Storage.Levels.{highest_price, lowest_price}
use limit_order_book_v.Storage.Levels.Best.{
  HighestOf, LowestOf, highest_price-HighestOf, lowest_price-LowestOf,
}
use limit_order_book_v.Storage.LinkedList.{get_head}
use limit_order_book_v.Storage.LinkedList.Chain.{has_index}
use limit_order_book_v.Storage.PriceMap
use limit_order_book_v.Storage.Binary.{
  BinaryOrderBook, delete_and_free, set_status, pop_bid_at, pop_ask_at, pop_best_bid, pop_best_ask,
}
use limit_order_book_v.Storage.Binary.Half.Best.{first-head, no_orders}
use limit_order_book_v.Storage.Binary.Book.{Waiting, IsBook}
use limit_order_book_v.Storage.Binary.Book.Frame.{set_status-frame}
use limit_order_book_v.Storage.Binary.Book.Delete.{taken_out}
use limit_order_book_v.Storage.Binary.Book.Cancel.{Leaves, Leaves-put, get-put}

-- What a pop on side `s` makes of the book: nothing when nobody waits there; otherwise the first of the
-- queue at a price that is not worse than any other leaves.
abbrev pub Pops :
    (ℕ → ℕ → Type 0)
    → OrderSide
    → OrderPool
    → BinaryOrderBook
    → Waiting
    → OrderPool × BinaryOrderBook
    → Type 0
Pops better s pool b queue (pool', b') =
    (((p : ℕ) → is_nil (queue s p) ≡ true) × ((pool' ≡ pool) × (b' ≡ b)))
    ⊎ ((p index : ℕ) × ((is : List ℕ) × ((queue s p ≡ index ∷ is)
            × (((q : ℕ) → is_nil (queue s q) ≡ false → better p q)
                × Leaves index (get pool index).order_id pool
                    (taken_out index (get pool index) queue) (pool', b')))))

module _ (pool : OrderPool) (b : BinaryOrderBook) {queue : Waiting} (v : IsBook pool b queue) where
  -- The first of a queue leaves it as filled.
  first-Leaves :
      (s : OrderSide) (p index : ℕ) (is : List ℕ)
      → queue s p ≡ index ∷ is
      → Leaves index
          (get pool index).order_id
          pool
          (taken_out index (get pool index) queue)
          (delete_and_free index (set_status index filled pool) b)
  first-Leaves s p index is e =
      let w : has_index index (queue s p) ≡ true = ground (arith, ap (has_index index) e) in
      let there : has_index index (queue (get pool index).side (get pool index).price) ≡ true =
        rw (v.sided s p index w, (v.halves s).priced p index w) w in
      Leaves-put index (get pool index).order_id (record (get pool index) { status = filled }) pool
        b (set_status-frame index filled v) refl refl refl there

  pop_side :
      (s : OrderSide) (p index : ℕ) (is : List ℕ)
      → queue s p ≡ index ∷ is
      → (get (set_status index filled pool) index).side ≡ s
  pop_side s p index is e =
      let w : has_index index (queue s p) ≡ true = ground (arith, ap (has_index index) e) in
      rw (get-put index (record (get pool index) { status = filled }) pool) (v.sided s p index w)

  pop_bid_at-Pops :
      (o : Option ℕ)
      → HighestOf b.bids.levels o
      → Pops (λ p q. q ≤ p) buy pool b queue (pop_bid_at o pool b)
  unfolding delete_and_free
  pop_bid_at-Pops none best = inl (no_orders (v.halves buy) best, (refl, refl))
  pop_bid_at-Pops (some p) best =
      let h = v.halves buy in
      let index = get_head (PriceMap.at b.bids.lists p) in
      let (is, e) =
        first-head (queue buy p) (h.queues p) (ground (arith, best.present, h.marked p)) in
      let leaves = rw (pop_side buy p index is e) at (first-Leaves buy p index is e) in
      inr (p, index, (is, (e, (λ q there. best.above q (ground (arith, h.marked q)), leaves))))

  -- On a valid book `PopBestBid` takes out the order that has waited longest at the highest price where
  -- a bid waits, its id is forgotten, its slot is free and the book is valid again; when no bid waits
  -- it changes nothing.
  pub pop_best_bid-Pops : Pops (λ p q. q ≤ p) buy pool b queue (pop_best_bid pool b)
  unfolding pop_best_bid
  pop_best_bid-Pops =
      pop_bid_at-Pops (highest_price b.bids.levels)
        (highest_price-HighestOf (v.halves buy).coherent)

  pop_ask_at-Pops :
      (o : Option ℕ)
      → LowestOf b.asks.levels o
      → Pops (λ p q. p ≤ q) sell pool b queue (pop_ask_at o pool b)
  unfolding delete_and_free
  pop_ask_at-Pops none best = inl (no_orders (v.halves sell) best, (refl, refl))
  pop_ask_at-Pops (some p) best =
      let h = v.halves sell in
      let index = get_head (PriceMap.at b.asks.lists p) in
      let (is, e) =
        first-head (queue sell p) (h.queues p) (ground (arith, best.present, h.marked p)) in
      let leaves = rw (pop_side sell p index is e) at (first-Leaves sell p index is e) in
      inr (p, index, (is, (e, (λ q there. best.below q (ground (arith, h.marked q)), leaves))))

  -- On a valid book `PopBestAsk` takes out the order that has waited longest at the lowest price where
  -- an ask waits, its id is forgotten, its slot is free and the book is valid again; when no ask waits
  -- it changes nothing.
  pub pop_best_ask-Pops : Pops (λ p q. p ≤ q) sell pool b queue (pop_best_ask pool b)
  unfolding pop_best_ask
  pop_best_ask-Pops =
      pop_ask_at-Pops (lowest_price b.asks.levels) (lowest_price-LowestOf (v.halves sell).coherent)
