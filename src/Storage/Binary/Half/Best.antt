-- ===== src/Storage/Binary/Half/Best.antt =====
-- The best order of a side.
use limit_order_book_v.Prelude.{
  is_nil, ℕ, ◌≤◌, ◌≡◌, ◌⊎◌, inl, inr, refl, arith, true, false, Option, none, some, List, [], ◌∷◌,
  ap, sym,
}
use limit_order_book_v.Domain.Pods.{nil_index, OrderPod}
use limit_order_book_v.Memory.OrderPool.{OrderPool}
use limit_order_book_v.Storage.Levels.{highest_price, lowest_price}
use limit_order_book_v.Storage.Levels.Best.{
  HighestOf, LowestOf, has_price, highest_price-HighestOf, lowest_price-LowestOf,
}
use limit_order_book_v.Storage.LinkedList.{LinkedList}
use limit_order_book_v.Storage.LinkedList.Add.{Queues}
use limit_order_book_v.Storage.Binary.{
  HalfBook, BinaryOrderBook, head_at, get_best_bid, get_best_ask,
}
use limit_order_book_v.Storage.Binary.Half.{IsValid}

-- The first of the queue at a price that is not worse than any other where orders wait; or no slot,
-- and no order waits.
abbrev pub BestOf : (ℕ → ℕ → Type 0) → (ℕ → List ℕ) → ℕ → Type 0
BestOf better queue index =
    ((index ≡ nil_index) × ((p : ℕ) → is_nil (queue p) ≡ true))
    ⊎ ((p : ℕ) × ((is : List ℕ) × ((queue p ≡ index ∷ is)
            × ((q : ℕ) → is_nil (queue q) ≡ false → better p q))))

pub first-head :
    {st : ℕ → OrderPod} {l : LinkedList} (is : List ℕ)
    → Queues st l is
    → is_nil is ≡ false
    → (js : List ℕ) × (is ≡ l.head ∷ js)
first-head [] q e = cc
first-head (i ∷ is) q e = (is, ap (λ k. k ∷ is) (sym (q.chain.0)))

module _ {pool : OrderPool} {h : HalfBook} {queue : ℕ → List ℕ} (v : IsValid pool h queue) where
  pub no_orders : ((q : ℕ) → has_price h.levels q ≡ false) → (p : ℕ) → is_nil (queue p) ≡ true
  no_orders none_left p = ground (arith, none_left p, v.marked p)

  head_at-highest :
      (o : Option ℕ) → HighestOf h.levels o → BestOf (λ p q. q ≤ p) queue (head_at h o)
  head_at-highest none best = inl (refl, no_orders best)
  head_at-highest (some p) best =
      let (is, e) = first-head (queue p) (v.queues p) (ground (arith, best.present, v.marked p)) in
      inr (p, (is, (e, λ q there. best.above q (ground (arith, v.marked q)))))

  head_at-lowest : (o : Option ℕ) → LowestOf h.levels o → BestOf (λ p q. p ≤ q) queue (head_at h o)
  head_at-lowest none best = inl (refl, no_orders best)
  head_at-lowest (some p) best =
      let (is, e) = first-head (queue p) (v.queues p) (ground (arith, best.present, v.marked p)) in
      inr (p, (is, (e, λ q there. best.below q (ground (arith, v.marked q)))))

-- In a book whose bids are valid `GetBestBid` returns the order that has waited longest at the highest
-- price where a bid waits, and `NIL` only when none does.
pub get_best_bid-BestOf :
    (pool : OrderPool) (b : BinaryOrderBook) {queue : ℕ → List ℕ}
    → IsValid pool b.bids queue
    → BestOf (λ p q. q ≤ p) queue (get_best_bid pool b)
unfolding get_best_bid
get_best_bid-BestOf pool b v =
    head_at-highest v (highest_price b.bids.levels) (highest_price-HighestOf v.coherent)

-- In a book whose asks are valid `GetBestAsk` returns the order that has waited longest at the lowest
-- price where an ask waits, and `NIL` only when none does.
pub get_best_ask-BestOf :
    (pool : OrderPool) (b : BinaryOrderBook) {queue : ℕ → List ℕ}
    → IsValid pool b.asks queue
    → BestOf (λ p q. p ≤ q) queue (get_best_ask pool b)
unfolding get_best_ask
get_best_ask-BestOf pool b v =
    head_at-lowest v (lowest_price b.asks.levels) (lowest_price-LowestOf v.coherent)
