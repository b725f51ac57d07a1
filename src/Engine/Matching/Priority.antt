-- ===== src/Engine/Matching/Priority.antt =====
-- The order in which the loops of include/Engine/MatchingEngine.h trade with the binary book.
pub mod Asks
pub mod Bids
use limit_order_book_v.Prelude.{
  ℕ, zero, suc, ◌-◌, ◌≤◌, ◌≡◌, ◌∙◌, refl, sym, ap, arith, Bool-cases, true, false, inl, inr, is_nil,
  ◌==◌, List, [], ◌∷◌, ◌++◌, append-nil, append_assoc,
}
use limit_order_book_v.Domain.Order.{OrderSide, buy, sell}
use limit_order_book_v.Domain.Pods.{TradePod}
use limit_order_book_v.Memory.OrderPool.{OrderPool, get}
use limit_order_book_v.Memory.IdIndexMap
use limit_order_book_v.Storage.LinkedList.Chain.{has_index}
use limit_order_book_v.Storage.Binary.{
  BinaryOrderBook, set_quantity, update_quantity, pop_best_ask, pop_best_bid, get_best_ask,
  get_best_bid, is_ask_empty, is_bid_empty,
}
use limit_order_book_v.Storage.Binary.Half.Best.{BestOf, get_best_bid-BestOf, get_best_ask-BestOf}
use limit_order_book_v.Storage.Binary.Book.{Waiting, IsBook, half}
use limit_order_book_v.Storage.Levels
use limit_order_book_v.Storage.Binary.Book.Frame.{set_quantity-frame}
use limit_order_book_v.Storage.Binary.Book.Cancel.{Leaves}
use limit_order_book_v.Storage.Binary.Book.Delete.{taken_out, removed-member}
use limit_order_book_v.Storage.Binary.Book.Pop.{Pops, pop_best_bid-Pops, pop_best_ask-Pops}
use limit_order_book_v.Storage.Binary.Book.Update.{Updates, update_quantity-Updates}
use limit_order_book_v.Engine.BookApi.{binary}
use limit_order_book_v.Engine.Matching.{
  Engine, trade_with, settle_ask, settle_bid, match_ask, match_bid, crosses_ask, crosses_bid,
  match_order_bid, match_order_ask,
}
use limit_order_book_v.Engine.Matching.Binary.{nobody_waits}
use limit_order_book_v.Engine.Matching.Reach.{not_nil}
use limit_order_book_v.Engine.Matching.Sound.{first_there}

-- The book is valid, and the orders on a side wait at prices with a property.
abbrev pub Within : OrderSide → (ℕ → Type 0) → OrderPool → BinaryOrderBook → Type 0
Within s P pool b =
    (queue : Waiting) × (IsBook pool b queue × ((p i : ℕ) → has_index i (queue s p) ≡ true → P p))

module _ (s : OrderSide) (P : ℕ → Type 0) (pool : OrderPool) (b : BinaryOrderBook) where
  pub set_quantity-Within : (i q : ℕ) → Within s P pool b → Within s P (set_quantity i q pool) b
  set_quantity-Within i q (queue, (v, all)) = (queue, (set_quantity-frame i q v, all))

  Leaves-Within :
      (index id : ℕ) (out : OrderPool × BinaryOrderBook) {queue : Waiting}
      → IsBook pool b queue
      → ((p i : ℕ) → has_index i (queue s p) ≡ true → P p)
      → has_index index (queue (get pool index).side (get pool index).price) ≡ true
      → Leaves index id pool (taken_out index (get pool index) queue) out
      → Within s P out.0 out.1
  Leaves-Within index id out {queue} v all w left = (
    taken_out index (get pool index) queue,
    (left.book, λ p i there. all p i (removed-member index pool b v w s p i there).1),
  )

  pub update_quantity-Within :
      (id q : ℕ)
      → Within s P pool b
      → Within s P (update_quantity id q pool b).0 (update_quantity id q pool b).1
  update_quantity-Within id q (queue, (v, all)) =
      let out = update_quantity id q pool b in
      elim (update_quantity-Updates id q pool b v) [
        | inl (e, (same_pool, same_book)) ↦ rw (same_pool, same_book) (queue, (v, all))
        | inr (ne, inl (positive, (same_book, (v', changed)))) ↦ rw same_book (queue, (v', all))
        | inr (ne, inr (zero_left, left)) ↦
            let index = IdIndexMap.get id b.id_to_index in
            Leaves-Within index id out v all (v.known id index refl ne).1 left
      ]

  pub Pops-Within :
      {better : ℕ → ℕ → Type 0} (t : OrderSide) (out : OrderPool × BinaryOrderBook)
      {queue : Waiting}
      → IsBook pool b queue
      → ((p i : ℕ) → has_index i (queue s p) ≡ true → P p)
      → Pops better t pool b queue out
      → Within s P out.0 out.1
  Pops-Within t out {queue} v all (inl (none_left, (same_pool, same_book))) =
      rw (same_pool, same_book) (queue, (v, all))
  Pops-Within t out v all (inr (p, index, (is, (e, (best, left))))) =
      Leaves-Within index (get pool index).order_id out v all (first_there t p index is pool b v e)
        left

-- The first of some trades is made at a price with a property, and each later one at a price to which that of
-- the trade before it is better or equal.
abbrev pub InOrder : (ℕ → ℕ → Type 0) → (ℕ → Type 0) → List TradePod → Type 0
InOrder better P [] = Unit {0}
InOrder better P (t ∷ ts) = P t.price × InOrder better (better t.price) ts

abbrev pub AnyPrice : ℕ → Type 0
AnyPrice p = Unit {0}

-- The price of the best order of a side where somebody waits, and what it says of the others.
pub BestOf-Within :
    {better : ℕ → ℕ → Type 0} (s : OrderSide) (P : ℕ → Type 0) (pool : OrderPool)
    (b : BinaryOrderBook) (best : ℕ)
    → (w : Within s P pool b) → Levels.is_empty (half s b).levels ≡ false
    → BestOf better (w.0 s) best
    → P (get pool best).price × Within s (better (get pool best).price) pool b
BestOf-Within s P pool b best (queue, (v, all)) some_wait (inl (e, none_left)) =
    absurd (ground (arith, nobody_waits (v.halves s) none_left))
BestOf-Within {better} s P pool b best (queue, (v, all)) some_wait (inr (p, (is, (e, first)))) =
    let here : has_index best (queue s p) ≡ true = ground (arith, ap (has_index best) e) in
    let price : (get pool best).price ≡ p = (v.halves s).priced p best here in
    rw price (all p best here, (queue, (v, λ q i there. first q (not_nil i (queue s q) there))))

module _ (now : ℕ → ℕ) where
  pub trade_with-Within :
      (s : OrderSide) (P : ℕ → Type 0) (index best : ℕ) (e : Engine BinaryOrderBook)
      → Within s P e.pool e.book
      → Within s P
          (trade_with binary now index best e).pool
          (trade_with binary now index best e).book
  unfolding trade_with
  trade_with-Within s P index best e w = set_quantity-Within s P e.pool e.book index _ w
