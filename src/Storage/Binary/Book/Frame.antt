-- ===== src/Storage/Binary/Book/Frame.antt =====
-- What leaves the book as it is.
use limit_order_book_v.Prelude.{ℕ, ◌≡◌, ◌∙◌, refl, arith, true, List, write}
use limit_order_book_v.Domain.Order.{OrderStatus}
use limit_order_book_v.Domain.Pods.{OrderPod}
use limit_order_book_v.Memory.OrderPool.{OrderPool, put, free}
use limit_order_book_v.Storage.LinkedList.Chain.{has_index}
use limit_order_book_v.Storage.Binary.{BinaryOrderBook, HalfBook, set_status, set_quantity}
use limit_order_book_v.Storage.Binary.Half
use limit_order_book_v.Storage.Binary.Half.{Queues-frame}
use limit_order_book_v.Storage.Binary.Book.{Waiting, IsBook}

-- The same links and price.
pub record SameLinks (o o' : OrderPod) : Type 0 where
  pub next : o'.next ≡ o.next
  pub prev : o'.prev ≡ o.prev
  pub price : o'.price ≡ o.price

-- The same side and id.
pub record SameIdentity (o o' : OrderPod) : Type 0 where
  pub side : o'.side ≡ o.side
  pub order_id : o'.order_id ≡ o.order_id

-- The same order but for its quantity, its status and its links.
pub record SameKind (o o' : OrderPod) : Type 0 where
  pub price : o'.price ≡ o.price
  pub type : o'.type ≡ o.type
  pub side : o'.side ≡ o.side
  pub tif : o'.tif ≡ o.tif
  pub order_id : o'.order_id ≡ o.order_id

-- The same quantity too.
pub record SameTerms (o o' : OrderPod) : Type 0 where
  pub quantity : o'.quantity ≡ o.quantity
  pub kind : SameKind o o'

-- A side is valid as long as the orders that wait there keep their links and prices.
pub half-frame :
    {pool pool' : OrderPool} {h : HalfBook} {queue : ℕ → List ℕ}
    → Half.IsValid pool h queue
    → ((p i : ℕ) → has_index i (queue p) ≡ true → SameLinks (pool.storage i) (pool'.storage i))
    → Half.IsValid pool' h queue
half-frame v same = record {
  coherent = v.coherent;
  queues = λ p. Queues-frame (v.queues p) (λ i w. ((same p i w).next, (same p i w).prev));
  marked = v.marked;
  priced = λ p i w. (same p i w).price ∙ v.priced p i w;
}

-- A new status or quantity of a slot leaves the book valid.
pub book-frame :
    {pool pool' : OrderPool} {b : BinaryOrderBook} {queue : Waiting}
    → IsBook pool b queue
    → ((i : ℕ)
        → SameLinks (pool.storage i) (pool'.storage i)
          × SameIdentity (pool.storage i) (pool'.storage i))
    → IsBook pool' b queue
book-frame {pool} {pool'} {b} {queue} v same = record {
  halves = λ s. half-frame (v.halves s) (λ p i w. (same i).0);
  ids = v.ids;
  sided = λ s p i w. (same i).1.side ∙ v.sided s p i w;
  found = λ s p i w. rw ((same i).1.order_id) (v.found s p i w);
  known = λ id i e ne.
      let (o, w) = v.known id i e ne in
      ((same i).1.order_id ∙ o, rw ((same i).1.side, (same i).0.price) w);
}

pub set_status-frame :
    (index : ℕ) (status : OrderStatus) {pool : OrderPool} {b : BinaryOrderBook} {queue : Waiting}
    → IsBook pool b queue
    → IsBook (set_status index status pool) b queue
unfolding put write
set_status-frame index status v = book-frame v (λ i. (
  record { next = ground arith; prev = ground arith; price = ground arith },
  record { side = ground arith; order_id = ground arith },
))

pub set_quantity-frame :
    (index quantity : ℕ) {pool : OrderPool} {b : BinaryOrderBook} {queue : Waiting}
    → IsBook pool b queue
    → IsBook (set_quantity index quantity pool) b queue
unfolding put write
set_quantity-frame index quantity v = book-frame v (λ i. (
  record { next = ground arith; prev = ground arith; price = ground arith },
  record { side = ground arith; order_id = ground arith },
))

-- So does freeing a slot, which is not touched by that.
pub free-frame :
    (index : ℕ) {pool : OrderPool} {b : BinaryOrderBook} {queue : Waiting}
    → IsBook pool b queue
    → IsBook (free index pool) b queue
unfolding free
free-frame index v = book-frame v (λ i.
    (record { next = refl; prev = refl; price = refl }, record { side = refl; order_id = refl }))
