-- ===== src/Storage/Binary/Book.antt =====
-- The invariant of the whole book.
pub mod Frame
pub mod Sides
pub mod Add
pub mod Removal
pub mod Delete
pub mod Init
pub mod Cancel
pub mod Update
pub mod Pop
pub mod Terms
use limit_order_book_v.Prelude.{ℕ, ◌≡◌, ◌≢◌, true, List}
use limit_order_book_v.Domain.Order.{OrderSide, buy, sell}
use limit_order_book_v.Domain.Pods.{OrderPod, nil_index}
use limit_order_book_v.Memory.OrderPool.{OrderPool}
use limit_order_book_v.Memory.IdIndexMap
use limit_order_book_v.Memory.IdIndexMap.Lookup
use limit_order_book_v.Storage.LinkedList.Chain.{has_index}
use limit_order_book_v.Storage.Binary.{BinaryOrderBook, HalfBook}
use limit_order_book_v.Storage.Binary.Half

-- The slots that wait on each side at each price, oldest first.
abbrev pub Waiting : Type 0
Waiting = OrderSide → ℕ → List ℕ

abbrev pub half : OrderSide → BinaryOrderBook → HalfBook
half buy b = b.bids
half sell b = b.asks

-- Both sides are valid, an order waits on its side, and the index of ids leads exactly to the orders
-- that wait.
pub record IsBook (pool : OrderPool) (b : BinaryOrderBook) (queue : Waiting) : Type 0 where
  pub halves : (s : OrderSide) → Half.IsValid pool (half s b) (queue s)
  pub ids : Lookup.IsValid b.id_to_index
  pub sided : (s : OrderSide) (p i : ℕ) → has_index i (queue s p) ≡ true → (pool.storage i).side ≡ s
  pub found :
      (s : OrderSide) (p i : ℕ)
      → has_index i (queue s p) ≡ true
      → IdIndexMap.get (pool.storage i).order_id b.id_to_index ≡ i
  pub known :
      (id i : ℕ)
      → IdIndexMap.get id b.id_to_index ≡ i
      → i ≢ nil_index
      → ((pool.storage i).order_id ≡ id)
        × (has_index i (queue (pool.storage i).side (pool.storage i).price) ≡ true)

-- The queues with those of one side replaced.
abbrev pub on_side : OrderSide → (ℕ → List ℕ) → Waiting → Waiting
on_side buy q queue buy = q
on_side buy q queue sell = queue sell
on_side sell q queue buy = queue buy
on_side sell q queue sell = q
