-- ===== src/Storage/LinkedList/Unlink.antt =====
-- What `DeleteNode` does to the list and to the links of the slots.
use limit_order_book_v.Prelude.{ℕ, ◌≡◌, ◌≢◌, arith, ◌==◌, if◌then◌else◌, write}
use limit_order_book_v.Domain.Pods.{nil_index, OrderPod}
use limit_order_book_v.Memory.OrderPool.{OrderPool, get, put}
use limit_order_book_v.Storage.LinkedList.{LinkedList, unlink_before, unlink_behind, delete_node}

-- The links after `index` is taken out from between its neighbours.
pub record Unlinks (st st' : ℕ → OrderPod) (index : ℕ) : Type 0 where
  pub next :
      (j : ℕ)
      → j ≢ nil_index
      → j ≢ index
      → (st' j).next ≡ (if j == (st index).prev then (st index).next else (st j).next)
  pub prev :
      (j : ℕ)
      → j ≢ nil_index
      → j ≢ index
      → (st' j).prev ≡ (if j == (st index).next then (st index).prev else (st j).prev)

module _ (index : ℕ) (l : LinkedList) (pool : OrderPool) where
  abbrev order : OrderPod
  order = get pool index

  -- What each half of `DeleteNode` does to the links.
  before-next :
      (j : ℕ)
      → ((unlink_before index l pool).1.storage j).next ≡ (
          if order.prev == nil_index
          then (get pool j).next
          else if j == order.prev
          then order.next
          else (get pool j).next)
  unfolding unlink_before put write
  before-next j = ground arith

  before-prev : (j : ℕ) → ((unlink_before index l pool).1.storage j).prev ≡ (get pool j).prev
  unfolding unlink_before put write
  before-prev j = ground arith

  before-list :
      (unlink_before index l pool).0
      ≡ (if order.prev == nil_index then record l { head = order.next } else l)
  unfolding unlink_before
  before-list = ground arith

  behind-next : (j : ℕ) → ((unlink_behind index l pool).1.storage j).next ≡ (get pool j).next
  unfolding unlink_behind put write
  behind-next j = ground arith

  behind-prev :
      (j : ℕ)
      → ((unlink_behind index l pool).1.storage j).prev ≡ (
          if order.next == nil_index
          then (get pool j).prev
          else if j == order.next
          then order.prev
          else (get pool j).prev)
  unfolding unlink_behind put write
  behind-prev j = ground arith

  behind-list :
      (unlink_behind index l pool).0
      ≡ (if order.next == nil_index then record l { tail = order.prev } else l)
  unfolding unlink_behind
  behind-list = ground arith

module _ (index : ℕ) (l : LinkedList) (pool : OrderPool) (p : (get pool index).prev ≢ index) where
  abbrev half : LinkedList × OrderPool
  half = unlink_before index l pool

  half_next : (get half.1 index).next ≡ (get pool index).next
  half_next = ground (arith, before-next index l pool index)

  pub delete_node-Unlinks : Unlinks pool.storage (delete_node index l pool).1.storage index
  unfolding delete_node put write
  delete_node-Unlinks = record {
    next = λ j n ne. ground (arith, before-next index l pool j, behind-next index half.0 half.1 j);
    prev = λ j n ne. ground (
      arith,
      half_next,
      before-prev index l pool j,
      before-prev index l pool index,
      behind-prev index half.0 half.1 j,
    );
  }

  pub delete_node-head :
      (delete_node index l pool).0.head
      ≡ (if (get pool index).prev == nil_index then (get pool index).next else l.head)
  unfolding delete_node
  delete_node-head = ground (arith, before-list index l pool, behind-list index half.0 half.1)

  pub delete_node-tail :
      (delete_node index l pool).0.tail
      ≡ (if (get pool index).next == nil_index then (get pool index).prev else l.tail)
  unfolding delete_node
  delete_node-tail = ground (
    arith,
    half_next,
    before-prev index l pool index,
    before-list index l pool,
    behind-list index half.0 half.1,
  )
