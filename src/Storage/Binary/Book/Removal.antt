-- ===== src/Storage/Binary/Book/Removal.antt =====
-- What the deletion of an order leaves of the slots, of the queues and of the pool.
use limit_order_book_v.Prelude.{ℕ, ◌≡◌, ◌≢◌, refl, ap, arith, true, false, List, [], ◌∷◌, write}
use limit_order_book_v.Domain.Order.{OrderSide, buy, sell}
use limit_order_book_v.Memory.OrderPool.{OrderPool, get, put}
use limit_order_book_v.Memory.IdIndexMap
use limit_order_book_v.Memory.IdIndexMap.{IdIndexMap}
use limit_order_book_v.Storage.LinkedList.{LinkedList, delete_node, unlink_before, unlink_behind}
use limit_order_book_v.Storage.LinkedList.Chain.{has_index, Distinct}
use limit_order_book_v.Storage.LinkedList.Delete.{without}
use limit_order_book_v.Storage.PriceMap
use limit_order_book_v.Storage.Binary.{BinaryOrderBook, delete_from_half, delete_by_side}
use limit_order_book_v.Storage.Binary.Book.{half}
use limit_order_book_v.Storage.Binary.Book.Sides.{put_half}
use limit_order_book_v.Storage.Binary.Book.Frame.{SameIdentity}

pub delete_by_side_lem :
    (s : OrderSide) (index : ℕ) (pool : OrderPool) (b : BinaryOrderBook)
    → delete_by_side s index pool b ≡ (
        let (pool', h) = delete_from_half index pool (half s b) in
        (pool', put_half s h (IdIndexMap.clear (get pool' index).order_id b.id_to_index) b))
unfolding delete_by_side
delete_by_side_lem buy index pool b = refl
delete_by_side_lem sell index pool b = refl

pub delete_node-identity :
    (index : ℕ) (l : LinkedList) (pool : OrderPool) (j : ℕ)
    → SameIdentity (pool.storage j) ((delete_node index l pool).1.storage j)
unfolding delete_node unlink_before unlink_behind put write
delete_node-identity index l pool j = record { side = ground arith; order_id = ground arith }

pub without_self :
    (index : ℕ) (is : List ℕ) → Distinct is → has_index index (without index is) ≡ false
without_self index [] d = refl
without_self index (i ∷ is) (out, d) =
    ground (arith, without_self index is d, ap (λ k. has_index k is))

pub without_keeps :
    (i index : ℕ) (is : List ℕ)
    → i ≢ index
    → has_index i is ≡ true
    → has_index i (without index is) ≡ true
without_keeps i index [] ne w = w
without_keeps i index (j ∷ js) ne w = ground (arith, without_keeps i index js ne)

delete_node-free_index :
    (index : ℕ) (l : LinkedList) (pool : OrderPool)
    → (delete_node index l pool).1.free_index ≡ pool.free_index
unfolding delete_node unlink_before unlink_behind put
delete_node-free_index index l pool = ground arith

pub delete_by_side-free_index :
    (s : OrderSide) (index : ℕ) (pool : OrderPool) (b : BinaryOrderBook)
    → (delete_by_side s index pool b).0.free_index ≡ pool.free_index
unfolding delete_from_half
delete_by_side-free_index s index pool b =
    rw (delete_by_side_lem s index pool b)
      (delete_node-free_index index (PriceMap.at (half s b).lists (get pool index).price) pool)
