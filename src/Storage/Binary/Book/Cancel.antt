-- ===== src/Storage/Binary/Book/Cancel.antt =====
-- `CancelOrder` and `UpdateQuantity` on a valid book.
use limit_order_book_v.Prelude.{
  ℕ, ◌≡◌, ◌≢◌, ◌⊎◌, ◌∙◌, inl, inr, refl, ap, arith, Bool, Bool-cases, true, false, ◌∷◌, ◌==◌,
  write_self,
}
use limit_order_book_v.Domain.Order.{canceled}
use limit_order_book_v.Domain.Pods.{OrderPod, nil_index}
use limit_order_book_v.Memory.OrderPool.{OrderPool, get, put, free}
use limit_order_book_v.Memory.IdIndexMap
use limit_order_book_v.Storage.LinkedList.Chain.{has_index}
use limit_order_book_v.Storage.Binary.{BinaryOrderBook, delete_and_free, cancel_order}
use limit_order_book_v.Storage.Binary.Book.{Waiting, IsBook}
use limit_order_book_v.Storage.Binary.Book.Frame.{free-frame, set_status-frame}
use limit_order_book_v.Storage.Binary.Book.Removal.{delete_by_side-free_index}
use limit_order_book_v.Storage.Binary.Book.Delete.{
  taken_out, delete_by_side-IsBook, delete_by_side-forgets,
}

-- An order has left a book: the others wait as before, its id is unknown and its slot is free.
pub record Leaves (index id : ℕ) (pool : OrderPool) (queue : Waiting)
    (out : OrderPool × BinaryOrderBook) : Type 0 where
  pub book : IsBook out.0 out.1 queue
  pub forgotten : IdIndexMap.get id out.1.id_to_index ≡ nil_index
  pub freed : out.0.free_index ≡ index ∷ pool.free_index

delete_and_free-Leaves :
    (index : ℕ) (pool : OrderPool) (b : BinaryOrderBook) {queue : Waiting}
    → IsBook pool b queue
    → has_index index (queue (get pool index).side (get pool index).price) ≡ true
    → Leaves index
        (get pool index).order_id
        pool
        (taken_out index (get pool index) queue)
        (delete_and_free index pool b)
unfolding delete_and_free free
delete_and_free-Leaves index pool b v w = record {
  book = free-frame index (delete_by_side-IsBook index pool b v w);
  forgotten = delete_by_side-forgets index pool b v w;
  freed = ap (λ l. index ∷ l) (delete_by_side-free_index (get pool index).side index pool b);
}

pub get-put : (index : ℕ) (o : OrderPod) (pool : OrderPool) → get (put index o pool) index ≡ o
unfolding put
get-put index o pool = write_self pool.storage index o

pub put-free_index :
    (index : ℕ) (o : OrderPod) (pool : OrderPool) → (put index o pool).free_index ≡ pool.free_index
unfolding put
put-free_index index o pool = refl

-- An order whose slot was written, but not its side, price and id, waits where it did.
pub Leaves-put :
    (index id : ℕ) (o : OrderPod) (pool : OrderPool) (b : BinaryOrderBook) {queue : Waiting}
    → IsBook (put index o pool) b queue
    → o.side ≡ (get pool index).side
    → o.price ≡ (get pool index).price
    → o.order_id ≡ id
    → has_index index (queue (get pool index).side (get pool index).price) ≡ true
    → Leaves index id pool
        (taken_out index (get pool index) queue)
        (delete_and_free index (put index o pool) b)
Leaves-put index id o pool b {queue} v s p i w =
    let e = get-put index o pool in
    let l = delete_and_free-Leaves index (put index o pool) b v (rw (e, s, p) w) in
    let l' = rw e at l in
    record {
      book = rw (← s, ← p) l'.book;
      forgotten = rw (← i) l'.forgotten;
      freed = l'.freed ∙ ap (λ f. index ∷ f) (put-free_index index o pool);
    }

-- What `CancelOrder` makes of an id: nothing when the book does not know it; otherwise its order leaves.
abbrev pub Cancels :
    ℕ → OrderPool → BinaryOrderBook → Waiting → Bool × OrderPool × BinaryOrderBook → Type 0
Cancels id pool b queue (done, pool', b') =
    let index = IdIndexMap.get id b.id_to_index in
    ((index ≡ nil_index) × ((done ≡ false) × ((pool' ≡ pool) × (b' ≡ b))))
    ⊎ ((index ≢ nil_index)
        × ((done ≡ true)
            × Leaves index id pool (taken_out index (get pool index) queue) (pool', b')))

-- In a valid book `CancelOrder` of an id that the book does not know answers false and changes nothing;
-- of any other id it answers true, the order leaves its queue, the others keep their places, the id is
-- forgotten, the slot is free, and the book is valid again.
pub cancel_order-Cancels :
    (id : ℕ) (pool : OrderPool) (b : BinaryOrderBook) {queue : Waiting}
    → IsBook pool b queue
    → Cancels id pool b queue (cancel_order id pool b)
unfolding cancel_order
cancel_order-Cancels id pool b {queue} v =
    let index = IdIndexMap.get id b.id_to_index in
    elim (Bool-cases (index == nil_index)) [
      | inl e ↦ rw e (inl (ground arith, (refl, (refl, refl))))
      | inr e ↦
          let ne : index ≢ nil_index = ground arith in
          let (o, w) = v.known id index refl ne in
          rw e (
            inr (
              ne,
              (
                refl,
                Leaves-put index id (record (get pool index) { status = canceled }) pool b
                    (set_status-frame index canceled v) refl refl o w,
              ),
            ))
    ]
