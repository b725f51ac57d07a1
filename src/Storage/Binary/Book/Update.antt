-- ===== src/Storage/Binary/Book/Update.antt =====
-- `UpdateQuantity` on a valid book.
use limit_order_book_v.Prelude.{
  ℕ, ◌≡◌, ◌≢◌, ◌⊎◌, ◌∙◌, inl, inr, refl, ap, arith, Bool-cases, true, false, ◌∷◌, ◌==◌,
}
use limit_order_book_v.Domain.Order.{OrderStatus, filled, partially_filled, is_positive}
use limit_order_book_v.Domain.Pods.{nil_index}
use limit_order_book_v.Memory.OrderPool.{OrderPool, get}
use limit_order_book_v.Memory.IdIndexMap
use limit_order_book_v.Storage.LinkedList.Chain.{has_index}
use limit_order_book_v.Storage.Binary.{
  BinaryOrderBook, delete_and_free, set_status, set_quantity, update_quantity,
}
use limit_order_book_v.Storage.Binary.Book.{Waiting, IsBook}
use limit_order_book_v.Storage.Binary.Book.Frame.{set_status-frame, set_quantity-frame}
use limit_order_book_v.Storage.Binary.Book.Delete.{taken_out}
use limit_order_book_v.Storage.Binary.Book.Cancel.{Leaves, Leaves-put, get-put, put-free_index}

-- The order leaves after a new quantity and a new status.
pub Leaves-with :
    (index id quantity : ℕ) (status : OrderStatus) (pool : OrderPool) (b : BinaryOrderBook)
    {queue : Waiting}
    → IsBook pool b queue
    → (get pool index).order_id ≡ id
    → has_index index (queue (get pool index).side (get pool index).price) ≡ true
    → Leaves index id pool
        (taken_out index (get pool index) queue)
        (delete_and_free index (set_status index status (set_quantity index quantity pool)) b)
Leaves-with index id quantity status pool b {queue} v o w =
    let p1 = set_quantity index quantity pool in
    let e = get-put index (record (get pool index) { quantity = quantity }) pool in
    let t : taken_out index (get p1 index) queue ≡ taken_out index (get pool index) queue =
      rw e refl in
    let l =
      Leaves-put index id (record (get p1 index) { status = status }) p1 b
        (set_status-frame index status (set_quantity-frame index quantity v)) refl refl (rw e o)
        (rw e w) in
    record {
      book = rw (← t) l.book;
      forgotten = l.forgotten;
      freed =
          l.freed
          ∙ ap (λ f. index ∷ f)
              (put-free_index index (record (get pool index) { quantity = quantity }) pool);
    }

filled_partly :
    (index quantity : ℕ) (pool : OrderPool)
    → get (set_status index partially_filled (set_quantity index quantity pool)) index
      ≡ record (get pool index) { quantity = quantity; status = partially_filled }
filled_partly index quantity pool =
    let p1 = set_quantity index quantity pool in
    get-put index (record (get p1 index) { status = partially_filled }) p1
    ∙ rw (get-put index (record (get pool index) { quantity = quantity }) pool) refl

-- What `UpdateQuantity` makes of an id: nothing when the book does not know it; otherwise the order
-- waits on with the new quantity when that is positive, or leaves.
abbrev pub Updates :
    ℕ → ℕ → OrderPool → BinaryOrderBook → Waiting → OrderPool × BinaryOrderBook → Type 0
Updates id quantity pool b queue (pool', b') =
    let index = IdIndexMap.get id b.id_to_index in
    ((index ≡ nil_index) × ((pool' ≡ pool) × (b' ≡ b)))
    ⊎ ((index ≢ nil_index)
        × (((is_positive quantity ≡ true)
              × ((b' ≡ b)
                  × (IsBook pool' b queue
                      × (get pool' index ≡ record (get pool index) {
                        quantity = quantity;
                        status = partially_filled;
                      }))))
            ⊎ ((is_positive quantity ≡ false)
                × Leaves index id pool (taken_out index (get pool index) queue) (pool', b'))))

-- In a valid book `UpdateQuantity` of an id that the book does not know changes nothing. A known order
-- keeps its place with a positive new quantity, as partially filled; with any other it leaves its
-- queue, its id is forgotten and its slot is free. The book stays valid.
pub update_quantity-Updates :
    (id quantity : ℕ) (pool : OrderPool) (b : BinaryOrderBook) {queue : Waiting}
    → IsBook pool b queue
    → Updates id quantity pool b queue (update_quantity id quantity pool b)
unfolding update_quantity
update_quantity-Updates id quantity pool b {queue} v =
    let index = IdIndexMap.get id b.id_to_index in
    elim (Bool-cases (index == nil_index)) [
      | inl e ↦ rw e (inl (ground arith, (refl, refl)))
      | inr e ↦
          let ne : index ≢ nil_index = ground arith in
          let (o, w) = v.known id index refl ne in
          elim (Bool-cases (is_positive quantity)) [
            | inl f ↦
                rw (e, f)
                  (inr (
                    ne,
                    inl (
                      refl,
                      (
                        refl,
                        (
                          set_status-frame index partially_filled
                              (set_quantity-frame index quantity v),
                          filled_partly index quantity pool,
                        ),
                      ),
                    ),
                  ))
            | inr f ↦ rw (e, f) (inr (ne, inr (refl, Leaves-with index id 0 filled pool b v o w)))
          ]
    ]
