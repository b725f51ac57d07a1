-- ===== src/Engine/Matching/Sound/Removal.antt =====
-- Orders that leave the book leave it sound.
use limit_order_book_v.Prelude.{
  Bool, Bool-cases, ◌==◌, ◌∙◌, refl, Bool-cases, ◌==◌, ◌∙◌, ℕ, inl, inr, refl, arith,
}
use limit_order_book_v.Domain.Order.{canceled, filled, partially_filled, is_positive, OrderSide}
use limit_order_book_v.Domain.Pods.{nil_index}
use limit_order_book_v.Memory.OrderPool.{OrderPool, get}
use limit_order_book_v.Memory.IdIndexMap
use limit_order_book_v.Storage.Binary.{
  set_quantity, set_status, BinaryOrderBook, cancel_order, update_quantity,
}
use limit_order_book_v.Storage.Binary.Book.Frame.{set_status-frame, set_quantity-frame}
use limit_order_book_v.Storage.Binary.Book.Cancel.{Leaves-put, put-free_index}
use limit_order_book_v.Storage.Binary.Book.Update.{Leaves-with}
use limit_order_book_v.Storage.Binary.Book.Pop.{Pops}
use limit_order_book_v.Engine.Matching.Sound.{IsSound, same-IsSound, Leaves-IsSound, first_there}
use limit_order_book_v.Storage.Binary.Book.Frame.{SameKind}
use limit_order_book_v.Storage.Binary.Book.Terms.{
  SameKind-trans, set_status-SameTerms, delete_and_free-SameTerms, set_quantity-SameKind,
}

pub Pops-IsSound :
    {better : ℕ → ℕ → Type 0} {bound : ℕ} {taker : ℕ → Bool} (s : OrderSide) (pool : OrderPool)
    (b : BinaryOrderBook) (out : OrderPool × BinaryOrderBook) (a : IsSound bound taker pool b)
    → Pops better s pool b a.queue out
    → ((j : ℕ) → SameKind (get pool j) (get out.0 j))
    → IsSound bound taker out.0 out.1
Pops-IsSound s pool b (pool', b') a (inl (none_left, (e, f))) same = rw (e, f) a
Pops-IsSound s pool b out a (inr (p, index, (is, (e, (best, left))))) same =
    Leaves-IsSound index (get pool index).order_id pool b out a
      (first_there s p index is pool b a.book e) left same

pub update_quantity-IsSound :
    {bound : ℕ} {taker : ℕ → Bool} (id quantity : ℕ) (pool : OrderPool) (b : BinaryOrderBook)
    (a : IsSound bound taker pool b)
    → IsSound bound taker
        (update_quantity id quantity pool b).0
        (update_quantity id quantity pool b).1
unfolding update_quantity
update_quantity-IsSound id quantity pool b a =
    let index = IdIndexMap.get id b.id_to_index in
    let p1 = set_quantity index quantity pool in
    elim (Bool-cases (index == nil_index)) [
      | inl e ↦ rw e a
      | inr e ↦
          let (o, w) = a.book.known id index refl (ground arith) in
          elim (Bool-cases (is_positive quantity)) [
            | inl f ↦
                rw (e, f)
                  (same-IsSound pool (set_status index partially_filled p1) b a
                    (set_status-frame index partially_filled
                      (set_quantity-frame index quantity a.book))
                    (put-free_index index (record (get p1 index) { status = partially_filled }) p1
                      ∙ put-free_index index (record (get pool index) { quantity = quantity }) pool)
                    (λ j.
                      SameKind-trans (set_quantity-SameKind index quantity pool j)
                        (set_status-SameTerms index partially_filled p1 j).kind))
            | inr f ↦
                rw (e, f)
                  (Leaves-IsSound index id pool b _ a w
                    (Leaves-with index id 0 filled pool b a.book o w)
                    (λ j.
                      SameKind-trans
                        (SameKind-trans (set_quantity-SameKind index 0 pool j)
                          (set_status-SameTerms index filled (set_quantity index 0 pool) j).kind)
                        (delete_and_free-SameTerms index
                          (set_status index filled (set_quantity index 0 pool)) b j).kind))
          ]
    ]

-- A cancellation leaves the pool and the book sound.
pub cancel_order-IsSound :
    {bound : ℕ} {taker : ℕ → Bool} (id : ℕ) (pool : OrderPool) (b : BinaryOrderBook)
    → IsSound bound taker pool b
    → let (done, pool', b') = cancel_order id pool b in IsSound bound taker pool' b'
unfolding cancel_order
cancel_order-IsSound id pool b a =
    let index = IdIndexMap.get id b.id_to_index in
    elim (Bool-cases (index == nil_index)) [
      | inl e ↦ rw e a
      | inr e ↦
          let (o, w) = a.book.known id index refl (ground arith) in
          rw e (
            Leaves-IsSound index id pool b _ a w
              (Leaves-put index id (record (get pool index) { status = canceled }) pool b
                (set_status-frame index canceled a.book) refl refl o w)
              (λ j.
                SameKind-trans (set_status-SameTerms index canceled pool j).kind
                  (delete_and_free-SameTerms index (set_status index canceled pool) b j).kind))
    ]
