-- ===== src/Storage/Binary/Book/Delete.antt =====
-- Taking an order out keeps the invariant of the book.
use limit_order_book_v.Prelude.{
  ℕ, ◌≡◌, ◌≢◌, ◌⊎◌, ◌∙◌, inl, inr, sym, ap, arith, Bool-cases, true, List, ◌==◌, if◌then◌else◌,
  write, write_lem,
}
use limit_order_book_v.Domain.Order.{OrderSide}
use limit_order_book_v.Domain.Pods.{OrderPod, nil_index}
use limit_order_book_v.Memory.OrderPool.{OrderPool, get}
use limit_order_book_v.Memory.IdIndexMap
use limit_order_book_v.Memory.IdIndexMap.{IdIndexMap}
use limit_order_book_v.Memory.IdIndexMap.Lookup.{get-clear, clear-IsValid}
use limit_order_book_v.Storage.LinkedList.{LinkedList, delete_node}
use limit_order_book_v.Storage.LinkedList.Chain.{has_index}
use limit_order_book_v.Storage.LinkedList.Unlink.{delete_node-Unlinks}
use limit_order_book_v.Storage.LinkedList.Delete.{without, apart}
use limit_order_book_v.Storage.PriceMap
use limit_order_book_v.Storage.Binary.{BinaryOrderBook, delete_from_half, delete_by_side}
use limit_order_book_v.Storage.Binary.Half.{nil-outside}
use limit_order_book_v.Storage.Binary.Half.Delete.{
  delete_node-price, delete_from_half-IsValid, next-cases, prev-cases, has_index-without_inside,
}
use limit_order_book_v.Storage.Binary.Book.{Waiting, half, IsBook, on_side}
use limit_order_book_v.Storage.Binary.Book.Sides.{
  on_side-halves, on_side-member, on_side-keeps, put_half-ids,
}
use limit_order_book_v.Storage.Binary.Book.Removal.{
  delete_by_side_lem, delete_node-identity, without_self, without_keeps,
}
use limit_order_book_v.Storage.Binary.Book.Frame.{SameLinks, half-frame}

-- The queues without an order, which waits on its side at its price.
abbrev pub taken_out : ℕ → OrderPod → Waiting → Waiting
taken_out index o queue =
    on_side o.side (write (queue o.side) o.price (without index (queue o.side o.price))) queue

module _ (index : ℕ) (pool : OrderPool) (b : BinaryOrderBook) {queue : Waiting}
    (v : IsBook pool b queue)
    (waits : has_index index (queue (get pool index).side (get pool index).price) ≡ true) where
  abbrev side : OrderSide
  side = (get pool index).side

  abbrev price : ℕ
  price = (get pool index).price

  abbrev id : ℕ
  id = (get pool index).order_id

  abbrev list : LinkedList
  list = PriceMap.at (half side b).lists price

  abbrev shorter : ℕ → List ℕ
  shorter = write (queue side) price (without index (queue side price))

  abbrev removed : Waiting
  removed = taken_out index (get pool index) queue

  shorter_lem :
      (p : ℕ) → shorter p ≡ (if p == price then without index (queue side price) else queue side p)
  shorter_lem p = write_lem (queue side) price (without index (queue side price)) p

  elsewhere :
      (t : OrderSide) (p i : ℕ)
      → (t ≢ side) ⊎ (p ≢ price)
      → has_index i (queue t p) ≡ true
      → i ≢ index
  elsewhere t p i (inl nt) w e = nt (sym (v.sided t p i w) ∙ ap (λ k. (pool.storage k).side) e)
  elsewhere t p i (inr np) w e =
      np (sym ((v.halves t).priced p i w) ∙ ap (λ k. (pool.storage k).price) e)

  pub removed-member :
      (t : OrderSide) (p i : ℕ)
      → has_index i (removed t p) ≡ true
      → (i ≢ index) × (has_index i (queue t p) ≡ true)
  removed-member t p i w = elim (on_side-member side t shorter queue p i w) [
    | inr (nt, w') ↦ (elsewhere t p i (inl nt) w', w')
    | inl (e, w') ↦ elim (Bool-cases (p == price)) [
      | inl f ↦
          let g : p ≡ price = ground arith in
          let stays : has_index i (without index (queue side price)) ≡ true =
            ground (arith, ap (has_index i) (shorter_lem p)) in
          let d = ((v.halves side).queues price).distinct in
          (
            λ h. cc (
              without_self index (queue side price) d,
              ap (λ k. has_index k (without index (queue side price))) h,
              stays,
            ),
            rw (e, g) (has_index-without_inside i index (queue side price) stays),
          )
      | inr f ↦
          let stays : has_index i (queue side p) ≡ true =
            ground (arith, ap (has_index i) (shorter_lem p)) in
          (elsewhere side p i (inr (ground arith)) stays, rw e stays)
    ]
  ]

  pub removed-keeps :
      (t : OrderSide) (p i : ℕ)
      → i ≢ index
      → has_index i (queue t p) ≡ true
      → has_index i (removed t p) ≡ true
  removed-keeps t p i ne w =
      on_side-keeps side t shorter queue p i
        (λ e w'.
          let there = sym (ap (λ u. has_index i (queue u p)) e) ∙ w' in
          elim (Bool-cases (p == price)) [
            | inl f ↦
                let g : p ≡ price = ground arith in
                ap (has_index i) (shorter_lem p)
                ∙ rw f (
                    without_keeps i index (queue side price) ne
                      (sym (ap (λ k. has_index i (queue side k)) g) ∙ there))
            | inr f ↦ ap (has_index i) (shorter_lem p) ∙ rw f there
          ])
        w

  -- No neighbour of the order waits on the other side.
  foreign :
      (t : OrderSide) (p i j : ℕ)
      → t ≢ side
      → has_index i (queue t p) ≡ true
      → (j ≡ nil_index) ⊎ (has_index j (queue side price) ≡ true)
      → i ≢ j
  foreign t p i j nt w (inl z) e = nil-outside (queue t p) i ((v.halves t).queues p) w (e ∙ z)
  foreign t p i j nt w (inr m) e =
      nt (sym (v.sided t p i w) ∙ (ap (λ k. (pool.storage k).side) e ∙ v.sided side price j m))

  other-links :
      (t : OrderSide)
      → t ≢ side
      → (p i : ℕ) → has_index i (queue t p) ≡ true
      → SameLinks (pool.storage i) ((delete_node index list pool).1.storage i)
  other-links t nt p i w =
      let hv = v.halves side in
      let u = delete_node-Unlinks index list pool (apart index list pool (hv.queues price) waits) in
      let self = elsewhere t p i (inl nt) w in
      let real = nil-outside (queue t p) i ((v.halves t).queues p) w in
      let before =
        foreign t p i (get pool index).prev nt w (prev-cases index pool (half side b) hv waits) in
      let behind =
        foreign t p i (get pool index).next nt w (next-cases index pool (half side b) hv waits) in
      record {
        next = ground (arith, u.next i real self);
        prev = ground (arith, u.prev i real self);
        price = delete_node-price index list pool i;
      }

  abbrev ids : IdIndexMap
  ids = IdIndexMap.clear id b.id_to_index

  removed-found :
      (t : OrderSide) (p i : ℕ)
      → has_index i (removed t p) ≡ true
      → IdIndexMap.get (pool.storage i).order_id ids ≡ i
  removed-found t p i w =
      let (ne, old) = removed-member t p i w in
      ground (
        arith,
        get-clear id v.ids (pool.storage i).order_id,
        v.found t p i old,
        v.found side price index waits,
        ap (λ k. IdIndexMap.get k b.id_to_index),
      )

  forgotten : (id' i : ℕ) → IdIndexMap.get id' ids ≡ i → i ≢ nil_index → id' ≢ id
  forgotten id' i e real f = ground (arith, get-clear id v.ids id')

  removed-known :
      (id' i : ℕ)
      → IdIndexMap.get id' ids ≡ i
      → i ≢ nil_index
      → ((pool.storage i).order_id ≡ id')
        × (has_index i (removed (pool.storage i).side (pool.storage i).price) ≡ true)
  removed-known id' i e real =
      let looked = get-clear id v.ids id' in
      let (o, w) = v.known id' i (ground (arith, looked)) real in
      (
        o,
        removed-keeps (pool.storage i).side (pool.storage i).price i
            (λ f. forgotten id' i e real (sym o ∙ ap (λ k. (pool.storage k).order_id) f)) w,
      )

  -- In a valid book, an order that waits is taken out of its queue, its id is forgotten, and the book is
  -- valid again.
  pub delete_by_side-IsBook :
      let (pool', b') = delete_by_side side index pool b in IsBook pool' b' removed
  unfolding delete_from_half
  delete_by_side-IsBook =
      let same = delete_node-identity index list pool in
      rw (delete_by_side_lem side index pool b) (
        rw ((same index).order_id) (record {
          halves = λ t.
              on_side-halves side t ids b queue
                (delete_from_half-IsValid index pool (half side b) (v.halves side) waits)
                (λ nt. half-frame (v.halves t) (other-links t nt));
          ids = rw put_half-ids (clear-IsValid id v.ids);
          sided = λ t p i w. (same i).side ∙ v.sided t p i (removed-member t p i w).1;
          found = λ t p i w. rw (put_half-ids, (same i).order_id) (removed-found t p i w);
          known = λ id' i e real.
              let e' = rw put_half-ids at e in
              rw ((same i).order_id, (same i).side, delete_node-price index list pool i)
                (removed-known id' i e' real);
        }))

  -- The id of the order is forgotten.
  pub delete_by_side-forgets :
      IdIndexMap.get id (delete_by_side side index pool b).1.id_to_index ≡ nil_index
  unfolding delete_from_half
  delete_by_side-forgets = rw (delete_by_side_lem side index pool b) (
      rw ((delete_node-identity index list pool index).order_id, put_half-ids)
        (ground (arith, get-clear id v.ids id)))
