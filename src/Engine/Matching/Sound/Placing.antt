-- ===== src/Engine/Matching/Sound/Placing.antt =====
-- An order gets a slot, and gives it back or rests in the book.
use limit_order_book_v.Prelude.{
  ℕ, suc, ◌<◌, ◌≡◌, ◌≢◌, ◌∙◌, inl, inr, refl, ap, arith, true, false, List, [], ◌∷◌, ◌==◌, write,
  write_lem, Bool-cases,
}
use limit_order_book_v.Domain.Order.{OrderSide, buy, sell}
use limit_order_book_v.Domain.Pods.{OrderPod, nil_index}
use limit_order_book_v.Memory.OrderPool.{OrderPool, free, get, put, take_back, allocate}
use limit_order_book_v.Memory.OrderPool.Ownership.{count, free-Owns, without, allocate-Allocates}
use limit_order_book_v.Memory.IdIndexMap
use limit_order_book_v.Storage.Levels.Update.{price_limit}
use limit_order_book_v.Storage.LinkedList.{LinkedList, add_node}
use limit_order_book_v.Storage.LinkedList.Chain.{has_index}
use limit_order_book_v.Storage.PriceMap
use limit_order_book_v.Storage.Binary.{BinaryOrderBook, add_to_half, add_order}
use limit_order_book_v.Storage.Binary.Book.{Waiting, IsBook, half}
use limit_order_book_v.Storage.Binary.Book.Add.{
  added-here, add_by_side_lem, put_behind, added-member, added-keeps, add_order-IsBook,
}
use limit_order_book_v.Storage.Binary.Book.Frame.{SameKind, half-frame, free-frame}
use limit_order_book_v.Engine.Matching.Sound.{AtRest, Apart, owned_slot, count_other, count_left}

-- A book is valid as long as the orders that wait in it are the same.
book-same :
    (pool pool' : OrderPool) (b : BinaryOrderBook) {queue : Waiting}
    → IsBook pool b queue
    → ((s : OrderSide) (p i : ℕ)
        → has_index i (queue s p) ≡ true
        → pool'.storage i ≡ pool.storage i)
    → IsBook pool' b queue
book-same pool pool' b {queue} v same = record {
  halves = λ s. half-frame (v.halves s) (λ p i w. record {
    next = ap (λ o. o.next) (same s p i w);
    prev = ap (λ o. o.prev) (same s p i w);
    price = ap (λ o. o.price) (same s p i w);
  });
  ids = v.ids;
  sided = λ s p i w. ap (λ o. o.side) (same s p i w) ∙ v.sided s p i w;
  found = λ s p i w. rw (same s p i w) (v.found s p i w);
  known = λ id i e ne.
      let (o, w) = v.known id i e ne in
      rw (same (pool.storage i).side (pool.storage i).price i w) (o, w);
}

allocate-storage : (pool : OrderPool) → (allocate pool).1.storage ≡ pool.storage
unfolding allocate
allocate-storage pool = go pool.free_index pool
  where
    go : (spare : List ℕ) (p : OrderPool) → (take_back spare p).1.storage ≡ p.storage
    go [] p = refl
    go (i ∷ is) p = refl

-- A slot that was free gets an order.
pub allocate-Apart :
    (bound : ℕ) (order : OrderPod) (pool : OrderPool) (b : BinaryOrderBook)
    → AtRest bound pool b
    → let (index, pool') = allocate pool in
      index ≢ nil_index → Apart bound index (put index order pool') b
unfolding put
allocate-Apart bound order pool b a ne =
    let (index, pool') = allocate pool in
    elim (allocate-Allocates a.owns) [
      | inr (e, full) ↦ absurd (ne e)
      | inl (lt, (new, owns)) ↦
          let other : (s : OrderSide) (p i : ℕ) → has_index i (a.queue s p) ≡ true → i ≢ index =
            λ s p i w. ground (arith, a.waiting s p i w, ap (λ k. count k a.owned)) in
          let same : (s : OrderSide) (p i : ℕ)
              → has_index i (a.queue s p) ≡ true
              → write pool'.storage index order i ≡ pool.storage i =
            λ s p i w. ground (
              arith,
              write_lem pool'.storage index order i,
              other s p i w,
              ap (λ f. f i) (allocate-storage pool),
            ) in
          record {
            queue = a.queue;
            book = book-same pool (put index order pool') b a.book same;
            owned = index ∷ a.owned;
            owns = record { parts = owns.parts };
            waiting = λ s p i w. ground (arith, a.waiting s p i w);
            held = λ i h. elim (Bool-cases (i == index)) [
              | inl e ↦ inl e
              | inr f ↦
                  let was : 0 < count i a.owned = ground arith in
                  elim (a.held i was) [ inl t ↦ cc | inr w ↦ inr w ]
            ];
            apart = λ s p i t. elim (Bool-cases (has_index i (a.queue s p))) [
              | inl w ↦ absurd (other s p i w (ground arith))
              | inr f ↦ f
            ];
            mine = λ i t. ground arith;
            ids = λ s p i w. rw (same s p i w) (a.ids s p i w);
            uncrossed = a.uncrossed;
          }
    ]

-- The slot of an order goes back to the pool.
pub free-AtRest :
    (bound index : ℕ) (pool : OrderPool) (b : BinaryOrderBook)
    → Apart bound index pool b
    → AtRest bound (free index pool) b
unfolding free
free-AtRest bound index pool b a =
    let self : (index == index) ≡ true = ground arith in
    record {
      queue = a.queue;
      book = free-frame index a.book;
      owned = without index a.owned;
      owns = free-Owns index a.owns (a.mine index self);
      waiting = λ s p i w.
          count_other i index a.owned
            (λ e. cc (w, a.apart s p index self, ap (λ k. has_index k (a.queue s p)) e))
            (a.waiting s p i w);
      held = λ i h.
          let (ne, was) = count_left i index a.owned h in
          elim (a.held i was) [ inl t ↦ absurd (ground arith) | inr w ↦ inr w ];
      apart = λ s p i t. cc;
      mine = λ i t. cc;
      ids = a.ids;
      uncrossed = a.uncrossed;
    }

-- An order at this price on this side reaches nobody on the other side.
abbrev pub ReachesNobody : OrderSide → ℕ → Waiting → Type 0
ReachesNobody buy price queue = (q j : ℕ) → has_index j (queue sell q) ≡ true → price < q
ReachesNobody sell price queue = (p i : ℕ) → has_index i (queue buy p) ≡ true → p < price

add_node-SameKind :
    (index : ℕ) (l : LinkedList) (pool : OrderPool) (j : ℕ)
    → SameKind (pool.storage j) ((add_node index l pool).1.storage j)
unfolding add_node put write
add_node-SameKind index l pool j = record {
  price = ground arith;
  type = ground arith;
  side = ground arith;
  tif = ground arith;
  order_id = ground arith;
}

add_order-SameKind :
    (index : ℕ) (pool : OrderPool) (b : BinaryOrderBook) (j : ℕ)
    → SameKind (get pool j) (get (add_order index pool b).0 j)
unfolding add_order add_to_half
add_order-SameKind index pool b j =
    let o = get pool index in
    rw (add_by_side_lem o.side index pool (IdIndexMap.set o.order_id index b.id_to_index) b)
      (add_node-SameKind index (PriceMap.at (half o.side b).lists o.price) pool j)

add_node-free_index :
    (index : ℕ) (l : LinkedList) (pool : OrderPool)
    → (add_node index l pool).1.free_index ≡ pool.free_index
unfolding add_node put
add_node-free_index index l pool = ground arith

add_order-free_index :
    (index : ℕ) (pool : OrderPool) (b : BinaryOrderBook)
    → (add_order index pool b).0.free_index ≡ pool.free_index
unfolding add_order add_to_half
add_order-free_index index pool b =
    let o = get pool index in
    rw (add_by_side_lem o.side index pool (IdIndexMap.set o.order_id index b.id_to_index) b)
      (add_node-free_index index (PriceMap.at (half o.side b).lists o.price) pool)

-- The next id is not in use.
unknown_id :
    (bound index : ℕ) (pool : OrderPool) (b : BinaryOrderBook)
    → Apart bound index pool b
    → IdIndexMap.get bound b.id_to_index ≡ nil_index
unknown_id bound index pool b a =
    let i = IdIndexMap.get bound b.id_to_index in
    elim (Bool-cases (i == nil_index)) [
      | inl e ↦ ground arith
      | inr f ↦
          let (o, w) = a.book.known bound i refl (ground arith) in
          absurd (omega (arith, a.ids (get pool i).side (get pool i).price i w, o))
    ]

reaches_no_ask :
    (side : OrderSide) (price : ℕ) (queue : Waiting)
    → ReachesNobody side price queue
    → buy ≡ side
    → (q j : ℕ) → has_index j (queue sell q) ≡ true
    → price < q
reaches_no_ask buy price queue r e = r
reaches_no_ask sell price queue r e = cc

reaches_no_bid :
    (side : OrderSide) (price : ℕ) (queue : Waiting)
    → ReachesNobody side price queue
    → sell ≡ side
    → (p i : ℕ) → has_index i (queue buy p) ≡ true
    → p < price
reaches_no_bid buy price queue r e = cc
reaches_no_bid sell price queue r e = r

-- The order in a slot, with the next id and a price that reaches nobody, goes to rest in the book.
pub add_order-AtRest :
    (bound index : ℕ) (pool : OrderPool) (b : BinaryOrderBook) (a : Apart bound index pool b)
    → (get pool index).order_id ≡ bound
    → (get pool index).price < price_limit
    → ReachesNobody (get pool index).side (get pool index).price a.queue
    → let (pool', b') = add_order index pool b in AtRest (suc bound) pool' b'
add_order-AtRest bound index pool b a id limit reach =
    let o = get pool index in
    let self : (index == index) ≡ true = ground arith in
    let away : (s : OrderSide) (p : ℕ) → has_index index (a.queue s p) ≡ false =
      λ s p. a.apart s p index self in
    let ne = owned_slot index pool a.owned a.owns (a.mine index self) in
    let new = added-member index pool b a.book away ne in
    let old = added-keeps index pool b a.book away ne in
    record {
      queue = put_behind index o a.queue;
      book =
          add_order-IsBook index pool b a.book away ne limit
            (rw id (unknown_id bound index pool b a));
      owned = a.owned;
      owns = record { parts = λ k. rw (add_order-free_index index pool b) (a.owns.parts k) };
      waiting = λ s p i w. elim (new s p i w) [
        | inl (e, place) ↦ rw e (a.mine index self)
        | inr was ↦ a.waiting s p i was
      ];
      held = λ i h. elim (a.held i h) [
        | inl t ↦ inr (
          o.side,
          (
            o.price,
            (let e : i ≡ index = ground arith in rw e (added-here index pool b a.book away ne)),
          ),
        )
        | inr (s, (p, w)) ↦ inr (s, (p, old s p i w))
      ];
      apart = λ s p i t. cc;
      mine = λ i t. cc;
      ids = λ s p i w. rw ((add_order-SameKind index pool b i).order_id) (elim (new s p i w) [
        | inl (e, place) ↦ rw e (omega (arith, id))
        | inr was ↦ omega (arith, a.ids s p i was)
      ]);
      uncrossed = λ p q i j bid ask. elim (new buy p i bid) [
        | inl (e, (side, price)) ↦ elim (new sell q j ask) [
          | inl (f, (side', price')) ↦ cc
          | inr was ↦ rw price (reaches_no_ask o.side o.price a.queue reach side q j was)
        ]
        | inr was ↦ elim (new sell q j ask) [
          | inl (f, (side', price')) ↦
              rw price' (reaches_no_bid o.side o.price a.queue reach side' p i was)
          | inr was' ↦ a.uncrossed p q i j was was'
        ]
      ];
    }
