-- ===== src/Storage/Binary/Book/Terms.antt =====
-- What the operations of the book leave of the terms of an order.
use limit_order_book_v.Prelude.{
  ℕ, ◌≢◌, ◌∙◌, inl, inr, refl, arith, Bool-cases, Option, none, some, write, ◌==◌,
}
use limit_order_book_v.Domain.Order.{
  OrderSide, buy, sell, OrderStatus, filled, partially_filled, is_positive,
}
use limit_order_book_v.Domain.Pods.{OrderPod, nil_index}
use limit_order_book_v.Memory.OrderPool.{OrderPool, get, put, free}
use limit_order_book_v.Memory.IdIndexMap
use limit_order_book_v.Storage.Levels.{highest_price, lowest_price}
use limit_order_book_v.Storage.LinkedList.{
  LinkedList, delete_node, unlink_before, unlink_behind, get_head,
}
use limit_order_book_v.Storage.PriceMap
use limit_order_book_v.Storage.Binary.{
  BinaryOrderBook, delete_from_half, delete_by_side, delete_and_free, set_status, set_quantity,
  pop_bid_at, pop_ask_at, pop_best_bid, pop_best_ask, update_quantity,
}
use limit_order_book_v.Storage.Binary.Book.{half}
use limit_order_book_v.Storage.Binary.Book.Frame.{SameKind, SameTerms}
use limit_order_book_v.Storage.Binary.Book.Removal.{delete_by_side_lem}

delete_node-SameTerms :
    (index : ℕ) (l : LinkedList) (pool : OrderPool) (j : ℕ)
    → SameTerms (pool.storage j) ((delete_node index l pool).1.storage j)
unfolding delete_node unlink_before unlink_behind put write
delete_node-SameTerms index l pool j = record {
  quantity = ground arith;
  kind = record {
    price = ground arith;
    type = ground arith;
    side = ground arith;
    tif = ground arith;
    order_id = ground arith;
  };
}

pub delete_by_side-SameTerms :
    (s : OrderSide) (index : ℕ) (pool : OrderPool) (b : BinaryOrderBook) (j : ℕ)
    → SameTerms (get pool j) (get (delete_by_side s index pool b).0 j)
unfolding delete_from_half
delete_by_side-SameTerms s index pool b j =
    rw (delete_by_side_lem s index pool b)
      (delete_node-SameTerms index (PriceMap.at (half s b).lists (get pool index).price) pool j)

pub set_status-SameTerms :
    (index : ℕ) (status : OrderStatus) (pool : OrderPool) (j : ℕ)
    → SameTerms (get pool j) (get (set_status index status pool) j)
unfolding put write
set_status-SameTerms index status pool j = record {
  quantity = ground arith;
  kind = record {
    price = ground arith;
    type = ground arith;
    side = ground arith;
    tif = ground arith;
    order_id = ground arith;
  };
}

pub set_quantity-SameTerms :
    (index q : ℕ) (pool : OrderPool) (j : ℕ)
    → index ≢ j
    → SameTerms (get pool j) (get (set_quantity index q pool) j)
unfolding put write
set_quantity-SameTerms index q pool j ne = record {
  quantity = ground arith;
  kind = record {
    price = ground arith;
    type = ground arith;
    side = ground arith;
    tif = ground arith;
    order_id = ground arith;
  };
}

pub set_quantity-SameKind :
    (index q : ℕ) (pool : OrderPool) (j : ℕ)
    → SameKind (get pool j) (get (set_quantity index q pool) j)
unfolding put write
set_quantity-SameKind index q pool j = record {
  price = ground arith;
  type = ground arith;
  side = ground arith;
  tif = ground arith;
  order_id = ground arith;
}

pub SameKind-refl : (o : OrderPod) → SameKind o o
SameKind-refl o = record { price = refl; type = refl; side = refl; tif = refl; order_id = refl }

pub SameKind-trans : {o o' o'' : OrderPod} → SameKind o o' → SameKind o' o'' → SameKind o o''
SameKind-trans t u = record {
  price = u.price ∙ t.price;
  type = u.type ∙ t.type;
  side = u.side ∙ t.side;
  tif = u.tif ∙ t.tif;
  order_id = u.order_id ∙ t.order_id;
}

pub SameTerms-trans : {o o' o'' : OrderPod} → SameTerms o o' → SameTerms o' o'' → SameTerms o o''
SameTerms-trans t u = record {
  quantity = u.quantity ∙ t.quantity;
  kind = SameKind-trans t.kind u.kind;
}

pub delete_and_free-SameTerms :
    (index : ℕ) (pool : OrderPool) (b : BinaryOrderBook) (j : ℕ)
    → SameTerms (get pool j) (get (delete_and_free index pool b).0 j)
unfolding delete_and_free free
delete_and_free-SameTerms index pool b j =
    delete_by_side-SameTerms (get pool index).side index pool b j

SameTerms-refl : (o : OrderPod) → SameTerms o o
SameTerms-refl o = record { quantity = refl; kind = SameKind-refl o }

pop_bid_at-SameTerms :
    (o : Option ℕ) (pool : OrderPool) (b : BinaryOrderBook) (j : ℕ)
    → SameTerms (get pool j) (get (pop_bid_at o pool b).0 j)
unfolding free delete_by_side
pop_bid_at-SameTerms none pool b j = SameTerms-refl (get pool j)
pop_bid_at-SameTerms (some p) pool b j =
    let index = get_head (PriceMap.at b.bids.lists p) in
    SameTerms-trans (set_status-SameTerms index filled pool j)
      (delete_by_side-SameTerms buy index (set_status index filled pool) b j)

-- A pop leaves the terms of every order, and of those that leave.
pub pop_best_bid-SameTerms :
    (pool : OrderPool) (b : BinaryOrderBook) (j : ℕ)
    → SameTerms (get pool j) (get (pop_best_bid pool b).0 j)
unfolding pop_best_bid
pop_best_bid-SameTerms pool b j = pop_bid_at-SameTerms (highest_price b.bids.levels) pool b j

pop_ask_at-SameTerms :
    (o : Option ℕ) (pool : OrderPool) (b : BinaryOrderBook) (j : ℕ)
    → SameTerms (get pool j) (get (pop_ask_at o pool b).0 j)
unfolding free delete_by_side
pop_ask_at-SameTerms none pool b j = SameTerms-refl (get pool j)
pop_ask_at-SameTerms (some p) pool b j =
    let index = get_head (PriceMap.at b.asks.lists p) in
    SameTerms-trans (set_status-SameTerms index filled pool j)
      (delete_by_side-SameTerms sell index (set_status index filled pool) b j)

pub pop_best_ask-SameTerms :
    (pool : OrderPool) (b : BinaryOrderBook) (j : ℕ)
    → SameTerms (get pool j) (get (pop_best_ask pool b).0 j)
unfolding pop_best_ask
pop_best_ask-SameTerms pool b j = pop_ask_at-SameTerms (lowest_price b.asks.levels) pool b j

-- So does a new quantity, of the orders that do not have that id.
pub update_quantity-SameTerms :
    (id quantity : ℕ) (pool : OrderPool) (b : BinaryOrderBook) (j : ℕ)
    → (IdIndexMap.get id b.id_to_index ≢ nil_index → IdIndexMap.get id b.id_to_index ≢ j)
    → SameTerms (get pool j) (get (update_quantity id quantity pool b).0 j)
unfolding update_quantity
update_quantity-SameTerms id quantity pool b j other =
    let index = IdIndexMap.get id b.id_to_index in
    elim (Bool-cases (index == nil_index)) [
      | inl e ↦ rw e (SameTerms-refl (get pool j))
      | inr e ↦
          let ne : index ≢ j = other (ground arith) in
          let to : (q : ℕ) (status : OrderStatus)
              → SameTerms (get pool j)
                  (get (set_status index status (set_quantity index q pool)) j) =
            λ q status.
              SameTerms-trans (set_quantity-SameTerms index q pool j ne)
                (set_status-SameTerms index status (set_quantity index q pool) j) in
          elim (Bool-cases (is_positive quantity)) [
            | inl f ↦ rw (e, f) (to quantity partially_filled)
            | inr f ↦
                rw (e, f)
                  (SameTerms-trans (to 0 filled) (
                    delete_and_free-SameTerms index
                      (set_status index filled (set_quantity index 0 pool)) b j))
          ]
    ]

-- A new quantity leaves every order as it is but for its quantity, its status and its links.
pub update_quantity-SameKind :
    (id quantity : ℕ) (pool : OrderPool) (b : BinaryOrderBook) (j : ℕ)
    → SameKind (get pool j) (get (update_quantity id quantity pool b).0 j)
unfolding update_quantity
update_quantity-SameKind id quantity pool b j =
    let index = IdIndexMap.get id b.id_to_index in
    let to : (q : ℕ) (status : OrderStatus)
        → SameKind (get pool j) (get (set_status index status (set_quantity index q pool)) j) =
      λ q status.
        SameKind-trans (set_quantity-SameKind index q pool j)
          (set_status-SameTerms index status (set_quantity index q pool) j).kind in
    elim (Bool-cases (index == nil_index)) [
      | inl e ↦ rw e (SameKind-refl (get pool j))
      | inr e ↦ elim (Bool-cases (is_positive quantity)) [
        | inl f ↦ rw (e, f) (to quantity partially_filled)
        | inr f ↦
            rw (e, f)
              (SameKind-trans (to 0 filled)
                (delete_and_free-SameTerms index
                  (set_status index filled (set_quantity index 0 pool)) b j).kind)
      ]
    ]
