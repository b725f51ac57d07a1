-- ===== src/Storage/LinkedList/Add.antt =====
-- `AddNode` appends to the queue.
use limit_order_book_v.Prelude.{
  ℕ, ◌≡◌, ◌≢◌, refl, ap, true, false, List, [], ◌∷◌, ◌++◌, arith, ◌==◌, if◌then◌else◌, write, ◌∙◌,
}
use limit_order_book_v.Domain.Pods.{nil_index, OrderPod}
use limit_order_book_v.Memory.OrderPool.{OrderPool, put}
use limit_order_book_v.Storage.LinkedList.{LinkedList, add_node}
use limit_order_book_v.Storage.LinkedList.Chain.{
  has_index, Distinct, Chain, last-has_index, nil-has_index,
}

-- The links after `index` is put behind `last`.
record Appends (st st' : ℕ → OrderPod) (index last : ℕ) : Type 0 where
  next_self : (st' index).next ≡ nil_index
  prev_self : (st' index).prev ≡ last
  next_last : last ≢ nil_index → (st' last).next ≡ index
  prev_other : (j : ℕ) → j ≢ index → (st' j).prev ≡ (st j).prev
  next_other : (j : ℕ) → j ≢ index → j ≢ last → (st' j).next ≡ (st j).next

module _ {st st' : ℕ → OrderPod} {index last : ℕ} (a : Appends st st' index last)
    (ne : index ≢ nil_index) where
  Chain-append :
      (before head i : ℕ) (is : List ℕ)
      → has_index index (i ∷ is) ≡ false
      → Distinct (i ∷ is)
      → Chain st before head last (i ∷ is)
      → Chain st' before head index (i ∷ is ++ index ∷ [])
  Chain-append before head i [] out d (h, n, p, c) =
      let end : last ≡ i = c.1 in
      let next : (st' i).next ≡ index = rw end at (a.next_last (rw end n)) in
      (h, n, a.prev_other i (ground arith) ∙ p, (next, ne, a.prev_self ∙ end, (a.next_self, refl)))
  Chain-append before head i (j ∷ is) out (fresh, d) (h, n, p, c) =
      let inside : has_index last (j ∷ is) ≡ true = last-has_index st i (st i).next last j is c in
      let apart : i ≢ last = λ e. cc (ap (λ k. has_index k (j ∷ is)) e) in
      let next : (st' i).next ≡ (st i).next = a.next_other i (ground arith) apart in
      let rest = Chain-append i (st i).next j is (ground arith) d c in
      (h, n, a.prev_other i (ground arith) ∙ p, rw next rest)

add_node-Appends :
    (index : ℕ) (l : LinkedList) (pool : OrderPool)
    → index ≢ l.tail
    → Appends pool.storage (add_node index l pool).1.storage index l.tail
unfolding add_node put write
add_node-Appends index l pool ne = record {
  next_self = ground arith;
  prev_self = ground arith;
  next_last = ground arith;
  prev_other = ground arith;
  next_other = ground arith;
}

add_node-tail :
    (index : ℕ) (l : LinkedList) (pool : OrderPool) → (add_node index l pool).0.tail ≡ index
unfolding add_node
add_node-tail index l pool = ground arith

add_node-head :
    (index : ℕ) (l : LinkedList) (pool : OrderPool)
    → (add_node index l pool).0.head ≡ (if l.tail == nil_index then index else l.head)
unfolding add_node
add_node-head index l pool = ground arith

-- The queue of a price: its list of slots, oldest first.
pub record Queues (st : ℕ → OrderPod) (l : LinkedList) (is : List ℕ) : Type 0 where
  pub chain : Chain st nil_index l.head l.tail is
  pub distinct : Distinct is

Distinct-append :
    (index : ℕ) (is : List ℕ)
    → has_index index is ≡ false
    → Distinct is
    → Distinct (is ++ index ∷ [])
Distinct-append index [] out d = ground arith
Distinct-append index (i ∷ is) out (fresh, d) =
    (has_index-append i is index (ground arith) fresh, Distinct-append index is (ground arith) d)
  where
    has_index-append :
        (i : ℕ) (is : List ℕ) (index : ℕ)
        → (i == index) ≡ false
        → has_index i is ≡ false
        → has_index i (is ++ index ∷ []) ≡ false
    has_index-append i [] index ne h = ground arith
    has_index-append i (j ∷ js) index ne h = ground (arith, has_index-append i js index ne)

module _ (index : ℕ) (l : LinkedList) (pool : OrderPool) (ne : index ≢ nil_index) where
  add_node-Chain :
      (is : List ℕ)
      → has_index index is ≡ false
      → Distinct is
      → Chain pool.storage nil_index l.head l.tail is
      → let (l', pool') = add_node index l pool in
        Chain pool'.storage nil_index l'.head index (is ++ index ∷ [])
  add_node-Chain [] out d (h, t) =
      let a = add_node-Appends index l pool (λ e. ne (e ∙ t)) in
      (rw (add_node-head, t) refl, ne, a.prev_self ∙ t, (a.next_self, refl))
  add_node-Chain (i ∷ is) out d c =
      let inside = last-has_index pool.storage nil_index l.head l.tail i is c in
      let apart : index ≢ l.tail = λ e. cc (ap (λ k. has_index k (i ∷ is)) e) in
      let real : l.tail ≢ nil_index = λ e. cc (
        ap (λ k. has_index k (i ∷ is)) e,
        nil-has_index pool.storage nil_index l.head l.tail (i ∷ is) c,
      ) in
      let kept : (add_node index l pool).0.head ≡ l.head =
        ground (arith, add_node-head index l pool) in
      rw kept (Chain-append (add_node-Appends index l pool apart) ne nil_index l.head i is out d c)

  -- `AddNode` of a slot that is not `nil_index` and not in the queue puts it behind those that wait, and
  -- the queue is again well linked in both directions.
  pub add_node-Queues :
      (is : List ℕ)
      → has_index index is ≡ false
      → Queues pool.storage l is
      → let (l', pool') = add_node index l pool in Queues pool'.storage l' (is ++ index ∷ [])
  add_node-Queues is out q = record {
    chain = rw (add_node-tail index l pool) (add_node-Chain is out q.distinct q.chain);
    distinct = Distinct-append index is out q.distinct;
  }
