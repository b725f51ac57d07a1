-- ===== src/Storage/Binary/Half.antt =====
-- The invariant of one side of the book: its bitmap, its queues and their orders fit together.
pub mod Add
pub mod Delete
pub mod Best
use limit_order_book_v.Prelude.{
  is_nil, ap, ℕ, ◌≡◌, ◌≢◌, ◌⊎◌, inl, inr, refl, arith, Bool, true, false, not, List, [], ◌∷◌,
}
use limit_order_book_v.Domain.Pods.{nil_index, OrderPod}
use limit_order_book_v.Memory.OrderPool.{OrderPool}
use limit_order_book_v.Storage.Levels.Best.{Coherent, has_price}
use limit_order_book_v.Storage.LinkedList
use limit_order_book_v.Storage.LinkedList.{LinkedList}
use limit_order_book_v.Storage.LinkedList.Chain.{
  has_index, SameLinks, Chain-frame, last-has_index, nil-has_index,
}
use limit_order_book_v.Storage.LinkedList.Add.{Queues}
use limit_order_book_v.Storage.PriceMap
use limit_order_book_v.Storage.Binary.{HalfBook}

-- `queue p` are the slots that wait at price `p`, oldest first: the queue of the price is linked
-- through them, the bitmap shows the prices where some wait, and each waits at its own price.
pub record IsValid (pool : OrderPool) (h : HalfBook) (queue : ℕ → List ℕ) : Type 0 where
  pub coherent : Coherent h.levels
  pub queues : (p : ℕ) → Queues pool.storage (PriceMap.at h.lists p) (queue p)
  pub marked : (p : ℕ) → has_price h.levels p ≡ not (is_nil (queue p))
  pub priced : (p i : ℕ) → has_index i (queue p) ≡ true → (pool.storage i).price ≡ p

pub Queues-frame :
    {st st' : ℕ → OrderPod} {l : LinkedList} {is : List ℕ}
    → Queues st l is
    → SameLinks st st' is
    → Queues st' l is
Queues-frame {st} {st'} {l} {is} q same = record {
  chain = Chain-frame st st' nil_index l.head l.tail is q.chain same;
  distinct = q.distinct;
}

-- The end of a queue is one of its slots or none, and the test for emptiness is right.
pub tail-cases :
    {st : ℕ → OrderPod} {l : LinkedList} (is : List ℕ)
    → Queues st l is
    → (l.tail ≡ nil_index) ⊎ (has_index l.tail is ≡ true)
tail-cases [] q = inl (q.chain.1)
tail-cases {st} {l} (i ∷ is) q = inr (last-has_index st nil_index l.head l.tail i is q.chain)

pub is_empty-is_nil :
    {st : ℕ → OrderPod} {l : LinkedList} (is : List ℕ)
    → Queues st l is
    → LinkedList.is_empty l ≡ is_nil is
unfolding LinkedList.is_empty
is_empty-is_nil [] q = ground (arith, q.chain)
is_empty-is_nil (i ∷ is) q = let (h, ne, p, c) = q.chain in ground arith

pub nil-outside :
    {st : ℕ → OrderPod} {l : LinkedList} (is : List ℕ) (i : ℕ)
    → Queues st l is
    → has_index i is ≡ true
    → i ≢ nil_index
nil-outside {st} {l} is i q inside e =
    cc (ap (λ k. has_index k is) e, nil-has_index st nil_index l.head l.tail is q.chain)
