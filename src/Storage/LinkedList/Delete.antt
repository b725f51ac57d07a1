-- ===== src/Storage/LinkedList/Delete.antt =====
-- `DeleteNode` takes an order out of the queue, wherever it stands.
use mathlib.Core.Bool.{false≢true}
use native.Mathlib.Decide.{ℕ_discrete}
use limit_order_book_v.Prelude.{
  ℕ, ◌≡◌, ◌≢◌, ap, true, false, List, [], ◌∷◌, arith, ◌==◌, if◌then◌else◌, inl, inr, Bool-cases,
  ◌∙◌, sym,
}
use limit_order_book_v.Domain.Pods.{nil_index, OrderPod}
use limit_order_book_v.Memory.OrderPool.{OrderPool, get}
use limit_order_book_v.Storage.LinkedList.{LinkedList, delete_node}
use limit_order_book_v.Storage.LinkedList.Chain.{
  has_index, Distinct, Chain, SameLinks, Chain-frame, nil-has_index, next-has_index, prev-has_index,
  first-prev, has_index_ne,
}
use limit_order_book_v.Storage.LinkedList.Add.{Queues}
use limit_order_book_v.Storage.LinkedList.Unlink.{
  Unlinks, delete_node-Unlinks, delete_node-head, delete_node-tail,
}

-- The slots that stay.
abbrev pub without : ℕ → List ℕ → List ℕ
without i [] = []
without i (j ∷ js) = if i == j then js else j ∷ without i js

has_index-without :
    (j index : ℕ) (is : List ℕ) → has_index j is ≡ false → has_index j (without index is) ≡ false
has_index-without j index [] h = h
has_index-without j index (i ∷ is) h = ground (arith, has_index-without j index is)

module _ {st st' : ℕ → OrderPod} {index : ℕ} (u : Unlinks st st' index) where
  abbrev o : OrderPod
  o = st index

  abbrev end : ℕ → ℕ
  end last = if o.next == nil_index then o.prev else last

  -- Slots that are neither the order nor a neighbour keep their links.
  spared :
      (is : List ℕ)
      → has_index index is ≡ false
      → has_index o.prev is ≡ false
      → has_index o.next is ≡ false
      → has_index nil_index is ≡ false
      → SameLinks st st' is
  spared is a b c d j k =
      let ne = λ (i : ℕ) (out : has_index i is ≡ false) (e : j ≡ i).
        false≢true (sym out ∙ (ap (λ m. has_index m is) (sym e) ∙ k)) in
      let e1 = ne index a in
      let e2 = ne o.prev b in
      let e3 = ne o.next c in
      let e4 = ne nil_index d in
      (ground (arith, u.next j e4 e1, e2), ground (arith, u.prev j e4 e1, e3))

  -- The order stood first: its successor is linked from `before`.
  Chain-without_first :
      (before last : ℕ) (is : List ℕ)
      → o.prev ≡ before
      → has_index before is ≡ false
      → has_index index is ≡ false
      → Distinct is
      → Chain st index o.next last is
      → Chain st' before o.next (end last) is
  Chain-without_first before last [] p out self d (h, t) = (h, rw h p)
  Chain-without_first before last (b ∷ zs) p out self (fresh, d) (h, n, q, c) =
      (h, n, ground (arith, u.prev b n), rest)
    where
      next : (st' b).next ≡ (st b).next
      next = ground (arith, u.next b n)

      kept : end last ≡ last
      kept = ground arith

      rest : Chain st' b (st' b).next (end last) zs
      rest =
          rw (next, kept)
            (Chain-frame st st' b (st b).next last zs c (
              spared zs (ground arith) (rw p (ground arith)) (rw h fresh)
                (nil-has_index st b (st b).next last zs c)))

  -- The order stands behind `i`, which keeps its place and is linked to what follows the order.
  Chain-without_later :
      (before head last i : ℕ) (is : List ℕ)
      → has_index index is ≡ true
      → index ≢ i
      → Chain st before head last (i ∷ is)
      → has_index i is ≡ false
      → Chain st' i
          (if (st i).next == index then o.next else (st i).next)
          (end last)
          (without index is)
      → Chain st' before head (end last) (i ∷ without index is)
  Chain-without_later before head last i is inside ne (h, n, p, c) fresh rest =
      (h, n, ground (arith, u.prev i n, after), rw next rest)
    where
      after : i ≢ o.next
      after e =
          has_index_ne is fresh
            (next-has_index st i (st i).next last index is c inside (λ z. n (e ∙ z))) e

      next : (st' i).next ≡ (if (st i).next == index then o.next else (st i).next)
      next = elim (ℕ_discrete index (st i).next) [
        | yes q ↦
            let back : o.prev ≡ i =
              ap (λ k. (st k).prev) q
              ∙ first-prev st i (st i).next last is c (λ z.
                has_index_ne is (nil-has_index st i (st i).next last is c) inside (sym (q ∙ z))) in
            ground (arith, u.next i n)
        | no q ↦
            let far : i ≢ o.prev =
              has_index_ne is fresh (prev-has_index st i (st i).next last index is c inside q) in
            ground (arith, u.next i n)
      ]

  Chain-without :
      (before head last : ℕ) (is : List ℕ)
      → has_index index is ≡ true
      → has_index before is ≡ false
      → Distinct is
      → Chain st before head last is
      → Chain st' before (if head == index then o.next else head) (end last) (without index is)
  Chain-without before head last [] inside out d c = cc
  Chain-without before head last (i ∷ is) inside out (fresh, d) (h, n, p, c) =
      elim (Bool-cases (index == i)) [
        | inl e ↦
            let same : index ≡ i = ground arith in
            let first : (head == index) ≡ true = ground arith in
            rw (e, first)
              (Chain-without_first before last is (ap (λ k. (st k).prev) same ∙ p) (ground arith)
                (rw same fresh) d (rw same c))
        | inr e ↦
            let later : (head == index) ≡ false = ground arith in
            rw (e, later)
              (Chain-without_later before head last i is (ground arith) (ground arith) (h, n, p, c)
                fresh (Chain-without i (st i).next last is (ground arith) fresh d c))
      ]

prev_ne :
    (st : ℕ → OrderPod) (before head last index : ℕ) (is : List ℕ)
    → Chain st before head last is
    → Distinct is
    → has_index before is ≡ false
    → has_index index is ≡ true
    → (st index).prev ≢ index
prev_ne st before head last index [] c d out inside e = cc
prev_ne st before head last index (i ∷ is) (h, n, p, c) (fresh, d) out inside e =
    elim (Bool-cases (index == i)) [
      | inl q ↦ let same : index ≡ i = ground arith in ground (arith, ap (λ k. (st k).prev) same)
      | inr q ↦ prev_ne st i (st i).next last index is c d fresh (ground arith) e
    ]

Distinct-without : (index : ℕ) (is : List ℕ) → Distinct is → Distinct (without index is)
Distinct-without index [] d = d
Distinct-without index (i ∷ is) (fresh, d) =
    ground (arith, Distinct-without index is d, has_index-without i index is)

module _ (index : ℕ) (l : LinkedList) (pool : OrderPool) {is : List ℕ}
    (q : Queues pool.storage l is) (inside : has_index index is ≡ true) where
  pub apart : (get pool index).prev ≢ index
  apart =
      prev_ne pool.storage nil_index l.head l.tail index is q.chain q.distinct
        (nil-has_index pool.storage nil_index l.head l.tail is q.chain) inside

  head_test : (l.head == index) ≡ ((get pool index).prev == nil_index)
  head_test = elim (ℕ_discrete index l.head) [
    | yes e ↦
        let first : (get pool index).prev ≡ nil_index =
          ap (λ k. (get pool k).prev) e
          ∙ first-prev pool.storage nil_index l.head l.tail is q.chain (λ z.
            has_index_ne is (nil-has_index pool.storage nil_index l.head l.tail is q.chain) inside
              (sym (e ∙ z))) in
        ground arith
    | no ne ↦
        let far : nil_index ≢ (get pool index).prev =
          has_index_ne is (nil-has_index pool.storage nil_index l.head l.tail is q.chain)
            (prev-has_index pool.storage nil_index l.head l.tail index is q.chain inside ne) in
        ground arith
  ]

  -- `DeleteNode` of a slot of a well linked queue takes it out, the others keep their places, and the
  -- queue is again well linked in both directions.
  pub delete_node-Queues :
      let (l', pool') = delete_node index l pool in Queues pool'.storage l' (without index is)
  delete_node-Queues = record {
    chain =
        rw (delete_node-head index l pool apart, delete_node-tail index l pool apart, ← head_test)
          (Chain-without (delete_node-Unlinks index l pool apart) nil_index l.head l.tail is inside
            (nil-has_index pool.storage nil_index l.head l.tail is q.chain) q.distinct q.chain);
    distinct = Distinct-without index is q.distinct;
  }
