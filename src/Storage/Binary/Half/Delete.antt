-- ===== src/Storage/Binary/Half/Delete.antt =====
-- An order is taken out of a side.
use native.Mathlib.Decide.{ℕ_discrete}
use limit_order_book_v.Prelude.{
  is_nil, ℕ, ◌≡◌, ◌≢◌, ◌⊎◌, inl, inr, refl, arith, Bool-cases, true, false, List, [], ◌∷◌, ◌==◌,
  if◌then◌else◌, write, write_lem, ap, ◌∙◌, sym,
}
use limit_order_book_v.Domain.Pods.{nil_index}
use limit_order_book_v.Memory.OrderPool.{OrderPool, get, put}
use limit_order_book_v.Storage.Levels.Best.{has_price}
use limit_order_book_v.Storage.Levels.Update.{clear_price-Coherent, has_price-clear_price}
use limit_order_book_v.Storage.LinkedList
use limit_order_book_v.Storage.LinkedList.{LinkedList, delete_node, unlink_before, unlink_behind}
use limit_order_book_v.Storage.LinkedList.Chain.{
  has_index, has_index_ne, next-has_index, prev-has_index, first-prev, nil-has_index,
}
use limit_order_book_v.Storage.LinkedList.Add.{Queues}
use limit_order_book_v.Storage.LinkedList.Unlink.{delete_node-Unlinks}
use limit_order_book_v.Storage.LinkedList.Delete.{without, delete_node-Queues, apart}
use limit_order_book_v.Storage.PriceMap
use limit_order_book_v.Storage.PriceMap.{at-update}
use limit_order_book_v.Storage.Binary.{HalfBook, delete_from_half}
use limit_order_book_v.Storage.Binary.Half.{IsValid, Queues-frame, is_empty-is_nil, nil-outside}

pub delete_node-price :
    (index : ℕ) (l : LinkedList) (pool : OrderPool) (j : ℕ)
    → ((delete_node index l pool).1.storage j).price ≡ (pool.storage j).price
unfolding delete_node unlink_before unlink_behind put write
delete_node-price index l pool j = ground arith

pub has_index-without_inside :
    (i index : ℕ) (is : List ℕ) → has_index i (without index is) ≡ true → has_index i is ≡ true
has_index-without_inside i index [] h = h
has_index-without_inside i index (j ∷ js) h = ground (arith, has_index-without_inside i index js)

has_index-is_nil : (i : ℕ) (is : List ℕ) → has_index i is ≡ true → is_nil is ≡ false
has_index-is_nil i [] h = sym h
has_index-is_nil i (j ∷ js) h = refl

module _ (index : ℕ) (pool : OrderPool) (h : HalfBook) {queue : ℕ → List ℕ}
    (v : IsValid pool h queue)
    (inside : has_index index (queue (get pool index).price) ≡ true) where
  abbrev price : ℕ
  price = (get pool index).price

  abbrev list : LinkedList
  list = PriceMap.at h.lists price

  q : Queues pool.storage list (queue price)
  q = v.queues price

  -- The neighbours of the order are in its queue, or there is none.
  pub next-cases :
      ((get pool index).next ≡ nil_index) ⊎ (has_index (get pool index).next (queue price) ≡ true)
  next-cases = elim (ℕ_discrete (get pool index).next nil_index) [
    | yes e ↦ inl e
    | no ne ↦ inr (
        next-has_index pool.storage nil_index list.head list.tail index (queue price) q.chain inside
          ne)
  ]

  pub prev-cases :
      ((get pool index).prev ≡ nil_index) ⊎ (has_index (get pool index).prev (queue price) ≡ true)
  prev-cases = elim (ℕ_discrete index list.head) [
    | yes e ↦ inl (
        ap (λ k. (get pool k).prev) e
        ∙ first-prev pool.storage nil_index list.head list.tail (queue price) q.chain (λ z.
          has_index_ne (queue price)
            (nil-has_index pool.storage nil_index list.head list.tail (queue price) q.chain) inside
            (sym (e ∙ z))))
    | no ne ↦ inr (
        prev-has_index pool.storage nil_index list.head list.tail index (queue price) q.chain inside
          ne)
  ]

  -- A slot of another queue is none of those at the price of the order, nor a missing neighbour.
  foreign :
      (p i j : ℕ)
      → p ≢ price
      → has_index i (queue p) ≡ true
      → (j ≡ nil_index) ⊎ (has_index j (queue price) ≡ true)
      → i ≢ j
  foreign p i j np there (inl z) e = nil-outside (queue p) i (v.queues p) there (e ∙ z)
  foreign p i j np there (inr t) e =
      np (sym (v.priced p i there) ∙ (ap (λ k. (pool.storage k).price) e ∙ v.priced price j t))

  abbrev pub left : ℕ → List ℕ
  left = write queue price (without index (queue price))

  pub left_lem : (p : ℕ) → left p ≡ (if p == price then without index (queue price) else queue p)
  left_lem p = write_lem queue price (without index (queue price)) p

  left-Queues :
      (p : ℕ)
      → let (l, pool') = delete_node index list pool in
        Queues pool'.storage (PriceMap.at (PriceMap.update price l h.lists) p) (left p)
  left-Queues p =
      let l = (delete_node index list pool).0 in
      elim (Bool-cases (p == price)) [
        | inl b ↦
            rw (at-update price p l h.lists, left_lem p, b)
              (delete_node-Queues index list pool q inside)
        | inr b ↦
            rw (at-update price p l h.lists, left_lem p, b)
              (Queues-frame (v.queues p) (λ i there.
                let np : p ≢ price = ground arith in
                let u = delete_node-Unlinks index list pool (apart index list pool q inside) in
                let self = foreign p i index np there (inr inside) in
                let real = nil-outside (queue p) i (v.queues p) there in
                let before = foreign p i (get pool index).prev np there prev-cases in
                let behind = foreign p i (get pool index).next np there next-cases in
                (ground (arith, u.next i real self), ground (arith, u.prev i real self))))
      ]

  left-priced : (p i : ℕ) → has_index i (left p) ≡ true → (pool.storage i).price ≡ p
  left-priced p i there = elim (Bool-cases (p == price)) [
    | inl b ↦
        let e : p ≡ price = ground arith in
        v.priced price i (
          has_index-without_inside i index (queue price)
            (ground (arith, ap (has_index i) (left_lem p))))
        ∙ sym e
    | inr b ↦ v.priced p i (ground (arith, ap (has_index i) (left_lem p)))
  ]

  here : has_price h.levels price ≡ true
  here = ground (arith, v.marked price, has_index-is_nil index (queue price) inside)

  -- An order that waits in the queue of its price, in a valid side, is taken out, and the side is
  -- valid again: the bit of the price stays exactly when another order waits there.
  pub delete_from_half-IsValid :
      let (pool', h') = delete_from_half index pool h in IsValid pool' h' left
  unfolding delete_from_half
  delete_from_half-IsValid =
      let e =
        is_empty-is_nil (without index (queue price))
          (delete_node-Queues index list pool q inside) in
      elim (Bool-cases (LinkedList.is_empty (delete_node index list pool).0)) [
        | inl b ↦ rw b (record {
          coherent = clear_price-Coherent price v.coherent here;
          queues = left-Queues;
          marked = λ p.
              ground (
                arith,
                has_price-clear_price price v.coherent p,
                v.marked p,
                ap is_nil (left_lem p),
              );
          priced = λ p i there. delete_node-price index list pool i ∙ left-priced p i there;
        })
        | inr b ↦ rw b (record {
          coherent = v.coherent;
          queues = left-Queues;
          marked = λ p.
              ground (arith, here, v.marked p, ap is_nil (left_lem p), ap (has_price h.levels));
          priced = λ p i there. delete_node-price index list pool i ∙ left-priced p i there;
        })
      ]
