-- ===== src/Storage/Binary/Half/Add.antt =====
-- An order is added to a side.
use limit_order_book_v.Prelude.{
  is_nil, ℕ, ◌<◌, ◌≡◌, ◌≢◌, ◌⊎◌, inl, inr, refl, arith, Bool-cases, true, false, List, [], ◌∷◌,
  ◌++◌, ◌==◌, if◌then◌else◌, write, write_lem, ap, ◌∙◌, sym,
}
use limit_order_book_v.Domain.Pods.{nil_index}
use limit_order_book_v.Memory.OrderPool.{OrderPool, get, put}
use limit_order_book_v.Storage.Levels.Update.{price_limit, set_price-Coherent, has_price-set_price}
use limit_order_book_v.Storage.LinkedList.{LinkedList, add_node}
use limit_order_book_v.Storage.LinkedList.Chain.{has_index, has_index_ne}
use limit_order_book_v.Storage.LinkedList.Add.{Queues, add_node-Queues}
use limit_order_book_v.Storage.PriceMap
use limit_order_book_v.Storage.PriceMap.{at-update}
use limit_order_book_v.Storage.Binary.{HalfBook, add_to_half}
use limit_order_book_v.Storage.Binary.Half.{IsValid, Queues-frame, tail-cases, nil-outside}

-- `AddNode` touches the links of the new slot and of the last one, and no price.
pub add_node-links :
    (index : ℕ) (l : LinkedList) (pool : OrderPool) (j : ℕ)
    → j ≢ index
    → j ≢ l.tail
    → (((add_node index l pool).1.storage j).next ≡ (pool.storage j).next)
      × (((add_node index l pool).1.storage j).prev ≡ (pool.storage j).prev)
unfolding add_node put write
add_node-links index l pool j ne ne' = (ground arith, ground arith)

pub add_node-price :
    (index : ℕ) (l : LinkedList) (pool : OrderPool) (j : ℕ)
    → ((add_node index l pool).1.storage j).price ≡ (pool.storage j).price
unfolding add_node put write
add_node-price index l pool j = ground arith

pub has_index-append_last :
    (i index : ℕ) (is : List ℕ)
    → has_index i (is ++ index ∷ []) ≡ true
    → (i ≡ index) ⊎ (has_index i is ≡ true)
has_index-append_last i index [] h = inl (ground arith)
has_index-append_last i index (j ∷ js) h = ground (arith, has_index-append_last i index js)

is_nil-append : (is : List ℕ) (index : ℕ) → is_nil (is ++ index ∷ []) ≡ false
is_nil-append [] index = refl
is_nil-append (i ∷ is) index = refl

module _ (index : ℕ) (pool : OrderPool) (h : HalfBook) {queue : ℕ → List ℕ}
    (v : IsValid pool h queue) (fresh : (p : ℕ) → has_index index (queue p) ≡ false)
    (ne : index ≢ nil_index) where
  abbrev price : ℕ
  price = (get pool index).price

  abbrev list : LinkedList
  list = PriceMap.at h.lists price

  -- A slot of another queue is neither the new one nor the last one at its price.
  pub apart : (p i : ℕ) → p ≢ price → has_index i (queue p) ≡ true → (i ≢ index) × (i ≢ list.tail)
  apart p i np inside = (
    λ e. has_index_ne (queue p) (fresh p) inside (sym e),
    λ e. elim (tail-cases (queue price) (v.queues price)) [
      | inl z ↦ nil-outside (queue p) i (v.queues p) inside (e ∙ z)
      | inr t ↦ np (
          sym (v.priced p i inside)
          ∙ (ap (λ k. (pool.storage k).price) e ∙ v.priced price list.tail t))
    ],
  )

  abbrev pub joined : ℕ → List ℕ
  joined = write queue price (queue price ++ index ∷ [])

  pub joined_lem : (p : ℕ) → joined p ≡ (if p == price then queue price ++ index ∷ [] else queue p)
  joined_lem p = write_lem queue price (queue price ++ index ∷ []) p

  joined-Queues :
      (p : ℕ)
      → let (l, pool') = add_node index list pool in
        Queues pool'.storage (PriceMap.at (PriceMap.update price l h.lists) p) (joined p)
  joined-Queues p =
      let l = (add_node index list pool).0 in
      elim (Bool-cases (p == price)) [
        | inl b ↦
            rw (at-update price p l h.lists, joined_lem p, b)
              (add_node-Queues index list pool ne (queue price) (fresh price) (v.queues price))
        | inr b ↦
            rw (at-update price p l h.lists, joined_lem p, b)
              (Queues-frame (v.queues p) (λ i inside.
                let (far, away) = apart p i (ground arith) inside in
                add_node-links index list pool i far away))
      ]

  joined-priced : (p i : ℕ) → has_index i (joined p) ≡ true → (pool.storage i).price ≡ p
  joined-priced p i inside = elim (Bool-cases (p == price)) [
    | inl b ↦
        let e : p ≡ price = ground arith in
        elim (has_index-append_last i index (queue price)
          (ground (arith, ap (has_index i) (joined_lem p)))) [
            | inl q ↦ ap (λ k. (pool.storage k).price) q ∙ sym e
            | inr q ↦ v.priced price i q ∙ sym e
          ]
    | inr b ↦ v.priced p i (ground (arith, ap (has_index i) (joined_lem p)))
  ]

  -- An order that waits in no queue of a valid side, whose slot is not `nil_index` and whose price is
  -- below `price_limit`, is added as the last of its price, and the side is valid again.
  pub add_to_half-IsValid :
      price < price_limit → let (pool', h') = add_to_half index pool h in IsValid pool' h' joined
  unfolding add_to_half
  add_to_half-IsValid limit = record {
    coherent = set_price-Coherent price v.coherent limit;
    queues = joined-Queues;
    marked = λ p. ground (
      arith,
      v.marked p,
      is_nil-append (queue price) index,
      ap is_nil (joined_lem p),
      has_price-set_price price p h.levels,
    );
    priced = λ p i inside. add_node-price index list pool i ∙ joined-priced p i inside;
  }
