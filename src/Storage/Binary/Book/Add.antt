-- ===== src/Storage/Binary/Book/Add.antt =====
-- `AddOrder` keeps the invariant of the book.
use limit_order_book_v.Prelude.{
  ℕ, ◌<◌, ◌≡◌, ◌≢◌, ◌⊎◌, ◌∙◌, inl, inr, refl, sym, ap, arith, Bool-cases, true, false, List, [],
  ◌∷◌, ◌++◌, ◌==◌, write, write_lem, write_self,
}
use limit_order_book_v.Domain.Order.{OrderSide, buy, sell}
use limit_order_book_v.Domain.Pods.{OrderPod, nil_index}
use limit_order_book_v.Memory.OrderPool.{OrderPool, get, put}
use limit_order_book_v.Memory.IdIndexMap
use limit_order_book_v.Memory.IdIndexMap.{IdIndexMap}
use limit_order_book_v.Memory.IdIndexMap.Lookup.{get-set, set-IsValid}
use limit_order_book_v.Storage.Levels.Update.{price_limit}
use limit_order_book_v.Storage.LinkedList.{LinkedList, add_node}
use limit_order_book_v.Storage.LinkedList.Chain.{has_index, has_index_ne}
use limit_order_book_v.Storage.PriceMap
use limit_order_book_v.Storage.Binary.{BinaryOrderBook, add_to_half, add_by_side, add_order}
use limit_order_book_v.Storage.Binary.Half.{tail-cases, nil-outside}
use limit_order_book_v.Storage.Binary.Half.Add.{
  add_node-links, add_node-price, add_to_half-IsValid, has_index-append_last,
}
use limit_order_book_v.Storage.Binary.Book.{Waiting, half, IsBook, on_side}
use limit_order_book_v.Storage.Binary.Book.Sides.{
  put_half, on_side-halves, on_side-member, on_side-keeps, on_side-here, put_half-ids,
}
use limit_order_book_v.Storage.Binary.Book.Frame.{SameLinks, SameIdentity, half-frame}

pub add_by_side_lem :
    (s : OrderSide) (index : ℕ) (pool : OrderPool) (m : IdIndexMap) (b : BinaryOrderBook)
    → add_by_side s index pool (record b { id_to_index = m })
      ≡ (let (pool', h) = add_to_half index pool (half s b) in (pool', put_half s h m b))
unfolding add_by_side
add_by_side_lem buy index pool m b = refl
add_by_side_lem sell index pool m b = refl

add_node-identity :
    (index : ℕ) (l : LinkedList) (pool : OrderPool) (j : ℕ)
    → SameIdentity (pool.storage j) ((add_node index l pool).1.storage j)
unfolding add_node put write
add_node-identity index l pool j = record { side = ground arith; order_id = ground arith }

has_index-append_self : (index : ℕ) (is : List ℕ) → has_index index (is ++ index ∷ []) ≡ true
has_index-append_self index [] = ground arith
has_index-append_self index (i ∷ is) = ground (arith, has_index-append_self index is)

has_index-append_old :
    (i index : ℕ) (is : List ℕ) → has_index i is ≡ true → has_index i (is ++ index ∷ []) ≡ true
has_index-append_old i index [] h = cc
has_index-append_old i index (j ∷ js) h = ground (arith, has_index-append_old i index js)

-- The queues with an order behind those that wait on its side at its price.
abbrev pub put_behind : ℕ → OrderPod → Waiting → Waiting
put_behind index o queue =
    on_side o.side (write (queue o.side) o.price (queue o.side o.price ++ index ∷ [])) queue

module _ (index : ℕ) (pool : OrderPool) (b : BinaryOrderBook) {queue : Waiting}
    (v : IsBook pool b queue)
    (fresh : (s : OrderSide) (p : ℕ) → has_index index (queue s p) ≡ false)
    (ne : index ≢ nil_index) where
  abbrev side : OrderSide
  side = (get pool index).side

  abbrev price : ℕ
  price = (get pool index).price

  abbrev id : ℕ
  id = (get pool index).order_id

  abbrev list : LinkedList
  list = PriceMap.at (half side b).lists price

  abbrev longer : ℕ → List ℕ
  longer = write (queue side) price (queue side price ++ index ∷ [])

  abbrev added : Waiting
  added = put_behind index (get pool index) queue

  longer-member :
      (p i : ℕ)
      → has_index i (longer p) ≡ true
      → ((i ≡ index) × (p ≡ price)) ⊎ (has_index i (queue side p) ≡ true)
  longer-member p i w = elim (Bool-cases (p == price)) [
    | inl e ↦
        let there : p ≡ price = ground arith in
        let w' =
          ap (has_index i) (write_lem (queue side) price (queue side price ++ index ∷ []) p) in
        elim (has_index-append_last i index (queue side price) (ground (arith, w'))) [
          | inl f ↦ inl (f, there)
          | inr f ↦ inr (ap (λ k. has_index i (queue side k)) there ∙ f)
        ]
    | inr e ↦ inr (
        ground (
          arith,
          ap (has_index i) (write_lem (queue side) price (queue side price ++ index ∷ []) p),
        ))
  ]

  other-links :
      (t : OrderSide)
      → t ≢ side
      → (p i : ℕ) → has_index i (queue t p) ≡ true
      → SameLinks (pool.storage i) ((add_node index list pool).1.storage i)
  other-links t nt p i w =
      let far : i ≢ list.tail = λ e.
        elim (tail-cases (queue side price) ((v.halves side).queues price)) [
          | inl z ↦ nil-outside (queue t p) i ((v.halves t).queues p) w (e ∙ z)
          | inr m ↦ nt (
              sym (v.sided t p i w)
              ∙ (ap (λ k. (pool.storage k).side) e ∙ v.sided side price list.tail m))
        ] in
      let (n, q) =
        add_node-links index list pool i (λ e. has_index_ne (queue t p) (fresh t p) w (sym e))
          far in
      record { next = n; prev = q; price = add_node-price index list pool i }

  pub added-member :
      (t : OrderSide) (p i : ℕ)
      → has_index i (added t p) ≡ true
      → ((i ≡ index) × ((t ≡ side) × (p ≡ price))) ⊎ (has_index i (queue t p) ≡ true)
  added-member t p i w = elim (on_side-member side t longer queue p i w) [
    | inr (nt, w') ↦ inr w'
    | inl (e, w') ↦ elim (longer-member p i w') [
      | inl (f, g) ↦ inl (f, (e, g))
      | inr f ↦ inr (ap (λ u. has_index i (queue u p)) e ∙ f)
    ]
  ]

  pub added-here : has_index index (added side price) ≡ true
  added-here =
      ap (has_index index) (
        on_side-here side longer queue price
        ∙ write_self (queue side) price (queue side price ++ index ∷ []))
      ∙ has_index-append_self index (queue side price)

  pub added-keeps :
      (t : OrderSide) (p i : ℕ) → has_index i (queue t p) ≡ true → has_index i (added t p) ≡ true
  added-keeps t p i w =
      on_side-keeps side t longer queue p i
        (λ e w'.
          let there = sym (ap (λ u. has_index i (queue u p)) e) ∙ w' in
          elim (Bool-cases (p == price)) [
            | inl f ↦
                let g : p ≡ price = ground arith in
                let old =
                  has_index-append_old i index (queue side price)
                    (sym (ap (λ k. has_index i (queue side k)) g) ∙ there) in
                ap (has_index i) (write_lem (queue side) price (queue side price ++ index ∷ []) p)
                ∙ rw f old
            | inr f ↦
                ap (has_index i) (write_lem (queue side) price (queue side price ++ index ∷ []) p)
                ∙ rw f there
          ])
        w

  abbrev ids : IdIndexMap
  ids = IdIndexMap.set id index b.id_to_index

  added-found :
      IdIndexMap.get id b.id_to_index ≡ nil_index
      → (t : OrderSide) (p i : ℕ) → has_index i (added t p) ≡ true
      → IdIndexMap.get (pool.storage i).order_id ids ≡ i
  added-found unknown t p i w =
      let looked = get-set id index (pool.storage i).order_id v.ids in
      elim (added-member t p i w) [
        | inl (e, f) ↦ ground (arith, looked, ap (λ k. (pool.storage k).order_id) e)
        | inr old ↦ ground (
          arith,
          looked,
          v.found t p i old,
          nil-outside (queue t p) i ((v.halves t).queues p) old,
          unknown,
          ap (λ k. IdIndexMap.get k b.id_to_index),
        )
      ]

  added-known :
      (id' i : ℕ)
      → IdIndexMap.get id' ids ≡ i
      → i ≢ nil_index
      → ((pool.storage i).order_id ≡ id')
        × (has_index i (added (pool.storage i).side (pool.storage i).price) ≡ true)
  added-known id' i e real =
      let looked = get-set id index id' v.ids in
      elim (Bool-cases (id' == id)) [
        | inl f ↦ let g : i ≡ index = ground (arith, looked) in rw g (ground arith, added-here)
        | inr f ↦
            let (o, w) = v.known id' i (ground (arith, looked)) real in
            (o, added-keeps (pool.storage i).side (pool.storage i).price i w)
      ]

  -- In a valid book, an order that waits nowhere, whose slot is not `nil_index`, whose id the book does
  -- not know and whose price is below `price_limit` is added as the last one of its side and price, and
  -- the book is valid again.
  pub add_order-IsBook :
      price < price_limit
      → IdIndexMap.get id b.id_to_index ≡ nil_index
      → let (pool', b') = add_order index pool b in
        IsBook pool' b' (put_behind index (get pool index) queue)
  unfolding add_order add_to_half
  add_order-IsBook limit unknown =
      let m = ids in
      let same = add_node-identity index list pool in
      rw (add_by_side_lem side index pool m b) (record {
        halves = λ t.
            on_side-halves side t m b queue
              (add_to_half-IsValid index pool (half side b) (v.halves side) (fresh side) ne limit)
              (λ nt. half-frame (v.halves t) (other-links t nt));
        ids = rw put_half-ids (set-IsValid id index ne v.ids);
        sided = λ t p i w. (same i).side ∙ elim (added-member t p i w) [
          | inl (e, (f, g)) ↦ ap (λ k. (pool.storage k).side) e ∙ sym f
          | inr old ↦ v.sided t p i old
        ];
        found = λ t p i w. rw (put_half-ids, (same i).order_id) (added-found unknown t p i w);
        known = λ id' i e real.
            let e' = rw put_half-ids at e in
            rw ((same i).order_id, (same i).side, add_node-price index list pool i)
              (added-known id' i e' real);
      })
