-- ===== src/Memory/OrderPool/Ownership.antt =====
-- Every slot of the pool is either free or owned by one holder.
use limit_order_book_v.Prelude.{
  ℕ, zero, suc, ◌+◌, ◌<◌, ◌≡◌, ◌⊎◌, refl, arith, inl, inr, List, [], ◌∷◌, ltb, ◌==◌, if◌then◌else◌,
}
use limit_order_book_v.Domain.Pods.{OrderPod, nil_index}
use limit_order_book_v.Memory.OrderPool.{
  OrderPool, default_capacity, fill, init, take_back, allocate, free,
}

-- How often a slot stands in a list.
abbrev pub count : ℕ → List ℕ → ℕ
count i [] = 0
count i (j ∷ js) = (if i == j then 1 else 0) + count i js

-- The holders own the slots `owned`: each slot of the pool is free once or owned once, and no other
-- index is in either list.
pub record Owns (p : OrderPool) (owned : List ℕ) : Type 0 where
  pub parts :
      (i : ℕ) → count i p.free_index + count i owned ≡ (if ltb i default_capacity then 1 else 0)

pub count-fill : (n i : ℕ) → count i (fill n) ≡ (if ltb i n then 1 else 0)
unfolding fill
count-fill zero i = ground arith
count-fill (suc n) i = ground (arith, count-fill n i)

count-fill_end : (n i : ℕ) → count i (fill n) + 0 ≡ (if ltb i n then 1 else 0)
count-fill_end n i = ground (arith, count-fill n i)

-- At first every slot is free.
pub init-Owns : (blank : OrderPod) → Owns (init blank) []
unfolding init
init-Owns blank = record { parts = count-fill_end default_capacity }

-- What an allocation gives to the holders of `owned`: a slot that none of them had, or none when they
-- have all.
abbrev pub Allocates : List ℕ → OrderPool → ℕ × OrderPool → Type 0
Allocates owned p (index, p') =
    ((index < default_capacity) × ((count index owned ≡ 0) × Owns p' (index ∷ owned)))
    ⊎ ((index ≡ nil_index) × ((p' ≡ p) × ((i : ℕ) → i < default_capacity → count i owned ≡ 1)))

take_back-Allocates :
    (spare : List ℕ) (p : OrderPool) (owned : List ℕ)
    → ((i : ℕ) → count i spare + count i owned ≡ (if ltb i default_capacity then 1 else 0))
    → Allocates owned p (take_back spare p)
unfolding take_back
take_back-Allocates [] p owned o = inr (refl, (refl, λ i h. ground (arith, o i)))
take_back-Allocates (index ∷ rest) p owned o = inl (
  ground (arith, o index),
  (ground (arith, o index), record { parts = λ i. ground (arith, o i) }),
)

-- `Allocate` gives a slot of the pool that nobody owns, and `UINT32_MAX` only when every slot is owned.
pub allocate-Allocates :
    {p : OrderPool} {owned : List ℕ} → Owns p owned → Allocates owned p (allocate p)
unfolding allocate
allocate-Allocates {p} {owned} o = take_back-Allocates p.free_index p owned o.parts

-- The slots that are left when one is given back.
abbrev pub without : ℕ → List ℕ → List ℕ
without index [] = []
without index (j ∷ js) = let rest = without index js in if index == j then rest else j ∷ rest

pub count-without :
    (i index : ℕ) (owned : List ℕ)
    → count i (without index owned) ≡ (if i == index then 0 else count i owned)
count-without i index [] = ground arith
count-without i index (j ∷ js) = ground (arith, count-without i index js)

-- `Free` of an owned slot takes it from its holder and makes it free once more.
pub free-Owns :
    (index : ℕ) {p : OrderPool} {owned : List ℕ}
    → Owns p owned
    → 0 < count index owned
    → Owns (free index p) (without index owned)
unfolding free
free-Owns index {p} {owned} o h = record {
  parts = λ i. ground (arith, o.parts i, o.parts index, count-without i index owned);
}
