-- ===== src/Memory/OrderPool/Room.antt =====
-- How many slots are free.
use limit_order_book_v.Prelude.{
  ℕ, zero, suc, ◌+◌, ◌<◌, ◌≤◌, ◌≡◌, arith, List, [], ◌∷◌, length, ltb, if◌then◌else◌,
}
use limit_order_book_v.Memory.OrderPool.{OrderPool, default_capacity}
use limit_order_book_v.Memory.OrderPool.Ownership.{count, Owns, without, count-without}

length-without : (index : ℕ) (is : List ℕ) → length (without index is) + count index is ≡ length is
length-without index [] = omega arith
length-without index (j ∷ js) = ground (arith, length-without index js)

-- A list of indices below `n`, each at most once, has at most `n`.
pub length_distinct :
    (n : ℕ) (is : List ℕ) → ((i : ℕ) → count i is ≤ (if ltb i n then 1 else 0)) → length is ≤ n
length_distinct zero [] h = omega arith
length_distinct zero (j ∷ js) h = ground (arith, h j)
length_distinct (suc n) is h =
    let rest = length_distinct n (without n is) (λ i. ground (arith, h i, count-without i n is)) in
    ground (arith, rest, h n, length-without n is)

-- While somebody owns a slot, not all are free.
pub length-Owns :
    (index : ℕ) (p : OrderPool) (owned : List ℕ)
    → Owns p owned
    → 0 < count index owned
    → length p.free_index < default_capacity
length-Owns index p owned o h =
    let all : length (index ∷ p.free_index) ≤ default_capacity =
      length_distinct default_capacity (index ∷ p.free_index)
        (λ i. ground (arith, o.parts i, o.parts index)) in
    omega arith
