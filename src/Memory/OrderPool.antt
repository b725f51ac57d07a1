-- ===== src/Memory/OrderPool.antt =====
-- include/Memory/OrderPool.h and src/Memory/OrderPool.cpp: the slots of one symbol's orders and the
-- stack of those that are free.
pub mod Ownership
pub mod Room
use limit_order_book_v.Prelude.{ℕ, zero, suc, List, [], ◌∷◌, write}
use limit_order_book_v.Domain.Pods.{OrderPod, nil_index}

abbrev pub default_capacity : ℕ
default_capacity = 100000

-- `storage` is `Storage_`, read and written at `index < default_capacity`; the head of `free_index`
-- is the back of the vector `FreeIndex_`.
pub record OrderPool : Type 0 where
  pub storage : ℕ → OrderPod
  pub free_index : List ℕ

-- The constructor's loop: `n - 1`, …, `0` from the back on.
unfoldable pub fill : ℕ → List ℕ
fill zero = []
fill (suc n) = n ∷ fill n

-- `blank` is the value-initialised `OrderPod` of `resize`.
unfoldable pub init : OrderPod → OrderPool
unfolding fill
init blank = record { storage = λ _. blank; free_index = fill default_capacity }

-- What `Allocate` takes from the back of the vector, or `UINT32_MAX` when no slot is free.
pub take_back : List ℕ → OrderPool → ℕ × OrderPool
take_back [] p = (nil_index, p)
take_back (index ∷ rest) p = (index, record p { free_index = rest })

unfoldable pub allocate : OrderPool → ℕ × OrderPool
unfolding take_back
allocate p = take_back p.free_index p

unfoldable pub free : ℕ → OrderPool → OrderPool
free index p = record p { free_index = index ∷ p.free_index }

-- `Get` as an rvalue, and a write through the reference that it returns.
abbrev pub get : OrderPool → ℕ → OrderPod
get p index = p.storage index

unfoldable pub put : ℕ → OrderPod → OrderPool → OrderPool
put index order p = record p { storage = write p.storage index order }
