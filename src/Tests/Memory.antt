-- ===== src/Tests/Memory.antt =====
-- Examples for src/Memory and include/Memory.
use limit_order_book_v.Prelude.{ℕ, [], ◌∷◌, ◌≡◌, arith}
use limit_order_book_v.Domain.Pods.{nil_index}
use limit_order_book_v.Memory.OrderPool
use limit_order_book_v.Memory.OrderPool.{OrderPool, fill, allocate, free}
use limit_order_book_v.Memory.OrderPool.Ownership.{
  Owns, count-fill, init-Owns, Allocates, allocate-Allocates,
}
use limit_order_book_v.Concurrency.SymbolWorker.{blank_order}
use limit_order_book_v.Memory.IdIndexMap
use limit_order_book_v.Memory.IdIndexMap.{IdIndexMap, get, set, clear}
use limit_order_book_v.Memory.IdIndexMap.Lookup.{IsValid, init-IsValid, set-IsValid, get-clear}

-- Ids of two pages.
abbrev two_ids : IdIndexMap
two_ids = set 5000 8 (set 5 7 IdIndexMap.init)

one_id-IsValid : IsValid (set 5 7 IdIndexMap.init)
one_id-IsValid = set-IsValid 5 7 (omega arith) init-IsValid

two_ids-IsValid : IsValid two_ids
two_ids-IsValid = set-IsValid 5000 8 (omega arith) one_id-IsValid

get-clear_example : get 5000 (clear 5000 two_ids) ≡ nil_index
get-clear_example = get-clear 5000 two_ids-IsValid 5000

-- The pool at the start, with all slots free, after one allocation.
abbrev one_taken : ℕ × OrderPool
one_taken = allocate (OrderPool.init blank_order)

allocate-Allocates_example :
    Allocates [] (OrderPool.init blank_order) (allocate (OrderPool.init blank_order))
allocate-Allocates_example = allocate-Allocates (init-Owns blank_order)

-- A pool of which two slots are held.
abbrev two_held : OrderPool
two_held = record { storage = λ i. blank_order; free_index = fill 99998 }

two_held-Owns : Owns two_held (99999 ∷ 99998 ∷ [])
two_held-Owns = record { parts = λ i. ground (arith, count-fill 99998 i) }
