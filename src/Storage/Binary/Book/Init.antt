-- ===== src/Storage/Binary/Book/Init.antt =====
-- The book at the start.
use limit_order_book_v.Prelude.{refl, arith, []}
use limit_order_book_v.Prelude.Bits.{test_bit-zero}
use limit_order_book_v.Domain.Order.{OrderSide, buy, sell}
use limit_order_book_v.Memory.OrderPool.{OrderPool}
use limit_order_book_v.Memory.IdIndexMap
use limit_order_book_v.Memory.IdIndexMap.Lookup.{init-IsValid}
use limit_order_book_v.Storage.Levels
use limit_order_book_v.Storage.Levels.Update.{empty-Coherent}
use limit_order_book_v.Storage.PriceMap
use limit_order_book_v.Storage.Binary
use limit_order_book_v.Storage.Binary.{HalfBook}
use limit_order_book_v.Storage.Binary.Half
use limit_order_book_v.Storage.Binary.Book.{Waiting, IsBook, half}

abbrev pub nobody : Waiting
nobody s p = []

init-half :
    (pool : OrderPool)
    → Half.IsValid pool (record { levels = Levels.empty; lists = PriceMap.init }) (λ p. [])
unfolding Levels.empty PriceMap.init PriceMap.at
init-half pool = record {
  coherent = empty-Coherent;
  queues = λ p. record { chain = (refl, refl); distinct = tt };
  marked = λ p. test_bit-zero (Levels.calc_bit p);
  priced = λ p i w. absurd (cc);
}

-- The new book is valid, and nobody waits in it.
pub init-IsBook : (pool : OrderPool) → IsBook pool Binary.init nobody
unfolding Binary.init IdIndexMap.init IdIndexMap.get
init-IsBook pool = record {
  halves = sides;
  ids = init-IsValid;
  sided = λ s p i w. absurd (cc);
  found = λ s p i w. absurd (cc);
  known = λ id i e ne. absurd (ground arith);
}
  where
    sides : (s : OrderSide) → Half.IsValid pool (half s Binary.init) (nobody s)
    sides buy = init-half pool
    sides sell = init-half pool
