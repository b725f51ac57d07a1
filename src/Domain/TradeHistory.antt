-- ===== src/Domain/TradeHistory.antt =====
-- include/Domain/TradeHistory.h: a ring buffer of the last `capacity` trades.
mod Positions
pub mod Refines
use limit_order_book_v.Prelude.{
  ℕ, zero, suc, ◌+◌, ◌-◌, ◌%◌, List, [], ◌∷◌, ltb, if◌then◌else◌, write,
}

-- `buffer` is `buffer_`, read and written below `capacity`, its size. Its content is only moved.
pub record TradeHistory (A : Type 0) : Type 0 where
  pub buffer : ℕ → A
  pub capacity : ℕ
  pub head : ℕ
  pub count : ℕ

module _ {A : Type 0} where
  -- `buffer_(capacity)`: `blank` is the value-initialised element.
  unfoldable pub init : A → ℕ → TradeHistory A
  init blank capacity = record { buffer = λ _. blank; capacity = capacity; head = 0; count = 0 }

  unfoldable pub push : TradeHistory A → A → TradeHistory A
  push h trade = record h {
    buffer = write h.buffer h.head trade;
    head = (h.head + 1) % h.capacity;
    count = if ltb h.count h.capacity then h.count + 1 else h.count;
  }

  -- The loop of `Snapshot`: `n` rounds from round `i` on.
  unfoldable pub copy_from : (ℕ → A) → ℕ → ℕ → ℕ → ℕ → List A
  copy_from buffer capacity start i zero = []
  copy_from buffer capacity start i (suc n) =
      buffer ((start + i) % capacity) ∷ copy_from buffer capacity start (i + 1) n

  unfoldable pub snapshot : TradeHistory A → List A
  snapshot h =
      copy_from h.buffer h.capacity ((h.head + h.capacity - h.count) % h.capacity) 0 h.count

  unfoldable pub size : TradeHistory A → ℕ
  size h = h.count

  -- `for (const auto& trade : trades) Trades.Push(trade);`
  unfoldable pub push_all : TradeHistory A → List A → TradeHistory A
  push_all h [] = h
  push_all h (t ∷ ts) = push_all (push h t) ts
