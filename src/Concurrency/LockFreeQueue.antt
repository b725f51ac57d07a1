-- ===== src/Concurrency/LockFreeQueue.antt =====
-- include/Concurrency/LockFreeQueue.h: the bounded ring in which producers claim positions and one
-- consumer takes the items. `Push` and `Pop` are modelled as they run without interruption.
pub mod Refines
pub mod Threads
use limit_order_book_v.Prelude.{
  ℕ, ◌+◌, ◌-◌, ◌%◌, ◌^◌, Option, none, some, ltb, ◌==◌, if◌then◌else◌, write,
}

-- `QueueCapacity` of include/Concurrency/SymbolWorker.h, the capacity of the queues in use.
abbrev pub queue_capacity : ℕ
queue_capacity = 524288

-- `queue` and `check` are the arrays `queue_` and `check_`, read and written below the capacity.
pub record LockFreeQueue (A : Type 0) : Type 0 where
  pub queue : ℕ → A
  pub check : ℕ → ℕ
  pub head : ℕ
  pub tail : ℕ

-- How a call of `Push` ends. `spinning` is the loop that goes round for as long as no other thread
-- changes the queue.
pub data Outcome (A : Type 0) : Type 0 where
  pushed : LockFreeQueue A → Outcome A
  refused spinning : Outcome A

-- `value & (Capacity - 1)`; the capacity is a power of two, at most 2 ^ 32.
abbrev pub index_of : ℕ → ℕ → ℕ
index_of capacity value = value % capacity

module _ {A : Type 0} (capacity : ℕ) where
  -- The constructor; `blank` stands for the items that nothing reads before they are written.
  unfoldable pub init : A → LockFreeQueue A
  init blank = record { queue = λ _. blank; check = λ i. i % 2 ^ 32; head = 0; tail = 0 }

  -- The claimed position is filled, then published.
  unfoldable pub fill : A → LockFreeQueue A → LockFreeQueue A
  fill item q = record {
    queue = write q.queue (index_of capacity q.tail) item;
    check = write q.check (index_of capacity q.tail) ((q.tail + 1) % 2 ^ 32);
    head = q.head;
    tail = (q.tail + 1) % 2 ^ 32;
  }

  -- `compare_exchange_weak` may fail spuriously, and the next round then finds the same queue: the
  -- call ends as its first round whose exchange succeeds.
  unfoldable pub push : A → LockFreeQueue A → Outcome A
  unfolding fill
  push item q =
      let expected = q.check (index_of capacity q.tail) in
      if expected == q.tail
      then pushed (fill item q)
      else if ltb expected q.tail
      then refused
      else spinning

  unfoldable pub pop : LockFreeQueue A → Option A × LockFreeQueue A
  pop q =
      let index = index_of capacity q.head in
      if q.check index == (q.head + 1) % 2 ^ 32
      then (
        some (q.queue index),
        record q {
          check = write q.check index ((q.head + capacity) % 2 ^ 32);
          head = (q.head + 1) % 2 ^ 32;
        },
      )
      else (none, q)
