-- ===== src/Concurrency/LockFreeQueue/Threads/Invariant.antt =====
-- What holds of the queue whatever the interleaving, as long as the tail does not wrap.
use limit_order_book_v.Prelude.{
  ℕ, ◌+◌, ◌≤◌, ◌<◌, ◌≡◌, ◌⊎◌, Option, none, some, List, ◌++◌, length, get_elem?,
}
use limit_order_book_v.Concurrency.LockFreeQueue.{queue_capacity, LockFreeQueue}
use limit_order_book_v.Concurrency.LockFreeQueue.Threads.{
  ix, Pc, idle, starting, loaded, free, claimed, written, Taker, waiting, at, ready, took, released,
  System,
}

module _ {A : Type 0} where
  -- Position `k` is published.
  abbrev pub Filled : LockFreeQueue A → List A → ℕ → Type 0
  Filled m pushed k = (m.check (ix k) ≡ k + 1) × (get_elem? pushed k ≡ some (m.queue (ix k)))

  -- The positions from `r`, the number that the consumer has released, to the tail are published or
  -- being filled; from the tail to `r + queue_capacity` they are free.
  pub record Ring (m : LockFreeQueue A) (pushed : List A) (r : ℕ) : Type 0 where
    pub tail : m.tail ≡ length pushed
    pub room : length pushed ≤ r + queue_capacity
    pub behind : r ≤ length pushed
    pub slots : (k : ℕ) → r ≤ k → k < length pushed → Filled m pushed k ⊎ (m.check (ix k) ≡ k)
    pub spare : (k : ℕ) → length pushed ≤ k → k < r + queue_capacity → m.check (ix k) ≡ k

  -- Position `v` is being filled with `x`.
  pub record Claims (m : LockFreeQueue A) (pushed : List A) (r : ℕ) (x : A) (v : ℕ) : Type 0 where
    pub low : r ≤ v
    pub high : v < length pushed
    pub item : get_elem? pushed v ≡ some x
    pub unpublished : m.check (ix v) ≡ v

  -- What the locals of a producer say.
  abbrev pub Holds : LockFreeQueue A → List A → ℕ → Pc A → Type 0
  Holds m pushed r idle = Unit {0}
  Holds m pushed r (starting x) = Unit {0}
  Holds m pushed r (loaded x v) = v ≤ length pushed
  Holds m pushed r (free x v) = (v ≤ length pushed) × (v < r + queue_capacity)
  Holds m pushed r (claimed x v) = Claims m pushed r x v
  Holds m pushed r (written x v) = Claims m pushed r x v × (m.queue (ix v) ≡ x)

  -- The position that a producer fills.
  abbrev pub position : Pc A → Option ℕ
  position (claimed x v) = some v
  position (written x v) = some v
  position _ = none

  -- What the locals of the consumer say.
  abbrev pub Taking : LockFreeQueue A → List A → ℕ → Taker A → Type 0
  Taking m popped r waiting = (m.head ≡ r) × (length popped ≡ r)
  Taking m popped r (at v) = (m.head ≡ r) × ((length popped ≡ r) × (v ≡ r))
  Taking m popped r (ready v) =
      (m.head ≡ r) × ((length popped ≡ r) × ((v ≡ r) × (m.check (ix v) ≡ v + 1)))
  Taking m popped r (took v x) =
      (m.head ≡ r) × ((length popped ≡ r + 1) × ((v ≡ r) × (m.check (ix v) ≡ v + 1)))
  Taking m popped r (released v x) = (m.head ≡ v) × ((length popped ≡ r) × (v + 1 ≡ r))

  pub record Inv (s : System A) : Type 0 where
    pub r : ℕ
    pub ring : Ring s.mem s.pushed r
    pub held : (i : ℕ) → Holds s.mem s.pushed r (s.pc i)
    pub unique : (i j v : ℕ) → position (s.pc i) ≡ some v → position (s.pc j) ≡ some v → i ≡ j
    pub holder :
        (k : ℕ)
        → r ≤ k
        → k < length s.pushed
        → s.mem.check (ix k) ≡ k
        → (i : ℕ) × (position (s.pc i) ≡ some k)
    pub taking : Taking s.mem s.popped r s.taker
    pub rest : List A
    pub fifo : s.pushed ≡ s.popped ++ rest
