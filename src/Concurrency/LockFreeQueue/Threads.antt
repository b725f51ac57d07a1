-- ===== src/Concurrency/LockFreeQueue/Threads.antt =====
-- include/Concurrency/LockFreeQueue.h with its threads interleaved: any number of producers, which call
-- `Push`, and one consumer, which calls `Pop`. A step is one access to what they share. Memory is taken
-- as sequentially consistent.
pub mod Invariant
pub mod Producing
pub mod Frame
pub mod Moving
pub mod Releasing
pub mod Consuming
pub mod Safety
use limit_order_book_v.Prelude.{ℕ, ◌+◌, ◌%◌, ◌^◌, ◌<◌, ◌≡◌, ◌≢◌, List, [], ◌∷◌, ◌++◌, write}
use limit_order_book_v.Concurrency.LockFreeQueue
use limit_order_book_v.Concurrency.LockFreeQueue.{queue_capacity, LockFreeQueue}

-- The index of a position.
abbrev pub ix : ℕ → ℕ
ix v = v % queue_capacity

-- Where a producer stands, with the item and the local `value`.
pub data Pc (A : Type 0) : Type 0 where
  idle : Pc A  -- outside of `Push`
  starting : A → Pc A  -- the head of the loop
  loaded : A → ℕ → Pc A  -- before the load of `check_[index]`
  free : A → ℕ → Pc A  -- before the exchange
  claimed : A → ℕ → Pc A  -- before the item is stored
  written : A → ℕ → Pc A  -- before the position is published

-- Where the consumer stands.
pub data Taker (A : Type 0) : Type 0 where
  waiting : Taker A  -- outside of `Pop`
  at : ℕ → Taker A  -- before the load of `check_[index]`
  ready : ℕ → Taker A  -- before the item is read
  took : ℕ → A → Taker A  -- before the position is released
  released : ℕ → A → Taker A  -- before `head_` is stored

-- One step of `Push`. The exchange may fail although the tail is the value.
pub data Move {A : Type 0} (m : LockFreeQueue A) : Pc A → LockFreeQueue A → Pc A → Type 0 where
  call : {x : A} → Move m idle m (starting x)
  load_tail : {x : A} → Move m (starting x) m (loaded x m.tail)
  found_free : {x : A} {v : ℕ} → m.check (ix v) ≡ v → Move m (loaded x v) m (free x v)
  found_full : {x : A} {v : ℕ} → m.check (ix v) < v → Move m (loaded x v) m idle
  found_late : {x : A} {v : ℕ} → v < m.check (ix v) → Move m (loaded x v) m (starting x)
  win :
      {x : A} {v : ℕ}
      → m.tail ≡ v
      → Move m (free x v) (record m { tail = (v + 1) % 2 ^ 32 }) (claimed x v)
  lose : {x : A} {v : ℕ} → Move m (free x v) m (starting x)
  store :
      {x : A} {v : ℕ}
      → Move m (claimed x v) (record m { queue = write m.queue (ix v) x }) (written x v)
  publish :
      {x : A} {v : ℕ}
      → Move m (written x v) (record m { check = write m.check (ix v) ((v + 1) % 2 ^ 32) }) idle

-- One step of `Pop`.
pub data Take {A : Type 0} (m : LockFreeQueue A)
    : Taker A → LockFreeQueue A → Taker A → Type 0 where
  load_head : Take m waiting m (at m.head)
  found_none : {v : ℕ} → m.check (ix v) ≢ (v + 1) % 2 ^ 32 → Take m (at v) m waiting
  found_some : {v : ℕ} → m.check (ix v) ≡ (v + 1) % 2 ^ 32 → Take m (at v) m (ready v)
  read : {v : ℕ} → Take m (ready v) m (took v (m.queue (ix v)))
  release :
      {x : A} {v : ℕ}
      → Take m
          (took v x)
          (record m { check = write m.check (ix v) ((v + queue_capacity) % 2 ^ 32) })
          (released v x)
  advance : {x : A} {v : ℕ} → Take m (released v x) (record m { head = (v + 1) % 2 ^ 32 }) waiting

-- What a step claims for a producer, and what it gives to the consumer.
abbrev pub claim : {A : Type 0} → Pc A → Pc A → List A
claim (free x v) (claimed y w) = x ∷ []
claim _ _ = []

abbrev pub taken : {A : Type 0} → Taker A → Taker A → List A
taken (ready v) (took w x) = x ∷ []
taken _ _ = []

-- The queue and its threads. `pushed` are the items in the order in which their exchanges succeeded,
-- `popped` those that the consumer has read.
pub record System (A : Type 0) : Type 0 where
  pub mem : LockFreeQueue A
  pub pc : ℕ → Pc A
  pub taker : Taker A
  pub pushed : List A
  pub popped : List A

pub data Step {A : Type 0} (s : System A) : System A → Type 0 where
  produce :
      (i : ℕ) {m : LockFreeQueue A} {p : Pc A}
      → Move s.mem (s.pc i) m p
      → Step s (record s { mem = m; pc = write s.pc i p; pushed = s.pushed ++ claim (s.pc i) p })
  consume :
      {m : LockFreeQueue A} {t : Taker A}
      → Take s.mem s.taker m t
      → Step s (record s { mem = m; taker = t; popped = s.popped ++ taken s.taker t })

abbrev pub first_state : {A : Type 0} → A → System A
first_state blank = record {
  mem = LockFreeQueue.init queue_capacity blank;
  pc = λ _. idle;
  taker = waiting;
  pushed = [];
  popped = [];
}

pub data Reach {A : Type 0} (blank : A) : System A → Type 0 where
  start : Reach blank (first_state blank)
  later : {s t : System A} → Reach blank s → Step s t → Reach blank t
