-- ===== src/Concurrency/LockFreeQueue/Threads/Releasing.antt =====
-- A position that the consumer gives back, and the head that it stores.
use limit_order_book_v.Prelude.{
  ℕ, ◌+◌, ◌%◌, ◌^◌, ◌<◌, ◌≡◌, ◌≢◌, ◌∙◌, ◌==◌, Bool-cases, List, length, arith, ap, inl, inr, write,
  write_lem, write_self,
}
use limit_order_book_v.Concurrency.LockFreeQueue.{queue_capacity, LockFreeQueue}
use limit_order_book_v.Concurrency.LockFreeQueue.Threads.{
  ix, Pc, idle, starting, loaded, free, claimed, written,
}
use limit_order_book_v.Concurrency.LockFreeQueue.Threads.Invariant.{Filled, Ring, Claims, Holds}
use limit_order_book_v.Concurrency.LockFreeQueue.Threads.Producing.{ix_ne}

module _ {A : Type 0} where
  -- A position is given back.
  abbrev pub given : LockFreeQueue A → ℕ → LockFreeQueue A
  given m v = record m { check = write m.check (ix v) ((v + queue_capacity) % 2 ^ 32) }

  -- The position at the head has been claimed when it is published.
  pub below_tail :
      (m : LockFreeQueue A) (pushed : List A) (r : ℕ)
      → Ring m pushed r
      → m.check (ix r) ≡ r + 1
      → r < length pushed
  below_tail m pushed r g e = elim (Bool-cases (r == length pushed)) [
    | inl at_end ↦ absurd (ground (arith, g.spare r, e))
    | inr f ↦ ground (arith, g.behind)
  ]

  pub Filled-head :
      (m : LockFreeQueue A) (pushed : List A) (r : ℕ)
      → Ring m pushed r
      → m.check (ix r) ≡ r + 1
      → Filled m pushed r
  Filled-head m pushed r g e = elim (g.slots r (omega arith) (below_tail m pushed r g e)) [
    | inl f ↦ f
    | inr c ↦ absurd (omega arith)
  ]

  pub check_given :
      (m : LockFreeQueue A) (r k : ℕ)
      → r < k
      → k < r + queue_capacity
      → (given m r).check (ix k) ≡ m.check (ix k)
  check_given m r k lo hi =
      let apart = ix_ne r k r (omega arith) hi (omega arith) (omega arith) (omega arith) in
      ground (arith, write_lem m.check (ix r) ((r + queue_capacity) % 2 ^ 32) (ix k))

  pub Ring-given :
      (m : LockFreeQueue A) (pushed : List A) (r : ℕ)
      → Ring m pushed r
      → m.check (ix r) ≡ r + 1
      → r + queue_capacity < 2 ^ 32
      → Ring (given m r) pushed (r + 1)
  Ring-given m pushed r g e few =
      let below = below_tail m pushed r g e in
      record {
        tail = g.tail;
        room = omega (arith, g.room);
        behind = omega arith;
        slots = λ k lo hi.
            let same = check_given m r k (omega arith) (omega (arith, g.room)) in
            elim (g.slots k (omega arith) hi) [
              | inl (c, it) ↦ inl (same ∙ c, it)
              | inr c ↦ inr (same ∙ c)
            ];
        spare = λ k lo hi. elim (Bool-cases (k == r + queue_capacity)) [
          | inl last ↦
              let here : k ≡ r + queue_capacity = ground arith in
              let index : ix k ≡ ix r = omega arith in
              rw index (write_self m.check (ix r) ((r + queue_capacity) % 2 ^ 32) ∙ omega arith)
          | inr f ↦
              let near : k < r + queue_capacity = ground arith in
              check_given m r k (omega arith) near ∙ g.spare k lo near
        ];
      }

  Claims-given :
      (m : LockFreeQueue A) (pushed : List A) (r : ℕ) (x : A) (v : ℕ)
      → Ring m pushed r
      → m.check (ix r) ≡ r + 1
      → Claims m pushed r x v
      → Claims (given m r) pushed (r + 1) x v
  Claims-given m pushed r x v g e c =
      let ne : r ≢ v = λ same. omega (arith, ap (λ t. m.check (ix t)) same, c.unpublished) in
      let low : r < v = omega (arith, c.low) in
      record {
        low = omega arith;
        high = c.high;
        item = c.item;
        unpublished = check_given m r v low (omega (arith, c.high, g.room)) ∙ c.unpublished;
      }

  pub Holds-given :
      (m : LockFreeQueue A) (pushed : List A) (r : ℕ) (p : Pc A)
      → Ring m pushed r
      → m.check (ix r) ≡ r + 1
      → Holds m pushed r p
      → Holds (given m r) pushed (r + 1) p
  Holds-given m pushed r idle g e h = tt
  Holds-given m pushed r (starting y) g e h = tt
  Holds-given m pushed r (loaded y w) g e h = h
  Holds-given m pushed r (free y w) g e (a, b) = (a, omega arith)
  Holds-given m pushed r (claimed y w) g e h = Claims-given m pushed r y w g e h
  Holds-given m pushed r (written y w) g e (h, q) = (Claims-given m pushed r y w g e h, q)

  Claims-head :
      (m : LockFreeQueue A) (pushed : List A) (r h : ℕ) (x : A) (v : ℕ)
      → Claims m pushed r x v
      → Claims (record m { head = h }) pushed r x v
  Claims-head m pushed r h x v c = record {
    low = c.low;
    high = c.high;
    item = c.item;
    unpublished = c.unpublished;
  }

  pub Holds-head :
      (m : LockFreeQueue A) (pushed : List A) (r h : ℕ) (p : Pc A)
      → Holds m pushed r p
      → Holds (record m { head = h }) pushed r p
  Holds-head m pushed r h idle a = tt
  Holds-head m pushed r h (starting y) a = tt
  Holds-head m pushed r h (loaded y w) a = a
  Holds-head m pushed r h (free y w) a = a
  Holds-head m pushed r h (claimed y w) a = Claims-head m pushed r h y w a
  Holds-head m pushed r h (written y w) (a, q) = (Claims-head m pushed r h y w a, q)
