-- ===== src/Concurrency/LockFreeQueue/Threads/Producing.antt =====
-- A step of a producer keeps the invariant.
use limit_order_book_v.Prelude.{
  ℕ, zero, suc, ◌+◌, ◌%◌, ◌^◌, ◌≤◌, ◌<◌, ◌≡◌, ◌≢◌, ◌∙◌, ◌==◌, Bool-cases, some, List, [], ◌∷◌, ◌++◌,
  length, length-append, arith, refl, sym, ap, get_elem?, inl, inr, write, write_lem, write_self,
}
use limit_order_book_v.Concurrency.LockFreeQueue.{queue_capacity, LockFreeQueue}
use limit_order_book_v.Concurrency.LockFreeQueue.Threads.{
  ix, Pc, idle, starting, loaded, free, claimed, written,
}
use limit_order_book_v.Concurrency.LockFreeQueue.Threads.Invariant.{Ring, Claims, Holds, position}

-- Positions that are less than a round apart have different indices.
pub ix_ne :
    (r k k' : ℕ)
    → r ≤ k
    → k < r + queue_capacity
    → r ≤ k'
    → k' < r + queue_capacity
    → k ≢ k'
    → ix k ≢ ix k'
ix_ne r k k' a b c d ne = omega arith

module _ {A : Type 0} where
  get_elem?-append_old :
      (xs ys : List A) (k : ℕ) {y : A} → get_elem? xs k ≡ some y → get_elem? (xs ++ ys) k ≡ some y
  get_elem?-append_old [] ys k e = cc
  get_elem?-append_old (x ∷ xs) ys zero e = e
  get_elem?-append_old (x ∷ xs) ys (suc k) e = get_elem?-append_old xs ys k e

  pub get_elem?-append_last : (xs : List A) (x : A) → get_elem? (xs ++ x ∷ []) (length xs) ≡ some x
  get_elem?-append_last [] x = refl
  get_elem?-append_last (y ∷ xs) x = get_elem?-append_last xs x

  pub length_more : (xs : List A) (x : A) → length (xs ++ x ∷ []) ≡ length xs + 1
  length_more xs x = omega (arith, length-append {0} xs (x ∷ []))

  -- A claim.
  abbrev pub claim_tail : LockFreeQueue A → ℕ → LockFreeQueue A
  claim_tail m v = record m { tail = (v + 1) % 2 ^ 32 }

  pub Ring-win :
      (m : LockFreeQueue A) (pushed : List A) (r : ℕ) (x : A) (v : ℕ)
      → Ring m pushed r
      → m.tail ≡ v
      → v < r + queue_capacity
      → v + 1 < 2 ^ 32
      → Ring (claim_tail m v) (pushed ++ x ∷ []) r
  Ring-win m pushed r x v g e lt few =
      let more = length_more pushed x in
      record {
        tail = omega (arith, more, g.tail);
        room = omega (arith, more, g.tail);
        behind = omega (arith, more, g.behind);
        slots = λ k lo hi. elim (Bool-cases (k == length pushed)) [
          | inl at_end ↦ inr (g.spare k (ground arith) (ground (arith, g.tail)))
          | inr ne ↦ elim (g.slots k lo (ground (arith, more))) [
            | inl (c, it) ↦ inl (c, get_elem?-append_old pushed (x ∷ []) k it)
            | inr c ↦ inr c
          ]
        ];
        spare = λ k lo hi. g.spare k (omega (arith, more)) hi;
      }

  Claims-win :
      (m : LockFreeQueue A) (pushed : List A) (r : ℕ) (x y : A) (v w : ℕ)
      → Claims m pushed r y w
      → Claims (claim_tail m v) (pushed ++ x ∷ []) r y w
  Claims-win m pushed r x y v w c = record {
    low = c.low;
    high = omega (arith, length_more pushed x, c.high);
    item = get_elem?-append_old pushed (x ∷ []) w c.item;
    unpublished = c.unpublished;
  }

  pub Holds-win :
      (m : LockFreeQueue A) (pushed : List A) (r : ℕ) (x : A) (v : ℕ) (p : Pc A)
      → Holds m pushed r p
      → Holds (claim_tail m v) (pushed ++ x ∷ []) r p
  Holds-win m pushed r x v idle h = tt
  Holds-win m pushed r x v (starting y) h = tt
  Holds-win m pushed r x v (loaded y w) h = omega (arith, length_more pushed x)
  Holds-win m pushed r x v (free y w) h = omega (arith, length_more pushed x)
  Holds-win m pushed r x v (claimed y w) h = Claims-win m pushed r x y v w h
  Holds-win m pushed r x v (written y w) (h, e) = (Claims-win m pushed r x y v w h, e)

  -- An item is stored.
  abbrev pub stored : LockFreeQueue A → ℕ → A → LockFreeQueue A
  stored m v x = record m { queue = write m.queue (ix v) x }

  pub Ring-store :
      (m : LockFreeQueue A) (pushed : List A) (r : ℕ) (x : A) (v : ℕ)
      → Ring m pushed r
      → Claims m pushed r x v
      → Ring (stored m v x) pushed r
  Ring-store m pushed r x v g c = record {
    tail = g.tail;
    room = g.room;
    behind = g.behind;
    slots = λ k lo hi. elim (g.slots k lo hi) [
      | inl (p, it) ↦
          let ne : k ≢ v = λ same. omega (arith, ap (λ t. m.check (ix t)) same, c.unpublished) in
          let other =
            ix_ne r k v lo (omega (arith, g.room)) c.low (omega (arith, g.room, c.high)) ne in
          inl (p, rw (write_lem m.queue (ix v) x (ix k)) (ground (arith, it)))
      | inr p ↦ inr p
    ];
    spare = g.spare;
  }

  Claims-frame :
      (m m' : LockFreeQueue A) (pushed : List A) (r : ℕ) (y : A) (w : ℕ)
      → Claims m pushed r y w
      → m'.check (ix w) ≡ m.check (ix w)
      → Claims m' pushed r y w
  Claims-frame m m' pushed r y w c e = record {
    low = c.low;
    high = c.high;
    item = c.item;
    unpublished = e ∙ c.unpublished;
  }

  -- Two positions that are being filled have different indices when they differ.
  Claims-apart :
      (m : LockFreeQueue A) (pushed : List A) (r : ℕ) (x y : A) (v w : ℕ)
      → Ring m pushed r
      → Claims m pushed r x v
      → Claims m pushed r y w
      → w ≢ v
      → ix w ≢ ix v
  Claims-apart m pushed r x y v w g c d ne =
      ix_ne r w v d.low (omega (arith, g.room, d.high)) c.low (omega (arith, g.room, c.high)) ne

  pub Holds-store :
      (m : LockFreeQueue A) (pushed : List A) (r : ℕ) (x : A) (v : ℕ) (p : Pc A)
      → Ring m pushed r
      → Claims m pushed r x v
      → position p ≢ some v
      → Holds m pushed r p
      → Holds (stored m v x) pushed r p
  Holds-store m pushed r x v idle g c ne h = tt
  Holds-store m pushed r x v (starting y) g c ne h = tt
  Holds-store m pushed r x v (loaded y w) g c ne h = h
  Holds-store m pushed r x v (free y w) g c ne h = h
  Holds-store m pushed r x v (claimed y w) g c ne h =
      Claims-frame m (stored m v x) pushed r y w h refl
  Holds-store m pushed r x v (written y w) g c ne (h, e) =
      let apart = Claims-apart m pushed r x y v w g c h (λ f. ne (ap some f)) in
      (
        Claims-frame m (stored m v x) pushed r y w h refl,
        ground (arith, write_lem m.queue (ix v) x (ix w)),
      )

  -- A position is published.
  abbrev pub published : LockFreeQueue A → ℕ → LockFreeQueue A
  published m v = record m { check = write m.check (ix v) ((v + 1) % 2 ^ 32) }

  pub Ring-publish :
      (m : LockFreeQueue A) (pushed : List A) (r : ℕ) (x : A) (v : ℕ)
      → Ring m pushed r
      → Claims m pushed r x v
      → m.queue (ix v) ≡ x
      → v + 1 < 2 ^ 32
      → Ring (published m v) pushed r
  Ring-publish m pushed r x v g c q few = record {
    tail = g.tail;
    room = g.room;
    behind = g.behind;
    slots = λ k lo hi. elim (Bool-cases (k == v)) [
      | inl e ↦
          let same : k ≡ v = ground arith in
          rw same (
            inl (
              rw (write_self m.check (ix v) ((v + 1) % 2 ^ 32)) (omega arith),
              c.item ∙ ap some (sym q),
            ))
      | inr f ↦
          let other =
            ix_ne r k v lo (omega (arith, g.room)) c.low (omega (arith, g.room, c.high))
              (ground arith) in
          let same : (published m v).check (ix k) ≡ m.check (ix k) =
            ground (arith, write_lem m.check (ix v) ((v + 1) % 2 ^ 32) (ix k)) in
          elim (g.slots k lo hi) [ inl (p, it) ↦ inl (same ∙ p, it) | inr p ↦ inr (same ∙ p) ]
    ];
    spare = λ k lo hi.
        let other =
          ix_ne r k v (omega (arith, g.behind)) hi c.low (omega (arith, g.room, c.high))
            (omega (arith, c.high)) in
        ground (arith, g.spare k lo hi, write_lem m.check (ix v) ((v + 1) % 2 ^ 32) (ix k));
  }

  pub Holds-publish :
      (m : LockFreeQueue A) (pushed : List A) (r : ℕ) (x : A) (v : ℕ) (p : Pc A)
      → Ring m pushed r
      → Claims m pushed r x v
      → position p ≢ some v
      → Holds m pushed r p
      → Holds (published m v) pushed r p
  Holds-publish m pushed r x v idle g c ne h = tt
  Holds-publish m pushed r x v (starting y) g c ne h = tt
  Holds-publish m pushed r x v (loaded y w) g c ne h = h
  Holds-publish m pushed r x v (free y w) g c ne h = h
  Holds-publish m pushed r x v (claimed y w) g c ne h =
      let apart = Claims-apart m pushed r x y v w g c h (λ f. ne (ap some f)) in
      Claims-frame m (published m v) pushed r y w h
        (ground (arith, write_lem m.check (ix v) ((v + 1) % 2 ^ 32) (ix w)))
  Holds-publish m pushed r x v (written y w) g c ne (h, e) =
      let apart = Claims-apart m pushed r x y v w g c h (λ f. ne (ap some f)) in
      (
        Claims-frame m (published m v) pushed r y w h
            (ground (arith, write_lem m.check (ix v) ((v + 1) % 2 ^ 32) (ix w))),
        e,
      )
