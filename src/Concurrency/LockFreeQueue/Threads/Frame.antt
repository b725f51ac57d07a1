-- ===== src/Concurrency/LockFreeQueue/Threads/Frame.antt =====
-- The invariant after a step of one producer, from what the step must show.
use limit_order_book_v.Prelude.{
  ℕ, ◌+◌, ◌≤◌, ◌<◌, ◌≡◌, ◌≢◌, ◌∙◌, ◌==◌, Bool-cases, ◌⊎◌, none, some, List, [], ◌++◌, length,
  append-nil, arith, ap, inl, inr, write, write_lem, write_self,
}
use limit_order_book_v.Concurrency.LockFreeQueue.{LockFreeQueue}
use limit_order_book_v.Concurrency.LockFreeQueue.Threads.{
  ix, Pc, idle, starting, loaded, free, claimed, written, Taker, waiting, at, ready, took, released,
  System,
}
use limit_order_book_v.Concurrency.LockFreeQueue.Threads.Invariant.{
  Ring, Holds, position, Taking, Inv,
}

module _ {A : Type 0} where
  abbrev pub moved : System A → ℕ → LockFreeQueue A → Pc A → List A → System A
  moved s i m p pushed = record s { mem = m; pc = write s.pc i p; pushed = pushed }

  -- The invariant after a step of producer `i`, from what the step must show.
  pub moved-Inv :
      (s : System A) (inv : Inv s) (i : ℕ) (m : LockFreeQueue A) (p : Pc A) (pushed : List A)
      → Ring m pushed inv.r
      → ((j : ℕ) → j ≢ i → Holds m pushed inv.r (s.pc j))
      → Holds m pushed inv.r p
      → ((j v : ℕ) → j ≢ i → position p ≡ some v → position (s.pc j) ≢ some v)
      → ((k : ℕ)
          → inv.r ≤ k
          → k < length pushed
          → m.check (ix k) ≡ k
          → (position p ≡ some k) ⊎ ((j : ℕ) × (j ≢ i) × (position (s.pc j) ≡ some k)))
      → Taking m s.popped inv.r s.taker
      → (rest : List A) → pushed ≡ s.popped ++ rest
      → Inv (moved s i m p pushed)
  moved-Inv s inv i m p pushed ring others own alone filler taking rest fifo = record {
    r = inv.r;
    ring = ring;
    held = λ j. elim (Bool-cases (j == i)) [
      | inl e ↦ rw (write_lem s.pc i p j) (rw e own)
      | inr f ↦ rw (write_lem s.pc i p j) (rw f (others j (ground arith)))
    ];
    unique = λ j k v a b.
        let a' = rw (write_lem s.pc i p j) at a in
        let b' = rw (write_lem s.pc i p k) at b in
        ground (arith, a', b', alone j v, alone k v, inv.unique j k v);
    holder = λ k lo hi e. elim (filler k lo hi e) [
      | inl mine ↦ (i, rw (write_self s.pc i p) mine)
      | inr (j, ne, its) ↦ (j, ground (arith, write_lem s.pc i p j, its))
    ];
    taking = taking;
    rest = rest;
    fifo = fifo;
  }

  pub Taking-frame :
      (m m' : LockFreeQueue A) (popped : List A) (r : ℕ) (t : Taker A)
      → m'.head ≡ m.head
      → (m.check (ix r) ≡ r + 1 → m'.check (ix r) ≡ r + 1)
      → Taking m popped r t
      → Taking m' popped r t
  Taking-frame m m' popped r waiting h c (a, b) = (h ∙ a, b)
  Taking-frame m m' popped r (at v) h c (a, b) = (h ∙ a, b)
  Taking-frame m m' popped r (ready v) h c (a, (b, (e, f))) =
      (h ∙ a, (b, (e, rw e (c (rw e at f)))))
  Taking-frame m m' popped r (took v x) h c (a, (b, (e, f))) =
      (h ∙ a, (b, (e, rw e (c (rw e at f)))))
  Taking-frame m m' popped r (released v x) h c (a, b) = (h ∙ a, b)

  -- A position that is being filled has a producer: another than `i`, when this one does not fill it.
  pub others_fill :
      (s : System A) (inv : Inv s) (i : ℕ) {P : ℕ → Type 0}
      → ((k : ℕ) → position (s.pc i) ≡ some k → P k)
      → (k : ℕ) → inv.r ≤ k
      → k < length s.pushed
      → s.mem.check (ix k) ≡ k
      → P k ⊎ ((j : ℕ) × (j ≢ i) × (position (s.pc j) ≡ some k))
  others_fill s inv i own k lo hi e =
      let (j, fills) = inv.holder k lo hi e in
      elim (Bool-cases (j == i)) [
        | inl same ↦ let here : j ≡ i = ground arith in inl (own k (rw here at fills))
        | inr other ↦ inr (j, ground arith, fills)
      ]

  -- A step that changes nothing that is shared.
  pub local-Inv :
      (s : System A) (inv : Inv s) (i : ℕ) (p : Pc A)
      → position (s.pc i) ≡ none
      → Holds s.mem s.pushed inv.r p
      → position p ≡ none
      → Inv (moved s i s.mem p (s.pushed ++ []))
  local-Inv s inv i p before own nowhere = rw (append-nil s.pushed) (
      moved-Inv s inv i s.mem p s.pushed inv.ring (λ j ne. inv.held j) own
        (λ j v ne e. cc (nowhere, e)) (others_fill s inv i (λ k e. absurd (cc (before, e))))
        inv.taking inv.rest inv.fifo)

  -- The position that a producer fills is no other's.
  pub alone :
      (s : System A) (inv : Inv s) (i : ℕ) (p : Pc A) (v : ℕ)
      → s.pc i ≡ p
      → position p ≡ some v
      → (j w : ℕ) → j ≢ i
      → some v ≡ some w
      → position (s.pc j) ≢ some w
  alone s inv i p v here e j w ne f g = ne (inv.unique j i w g (ap position here ∙ e ∙ f))

  pub position_below :
      (m : LockFreeQueue A) (pushed : List A) (r : ℕ) (p : Pc A) (w : ℕ)
      → Holds m pushed r p
      → position p ≡ some w
      → w < length pushed
  position_below m pushed r (claimed x v) w h e = ground (arith, h.high)
  position_below m pushed r (written x v) w (h, q) e = ground (arith, h.high)
  position_below m pushed r idle w h e = cc
  position_below m pushed r (starting x) w h e = cc
  position_below m pushed r (loaded x v) w h e = cc
  position_below m pushed r (free x v) w h e = cc
