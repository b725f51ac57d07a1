-- ===== src/Concurrency/LockFreeQueue/Threads/Moving.antt =====
-- The steps of the producers, put together.
use limit_order_book_v.Prelude.{
  ℕ, ◌+◌, ◌%◌, ◌^◌, ◌≤◌, ◌<◌, ◌≡◌, ◌≢◌, ◌∙◌, ◌==◌, Bool-cases, ltb, ◌⊎◌, none, some, List, [], ◌∷◌,
  ◌++◌, length, append-nil, append_assoc, arith, refl, sym, ap, inl, inr, write_lem, write_self,
}
use limit_order_book_v.Concurrency.LockFreeQueue.{queue_capacity, LockFreeQueue}
use limit_order_book_v.Concurrency.LockFreeQueue.Threads.{
  ix, Pc, idle, starting, loaded, free, claimed, written, Move, call, load_tail, found_free,
  found_full, found_late, win, lose, store, publish, claim, System,
}
use limit_order_book_v.Concurrency.LockFreeQueue.Threads.Invariant.{
  Ring, Claims, Holds, position, Inv,
}
use limit_order_book_v.Concurrency.LockFreeQueue.Threads.Producing.{
  ix_ne, length_more, claim_tail, stored, published, Ring-win, Ring-store, Ring-publish, Holds-win,
  Holds-store, Holds-publish, get_elem?-append_last,
}
use limit_order_book_v.Concurrency.LockFreeQueue.Threads.Frame.{
  moved, moved-Inv, Taking-frame, others_fill, local-Inv, alone, position_below,
}

module _ {A : Type 0} where
  win-Inv :
      (s : System A) (inv : Inv s) (i : ℕ) (x : A) (v : ℕ)
      → position (s.pc i) ≡ none
      → s.mem.tail ≡ v
      → v < inv.r + queue_capacity
      → length (s.pushed ++ x ∷ []) + queue_capacity < 2 ^ 32
      → Inv (moved s i (claim_tail s.mem v) (claimed x v) (s.pushed ++ x ∷ []))
  win-Inv s inv i x v nowhere e lt few =
      let more = length_more s.pushed x in
      let at_end : v ≡ length s.pushed = omega (arith, inv.ring.tail) in
      moved-Inv s inv i (claim_tail s.mem v) (claimed x v) (s.pushed ++ x ∷ [])
        (Ring-win s.mem s.pushed inv.r x v inv.ring e lt (omega (arith, more)))
        (λ j ne. Holds-win s.mem s.pushed inv.r x v (s.pc j) (inv.held j))
        (record {
          low = omega (arith, inv.ring.behind);
          high = omega (arith, more);
          item = rw at_end (get_elem?-append_last s.pushed x);
          unpublished = inv.ring.spare v (omega arith) lt;
        })
        (λ j w ne f g.
          let below = position_below s.mem s.pushed inv.r (s.pc j) w (inv.held j) g in
          ground (arith, f))
        (λ k lo hi c. elim (Bool-cases (k == v)) [
          | inl last ↦ inl (ap some (ground arith))
          | inr ne ↦
              others_fill s inv i {P = λ k. position (claimed x v) ≡ some k}
                (λ k e. absurd (cc (nowhere, e))) k lo (ground (arith, more)) c
        ])
        (Taking-frame s.mem (claim_tail s.mem v) s.popped inv.r s.taker refl (λ c. c) inv.taking)
        (inv.rest ++ x ∷ [])
        (ap (λ l. l ++ x ∷ []) inv.fifo ∙ append_assoc s.popped inv.rest (x ∷ []))

  store-Inv :
      (s : System A) (inv : Inv s) (i : ℕ) (x : A) (v : ℕ)
      → s.pc i ≡ claimed x v
      → Claims s.mem s.pushed inv.r x v
      → Inv (moved s i (stored s.mem v x) (written x v) s.pushed)
  store-Inv s inv i x v here c =
      let only = alone s inv i (claimed x v) v here refl in
      moved-Inv s inv i (stored s.mem v x) (written x v) s.pushed
        (Ring-store s.mem s.pushed inv.r x v inv.ring c)
        (λ j ne.
          Holds-store s.mem s.pushed inv.r x v (s.pc j) inv.ring c (only j v ne refl) (inv.held j))
        (
          record { low = c.low; high = c.high; item = c.item; unpublished = c.unpublished },
          write_self s.mem.queue (ix v) x,
        )
        only (others_fill s inv i (λ k e. sym (ap position here) ∙ e))
        (Taking-frame s.mem (stored s.mem v x) s.popped inv.r s.taker refl (λ c. c) inv.taking)
        inv.rest inv.fifo

  publish-Inv :
      (s : System A) (inv : Inv s) (i : ℕ) (x : A) (v : ℕ)
      → s.pc i ≡ written x v
      → Claims s.mem s.pushed inv.r x v
      → s.mem.queue (ix v) ≡ x
      → length s.pushed + queue_capacity < 2 ^ 32
      → Inv (moved s i (published s.mem v) idle s.pushed)
  publish-Inv s inv i x v here claim q few =
      let only = alone s inv i (written x v) v here refl in
      moved-Inv s inv i (published s.mem v) idle s.pushed
        (Ring-publish s.mem s.pushed inv.r x v inv.ring claim q (omega (arith, claim.high)))
        (λ j ne.
          Holds-publish s.mem s.pushed inv.r x v (s.pc j) inv.ring claim (only j v ne refl)
            (inv.held j))
        tt (λ j w ne e. cc)
        (λ k lo hi c. elim (Bool-cases (k == v)) [
          | inl same ↦
              let at_v : k ≡ v = ground arith in
              let self = write_self s.mem.check (ix v) ((v + 1) % 2 ^ 32) in
              let here' = ap (λ t. (published s.mem v).check (ix t)) at_v in
              absurd (omega (arith, here', self, claim.high))
          | inr f ↦
              let differ : k ≢ v = ground arith in
              let other =
                ix_ne inv.r k v lo (omega (arith, inv.ring.room)) claim.low
                  (omega (arith, claim.high, inv.ring.room)) differ in
              let unchanged : s.mem.check (ix k) ≡ k =
                ground (arith, write_lem s.mem.check (ix v) ((v + 1) % 2 ^ 32) (ix k), c) in
              elim (others_fill s inv i {P = λ k'. k' ≡ v}
                (λ k' e. ground (arith, ap position here, e)) k lo hi unchanged) [
                  | inl mine ↦ absurd (differ mine)
                  | inr theirs ↦ inr theirs
                ]
        ])
        (Taking-frame s.mem (published s.mem v) s.popped inv.r s.taker refl
          (λ h.
            let ne : inv.r ≢ v =
              λ same. omega (arith, ap (λ t. s.mem.check (ix t)) same, claim.unpublished) in
            let other =
              ix_ne inv.r inv.r v (omega arith) (omega arith) claim.low
                (omega (arith, claim.high, inv.ring.room)) ne in
            ground (arith, write_lem s.mem.check (ix v) ((v + 1) % 2 ^ 32) (ix inv.r)))
          inv.taking)
        inv.rest inv.fifo

  -- The check of a position of the ring.
  pub check_cases :
      (m : LockFreeQueue A) (pushed : List A) (r k : ℕ)
      → Ring m pushed r
      → r ≤ k
      → k < r + queue_capacity
      → (m.check (ix k) ≡ k + 1) ⊎ (m.check (ix k) ≡ k)
  check_cases m pushed r k g lo hi = elim (Bool-cases (ltb k (length pushed))) [
    | inl e ↦ elim (g.slots k lo (ground arith)) [ inl (c, it) ↦ inl c | inr c ↦ inr c ]
    | inr f ↦ inr (g.spare k (ground arith) hi)
  ]

  found_room :
      (m : LockFreeQueue A) (pushed : List A) (r v : ℕ)
      → Ring m pushed r
      → v ≤ length pushed
      → m.check (ix v) ≡ v
      → v < r + queue_capacity
  found_room m pushed r v g h e = elim (Bool-cases (ltb v (r + queue_capacity))) [
    | inl f ↦ ground arith
    | inr f ↦
        let last : v ≡ r + queue_capacity = ground (arith, g.room) in
        let same : ix v ≡ ix r = omega arith in
        let here = ap m.check same in
        elim (g.slots r (omega arith) (omega arith)) [
          | inl (c, it) ↦ absurd (omega arith)
          | inr c ↦ absurd (omega arith)
        ]
  ]

  -- A thread at `p` makes a step.
  pub Move-Inv :
      (s : System A) (inv : Inv s) (i : ℕ) {p p' : Pc A} {m : LockFreeQueue A}
      → Move s.mem p m p'
      → s.pc i ≡ p
      → Holds s.mem s.pushed inv.r p
      → length (s.pushed ++ claim p p') + queue_capacity < 2 ^ 32
      → Inv (moved s i m p' (s.pushed ++ claim p p'))
  Move-Inv s inv i (call {x}) here h few = local-Inv s inv i (starting x) (ap position here) tt refl
  Move-Inv s inv i (load_tail {x}) here h few =
      local-Inv s inv i (loaded x s.mem.tail) (ap position here) (omega (arith, inv.ring.tail)) refl
  Move-Inv s inv i (found_free {x} {v} e) here h few =
      local-Inv s inv i (free x v) (ap position here)
        (h, found_room s.mem s.pushed inv.r v inv.ring h e) refl
  Move-Inv s inv i (found_full {x} {v} e) here h few =
      local-Inv s inv i idle (ap position here) tt refl
  Move-Inv s inv i (found_late {x} {v} e) here h few =
      local-Inv s inv i (starting x) (ap position here) tt refl
  Move-Inv s inv i (win {x} {v} e) here h few = win-Inv s inv i x v (ap position here) e h.1 few
  Move-Inv s inv i (lose {x} {v}) here h few =
      local-Inv s inv i (starting x) (ap position here) tt refl
  Move-Inv s inv i (store {x} {v}) here h few =
      rw (append-nil s.pushed) (store-Inv s inv i x v here h)
  Move-Inv s inv i (publish {x} {v}) here h few =
      rw (append-nil s.pushed)
        (publish-Inv s inv i x v here h.0 h.1 (rw (append-nil s.pushed) at few))
