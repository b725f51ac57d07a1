-- ===== src/Domain/TradeHistory/Refines.antt =====
-- The ring buffer of TradeHistory.h keeps the most recent trades, oldest first.
use mathlib.Core.Path.{ap₂}
use native.Mathlib.Nat.{add-zero, zero-add, add_assoc}
use native.Mathlib.Numerals.{one-add, add-one}
use limit_order_book_v.Prelude.{
  ℕ, zero, suc, ◌+◌, ◌-◌, ◌%◌, ◌≤◌, ◌<◌, ◌≡◌, refl, ◌≢◌, ◌∙◌, ap, List, [], ◌∷◌, ◌++◌, arith, ltb,
  if◌then◌else◌, write, write_self, write_ne, length, drop, Bool-cases, inl, inr, length-append,
  drop_eq, recent, recent_short, recent-recent_append, drop-append_le, append-nil, append_assoc,
  sym,
}
use limit_order_book_v.Domain.TradeHistory.{
  TradeHistory, init, push, copy_from, snapshot, size, push_all,
}
use limit_order_book_v.Domain.TradeHistory.Positions.{
  start, start-ne, start-suc, start-end, start-shift, start-last,
}

module _ {A : Type 0} (buffer : ℕ → A) (c : ℕ) where
  length-copy_from : (s i n : ℕ) → length (copy_from buffer c s i n) ≡ n
  unfolding copy_from
  length-copy_from s i zero = refl
  length-copy_from s i (suc n) = ap suc (length-copy_from s (i + 1) n)

  -- One round more adds one trade at the end.
  copy_from-suc :
      (s i n : ℕ)
      → copy_from buffer c s i (suc n)
        ≡ copy_from buffer c s i n ++ (buffer ((s + (i + n)) % c) ∷ [])
  unfolding copy_from
  copy_from-suc s i zero = rw (add-zero i)
  copy_from-suc s i (suc n) =
      let e : i + 1 + n ≡ i + suc n = omega arith in
      ap (◌∷◌ (buffer ((s + i) % c))) (copy_from-suc s (i + 1) n ∙ rw e)

  -- Rounds that do not meet the position of a write do not see it.
  copy_from-write :
      (p : ℕ) (t : A) (s s' i i' n : ℕ)
      → ((k : ℕ) → k < n → (s' + (i' + k)) % c ≡ (s + (i + k)) % c)
      → ((k : ℕ) → k < n → (s' + (i' + k)) % c ≢ p)
      → copy_from (write buffer p t) c s' i' n ≡ copy_from buffer c s i n
  unfolding copy_from
  copy_from-write p t s s' i i' zero same apart = refl
  copy_from-write p t s s' i i' (suc n) same apart =
      let e : (s' + i') % c ≡ (s + i) % c =
        rw (← add-zero i', ← add-zero i) (same 0 (omega arith)) in
      let ne : (s' + i') % c ≢ p = rw (← add-zero i') (apart 0 (omega arith)) in
      rw (write_ne buffer p t _ ne, e)
        (ap (◌∷◌ (buffer ((s + i) % c))) (
          copy_from-write p t s s' (i + 1) (i' + 1) n
            (λ k l. rw (add_assoc i' 1 k, add_assoc i 1 k, one-add) (same (suc k) (omega arith)))
            (λ k l. rw (add_assoc i' 1 k, one-add) (apart (suc k) (omega arith)))))

module _ {A : Type 0} (buffer : ℕ → A) (c : ℕ) where
  module _ (head : ℕ) (t : A) (h : head < c) where
    copy_from-room :
        (n : ℕ)
        → n < c
        → copy_from (write buffer head t) c (start ((head + 1) % c) c (n + 1)) 0 (n + 1)
          ≡ copy_from buffer c (start head c n) 0 n ++ (t ∷ [])
    copy_from-room n r =
        rw (start-suc head c n h (omega arith) r, add-one n, copy_from-suc (write buffer head t) c)
          (ap₂ ◌++◌ front back)
      where
        front :
            copy_from (write buffer head t) c (start head c n) 0 n
            ≡ copy_from buffer c (start head c n) 0 n
        front =
            copy_from-write buffer c head t (start head c n) (start head c n) 0 0 n (λ k l. refl)
              (λ k l. start-ne head c n h (omega arith) k l (inr r))

        back : write buffer head t ((start head c n + (0 + n)) % c) ∷ [] ≡ t ∷ []
        back = rw (start-end head c n h (omega arith) r, write_self)

    copy_from-full :
        (m n : ℕ)
        → c ≡ suc n
        → m ≡ suc n
        → copy_from (write buffer head t) c (start ((head + 1) % c) c c) 0 m
          ≡ drop 1 (copy_from buffer c (start head c c) 0 m) ++ (t ∷ [])
    unfolding copy_from
    copy_from-full m n e e' = rw (e', copy_from-suc (write buffer head t) c) (ap₂ ◌++◌ front back)
      where
        front :
            copy_from (write buffer head t) c (start ((head + 1) % c) c c) 0 n
            ≡ copy_from buffer c (start head c c) (0 + 1) n
        front =
            copy_from-write buffer c head t (start head c c) (start ((head + 1) % c) c c) (0 + 1) 0
              n (λ k l. start-shift head c h k (omega arith))
              (λ k l.
                rw (start-shift head c h k (omega arith), one-add k)
                  (rw (← zero-add (suc k))
                    (start-ne head c c h (omega arith) (suc k) (omega arith) (inl (omega arith)))))

        back : write buffer head t ((start ((head + 1) % c) c c + (0 + n)) % c) ∷ [] ≡ t ∷ []
        back =
            let last : (start ((head + 1) % c) c c + (0 + n)) % c ≡ head =
              let m : n ≡ c - 1 = omega arith in rw m (start-last head c h) in
            rw (last, write_self)

module _ {A : Type 0} where
  -- The write position lies in the buffer, and no more trades are counted than fit.
  pub record IsValid (h : TradeHistory A) : Type 0 where
    pub nonempty : 0 < h.capacity
    pub head_in : h.head < h.capacity
    pub count_in : h.count ≤ h.capacity

  pub init-IsValid : (blank : A) (capacity : ℕ) → 0 < capacity → IsValid (init blank capacity)
  unfolding init
  init-IsValid blank capacity h = omega arith

  pub push-IsValid : {h : TradeHistory A} (t : A) → IsValid h → IsValid (push h t)
  unfolding push
  push-IsValid t v = ground arith

  pub length-snapshot : (h : TradeHistory A) → length (snapshot h) ≡ size h
  unfolding snapshot size
  length-snapshot h = length-copy_from h.buffer h.capacity _ 0 h.count

  -- What a push makes of the listed trades: the new one comes last, and the oldest is given up when
  -- the buffer is full.
  abbrev kept : TradeHistory A → List A
  kept h = if ltb h.count h.capacity then snapshot h else drop 1 (snapshot h)

  -- A push on a valid history lists the new trade last; the oldest goes only when it is full.
  pub snapshot-push :
      {h : TradeHistory A} (t : A) → IsValid h → snapshot (push h t) ≡ kept h ++ (t ∷ [])
  unfolding snapshot push
  snapshot-push {h} t v = elim (Bool-cases (ltb h.count h.capacity)) [
    | inl e ↦ rw e (copy_from-room h.buffer h.capacity h.head t v.head_in h.count (ground arith))
    | inr e ↦
        let full : h.count ≡ h.capacity = ground arith in
        rw (e, full)
          (copy_from-full h.buffer h.capacity h.head t v.head_in h.capacity (h.capacity - 1)
            (omega arith) (omega arith))
  ]

  capacity-push : (h : TradeHistory A) (t : A) → (push h t).capacity ≡ h.capacity
  unfolding push
  capacity-push h t = refl

  snapshot-push-recent :
      {h : TradeHistory A} (t : A)
      → IsValid h
      → snapshot (push h t) ≡ recent h.capacity (snapshot h ++ (t ∷ []))
  unfolding size
  snapshot-push-recent {h} t v =
      rw (snapshot-push t v) (elim (Bool-cases (ltb h.count h.capacity)) [
        | inl e ↦ rw e (
            sym (
              recent_short h.capacity (snapshot h ++ (t ∷ []))
                (ground (arith, length-snapshot h, length-append (snapshot h) (t ∷ [])))))
        | inr e ↦
            rw (e, ← drop-append_le 1 (snapshot h) (t ∷ []) (ground (arith, length-snapshot h)))
              (drop_eq 1 _ (snapshot h ++ (t ∷ []))
                (ground (arith, length-snapshot h, length-append (snapshot h) (t ∷ []))))
      ])

  -- After any run of pushes a valid history lists, oldest first, the last `capacity` of the trades
  -- that it listed before and those pushed.
  pub snapshot-push_all :
      (ts : List A) {h : TradeHistory A}
      → IsValid h
      → snapshot (push_all h ts) ≡ recent h.capacity (snapshot h ++ ts)
  unfolding push_all size snapshot copy_from push
  snapshot-push_all [] {h} v =
      rw append-nil (sym (recent_short h.capacity (snapshot h) (omega (arith, length-snapshot h))))
  snapshot-push_all (t ∷ ts) {h} v =
      rw
        (
          snapshot-push_all ts (push-IsValid t v),
          capacity-push h t,
          snapshot-push-recent t v,
          recent-recent_append,
          append_assoc,
        )
        refl
