-- ===== src/Domain/TradeHistory/Positions.antt =====
-- The positions of the ring buffer: index arithmetic modulo the capacity `c`.
use native.Mathlib.Nat.{mod-eq_of_lt, mod-eq-sub-mod}
use native.Mathlib.Decide.{dec_lt}
use limit_order_book_v.Prelude.{
  ℕ, suc, ◌+◌, ◌-◌, ◌%◌, ◌≤◌, ◌<◌, ◌≡◌, ◌≢◌, ◌⊎◌, inl, inr, ◌∙◌, arith,
}

-- Where the oldest of `n` entries stands.
abbrev pub start : ℕ → ℕ → ℕ → ℕ
start head c n = (head + c - n) % c

-- `x % c` below `2 * c`.
mod_below_twice : (x c : ℕ) → x < c + c → ((x < c) × (x % c ≡ x)) ⊎ ((c ≤ x) × (x % c ≡ x - c))
mod_below_twice x c h = elim (dec_lt x c) [
  | yes p ↦ inl (p, mod-eq_of_lt p)
  | no p ↦ let q : c ≤ x = omega arith in inr (q, mod-eq-sub-mod q ∙ mod-eq_of_lt (omega arith))
]

module _ (head c n : ℕ) (h : head < c) (m : n ≤ c) where
  start-cases :
      ((n ≡ 0) × (start head c n ≡ head))
      ⊎ ((0 < n) × (n ≤ head) × (start head c n ≡ head - n))
      ⊎ ((head < n) × (start head c n ≡ head + c - n))
  start-cases = omega (arith, mod_below_twice (head + c - n) c)

  -- Round `k` reads before the head, unless all `c` entries are there and `k` is the first.
  pub start-ne : (k : ℕ) → k < n → (k ≢ 0) ⊎ (n < c) → (start head c n + (0 + k)) % c ≢ head
  start-ne k l o e = omega (arith, start-cases, mod_below_twice (start head c n + (0 + k)) c)

  -- With room left the first position stays, and the next to be read is the head.
  pub start-suc : n < c → start ((head + 1) % c) c (n + 1) ≡ start head c n
  start-suc k = omega (
    arith,
    start-cases,
    mod_below_twice (head + 1) c,
    mod_below_twice ((head + 1) % c + c - (n + 1)) c,
  )

  pub start-end : n < c → (start head c n + (0 + n)) % c ≡ head
  start-end k = omega (arith, start-cases, mod_below_twice (start head c n + (0 + n)) c)

-- When all `c` entries are there, the first one is given up and the others keep their places.
module _ (head c : ℕ) (h : head < c) where
  start-full : start ((head + 1) % c) c c ≡ (head + 1) % c
  start-full =
      omega (arith, mod_below_twice (head + 1) c, mod_below_twice ((head + 1) % c + c - c) c)

  pub start-shift :
      (k : ℕ)
      → suc k < c
      → (start ((head + 1) % c) c c + (0 + k)) % c ≡ (start head c c + (1 + k)) % c
  start-shift k l = omega (
    arith,
    start-full,
    start-cases head c c h (omega arith),
    mod_below_twice (head + 1) c,
    mod_below_twice (start ((head + 1) % c) c c + (0 + k)) c,
    mod_below_twice (start head c c + (1 + k)) c,
  )

  pub start-last : (start ((head + 1) % c) c c + (0 + (c - 1))) % c ≡ head
  start-last = omega (
    arith,
    start-full,
    mod_below_twice (head + 1) c,
    mod_below_twice (start ((head + 1) % c) c c + (0 + (c - 1))) c,
  )
