-- ===== src/Storage/Levels/Linked.antt =====
-- Two neighbouring levels of the bitmap: the upper one has a bit for each word of the lower one that
-- is not zero.
use native.Mathlib.Decide.{ℕ_discrete}
use limit_order_book_v.Prelude.{
  ℕ, ◌+◌, ◌*◌, ◌/◌, ◌%◌, ◌^◌, ◌≤◌, ◌<◌, ◌≡◌, ◌≢◌, Bool, true, not, arith, ◌==◌,
}
use limit_order_book_v.Prelude.Bits.{
  test_bit, ne_zero_of_test_bit, Highest, Lowest, trailing_zeros-Lowest, leading_zeros-Highest,
  test_bit-lt,
}
use limit_order_book_v.Storage.Levels.{calc_ind, calc_bit, high, low}

-- Bit `x` of a level.
abbrev pub has : (ℕ → ℕ) → ℕ → Bool
has level x = test_bit (level (calc_ind x)) (calc_bit x)

abbrev pub Words : (ℕ → ℕ) → Type 0
Words level = (i : ℕ) → level i < 2 ^ 64

pub record Linked (lower upper : ℕ → ℕ) : Type 0 where
  pub bit : (i : ℕ) → has upper i ≡ not (lower i == 0)

-- `x` is the least, or the greatest, index of a word that is not zero.
pub record Least (level : ℕ → ℕ) (x : ℕ) : Type 0 where
  pub ne_zero : level x ≢ 0
  pub below : (y : ℕ) → level y ≢ 0 → x ≤ y

pub record Greatest (level : ℕ → ℕ) (x : ℕ) : Type 0 where
  pub ne_zero : level x ≢ 0
  pub above : (y : ℕ) → level y ≢ 0 → y ≤ x

low-Lowest : (w : ℕ) → w < 2 ^ 64 → w ≢ 0 → Lowest w (low w)
unfolding low
low-Lowest w h ne = trailing_zeros-Lowest 64 w h ne

high-Highest : (w : ℕ) → w < 2 ^ 64 → w ≢ 0 → Highest w (high w)
unfolding high
high-Highest w h ne = (leading_zeros-Highest 64 w h ne).1

-- The bit found in word `x` is the bit of entry `x * 64 + b`.
has_at : (level : ℕ → ℕ) (x b : ℕ) → b < 64 → has level (x * 64 + b) ≡ test_bit (level x) b
has_at level x b h =
    let e : (x * 64 + b) / 64 ≡ x = omega arith in
    let e' : (x * 64 + b) % 64 ≡ b = omega arith in rw (e, e')

module _ {level : ℕ → ℕ} (w : Words level) where
  -- The least bit of a level lies in its least word that is not zero.
  pub low-has : {x : ℕ} → Least level x → has level (x * 64 + low (level x)) ≡ true
  low-has {x} l =
      let b = low-Lowest (level x) (w x) l.ne_zero in
      rw (has_at level x (low (level x)) (test_bit-lt 64 (level x) _ (w x) b.is_set)) b.is_set

  pub low-below : {x : ℕ} (y : ℕ) → Least level x → has level y ≡ true → x * 64 + low (level x) ≤ y
  low-below {x} y l h =
      let b = low-Lowest (level x) (w x) l.ne_zero in
      let small : low (level x) < 64 = test_bit-lt 64 (level x) _ (w x) b.is_set in
      let before : x ≤ y / 64 = l.below (y / 64) (ne_zero_of_test_bit _ (calc_bit y) h) in
      elim (ℕ_discrete (y / 64) x) [
        | yes e ↦ omega (arith, b.below (y % 64) (rw (← e) h))
        | no ne ↦ omega arith
      ]

  pub high-has : {x : ℕ} → Greatest level x → has level (x * 64 + high (level x)) ≡ true
  high-has {x} g =
      let b = high-Highest (level x) (w x) g.ne_zero in
      rw (has_at level x (high (level x)) (test_bit-lt 64 (level x) _ (w x) b.is_set)) b.is_set

  pub high-above :
      {x : ℕ} (y : ℕ) → Greatest level x → has level y ≡ true → y ≤ x * 64 + high (level x)
  high-above {x} y g h =
      let b = high-Highest (level x) (w x) g.ne_zero in
      let after : y / 64 ≤ x = g.above (y / 64) (ne_zero_of_test_bit _ (calc_bit y) h) in
      elim (ℕ_discrete (y / 64) x) [
        | yes e ↦ omega (arith, b.above (y % 64) (rw (← e) h))
        | no ne ↦ omega arith
      ]

module _ {lower upper : ℕ → ℕ} (k : Linked lower upper) (w : Words upper) where
  not_zero : (i : ℕ) → has upper i ≡ true → lower i ≢ 0
  not_zero i h = ground (arith, k.bit i)

  is_marked : (i : ℕ) → lower i ≢ 0 → has upper i ≡ true
  is_marked i ne = ground (arith, k.bit i)

  -- So a scan of the upper level gives the word to scan in the lower one.
  pub Least-low : {x : ℕ} → Least upper x → Least lower (x * 64 + low (upper x))
  Least-low l = record {
    ne_zero = not_zero _ (low-has w l);
    below = λ y ne. low-below w y l (is_marked y ne);
  }

  pub Greatest-high : {x : ℕ} → Greatest upper x → Greatest lower (x * 64 + high (upper x))
  Greatest-high g = record {
    ne_zero = not_zero _ (high-has w g);
    above = λ y ne. high-above w y g (is_marked y ne);
  }

  pub upper-ne_zero : (i : ℕ) → lower i ≢ 0 → upper (i / 64) ≢ 0
  upper-ne_zero i ne = ne_zero_of_test_bit _ (calc_bit i) (is_marked i ne)
