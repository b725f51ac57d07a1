-- ===== src/Prelude/Bits/Scan.antt =====
-- The highest and the lowest set bit of a word, as the compiler's scans find them.
use Prim.Native.Nat.{ℕ, zero, suc, ◌-◌, ◌/◌, ◌%◌, ◌^◌, ◌≤◌, ◌<◌}
use mathlib.Core.Path.{◌≡◌, refl, ap}
use mathlib.Core.Logic.{◌≢◌, inl, inr}
use mathlib.Core.Bool.{true, false}
use native.Mathlib.Omega.{arith}
use native.Mathlib.Nat.{pow-suc}
use limit_order_book_v.Prelude.Tests.{◌==◌, if◌then◌else◌, Bool-cases}
use limit_order_book_v.Prelude.Bits.Digits.{test_bit}

-- `__builtin_clzll` in a word of `n` bits: the zeros above the highest set bit.
unfoldable pub leading_zeros : ℕ → ℕ → ℕ
leading_zeros zero w = 0
leading_zeros (suc n) w = if test_bit w n then 0 else suc (leading_zeros n w)

-- `__builtin_ctzll` in a word of `n` bits: the zeros below the lowest set bit.
unfoldable pub trailing_zeros : ℕ → ℕ → ℕ
trailing_zeros zero w = 0
trailing_zeros (suc n) w = if w % 2 == 1 then 0 else suc (trailing_zeros n (w / 2))

pub test_bit-zero : (c : ℕ) → test_bit 0 c ≡ false
test_bit-zero zero = refl
test_bit-zero (suc c) = test_bit-zero c

-- A word with a set bit is not zero, and a bit above the width is clear.
pub ne_zero_of_test_bit : (w c : ℕ) → test_bit w c ≡ true → w ≢ 0
ne_zero_of_test_bit w c h e = ground (arith, test_bit-zero c)

pub test_bit-lt : (n w c : ℕ) → w < 2 ^ n → test_bit w c ≡ true → c < n
test_bit-lt zero zero c h t = ground (arith, test_bit-zero c)
test_bit-lt zero (suc w) c h t = absurd (omega arith)
test_bit-lt (suc n) w zero h t = omega arith
test_bit-lt (suc n) w (suc c) h t =
    omega (arith, test_bit-lt n (w / 2) c (omega (arith, pow-suc 2 n)) t)

-- `b` is the highest, or the lowest, set bit of `w`.
pub record Highest (w b : ℕ) : Type 0 where
  pub is_set : test_bit w b ≡ true
  pub above : (c : ℕ) → test_bit w c ≡ true → c ≤ b

pub record Lowest (w b : ℕ) : Type 0 where
  pub is_set : test_bit w b ≡ true
  pub below : (c : ℕ) → test_bit w c ≡ true → b ≤ c

Lowest-suc : {w b : ℕ} → (w % 2 == 1) ≡ false → Lowest (w / 2) b → Lowest w (suc b)
Lowest-suc {w} {b} e l = record { is_set = l.is_set; below = lower }
  where
    lower : (c : ℕ) → test_bit w c ≡ true → suc b ≤ c
    lower zero t = cc
    lower (suc c) t = omega (arith, l.below c t)

-- The scan from below finds the lowest set bit.
pub trailing_zeros-Lowest : (n w : ℕ) → w < 2 ^ n → w ≢ 0 → Lowest w (trailing_zeros n w)
unfolding trailing_zeros
trailing_zeros-Lowest zero w h k = absurd (omega arith)
trailing_zeros-Lowest (suc n) w h k = elim (Bool-cases (w % 2 == 1)) [
  | inl e ↦ rw e (record { is_set = e; below = λ c t. omega arith })
  | inr e ↦
      rw e
        (Lowest-suc e (trailing_zeros-Lowest n (w / 2) (omega (arith, pow-suc 2 n)) (ground arith)))
]

not_top :
    {n w : ℕ}
    → ((c : ℕ) → test_bit w c ≡ true → c < suc n)
    → test_bit w n ≡ false
    → (c : ℕ) → test_bit w c ≡ true
    → c < n
not_top {n} {w} h e c t = elim (Bool-cases (c == n)) [
  | inl q ↦ let same : c ≡ n = ground arith in absurd (cc (ap (test_bit w) same))
  | inr q ↦ let d : c ≢ n = ground arith in omega (arith, h c t)
]

leading_zeros-below :
    (n w b : ℕ)
    → ((c : ℕ) → test_bit w c ≡ true → c < n)
    → test_bit w b ≡ true
    → (leading_zeros n w < n) × Highest w (n - 1 - leading_zeros n w)
unfolding leading_zeros
leading_zeros-below zero w b h t = absurd (omega (arith, h b t))
leading_zeros-below (suc n) w b h t = elim (Bool-cases (test_bit w n)) [
  | inl e ↦
      let top : suc n - 1 - 0 ≡ n = omega arith in
      rw (e, top) (omega arith, record { is_set = e; above = λ c k. omega (arith, h c k) })
  | inr e ↦
      let (small, high) = leading_zeros-below n w b (not_top h e) t in
      let next : suc n - 1 - suc (leading_zeros n w) ≡ n - 1 - leading_zeros n w = omega arith in
      rw (e, next) (omega arith, high)
]

-- The scan from above finds the highest one.
pub leading_zeros-Highest :
    (n w : ℕ) → w < 2 ^ n → w ≢ 0 → (leading_zeros n w < n) × Highest w (n - 1 - leading_zeros n w)
leading_zeros-Highest n w h k =
    leading_zeros-below n w (trailing_zeros n w) (λ c t. test_bit-lt n w c h t)
      (trailing_zeros-Lowest n w h k).is_set
