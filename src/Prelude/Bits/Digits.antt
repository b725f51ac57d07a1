-- ===== src/Prelude/Bits/Digits.antt =====
-- Setting and clearing one bit of a word.
use Prim.Native.Nat.{
  ℕ, zero, suc, ◌+◌, ◌-◌, ◌*◌, ◌/◌, ◌%◌, ◌^◌, ◌≤◌, ◌<◌, min, max, bit_and, bit_or, digits,
  bit_and-bitwise, bit_or-bitwise,
}
use mathlib.Core.Path.{◌≡◌, refl, sym, ap, ◌∙◌}
use mathlib.Core.Bool.{Bool, true, false}
use native.Mathlib.Omega.{arith}
use native.Mathlib.Nat.{pow-suc}
use limit_order_book_v.Prelude.Tests.{◌==◌, if◌then◌else◌}

-- Bit `b` of `w`, by shifting right.
abbrev pub test_bit : ℕ → ℕ → Bool
test_bit w zero = w % 2 == 1
test_bit w (suc b) = test_bit (w / 2) b

pow_pos : (n : ℕ) → 1 ≤ 2 ^ n
pow_pos zero = omega arith
pow_pos (suc n) = omega (arith, pow-suc 2 n, pow_pos n)

pow_mono : (b n : ℕ) → b < n → 2 * 2 ^ b ≤ 2 ^ n
pow_mono b zero h = absurd (omega arith)
pow_mono zero (suc n) h = omega (arith, pow-suc 2 n, pow_pos n)
pow_mono (suc b) (suc n) h = omega (arith, pow-suc 2 n, pow-suc 2 b, pow_mono b n (omega arith))

-- `w | (1 << b)`
unfoldable pub set_bit : ℕ → ℕ → ℕ
set_bit w b = bit_or w (2 ^ b)

-- `w & ~(1 << b)` in words of `n` bits.
unfoldable pub clear_bit : ℕ → ℕ → ℕ → ℕ
clear_bit n w b = bit_and w (2 ^ n - 1 - 2 ^ b)

-- The digit-wise operations of the library: `end b` is the result once the first word has run out,
-- `op` the operation on two digits.
module _ (end : ℕ → ℕ) (op : ℕ → ℕ → ℕ) where
  abbrev join : ℕ → ℕ → ℕ → ℕ
  join rounds v w = digits end op rounds v w

  join-zero : (k w : ℕ) → join k 0 w ≡ end w
  join-zero zero w = refl
  join-zero (suc k) w = refl

  -- A number of rounds that is enough can be exchanged for another.
  join_rounds : (k j v w : ℕ) → v ≤ k → v ≤ j → join k v w ≡ join j v w
  join_rounds k j zero w p q = join-zero k w ∙ sym (join-zero j w)
  join_rounds zero j (suc v) w p q = absurd (omega arith)
  join_rounds (suc k) zero (suc v) w p q = absurd (omega arith)
  join_rounds (suc k) (suc j) (suc v) w p q =
      ap (λ t. t * 2 + op (suc v % 2) (w % 2))
        (join_rounds k j (suc v / 2) (w / 2) (omega arith) (omega arith))

  -- One round on the lowest digits.
  join_round :
      (v w : ℕ)
      → end w ≡ end (w / 2) * 2 + op 0 (w % 2)
      → join v v w ≡ join (v / 2) (v / 2) (w / 2) * 2 + op (v % 2) (w % 2)
  join_round zero w e = e
  join_round (suc v) w e =
      ap (λ t. t * 2 + op (suc v % 2) (w % 2))
        (join_rounds v (suc v / 2) (suc v / 2) (w / 2) (omega arith) (omega arith))

bit_or_lowest : (v w : ℕ) → bit_or v w ≡ bit_or (v / 2) (w / 2) * 2 + max (v % 2) (w % 2)
bit_or_lowest v w =
    rw (bit_or-bitwise v w, bit_or-bitwise (v / 2) (w / 2))
      (join_round (λ b. b) max v w (omega arith))

bit_and_lowest : (v w : ℕ) → bit_and v w ≡ bit_and (v / 2) (w / 2) * 2 + min (v % 2) (w % 2)
bit_and_lowest v w =
    rw (bit_and-bitwise v w, bit_and-bitwise (v / 2) (w / 2))
      (join_round (λ b. 0) min v w (omega arith))

-- Nothing is added by a word of zeros, as its rounds show one after another.
bit_or-zero_within : (k w : ℕ) → w ≤ k → bit_or w 0 ≡ w
bit_or-zero_within k zero h = refl
bit_or-zero_within zero (suc w) h = absurd (omega arith)
bit_or-zero_within (suc k) (suc w) h =
    let ih = bit_or-zero_within k (suc w / 2) (omega arith) in
    bit_or_lowest (suc w) 0 ∙ omega (arith, ih)

set_bit-zero : (w : ℕ) → set_bit w 0 ≡ w / 2 * 2 + 1
unfolding set_bit
set_bit-zero w = omega (arith, bit_or_lowest w 1, bit_or-zero_within (w / 2) (w / 2) (omega arith))

pow_half : (b : ℕ) → 2 ^ suc b / 2 ≡ 2 ^ b
pow_half b = omega (arith, pow-suc 2 b)

set_bit-suc : (w b : ℕ) → set_bit w (suc b) ≡ set_bit (w / 2) b * 2 + w % 2
unfolding set_bit
set_bit-suc w b =
    omega (arith, bit_or_lowest w (2 ^ suc b), ap (bit_or (w / 2)) (pow_half b), pow-suc 2 b)

-- A mask of `n` ones keeps the low `n` bits.
bit_and-ones : (n w : ℕ) → w < 2 ^ n → bit_and w (2 ^ n - 1) ≡ w
bit_and-ones zero zero h = refl
bit_and-ones zero (suc w) h = absurd (omega arith)
bit_and-ones (suc n) w h =
    let half : (2 ^ suc n - 1) / 2 ≡ 2 ^ n - 1 = omega (arith, pow-suc 2 n, pow_pos n) in
    omega (
      arith,
      bit_and_lowest w (2 ^ suc n - 1),
      ap (bit_and (w / 2)) half,
      bit_and-ones n (w / 2) (omega (arith, pow-suc 2 n)),
      pow-suc 2 n,
      pow_pos n,
    )

clear_bit-zero : (n w : ℕ) → w < 2 ^ suc n → clear_bit (suc n) w 0 ≡ w / 2 * 2
unfolding clear_bit
clear_bit-zero n w h =
    let half : (2 ^ suc n - 1 - 2 ^ 0) / 2 ≡ 2 ^ n - 1 = omega (arith, pow-suc 2 n, pow_pos n) in
    omega (
      arith,
      bit_and_lowest w (2 ^ suc n - 1 - 2 ^ 0),
      ap (bit_and (w / 2)) half,
      bit_and-ones n (w / 2) (omega (arith, pow-suc 2 n)),
      pow-suc 2 n,
      pow_pos n,
    )

clear_bit-suc :
    (n w b : ℕ) → b < n → clear_bit (suc n) w (suc b) ≡ clear_bit n (w / 2) b * 2 + w % 2
unfolding clear_bit
clear_bit-suc n w b h =
    let half : (2 ^ suc n - 1 - 2 ^ suc b) / 2 ≡ 2 ^ n - 1 - 2 ^ b =
      omega (arith, pow-suc 2 n, pow-suc 2 b, pow_mono b n h) in
    let odd : (2 ^ suc n - 1 - 2 ^ suc b) % 2 ≡ 1 =
      omega (arith, pow-suc 2 n, pow-suc 2 b, pow_mono b n h, pow_pos b) in
    rw (bit_and_lowest w (2 ^ suc n - 1 - 2 ^ suc b), half, odd) (omega arith)

-- Setting a bit changes that bit alone.
pub test_bit-set_bit :
    (w b c : ℕ) → test_bit (set_bit w b) c ≡ (if c == b then true else test_bit w c)
test_bit-set_bit w zero zero = rw set_bit-zero (ground arith)
test_bit-set_bit w zero (suc c) =
    let e : set_bit w 0 / 2 ≡ w / 2 = omega (arith, set_bit-zero w) in rw e (ground arith)
test_bit-set_bit w (suc b) zero =
    let e : set_bit w (suc b) % 2 ≡ w % 2 = omega (arith, set_bit-suc w b) in rw e (ground arith)
test_bit-set_bit w (suc b) (suc c) =
    let e : set_bit w (suc b) / 2 ≡ set_bit (w / 2) b = omega (arith, set_bit-suc w b) in
    rw e (ground (arith, test_bit-set_bit (w / 2) b c))

pub set_bit-lt : (n w b : ℕ) → w < 2 ^ n → b < n → set_bit w b < 2 ^ n
set_bit-lt zero w b h k = absurd (omega arith)
set_bit-lt (suc n) w zero h k = omega (arith, set_bit-zero w, pow-suc 2 n)
set_bit-lt (suc n) w (suc b) h k =
    let half : w / 2 < 2 ^ n = omega (arith, pow-suc 2 n) in
    omega (arith, set_bit-suc w b, set_bit-lt n (w / 2) b half (omega arith), pow-suc 2 n)

-- So does clearing it, in a word of `n` bits.
pub test_bit-clear_bit :
    (n w b c : ℕ)
    → w < 2 ^ n
    → b < n
    → test_bit (clear_bit n w b) c ≡ (if c == b then false else test_bit w c)
test_bit-clear_bit zero w b c h k = absurd (omega arith)
test_bit-clear_bit (suc n) w zero zero h k =
    let e : clear_bit (suc n) w 0 % 2 ≡ 0 = omega (arith, clear_bit-zero n w h) in
    rw e (ground arith)
test_bit-clear_bit (suc n) w zero (suc c) h k =
    let e : clear_bit (suc n) w 0 / 2 ≡ w / 2 = omega (arith, clear_bit-zero n w h) in
    rw e (ground arith)
test_bit-clear_bit (suc n) w (suc b) zero h k =
    let e : clear_bit (suc n) w (suc b) % 2 ≡ w % 2 =
      omega (arith, clear_bit-suc n w b (omega arith)) in
    rw e (ground arith)
test_bit-clear_bit (suc n) w (suc b) (suc c) h k =
    let e : clear_bit (suc n) w (suc b) / 2 ≡ clear_bit n (w / 2) b =
      omega (arith, clear_bit-suc n w b (omega arith)) in
    let half : w / 2 < 2 ^ n = omega (arith, pow-suc 2 n) in
    rw e (ground (arith, test_bit-clear_bit n (w / 2) b c half (omega arith)))

pub clear_bit-le : (n w b : ℕ) → w < 2 ^ n → b < n → clear_bit n w b ≤ w
clear_bit-le zero w b h k = absurd (omega arith)
clear_bit-le (suc n) w zero h k = omega (arith, clear_bit-zero n w h)
clear_bit-le (suc n) w (suc b) h k =
    let half : w / 2 < 2 ^ n = omega (arith, pow-suc 2 n) in
    omega (arith, clear_bit-suc n w b (omega arith), clear_bit-le n (w / 2) b half (omega arith))
