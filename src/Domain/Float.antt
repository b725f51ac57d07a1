-- ===== src/Domain/Float.antt =====
-- The `float` arithmetic of the prices: IEEE 754 single precision, as far as the code uses it.
use limit_order_book_v.Prelude.{
  ℕ, ◌+◌, ◌-◌, ◌*◌, ◌/◌, ◌%◌, ◌^◌, ◌&&◌, ◌||◌, ltb, ◌==◌, if◌then◌else◌,
}
use limit_order_book_v.Prelude.Bits.{leading_zeros}

-- A number is its sign and its magnitude in units of 2 ^ -149, the least that single precision has.
pub data Float : Type 0 where
  negative positive : ℕ → Float
  infinite not_a_number : Float

abbrev pub unit : ℕ
unit = 2 ^ 149

-- The number of binary digits; the magnitudes that occur have fewer than 400.
unfoldable pub width : ℕ → ℕ
width n = 400 - leading_zeros 400 n

-- `n / d` to the nearest natural number, a tie to the even one.
unfoldable pub nearest : ℕ → ℕ → ℕ
nearest n d =
    let q = n / d in
    let r = n % d in if ltb d (2 * r) || (2 * r == d && q % 2 == 1) then q + 1 else q

-- `n / d` to the nearest magnitude of 24 significant digits.
unfoldable pub round : ℕ → ℕ → ℕ
unfolding width nearest
round n d = let step = 2 ^ (width (n / d) - 24) in nearest n (d * step) * step

abbrev pub tick : ℕ
tick = 100

-- `static_cast<float>(x) / Tick` for a `uint64_t`.
unfoldable pub of_ticks : ℕ → Float
unfolding round
of_ticks x = positive (round (round (x * unit) 1) tick)

-- `static_cast<uint64_t>(price * Tick)`. C++ leaves the cast undefined where the truncated value is
-- no `uint64_t`; `undefined` stands for what the compiled code makes of it.
unfoldable pub to_ticks : (Float → ℕ) → Float → ℕ
unfolding round
to_ticks undefined (positive n) =
    let x = round (n * tick) 1 / unit in
    if ltb x (2 ^ 64) then x else undefined (positive n) % 2 ^ 64
to_ticks undefined (negative n) =
    if ltb (round (n * tick) 1) unit then 0 else undefined (negative n) % 2 ^ 64
to_ticks undefined infinite = undefined infinite % 2 ^ 64
to_ticks undefined not_a_number = undefined not_a_number % 2 ^ 64
