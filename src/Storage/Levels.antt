-- ===== src/Storage/Levels.antt =====
-- The four-level bitmap of one side of BinaryOrderBookStorage: a bit for each price, and above it a
-- bit for each word that is not zero. The source writes this code out for bids and for asks.
pub mod Linked
pub mod Mark
pub mod Best
pub mod Update
pub mod Walk
use limit_order_book_v.Prelude.{
  ℕ, zero, suc, ◌+◌, ◌-◌, ◌*◌, ◌/◌, ◌%◌, Bool, true, false, Option, none, some, ◌==◌, if◌then◌else◌,
  write,
}
use limit_order_book_v.Prelude.Bits.{set_bit, clear_bit, leading_zeros, trailing_zeros}

-- `DIM_level1` to `DIM_level4`, the sizes of the vectors.
abbrev pub dim_level1 : ℕ
dim_level1 = 312501

abbrev pub dim_level2 : ℕ
dim_level2 = 4884

abbrev pub dim_level3 : ℕ
dim_level3 = 77

abbrev pub dim_level4 : ℕ
dim_level4 = 2

-- The vectors of words, read and written below their sizes.
pub record Levels : Type 0 where
  pub level1 : ℕ → ℕ
  pub level2 : ℕ → ℕ
  pub level3 : ℕ → ℕ
  pub level4 : ℕ → ℕ

unfoldable pub empty : Levels
empty = record { level1 = λ _. 0; level2 = λ _. 0; level3 = λ _. 0; level4 = λ _. 0 }

abbrev pub calc_ind : ℕ → ℕ
calc_ind x = x / 64

abbrev pub calc_bit : ℕ → ℕ
calc_bit x = x % 64

-- `level[ind] |= (1ULL << bit)` and `level[ind] &= ~(1ULL << bit)`
unfoldable pub mark : ℕ → (ℕ → ℕ) → ℕ → ℕ
mark x level = write level (calc_ind x) (set_bit (level (calc_ind x)) (calc_bit x))

unfoldable pub unmark : ℕ → (ℕ → ℕ) → ℕ → ℕ
unmark x level = write level (calc_ind x) (clear_bit 64 (level (calc_ind x)) (calc_bit x))

-- The bits that `AddOrder` sets.
unfoldable pub set_price : ℕ → Levels → Levels
set_price price l = record {
  level1 = mark price l.level1;
  level2 = mark (calc_ind price) l.level2;
  level3 = mark (calc_ind (calc_ind price)) l.level3;
  level4 = mark (calc_ind (calc_ind (calc_ind price))) l.level4;
}

-- The bits that `DeleteBid` and `DeleteAsk` clear: a level's when the word below became zero.
unfoldable pub clear_price : ℕ → Levels → Levels
clear_price price l =
    let ind1 = calc_ind price in
    let ind2 = calc_ind ind1 in
    let ind3 = calc_ind ind2 in
    let m1 = record l { level1 = unmark price l.level1 } in
    let m2 = record m1 { level2 = unmark ind1 l.level2 } in
    let m3 = record m2 { level3 = unmark ind2 l.level3 } in
    let m4 = record m3 { level4 = unmark ind3 l.level4 } in
    if m1.level1 ind1 == 0
    then (if m2.level2 ind2 == 0 then (if m3.level3 ind3 == 0 then m4 else m3) else m2)
    else m1

-- `63 - __builtin_clzll(w)` and `__builtin_ctzll(w)`
unfoldable pub high : ℕ → ℕ
high w = 63 - leading_zeros 64 w

unfoldable pub low : ℕ → ℕ
low w = trailing_zeros 64 w

-- From a word of level 4 down to a price: the highest, or the lowest, bit of each word.
unfoldable pub descend : (ℕ → ℕ) → Levels → ℕ → ℕ
descend bit l i =
    let ind3 = i * 64 + bit (l.level4 i) in
    let ind2 = ind3 * 64 + bit (l.level3 ind3) in
    let ind1 = ind2 * 64 + bit (l.level2 ind2) in ind1 * 64 + bit (l.level1 ind1)

-- The loop of `GetBestBid` and `PopBestBid`, from word `i - 1` of level 4 down.
unfoldable pub highest_from : ℕ → Levels → Option ℕ
unfolding high descend
highest_from zero l = none
highest_from (suc i) l =
    let rest = highest_from i l in if l.level4 i == 0 then rest else some (descend high l i)

unfoldable pub highest_price : Levels → Option ℕ
unfolding highest_from
highest_price l = highest_from dim_level4 l

-- The loop of `GetBestAsk` and `PopBestAsk`: `n` rounds from word `i` of level 4 up.
unfoldable pub lowest_from : ℕ → ℕ → Levels → Option ℕ
unfolding low descend
lowest_from i zero l = none
lowest_from i (suc n) l =
    let rest = lowest_from (i + 1) n l in if l.level4 i == 0 then rest else some (descend low l i)

unfoldable pub lowest_price : Levels → Option ℕ
unfolding lowest_from
lowest_price l = lowest_from 0 dim_level4 l

-- `IsBidEmpty` and `IsAskEmpty`: `n` rounds from word `i` of level 4 up.
unfoldable pub is_empty_from : ℕ → ℕ → Levels → Bool
is_empty_from i zero l = true
is_empty_from i (suc n) l =
    let rest = is_empty_from (i + 1) n l in if l.level4 i == 0 then rest else false

unfoldable pub is_empty : Levels → Bool
unfolding is_empty_from
is_empty l = is_empty_from 0 dim_level4 l
