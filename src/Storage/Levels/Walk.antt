-- ===== src/Storage/Levels/Walk.antt =====
-- The four nested loops of `GetBestBids`, `GetBestAsks`, `CanFillQuantityAsks` and
-- `CanFillQuantityBids`: the prices of the bitmap are visited in order while a test holds.
use limit_order_book_v.Prelude.{ℕ, zero, suc, ◌+◌, ◌*◌, Bool, ◌&&◌, ltb, if◌then◌else◌}
use limit_order_book_v.Prelude.Bits.{clear_bit}
use limit_order_book_v.Storage.Levels.{Levels}

module _ {S : Type 0} (bit : ℕ → ℕ) (more : S → Bool) where
  -- `while (L > 0 and more)`: the bits of the word `w` of entry `base`, in the order of the scan
  -- `bit`. A word of 64 bits takes at most 64 rounds.
  unfoldable pub walk_word : ℕ → (ℕ → S → S) → ℕ → ℕ → S → S
  walk_word zero visit base w s = s
  walk_word (suc rounds) visit base w s =
      let b = bit w in
      let rest = walk_word rounds visit base (clear_bit 64 w b) (visit (base * 64 + b) s) in
      if ltb 0 w && more s then rest else s

  unfoldable pub walk_level1 : Levels → (ℕ → S → S) → ℕ → S → S
  unfolding walk_word
  walk_level1 l visit ind1 s = walk_word 64 visit ind1 (l.level1 ind1) s

  unfoldable pub walk_level2 : Levels → (ℕ → S → S) → ℕ → S → S
  unfolding walk_level1
  walk_level2 l visit ind2 s = walk_word 64 (walk_level1 l visit) ind2 (l.level2 ind2) s

  unfoldable pub walk_level3 : Levels → (ℕ → S → S) → ℕ → S → S
  unfolding walk_level2
  walk_level3 l visit ind3 s = walk_word 64 (walk_level2 l visit) ind3 (l.level3 ind3) s

  unfoldable pub walk_level4 : Levels → (ℕ → S → S) → ℕ → S → S
  unfolding walk_level3
  walk_level4 l visit i s = walk_word 64 (walk_level3 l visit) i (l.level4 i) s

-- The loop over the words of level 4, from the last one down or from the first one up.
module _ {S : Type 0} (bit : ℕ → ℕ) (more : S → Bool) (l : Levels) (visit : ℕ → S → S) where
  unfoldable pub walk_down : ℕ → S → S
  unfolding walk_level4
  walk_down zero s = s
  walk_down (suc i) s = walk_down i (walk_level4 bit more l visit i s)

  unfoldable pub walk_up : ℕ → ℕ → S → S
  unfolding walk_level4
  walk_up i zero s = s
  walk_up i (suc n) s = walk_up (i + 1) n (walk_level4 bit more l visit i s)
