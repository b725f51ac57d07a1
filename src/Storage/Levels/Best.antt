-- ===== src/Storage/Levels/Best.antt =====
-- The invariant of the bitmap, and the best price that the descent through its levels finds.
use native.Mathlib.Decide.{ℕ_discrete}
use limit_order_book_v.Prelude.{
  ℕ, zero, suc, ◌/◌, ◌≤◌, ◌≡◌, ◌≢◌, ◌↔◌, refl, inl, inr, Bool, true, false, not, Option, none, some,
  arith, ◌==◌, Bool-cases, is_some,
}
use limit_order_book_v.Prelude.Bits.{ne_zero_of_test_bit}
use limit_order_book_v.Storage.Levels.{
  Levels, calc_bit, high, low, descend, highest_from, highest_price, lowest_from, lowest_price,
  is_empty_from, is_empty,
}
use limit_order_book_v.Storage.Levels.Linked.{
  has, Words, Linked, Least, Greatest, low-has, low-below, high-has, high-above, Least-low,
  Greatest-high, upper-ne_zero,
}

-- Each level marks the words of the level below it that are not zero; words have 64 bits, and level
-- 4 is zero past its two words.
pub record Coherent (l : Levels) : Type 0 where
  pub words1 : Words l.level1
  pub words2 : Words l.level2
  pub words3 : Words l.level3
  pub words4 : Words l.level4
  pub link2 : Linked l.level1 l.level2
  pub link3 : Linked l.level2 l.level3
  pub link4 : Linked l.level3 l.level4
  pub top : (i : ℕ) → 2 ≤ i → l.level4 i ≡ 0

-- The bit of a price.
abbrev pub has_price : Levels → ℕ → Bool
has_price l price = has l.level1 price

pub record IsLowest (l : Levels) (price : ℕ) : Type 0 where
  pub present : has_price l price ≡ true
  pub below : (q : ℕ) → has_price l q ≡ true → price ≤ q

pub record IsHighest (l : Levels) (price : ℕ) : Type 0 where
  pub present : has_price l price ≡ true
  pub above : (q : ℕ) → has_price l q ≡ true → q ≤ price

abbrev pub LowestOf : Levels → Option ℕ → Type 0
LowestOf l none = (q : ℕ) → has_price l q ≡ false
LowestOf l (some price) = IsLowest l price

abbrev pub HighestOf : Levels → Option ℕ → Type 0
HighestOf l none = (q : ℕ) → has_price l q ≡ false
HighestOf l (some price) = IsHighest l price

module _ {l : Levels} (c : Coherent l) where
  descend-IsLowest : {i : ℕ} → Least l.level4 i → IsLowest l (descend low l i)
  unfolding descend
  descend-IsLowest m4 =
      let m3 = Least-low c.link4 c.words4 m4 in
      let m2 = Least-low c.link3 c.words3 m3 in
      let m1 = Least-low c.link2 c.words2 m2 in
      record { present = low-has c.words1 m1; below = λ q h. low-below c.words1 q m1 h }

  descend-IsHighest : {i : ℕ} → Greatest l.level4 i → IsHighest l (descend high l i)
  unfolding descend
  descend-IsHighest m4 =
      let m3 = Greatest-high c.link4 c.words4 m4 in
      let m2 = Greatest-high c.link3 c.words3 m3 in
      let m1 = Greatest-high c.link2 c.words2 m2 in
      record { present = high-has c.words1 m1; above = λ q h. high-above c.words1 q m1 h }

  -- A price in the book shows in level 4.
  level4-ne_zero : (q : ℕ) → has_price l q ≡ true → l.level4 (q / 64 / 64 / 64 / 64) ≢ 0
  level4-ne_zero q h = upper-ne_zero c.link4 c.words4 _ (
      upper-ne_zero c.link3 c.words3 _
        (upper-ne_zero c.link2 c.words2 _ (ne_zero_of_test_bit _ (calc_bit q) h)))

  all_zero : l.level4 0 ≡ 0 → l.level4 1 ≡ 0 → (i : ℕ) → l.level4 i ≡ 0
  all_zero a b zero = a
  all_zero a b (suc zero) = b
  all_zero a b (suc (suc i)) = c.top (suc (suc i)) (omega arith)

  no_price : l.level4 0 ≡ 0 → l.level4 1 ≡ 0 → (q : ℕ) → has_price l q ≡ false
  no_price a b q = elim (Bool-cases (has_price l q)) [
    | inl h ↦ absurd (level4-ne_zero q h (all_zero a b (q / 64 / 64 / 64 / 64)))
    | inr h ↦ h
  ]

  in_second : l.level4 0 ≡ 0 → (i : ℕ) → l.level4 i ≢ 0 → i ≡ 1
  in_second a zero ne = absurd (ne a)
  in_second a (suc zero) ne = refl
  in_second a (suc (suc i)) ne = absurd (ne (c.top (suc (suc i)) (omega arith)))

  in_range : (i : ℕ) → l.level4 i ≢ 0 → i ≤ 1
  in_range zero ne = omega arith
  in_range (suc zero) ne = omega arith
  in_range (suc (suc i)) ne = absurd (ne (c.top (suc (suc i)) (omega arith)))

  -- In a coherent bitmap the loop over level 4 and the descent below it find the lowest price that has
  -- a bit, or none when no price has one.
  pub lowest_price-LowestOf : LowestOf l (lowest_price l)
  unfolding lowest_price lowest_from
  lowest_price-LowestOf = elim (Bool-cases (l.level4 0 == 0)) [
    | inr a ↦
        rw a (
          descend-IsLowest {i = 0} (record { ne_zero = ground arith; below = λ y ne. omega arith }))
    | inl a ↦
        let z : l.level4 0 ≡ 0 = ground arith in
        elim (Bool-cases (l.level4 1 == 0)) [
          | inr b ↦
              rw (a, b)
                (descend-IsLowest {i = 1} (record {
                  ne_zero = ground arith;
                  below = λ y ne. omega (arith, in_second z y ne);
                }))
          | inl b ↦ rw (a, b) (no_price z (ground arith))
        ]
  ]

  -- In a coherent bitmap the loop from above finds the highest price that has a bit, or none when no
  -- price has one.
  pub highest_price-HighestOf : HighestOf l (highest_price l)
  unfolding highest_price highest_from
  highest_price-HighestOf = elim (Bool-cases (l.level4 1 == 0)) [
    | inr a ↦ rw a (descend-IsHighest {i = 1} (record { ne_zero = ground arith; above = in_range }))
    | inl a ↦
        let z : l.level4 1 ≡ 0 = ground arith in
        elim (Bool-cases (l.level4 0 == 0)) [
          | inr b ↦
              rw (a, b)
                (descend-IsHighest {i = 0} (record {
                  ne_zero = ground arith;
                  above = λ y ne. elim (ℕ_discrete y 1) [
                    | yes e ↦ absurd (ne (rw e z))
                    | no d ↦ omega (arith, in_range y ne)
                  ];
                }))
          | inl b ↦ rw (a, b) (no_price (ground arith) z)
        ]
  ]

  is_empty-lowest : is_empty l ≡ not (is_some (lowest_price l))
  unfolding is_empty is_empty_from lowest_price lowest_from
  is_empty-lowest = ground arith

  no_lowest : ((q : ℕ) → has_price l q ≡ false) → (o : Option ℕ) → LowestOf l o → is_some o ≡ false
  no_lowest h none b = refl
  no_lowest h (some p) b = absurd (ground (arith, h p, b.present))

  none_of_no_lowest :
      (o : Option ℕ) → LowestOf l o → is_some o ≡ false → (q : ℕ) → has_price l q ≡ false
  none_of_no_lowest none b e = b
  none_of_no_lowest (some p) b e = absurd (cc)

  -- On a coherent bitmap the emptiness test answers true exactly when no price has a bit.
  pub is_empty_iff : (is_empty l ≡ true) ↔ ((q : ℕ) → has_price l q ≡ false)
  is_empty_iff = (
    λ e. none_of_no_lowest (lowest_price l) lowest_price-LowestOf (ground (arith, is_empty-lowest)),
    λ h. ground (arith, is_empty-lowest, no_lowest h (lowest_price l) lowest_price-LowestOf),
  )
