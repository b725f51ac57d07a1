-- ===== src/Storage/Levels/Update.antt =====
-- Adding a price to the bitmap and taking it out.
use limit_order_book_v.Prelude.{
  ℕ, ◌*◌, ◌≤◌, ◌<◌, ◌≡◌, ◌≢◌, refl, ◌∙◌, inl, inr, true, false, arith, ◌==◌, if◌then◌else◌,
  Bool-cases,
}
use limit_order_book_v.Prelude.Bits.{ne_zero_of_test_bit, test_bit-zero}
use limit_order_book_v.Storage.Levels.{
  Levels, empty, dim_level1, dim_level2, dim_level3, dim_level4, calc_ind, calc_bit, unmark,
  set_price, clear_price,
}
use limit_order_book_v.Storage.Levels.Linked.{Words, Linked, upper-ne_zero}
use limit_order_book_v.Storage.Levels.Mark.{
  has-mark, mark-Words, has-unmark, unmark-Words, mark-Linked, unmark-Linked_zero,
  unmark-Linked_left, mark_ne, unmark-le,
}
use limit_order_book_v.Storage.Levels.Best.{Coherent, has_price}

-- One more than the highest price that level 1 has a bit for.
abbrev pub price_limit : ℕ
price_limit = dim_level1 * 64

-- For a price below `price_limit` the words that `AddOrder` and the deletions touch lie in their
-- vectors.
pub calc_ind-lt :
    (price : ℕ)
    → price < price_limit
    → (calc_ind price < dim_level1)
      × (calc_ind (calc_ind price) < dim_level2)
      × (calc_ind (calc_ind (calc_ind price)) < dim_level3)
      × (calc_ind (calc_ind (calc_ind (calc_ind price))) < dim_level4)
calc_ind-lt price h = omega arith

-- A word that is zero stays so.
unmark_zero :
    (level : ℕ → ℕ) (x : ℕ)
    → Words level
    → ((i : ℕ) → 2 ≤ i → level i ≡ 0)
    → (i : ℕ) → 2 ≤ i
    → unmark x level i ≡ 0
unmark_zero level x w z i k = omega (arith, unmark-le x i w, z i k)

blank-Linked : Linked (λ _. 0) (λ _. 0)
blank-Linked = record { bit = λ i. test_bit-zero (calc_bit i) }

pub empty-Coherent : Coherent empty
unfolding empty
empty-Coherent = record {
  words1 = λ i. omega arith;
  words2 = λ i. omega arith;
  words3 = λ i. omega arith;
  words4 = λ i. omega arith;
  link2 = blank-Linked;
  link3 = blank-Linked;
  link4 = blank-Linked;
  top = λ i k. refl;
}

module _ (price : ℕ) {l : Levels} (c : Coherent l) where
  -- Adding a price below `price_limit` keeps the bitmap coherent.
  pub set_price-Coherent : price < price_limit → Coherent (set_price price l)
  unfolding set_price
  set_price-Coherent h = record {
    words1 = mark-Words price c.words1;
    words2 = mark-Words (calc_ind price) c.words2;
    words3 = mark-Words (calc_ind (calc_ind price)) c.words3;
    words4 = mark-Words (calc_ind (calc_ind (calc_ind price))) c.words4;
    link2 = mark-Linked price c.link2;
    link3 = mark-Linked (calc_ind price) c.link3;
    link4 = mark-Linked (calc_ind (calc_ind price)) c.link4;
    top =
        λ i k. mark_ne l.level4 (calc_ind (calc_ind (calc_ind price))) i (omega arith) ∙ c.top i k;
  }

  -- From a coherent bitmap, a price taken out is gone, and no other price is touched.
  pub has_price-clear_price :
      (q : ℕ) → has_price (clear_price price l) q ≡ (if q == price then false else has_price l q)
  unfolding clear_price
  has_price-clear_price q = ground (arith, has-unmark price q c.words1)

  -- Taking out a price that has a bit keeps the bitmap coherent.
  pub clear_price-Coherent : has_price l price ≡ true → Coherent (clear_price price l)
  unfolding clear_price
  clear_price-Coherent h = elim (Bool-cases (unmark price l.level1 ind1 == 0)) [
    | inr e1 ↦ rw e1 (record {
      words1 = unmark-Words price c.words1;
      words2 = c.words2;
      words3 = c.words3;
      words4 = c.words4;
      link2 = unmark-Linked_left price c.link2 old1 (ground arith);
      link3 = c.link3;
      link4 = c.link4;
      top = c.top;
    })
    | inl e1 ↦ elim (Bool-cases (unmark ind1 l.level2 ind2 == 0)) [
      | inr e2 ↦
          rw (e1, e2)
            (record {
              words1 = unmark-Words price c.words1;
              words2 = unmark-Words ind1 c.words2;
              words3 = c.words3;
              words4 = c.words4;
              link2 = unmark-Linked_zero price c.words2 c.link2 (ground arith);
              link3 = unmark-Linked_left ind1 c.link3 old2 (ground arith);
              link4 = c.link4;
              top = c.top;
            })
      | inl e2 ↦ elim (Bool-cases (unmark ind2 l.level3 ind3 == 0)) [
        | inr e3 ↦
            rw (e1, e2, e3)
              (record {
                words1 = unmark-Words price c.words1;
                words2 = unmark-Words ind1 c.words2;
                words3 = unmark-Words ind2 c.words3;
                words4 = c.words4;
                link2 = unmark-Linked_zero price c.words2 c.link2 (ground arith);
                link3 = unmark-Linked_zero ind1 c.words3 c.link3 (ground arith);
                link4 = unmark-Linked_left ind2 c.link4 old3 (ground arith);
                top = c.top;
              })
        | inl e3 ↦
            rw (e1, e2, e3)
              (record {
                words1 = unmark-Words price c.words1;
                words2 = unmark-Words ind1 c.words2;
                words3 = unmark-Words ind2 c.words3;
                words4 = unmark-Words ind3 c.words4;
                link2 = unmark-Linked_zero price c.words2 c.link2 (ground arith);
                link3 = unmark-Linked_zero ind1 c.words3 c.link3 (ground arith);
                link4 = unmark-Linked_zero ind2 c.words4 c.link4 (ground arith);
                top = unmark_zero l.level4 ind3 c.words4 c.top;
              })
      ]
    ]
  ]
    where
      ind1 : ℕ
      ind1 = calc_ind price

      ind2 : ℕ
      ind2 = calc_ind ind1

      ind3 : ℕ
      ind3 = calc_ind ind2

      old1 : l.level1 ind1 ≢ 0
      old1 = ne_zero_of_test_bit _ (calc_bit price) h

      old2 : l.level2 ind2 ≢ 0
      old2 = upper-ne_zero c.link2 c.words2 ind1 old1

      old3 : l.level3 ind3 ≢ 0
      old3 = upper-ne_zero c.link3 c.words3 ind2 old2

pub has_price-set_price :
    (price q : ℕ) (l : Levels)
    → has_price (set_price price l) q ≡ (if q == price then true else has_price l q)
unfolding set_price
has_price-set_price price q l = has-mark l.level1 price q
