-- ===== src/Storage/Levels/Mark.antt =====
-- Setting and clearing a bit of one level, and what it asks of the level above.
use limit_order_book_v.Prelude.{ℕ, ◌≤◌, ◌≡◌, ◌≢◌, true, false, arith, ◌==◌, if◌then◌else◌, write}
use limit_order_book_v.Prelude.Bits.{
  test_bit-set_bit, set_bit-lt, test_bit-clear_bit, clear_bit-le, ne_zero_of_test_bit,
}
use limit_order_book_v.Storage.Levels.{calc_ind, calc_bit, mark, unmark}
use limit_order_book_v.Storage.Levels.Linked.{has, Words, Linked}

pub has-mark :
    (level : ℕ → ℕ) (x y : ℕ) → has (mark x level) y ≡ (if y == x then true else has level y)
unfolding mark write
has-mark level x y = ground (arith, test_bit-set_bit (level (calc_ind x)) (calc_bit x) (calc_bit y))

pub mark-Words : {level : ℕ → ℕ} (x : ℕ) → Words level → Words (mark x level)
unfolding mark write
mark-Words {level} x w i =
    ground (arith, w i, set_bit-lt 64 (level (calc_ind x)) (calc_bit x) (w (calc_ind x)))

pub has-unmark :
    {level : ℕ → ℕ} (x y : ℕ)
    → Words level
    → has (unmark x level) y ≡ (if y == x then false else has level y)
unfolding unmark write
has-unmark {level} x y w =
    ground
      (arith, test_bit-clear_bit 64 (level (calc_ind x)) (calc_bit x) (calc_bit y) (w (calc_ind x)))

pub unmark-le : {level : ℕ → ℕ} (x i : ℕ) → Words level → unmark x level i ≤ level i
unfolding unmark write
unmark-le {level} x i w =
    ground (arith, clear_bit-le 64 (level (calc_ind x)) (calc_bit x) (w (calc_ind x)))

pub unmark-Words : {level : ℕ → ℕ} (x : ℕ) → Words level → Words (unmark x level)
unmark-Words {level} x w i = omega (arith, w i, unmark-le x i w)

mark-ne_zero : (level : ℕ → ℕ) (x : ℕ) → mark x level (calc_ind x) ≢ 0
mark-ne_zero level x = ne_zero_of_test_bit _ (calc_bit x) (ground (arith, has-mark level x x))

pub mark_ne : (level : ℕ → ℕ) (x i : ℕ) → i ≢ calc_ind x → mark x level i ≡ level i
unfolding mark write
mark_ne level x i ne = ground arith

pub unmark_ne : (level : ℕ → ℕ) (x i : ℕ) → i ≢ calc_ind x → unmark x level i ≡ level i
unfolding unmark write
unmark_ne level x i ne = ground arith

-- Marking both levels keeps them linked.
pub mark-Linked :
    {lower upper : ℕ → ℕ} (x : ℕ)
    → Linked lower upper
    → Linked (mark x lower) (mark (calc_ind x) upper)
mark-Linked {lower} {upper} x k = record {
  bit = λ i.
      ground
        (arith, k.bit i, has-mark upper (calc_ind x) i, mark-ne_zero lower x, mark_ne lower x i);
}

-- Clearing the lower level keeps them linked when the upper bit is cleared with an empty word, and
-- left with any other.
pub unmark-Linked_zero :
    {lower upper : ℕ → ℕ} (x : ℕ)
    → Words upper
    → Linked lower upper
    → unmark x lower (calc_ind x) ≡ 0
    → Linked (unmark x lower) (unmark (calc_ind x) upper)
unmark-Linked_zero {lower} {upper} x w k e = record {
  bit = λ i. ground (arith, k.bit i, has-unmark (calc_ind x) i w, unmark_ne lower x i);
}

pub unmark-Linked_left :
    {lower upper : ℕ → ℕ} (x : ℕ)
    → Linked lower upper
    → lower (calc_ind x) ≢ 0
    → unmark x lower (calc_ind x) ≢ 0
    → Linked (unmark x lower) upper
unmark-Linked_left {lower} {upper} x k old ne = record {
  bit = λ i. ground (arith, k.bit i, unmark_ne lower x i);
}
