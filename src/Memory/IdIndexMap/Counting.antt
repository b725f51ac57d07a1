-- ===== src/Memory/IdIndexMap/Counting.antt =====
-- The counter of live slots of a page of IdIndexMap.h.
use limit_order_book_v.Prelude.{
  ℕ, zero, suc, ◌+◌, ◌≡◌, ◌<◌, ◌≤◌, refl, sym, List, [], ◌∷◌, arith, ◌==◌, if◌then◌else◌, write,
  Bool-cases, inl, inr,
}
use limit_order_book_v.Domain.Pods.{nil_index}
use limit_order_book_v.Memory.IdIndexMap.{Page, page_size, blank_page}

-- How many of the first `n` slots hold an index.
unfoldable pub count_live : (ℕ → ℕ) → ℕ → ℕ
count_live f zero = 0
count_live f (suc n) = (if f n == nil_index then 0 else 1) + count_live f n

-- The invariant that IdIndexMap.h states of a page.
abbrev pub Counts : Page → Type 0
Counts p = p.live ≡ count_live p.slots page_size

abbrev pub AllCount : List Page → Type 0
AllCount [] = Unit {0}
AllCount (p ∷ ps) = Counts p × (p.live ≡ 0) × AllCount ps

pub count_live-zero : (f : ℕ → ℕ) (n k : ℕ) → count_live f n ≡ 0 → k < n → f k ≡ nil_index
unfolding count_live
count_live-zero f zero k h l = absurd (omega arith)
count_live-zero f (suc n) k h l = elim (Bool-cases (k == n)) [
  | inl e ↦ let e' : k ≡ n = ground arith in rw e' (ground arith)
  | inr e ↦ count_live-zero f n k (ground arith) (ground arith)
]

count_live-write_above :
    (f : ℕ → ℕ) (s v n : ℕ) → n ≤ s → count_live (write f s v) n ≡ count_live f n
unfolding write count_live
count_live-write_above f s v zero l = refl
count_live-write_above f s v (suc n) l = ground (arith, count_live-write_above f s v n)

-- A write to a slot moves the count by the change of that slot.
pub count_live-write :
    (f : ℕ → ℕ) (s v n : ℕ)
    → s < n
    → count_live (write f s v) n + (if f s == nil_index then 0 else 1)
      ≡ count_live f n + (if v == nil_index then 0 else 1)
unfolding write count_live
count_live-write f s v zero l = absurd (omega arith)
count_live-write f s v (suc n) l = elim (Bool-cases (n == s)) [
  | inl e ↦
      let e' : n ≡ s = ground arith in
      rw (e, e', count_live-write_above f s v s (omega arith)) (omega arith)
  | inr e ↦ rw e (omega (arith, count_live-write f s v n (ground arith)))
]

count_live-nil : (n : ℕ) → count_live (λ _. nil_index) n ≡ 0
unfolding count_live
count_live-nil zero = refl
count_live-nil (suc n) = omega (arith, count_live-nil n)

pub count_live-blank : Counts blank_page
count_live-blank = sym (count_live-nil page_size)
