-- ===== src/Storage/LinkedList/Chain.antt =====
-- A doubly linked chain through the slots of the pool.
use native.Mathlib.Decide.{ℕ_discrete}
use limit_order_book_v.Prelude.{
  ℕ, ◌≡◌, ◌≢◌, refl, ap, Bool-cases, Bool, true, false, ◌||◌, List, [], ◌∷◌, arith, ◌==◌, inl, inr,
  ◌∙◌,
}
use limit_order_book_v.Domain.Pods.{nil_index, OrderPod}

abbrev pub has_index : ℕ → List ℕ → Bool
has_index i [] = false
has_index i (j ∷ js) = (i == j) || has_index i js

abbrev pub Distinct : List ℕ → Type 0
Distinct [] = Unit {0}
Distinct (i ∷ is) = (has_index i is ≡ false) × Distinct is

-- From `head` the `next` links lead through the slots `is` and end, the `prev` links lead back, from
-- the first slot to `before`; `last` is the last slot, or `before` when there is none.
abbrev pub Chain : (ℕ → OrderPod) → (before head last : ℕ) → List ℕ → Type 0
Chain st before head last [] = (head ≡ nil_index) × (last ≡ before)
Chain st before head last (i ∷ is) =
    (head ≡ i) × (i ≢ nil_index) × ((st i).prev ≡ before) × Chain st i (st i).next last is

-- The links of the slots `is` are the same in both pools.
abbrev pub SameLinks : (ℕ → OrderPod) → (ℕ → OrderPod) → List ℕ → Type 0
SameLinks st st' is =
    (i : ℕ) → has_index i is ≡ true → ((st' i).next ≡ (st i).next) × ((st' i).prev ≡ (st i).prev)

pub has_index_self : (i : ℕ) (is : List ℕ) → has_index i (i ∷ is) ≡ true
has_index_self i is = ground arith

pub has_index_ne : {j k : ℕ} (is : List ℕ) → has_index j is ≡ false → has_index k is ≡ true → j ≢ k
has_index_ne is out inside e = cc (ap (λ m. has_index m is) e)

-- A chain survives what spares its links.
pub Chain-frame :
    (st st' : ℕ → OrderPod) (before head last : ℕ) (is : List ℕ)
    → Chain st before head last is
    → SameLinks st st' is
    → Chain st' before head last is
Chain-frame st st' before head last [] c same = c
Chain-frame st st' before head last (i ∷ is) (h, ne, p, c) same =
    let (n, q) = same i (has_index_self i is) in
    (h, ne, q ∙ p, rw n (Chain-frame st st' i (st i).next last is c (λ j k. same j (ground arith))))

-- The end of a chain that is not empty is one of its slots, and none is `nil_index`.
pub last-has_index :
    (st : ℕ → OrderPod) (before head last i : ℕ) (is : List ℕ)
    → Chain st before head last (i ∷ is)
    → has_index last (i ∷ is) ≡ true
last-has_index st before head last i [] c = ground arith
last-has_index st before head last i (j ∷ is) (h, ne, p, c) =
    ground (arith, last-has_index st i (st i).next last j is c)

pub nil-has_index :
    (st : ℕ → OrderPod) (before head last : ℕ) (is : List ℕ)
    → Chain st before head last is
    → has_index nil_index is ≡ false
nil-has_index st before head last [] c = refl
nil-has_index st before head last (i ∷ is) (h, ne, p, c) =
    ground (arith, nil-has_index st i (st i).next last is c)

pub head-has_index :
    (st : ℕ → OrderPod) (before head last : ℕ) (is : List ℕ)
    → Chain st before head last is
    → head ≢ nil_index
    → has_index head is ≡ true
head-has_index st before head last [] (e, t) ne = absurd (ne e)
head-has_index st before head last (i ∷ is) (e, n, p, c) ne = ground arith

pub first-prev :
    (st : ℕ → OrderPod) (before head last : ℕ) (is : List ℕ)
    → Chain st before head last is
    → head ≢ nil_index
    → (st head).prev ≡ before
first-prev st before head last [] (e, t) ne = absurd (ne e)
first-prev st before head last (i ∷ is) (e, n, p, c) ne = ap (λ k. (st k).prev) e ∙ p

-- The links out of a slot of a chain lead to slots of the chain, or out of it.
pub next-has_index :
    (st : ℕ → OrderPod) (before head last i : ℕ) (is : List ℕ)
    → Chain st before head last is
    → has_index i is ≡ true
    → (st i).next ≢ nil_index
    → has_index (st i).next is ≡ true
next-has_index st before head last i [] c h ne = cc
next-has_index st before head last i (j ∷ is) (e, n, p, c) h ne = elim (Bool-cases (i == j)) [
  | inl q ↦
      let same : i ≡ j = ground arith in
      ground (
        arith,
        head-has_index st j (st j).next last is c (λ z. ne (ap (λ k. (st k).next) same ∙ z)),
        ap (λ k. (st k).next) same,
      )
  | inr q ↦ ground (arith, next-has_index st j (st j).next last i is c (ground arith) ne)
]

pub prev-has_index :
    (st : ℕ → OrderPod) (before head last i : ℕ) (is : List ℕ)
    → Chain st before head last is
    → has_index i is ≡ true
    → i ≢ head
    → has_index (st i).prev is ≡ true
prev-has_index st before head last i [] c h ne = cc
prev-has_index st before head last i (j ∷ is) (e, n, p, c) h ne =
    let inside : has_index i is ≡ true = ground arith in
    elim (ℕ_discrete i (st j).next) [
      | yes q ↦ ground (
        arith,
        first-prev st j (st j).next last is c (λ z.
            cc
              (inside, ap (λ k. has_index k is) (q ∙ z), nil-has_index st j (st j).next last is c)),
        ap (λ k. (st k).prev) q,
      )
      | no q ↦ ground (arith, prev-has_index st j (st j).next last i is c inside q)
    ]
