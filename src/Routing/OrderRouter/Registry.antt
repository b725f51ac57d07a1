-- ===== src/Routing/OrderRouter/Registry.antt =====
-- The registry of symbols: what `CheckRegistery` makes of it.
use limit_order_book_v.Prelude.{
  ℕ, ◌+◌, ◌^◌, ◌<◌, ◌≡◌, refl, arith, Bool-cases, Option-cases, inl, inr, true, none, some, List,
  ◌∷◌, if◌then◌else◌, write, is_some,
}
use limit_order_book_v.Domain.Text.{Bytes, eq_bytes, eq_of_eq_bytes}
use limit_order_book_v.Routing.OrderRouter.{
  OrderRouter, init, find, register, check_registery, check_symbol_id,
}

-- Every registered symbol has an id that was given out and that is its own, and resources.
pub record IsValid (r : OrderRouter) : Type 0 where
  pub given : (s : Bytes) (i : ℕ) → find s r.symbol_hash ≡ some i → i < r.symbol_id
  pub resources :
      (s : Bytes) (i : ℕ) → find s r.symbol_hash ≡ some i → is_some (r.resources i) ≡ true
  pub own :
      (s t : Bytes) (i : ℕ) → find s r.symbol_hash ≡ some i → find t r.symbol_hash ≡ some i → s ≡ t

pub init-IsValid : IsValid init
unfolding init find
init-IsValid = record {
  given = λ s i e. absurd (cc);
  resources = λ s i e. absurd (cc);
  own = λ s t i e f. absurd (cc);
}

find-cons :
    (s t : Bytes) (i : ℕ) (rest : List (Bytes × ℕ))
    → find t ((s, i) ∷ rest) ≡ (if eq_bytes s t then some i else find t rest)
unfolding find
find-cons s t i rest = refl

-- A new symbol, given the next id.
module _ (symbol : Bytes) {r : OrderRouter} (v : IsValid r) (room : r.symbol_id + 1 < 2 ^ 32) where
  register-IsValid : IsValid (register none symbol r).1
  unfolding register write
  register-IsValid = record {
    given = λ s i e. ground (arith, find-cons symbol s r.symbol_id r.symbol_hash, v.given s i);
    resources = λ s i e.
        ground (arith, find-cons symbol s r.symbol_id r.symbol_hash, v.given s i, v.resources s i);
    own = λ s t i e f. ground (
      arith,
      find-cons symbol s r.symbol_id r.symbol_hash,
      find-cons symbol t r.symbol_id r.symbol_hash,
      v.given s i,
      v.given t i,
      v.own s t i,
      eq_of_eq_bytes symbol s,
      eq_of_eq_bytes symbol t,
    );
  }

  -- In a valid registry with room for an id, `CheckRegistery` leaves a valid registry, whether the
  -- symbol is new or not.
  pub check_registery-IsValid : IsValid (check_registery symbol r).1
  unfolding check_registery register
  check_registery-IsValid = elim (Option-cases (find symbol r.symbol_hash)) [
    | inl e ↦ rw e register-IsValid
    | inr (id, e) ↦ rw e v
  ]

-- Afterwards the symbol has the id that `CheckRegistery` returned, and every other symbol has the id
-- that it had, or none.
pub check_symbol_id-check_registery :
    (symbol t : Bytes) (r : OrderRouter)
    → check_symbol_id t (check_registery symbol r).1
      ≡ (if eq_bytes symbol t then some (check_registery symbol r).0 else check_symbol_id t r)
unfolding check_registery check_symbol_id register
check_symbol_id-check_registery symbol t r = elim (Option-cases (find symbol r.symbol_hash)) [
  | inl e ↦ rw e (find-cons symbol t r.symbol_id r.symbol_hash)
  | inr (id, e) ↦ rw e (elim (Bool-cases (eq_bytes symbol t)) [
    | inl b ↦ rw (b, ← eq_of_eq_bytes symbol t b) e
    | inr b ↦ rw b refl
  ])
]
