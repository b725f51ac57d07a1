-- ===== src/Engine/CoreEngine/Reading.antt =====
-- The text of orders.csv read back, item by item (src/Engine/CoreEngine.cpp).
use limit_order_book_v.Prelude.{
  ℕ, zero, suc, ◌+◌, ◌-◌, ◌*◌, ◌/◌, ◌%◌, ◌^◌, ◌<◌, ◌≡◌, ◌≢◌, ◌∙◌, refl, ap, arith, Bool, true,
  false, not, ◌&&◌, ◌==◌, ltb, Bool-cases, inl, inr, Option, some, [], ◌∷◌, ◌++◌,
}
use native.Mathlib.Nat.{pow-suc}
use limit_order_book_v.Domain.Text.{Bytes}
use limit_order_book_v.Engine.CoreEngine.Csv.{
  comma, newline, digits, write_nat, is_digit, read_digits, skip_spaces, in_range, read_unsigned,
  read_signed, read_int, split_comma, next_item, prepend, lines_of,
}

-- No comma and no line break.
abbrev pub plain : Bytes → Bool
plain [] = true
plain (c ∷ cs) = not (c == comma) && (not (c == newline) && plain cs)

abbrev all_digits : Bytes → Bool
all_digits [] = true
all_digits (c ∷ cs) = is_digit c && all_digits cs

all_digits-append :
    (xs : Bytes) (d : ℕ) → all_digits xs ≡ true → d < 10 → all_digits (xs ++ (48 + d) ∷ []) ≡ true
all_digits-append [] d h lt = ground arith
all_digits-append (c ∷ cs) d h lt = ground (arith, all_digits-append cs d)

digits-all_digits : (fuel n : ℕ) → all_digits (digits fuel n) ≡ true
unfolding digits
digits-all_digits zero n = refl
digits-all_digits (suc fuel) n =
    ground
      (arith, digits-all_digits fuel (n / 10), all_digits-append (digits fuel (n / 10)) (n % 10))

plain-all_digits : (xs : Bytes) → all_digits xs ≡ true → plain xs ≡ true
plain-all_digits [] h = refl
plain-all_digits (c ∷ cs) h = ground (arith, plain-all_digits cs)

pub plain-write_nat : (n : ℕ) → plain (write_nat n) ≡ true
plain-write_nat n = plain-all_digits (digits 20 n) (digits-all_digits 20 n)

read_digits-append :
    (a : ℕ) (xs : Bytes) (d : ℕ)
    → all_digits xs ≡ true
    → d < 10
    → read_digits a (xs ++ (48 + d) ∷ []) ≡ read_digits a xs * 10 + d
unfolding read_digits
read_digits-append a [] d h lt = ground arith
read_digits-append a (c ∷ cs) d h lt = ground (arith, read_digits-append (a * 10 + (c - 48)) cs d)

pub read_digits-digits : (fuel n : ℕ) → n < 10 ^ fuel → read_digits 0 (digits fuel n) ≡ n
unfolding read_digits digits
read_digits-digits zero n h = omega arith
read_digits-digits (suc fuel) n h =
    let before = read_digits-digits fuel (n / 10) (omega (arith, pow-suc 10 fuel)) in
    let last =
      read_digits-append 0 (digits fuel (n / 10)) (n % 10) (digits-all_digits fuel (n / 10))
        (omega arith) in
    elim (Bool-cases (ltb n 10)) [
      | inl e ↦ rw e (ground arith)
      | inr f ↦ rw f (last ∙ omega (arith, before))
    ]

append-nonempty : (xs : Bytes) (c : ℕ) → xs ++ c ∷ [] ≢ []
append-nonempty [] c e = cc
append-nonempty (x ∷ xs) c e = cc

digits-nonempty : (fuel n : ℕ) → digits (suc fuel) n ≢ []
unfolding digits
digits-nonempty fuel n = elim (Bool-cases (ltb n 10)) [
  | inl e ↦ rw e (λ p. cc)
  | inr f ↦ rw f (append-nonempty (digits fuel (n / 10)) (48 + n % 10))
]

read_int-digits :
    (width : ℕ) (xs : Bytes)
    → xs ≢ []
    → all_digits xs ≡ true
    → read_int width xs ≡ in_range width false (read_digits 0 xs)
unfolding read_int skip_spaces read_signed read_unsigned
read_int-digits width [] ne h = absurd (ne refl)
read_int-digits width (c ∷ cs) ne h = ground arith

pub read_int-write_nat :
    (width n : ℕ) → n < 10 ^ 20 → read_int width (write_nat n) ≡ in_range width false n
read_int-write_nat width n h =
    read_int-digits width (digits 20 n) (digits-nonempty 19 n) (digits-all_digits 20 n)
    ∙ ap (in_range width false) (read_digits-digits 20 n h)

pub split_comma-plain :
    (xs rest : Bytes) → plain xs ≡ true → split_comma (xs ++ comma ∷ rest) ≡ (xs, some rest)
unfolding split_comma
split_comma-plain [] rest h = refl
split_comma-plain (c ∷ cs) rest h = ground (arith, split_comma-plain cs rest)

pub next_item-plain :
    {B : Type 0} (item xs rest : Bytes) (k : Bytes → Option Bytes → B)
    → plain xs ≡ true
    → next_item item (some (xs ++ comma ∷ rest)) k ≡ k xs (some rest)
unfolding next_item
next_item-plain item xs rest k h = ap (λ (a, b). k a b) (split_comma-plain xs rest h)

-- No line break.
abbrev pub is_line : Bytes → Bool
is_line [] = true
is_line (c ∷ cs) = not (c == newline) && is_line cs

pub is_line-plain : (xs : Bytes) → plain xs ≡ true → is_line xs ≡ true
is_line-plain [] h = refl
is_line-plain (c ∷ cs) h = ground (arith, is_line-plain cs)

pub is_line-join :
    (xs ys : Bytes) → plain xs ≡ true → is_line ys ≡ true → is_line (xs ++ comma ∷ ys) ≡ true
is_line-join [] ys h k = k
is_line-join (c ∷ cs) ys h k = ground (arith, is_line-join cs ys)

-- A line is read as it is.
pub lines_of-line :
    (line rest : Bytes)
    → is_line line ≡ true
    → lines_of (line ++ newline ∷ rest) ≡ line ∷ lines_of rest
unfolding lines_of
lines_of-line [] rest h = refl
lines_of-line (c ∷ cs) rest h =
    let before = lines_of-line cs rest (ground arith) in
    let f : c == newline ≡ false = ground arith in rw f (ap (prepend c) before)
