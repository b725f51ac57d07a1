-- ===== src/Engine/CoreEngine/Csv.antt =====
-- The text of orders.csv, as `SaveToFile` and `LoadFromFile` of src/Engine/CoreEngine.cpp use the
-- standard library: decimal numbers, `std::getline` on a file and on a string.
use limit_order_book_v.Prelude.{
  ℕ, zero, suc, ◌+◌, ◌-◌, ◌*◌, ◌/◌, ◌%◌, ◌^◌, Bool, true, false, ◌&&◌, ◌||◌, ◌==◌, ltb, leb,
  if◌then◌else◌, Option, none, some, List, [], ◌∷◌, ◌++◌,
}
use limit_order_book_v.Domain.Text.{Bytes}
use limit_order_book_v.Domain.Order.{Result, ok, throw, Fault}

abbrev pub comma : ℕ
comma = 44

abbrev pub newline : ℕ
newline = 10

-- `operator<<` of an unsigned number; 20 digits are enough for 64 bits.
unfoldable pub digits : ℕ → ℕ → Bytes
digits zero n = []
digits (suc fuel) n =
    let rest = digits fuel (n / 10) in
    if ltb n 10 then (48 + n) ∷ [] else rest ++ (48 + n % 10) ∷ []

abbrev pub write_nat : ℕ → Bytes
write_nat n = digits 20 n

-- `operator<<` of an `int`, from its 32-bit pattern.
unfoldable pub write_int : ℕ → Bytes
write_int n = if ltb n (2 ^ 31) then write_nat n else 45 ∷ write_nat (2 ^ 32 - n)

abbrev pub is_digit : ℕ → Bool
is_digit c = leb 48 c && leb c 57

-- The number that the digits at the front stand for.
unfoldable pub read_digits : ℕ → Bytes → ℕ
read_digits n [] = n
read_digits n (c ∷ cs) =
    let rest = read_digits (n * 10 + (c - 48)) cs in if is_digit c then rest else n

abbrev is_space : ℕ → Bool
is_space c = c == 32 || (leb 9 c && leb c 13)

unfoldable pub skip_spaces : Bytes → Bytes
skip_spaces [] = []
skip_spaces (c ∷ cs) = let rest = skip_spaces cs in if is_space c then rest else c ∷ cs

-- A number of `width` bits with a sign, as its pattern.
abbrev pub in_range : ℕ → Bool → ℕ → Result ℕ
in_range width minus n =
    if minus
    then (if leb n (2 ^ (width - 1))
        then ok ((2 ^ width - n) % 2 ^ width)
        else throw Fault.out_of_range)
    else (if ltb n (2 ^ (width - 1)) then ok n else throw Fault.out_of_range)

-- A number starts with a digit.
unfoldable pub read_unsigned : ℕ → Bool → Bytes → Result ℕ
unfolding read_digits
read_unsigned width minus [] = throw Fault.no_number
read_unsigned width minus (c ∷ cs) =
    if is_digit c then in_range width minus (read_digits 0 (c ∷ cs)) else throw Fault.no_number

unfoldable pub read_signed : ℕ → Bytes → Result ℕ
unfolding read_unsigned
read_signed width [] = throw Fault.no_number
read_signed width (c ∷ cs) =
    if c == 45
    then read_unsigned width true cs
    else if c == 43
    then read_unsigned width false cs
    else read_unsigned width false (c ∷ cs)

-- `std::stoi` with a width of 32 and `std::stoll` with 64.
unfoldable pub read_int : ℕ → Bytes → Result ℕ
unfolding skip_spaces read_signed
read_int width s = read_signed width (skip_spaces s)

-- The text up to the first comma, and what is behind it, if there is one.
unfoldable pub split_comma : Bytes → Bytes × Option Bytes
split_comma [] = ([], none)
split_comma (c ∷ cs) =
    let (item, rest) = split_comma cs in if c == comma then ([], some cs) else (c ∷ item, rest)

-- `std::getline(ss, item, ',')`: a stream that is at its end, `none`, leaves `item` as it was.
unfoldable pub next_item : {B : Type 0} → Bytes → Option Bytes → (Bytes → Option Bytes → B) → B
unfolding split_comma
next_item item none then_do = then_do item none
next_item item (some s) then_do = let (found, rest) = split_comma s in then_do found rest

-- The lines that the loop on `std::getline(file, line)` reads.
abbrev pub prepend : ℕ → List Bytes → List Bytes
prepend c [] = (c ∷ []) ∷ []
prepend c (line ∷ lines) = (c ∷ line) ∷ lines

unfoldable pub lines_of : Bytes → List Bytes
lines_of [] = []
lines_of (c ∷ cs) = let rest = lines_of cs in if c == newline then [] ∷ rest else prepend c rest
