-- ===== src/Domain/Text.antt =====
-- `std::string` as its bytes.
use Prim.Native.Char.{code}
use Prim.Native.String.{String}
use limit_order_book_v.Prelude.{
  ℕ, ◌≡◌, refl, Bool, true, false, ◌&&◌, List, [], ◌∷◌, arith, ◌==◌, ==_refl,
}

abbrev pub Bytes : Type 0
Bytes = List ℕ

-- The bytes of an ASCII literal.
abbrev pub bytes : String → Bytes
bytes String.[] = []
bytes (String.◌∷◌ c s) = code c ∷ bytes s

-- `operator==` on strings.
unfoldable pub eq_bytes : Bytes → Bytes → Bool
eq_bytes [] [] = true
eq_bytes [] (b ∷ bs) = false
eq_bytes (a ∷ as') [] = false
eq_bytes (a ∷ as') (b ∷ bs) = (a == b) && eq_bytes as' bs

pub eq_bytes_refl : (a : Bytes) → eq_bytes a a ≡ true
unfolding eq_bytes
eq_bytes_refl [] = refl
eq_bytes_refl (a ∷ as') = ground (arith, ==_refl a, eq_bytes_refl as')

pub eq_of_eq_bytes : (a b : Bytes) → eq_bytes a b ≡ true → a ≡ b
unfolding eq_bytes
eq_of_eq_bytes [] [] h = refl
eq_of_eq_bytes [] (b ∷ bs) h = cc
eq_of_eq_bytes (a ∷ as') [] h = cc
eq_of_eq_bytes (a ∷ as') (b ∷ bs) h = ground (arith, eq_of_eq_bytes as' bs)
