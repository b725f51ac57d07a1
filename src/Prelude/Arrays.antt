-- ===== src/Prelude/Arrays.antt =====
-- A vector or an array of the program as a function of its index, with a write to one element.
use Prim.Native.Nat.{ℕ}
use mathlib.Core.Path.{◌≡◌, refl}
use mathlib.Core.Logic.{◌≢◌}
use native.Mathlib.Omega.{arith}
use limit_order_book_v.Prelude.Tests.{◌==◌, if◌then◌else◌}

module _ {ℓ} {A : Type ℓ} where
  unfoldable pub write : (ℕ → A) → ℕ → A → ℕ → A
  write f i v j = if j == i then v else f j

  pub write_lem : (f : ℕ → A) (i : ℕ) (v : A) (j : ℕ) → write f i v j ≡ (if j == i then v else f j)
  unfolding write
  write_lem f i v j = refl

  pub write_self : (f : ℕ → A) (i : ℕ) (v : A) → write f i v i ≡ v
  unfolding write
  write_self f i v = ground arith

  pub write_ne : (f : ℕ → A) (i : ℕ) (v : A) (j : ℕ) → j ≢ i → write f i v j ≡ f j
  unfolding write
  write_ne f i v j h = ground arith
