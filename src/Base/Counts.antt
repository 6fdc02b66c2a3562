-- ===== src/Base/Counts.antt =====
-- Sums over the elements of a list, and what a change of one element does to them.
use Prim.Native.Nat.{ℕ, zero, suc, ◌+◌}
use mathlib.Core.Path.{◌≡◌, ap}
use mathlib.Core.Option.{some}
use mathlib.Core.List.{List, [], ◌∷◌, ◌++◌}
use native.Mathlib.Omega.{arith}
use cppkg.Base.Lists.{get_elem?, set}
use cppkg.Base.Tests.{some_inj}

module _ {ℓ} {A : Type ℓ} where
  unfoldable pub count : (A → ℕ) → List A → ℕ
  count f [] = 0
  count f (x ∷ xs) = f x + count f xs

  pub count-append : (f : A → ℕ) (xs ys : List A) → count f (xs ++ ys) ≡ count f xs + count f ys
  unfolding count
  count-append f [] ys = ground arith
  count-append f (x ∷ xs) ys = omega (arith, count-append f xs ys)

  pub count-set :
      (f : A → ℕ) (xs : List A) (i : ℕ) (old new : A)
      → get_elem? xs i ≡ some old
      → count f (set xs i new) + f old ≡ count f xs + f new
  unfolding count
  count-set f [] i old new h = ground (arith, h)
  count-set f (x ∷ xs) zero old new h =
      let same : f x ≡ f old = ap f (some_inj h) in omega (arith, same)
  count-set f (x ∷ xs) (suc i) old new h = omega (arith, count-set f xs i old new h)
