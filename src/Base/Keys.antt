-- ===== src/Base/Keys.antt =====
-- Equality as an interface: `std::equal_to` of a key type.
use Prim.Native.Nat.{ℕ}
use mathlib.Core.Path.{◌≡◌}
use mathlib.Core.Logic.{◌↔◌, ◌⊎◌, ◌≢◌, inl, inr}
use mathlib.Core.List.{List, [], ◌∷◌}
use native.Mathlib.Omega.{arith}
use mathlib.Core.Bool.{Bool, true, false, ◌&&◌}
use cppkg.Base.Tests.{◌==◌, ==_iff, Bool-cases}

pub record Eq {ℓ} (A : Type ℓ) : Type ℓ where
  pub beq : A → A → Bool
  pub beq_iff : (a b : A) → (beq a b ≡ true) ↔ (a ≡ b)

module _ {ℓ} {A : Type ℓ} ⦃e : Eq A⦄ where
  pub Eq-cases : (a b : A) → (a ≡ b) ⊎ (a ≢ b)
  Eq-cases a b = elim (Bool-cases (e.beq a b)) [
    | inl same ↦ inl ((e.beq_iff a b).0 same)
    | inr apart ↦ inr (λ eq. different (e.beq a b) apart ((e.beq_iff a b).1 eq))
  ]
    where
      different : (t : Bool) → t ≡ false → t ≡ true → ⊥
      different t h h' = cc

  pub beq_ne : (a b : A) → a ≢ b → e.beq a b ≡ false
  beq_ne a b h = elim (Bool-cases (e.beq a b)) [
    | inl same ↦ absurd (h ((e.beq_iff a b).0 same))
    | inr apart ↦ apart
  ]

  pub beq_refl : (a b : A) → a ≡ b → e.beq a b ≡ true
  beq_refl a b h = (e.beq_iff a b).1 h

-- `abbrev`, so that the test computes.
instance abbrev pub nat_eq : Eq ℕ
nat_eq = record { beq = ◌==◌; beq_iff = ==_iff }

-- Element by element, as `std::string` and `std::vector` compare.
module _ {ℓ} {A : Type ℓ} ⦃e : Eq A⦄ where
  abbrev pub list_beq : List A → List A → Bool
  list_beq [] [] = true
  list_beq [] (b ∷ bs) = false
  list_beq (a ∷ xs) [] = false
  list_beq (a ∷ xs) (b ∷ bs) = e.beq a b && list_beq xs bs

  pub list_beq_iff : (xs bs : List A) → (list_beq xs bs ≡ true) ↔ (xs ≡ bs)
  list_beq_iff [] [] = ground arith
  list_beq_iff [] (b ∷ bs) = ground arith
  list_beq_iff (a ∷ xs) [] = ground arith
  list_beq_iff (a ∷ xs) (b ∷ bs) = ground (arith, e.beq_iff a b, list_beq_iff xs bs)

  instance abbrev pub list_eq : Eq (List A)
  list_eq = record { beq = list_beq; beq_iff = list_beq_iff }
