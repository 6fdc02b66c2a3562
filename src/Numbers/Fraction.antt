-- ===== src/Numbers/Fraction.antt =====
-- cppkg/numbers/decimal.h and cppkg/numbers/decimal.cc: fractions with a `double` over a `uint64_t`.
-- What the code does with a `double` is an interface, and so is what it relies on.
pub mod Whole
use cppkg.Base.{
  ℕ, zero, suc, ◌+◌, ◌-◌, ◌*◌, ◌/◌, ◌%◌, ◌^◌, ◌≤◌, ◌<◌, ◌≡◌, Option, none, some, Bool, true, false,
  not, ◌||◌, if◌then◌else◌, ◌>>=◌, ltb, leb, ◌==◌,
}
use cppkg.Numbers.{mul_is_safe}

pub record Double {ℓ} (D : Type ℓ) : Type ℓ where
  -- The conversion of an integer.
  pub of_nat : ℕ → D
  pub mul : D → D → D
  pub div : D → D → D
  pub sub : D → D → D
  pub is_finite : D → Bool
  pub gt : D → D → Bool
  pub le : D → D → Bool

pub record Fraction {ℓ} (D : Type ℓ) : Type ℓ where
  pub num : D
  pub denom : ℕ

-- What IEEE 754 says of whole numbers: up to 2 ^ 53 they are exact, and a conversion does not
-- change an order.
pub record IsExact {ℓ} (D : Type ℓ) ⦃d : Double D⦄ : Type ℓ where
  pub mul_whole : (a b : ℕ) → a * b ≤ 2 ^ 53 → d.mul (d.of_nat a) (d.of_nat b) ≡ d.of_nat (a * b)
  pub sub_whole :
      (a b : ℕ) → b ≤ a → a ≤ 2 ^ 53 → d.sub (d.of_nat a) (d.of_nat b) ≡ d.of_nat (a - b)
  pub finite_whole : (a : ℕ) → a ≤ 2 ^ 53 → d.is_finite (d.of_nat a) ≡ true
  pub gt_whole : (a b : ℕ) → a ≤ 2 ^ 53 → b ≤ 2 ^ 53 → d.gt (d.of_nat a) (d.of_nat b) ≡ ltb b a
  pub le_whole : (a b : ℕ) → a ≤ b → d.le (d.of_nat a) (d.of_nat b) ≡ true

module _ {ℓ} {D : Type ℓ} ⦃d : Double D⦄ where
  -- The constructor. `none` is an assertion that fails.
  unfoldable pub fraction : D → ℕ → Option (Fraction D)
  fraction numerator denominator =
      if d.le numerator (d.of_nat denominator)
      then some (record { num = numerator; denom = denominator })
      else none

  -- `operator double`
  abbrev pub to_double : Fraction D → D
  to_double f = d.div f.num (d.of_nat f.denom)

  -- `operator *`
  unfoldable pub times : Fraction D → Fraction D → Option (Fraction D)
  unfolding fraction
  times l r =
      let proj_num = d.mul l.num r.num in
      if not (d.is_finite proj_num)
        || d.gt proj_num (d.of_nat 1000000)
        || not (mul_is_safe l.denom r.denom)
      then fraction (d.mul (to_double l) r.num) r.denom
      else fraction (d.mul l.num r.num) (l.denom * r.denom % 2 ^ 64)

  -- Each call halves the exponent.
  unfoldable pub pow : ℕ → Fraction D → ℕ → Option (Fraction D)
  unfolding times
  pow zero l r = none
  pow (suc fuel) l r =
      let halved : Option (Fraction D) = (do
        half ← pow fuel l (r / 2)
        out ← times half half
        if r % 2 == 0 then some out else times out l) in
      if r == 0 then fraction (d.of_nat 1) 1 else if r == 1 then some l else halved

  unfoldable pub reverse : Fraction D → Option (Fraction D)
  unfolding fraction
  reverse f = fraction (d.sub (d.of_nat f.denom) f.num) f.denom

  abbrev pub whole : ℕ → ℕ → Fraction D
  whole n m = record { num = d.of_nat n; denom = m }
