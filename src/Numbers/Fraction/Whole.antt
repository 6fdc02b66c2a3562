-- ===== src/Numbers/Fraction/Whole.antt =====
-- Fractions with a whole numerator.
use native.Mathlib.Nat.{mul-le-mul, one-le-pow, pow-le-pow_left, pow-zero}
use native.Mathlib.Omega.{pow_step}
use cppkg.Base.{
  ℕ, zero, suc, ◌+◌, ◌-◌, ◌*◌, ◌/◌, ◌%◌, ◌^◌, ◌≤◌, ◌<◌, ◌≡◌, refl, sym, ap, ap₂, ◌∙◌, inl, inr,
  arith, Option, some, true, false, if◌then◌else◌, ◌>>=◌, ltb, ◌==◌, Bool-cases, ==_iff,
}
use cppkg.Numbers.{mul_is_safe}
use cppkg.Numbers.Bits.{mul_is_safe-bounds}
use cppkg.Numbers.Powers.{pow_add, pow_one, pow_even, pow_odd, pow-le, pow-le_pos}
use cppkg.Numbers.Fraction.{Double, Fraction, IsExact, fraction, times, pow, reverse, whole}

mul_is_safe_small :
    (a b : ℕ) → 0 < a → 0 < b → a < 2 ^ 64 → b < 2 ^ 64 → a * b < 2 ^ 64 → mul_is_safe a b ≡ true
mul_is_safe_small a b some_a some_b fits fits' product =
    elim (mul_is_safe-bounds a b some_a some_b fits fits') [
      | inl (safe, _) ↦ safe
      | inr (_, large) ↦ absurd (omega (arith, large, product))
    ]

module _ {ℓ} {D : Type ℓ} ⦃d : Double D⦄ (exact : IsExact D) where
  fraction-whole : (n m : ℕ) → n ≤ m → fraction {D = D} (d.of_nat n) m ≡ some (whole {D = D} n m)
  unfolding fraction
  fraction-whole n m h = rw (exact.le_whole n m h) refl

  times-whole :
      (a b m n : ℕ)
      → a ≤ m
      → b ≤ n
      → 0 < m
      → 0 < n
      → m < 2 ^ 64
      → n < 2 ^ 64
      → a * b ≤ 1000000
      → m * n < 2 ^ 64
      → times {D = D} (whole {D = D} a m) (whole {D = D} b n) ≡ some (whole {D = D} (a * b) (m * n))
  unfolding times
  times-whole a b m n am bn some_m some_n fits fits' small product =
      let below : a * b ≤ 2 ^ 53 = omega (arith, small) in
      let not_gt : ltb 1000000 (a * b) ≡ false = ground (arith, small) in
      let wrap : m * n % 2 ^ 64 ≡ m * n = omega (arith, product) in
      rw
        (
          exact.mul_whole a b below,
          exact.finite_whole (a * b) below,
          exact.gt_whole (a * b) 1000000 below (omega arith),
          not_gt,
          mul_is_safe_small m n some_m some_n fits fits' product,
          wrap,
        )
        (fraction-whole (a * b) (m * n) (mul-le-mul am bn))

  reverse-whole :
      (n m : ℕ)
      → n ≤ m
      → m ≤ 2 ^ 53
      → reverse {D = D} (whole {D = D} n m) ≡ some (whole {D = D} (m - n) m)
  unfolding reverse
  reverse-whole n m h small =
      rw (exact.sub_whole m n h small) (fraction-whole (m - n) m (omega arith))

  one_one : fraction {D = D} (d.of_nat 1) 1 ≡ some (whole {D = D} 1 1)
  one_one = fraction-whole 1 1 (omega arith)

  half_pos : (r : ℕ) → 2 ≤ r → 0 < r / 2
  half_pos r h = omega arith

  -- The square of the half, for an exponent of 2 or more.
  square_whole :
      (n m r : ℕ)
      → n ≤ m
      → 0 < m
      → 2 ≤ r
      → n ^ r ≤ 1000000
      → m ^ r < 2 ^ 64
      → times {D = D}
          (whole {D = D} (n ^ (r / 2)) (m ^ (r / 2)))
          (whole {D = D} (n ^ (r / 2)) (m ^ (r / 2)))
        ≡ some (whole {D = D} (n ^ (r / 2) * n ^ (r / 2)) (m ^ (r / 2) * m ^ (r / 2)))
  square_whole n m r h some_m two small fits =
      let below = pow-le-pow_left h (r / 2) in
      let some_pow = one-le-pow (r / 2) m some_m in
      let fits_half = pow-le m (r / 2) r some_m (omega arith) in
      let num = pow-le_pos n (r / 2 + r / 2) r (omega arith) (omega arith) in
      let denom = pow-le m (r / 2 + r / 2) r some_m (omega arith) in
      times-whole (n ^ (r / 2)) (n ^ (r / 2)) (m ^ (r / 2)) (m ^ (r / 2)) below below some_pow
        some_pow (omega (arith, fits_half, fits)) (omega (arith, fits_half, fits))
        (omega (arith, num, small, pow_add n (r / 2) (r / 2)))
        (omega (arith, denom, fits, pow_add m (r / 2) (r / 2)))

  -- For an odd exponent, the square once more.
  odd_whole :
      (n m r : ℕ)
      → n ≤ m
      → 0 < m
      → 2 ≤ r
      → r % 2 ≡ 1
      → n ^ r ≤ 1000000
      → m ^ r < 2 ^ 64
      → times {D = D}
          (whole {D = D} (n ^ (r / 2) * n ^ (r / 2)) (m ^ (r / 2) * m ^ (r / 2)))
          (whole {D = D} n m)
        ≡ some (whole {D = D} (n ^ r) (m ^ r))
  odd_whole n m r h some_m two odd small fits =
      let below = pow-le-pow_left h (r / 2) in
      let some_pow = one-le-pow (r / 2 + r / 2) m some_m in
      let denom = pow-le m (r / 2 + r / 2) r some_m (omega arith) in
      let one = pow-le m 1 r some_m (omega arith) in
      times-whole (n ^ (r / 2) * n ^ (r / 2)) n (m ^ (r / 2) * m ^ (r / 2)) m
        (mul-le-mul below below) h (omega (arith, some_pow, pow_add m (r / 2) (r / 2))) some_m
        (omega (arith, denom, fits, pow_add m (r / 2) (r / 2)))
        (omega (arith, one, fits, pow_one m)) (omega (arith, small, pow_odd n r odd))
        (omega (arith, fits, pow_odd m r odd))
      ∙ ap₂ (λ a b. some (whole {D = D} a b)) (pow_odd n r odd) (pow_odd m r odd)

  even_whole :
      (n m r : ℕ)
      → r % 2 ≡ 0
      → some (whole {D = D} (n ^ (r / 2) * n ^ (r / 2)) (m ^ (r / 2) * m ^ (r / 2)))
        ≡ some (whole {D = D} (n ^ r) (m ^ r))
  even_whole n m r even =
      ap₂ (λ a b. some (whole {D = D} a b)) (pow_even n r even) (pow_even m r even)

  -- What the exponent is to the loop.
  pow_cases :
      (n m r : ℕ) (rest : Option (Fraction D))
      → n ≤ m
      → (2 ≤ r → rest ≡ some (whole {D = D} (n ^ r) (m ^ r)))
      → (if r == 0
          then fraction {D = D} (d.of_nat 1) 1
          else if r == 1
          then some (whole {D = D} n m)
          else rest)
        ≡ some (whole {D = D} (n ^ r) (m ^ r))
  pow_cases n m zero rest h more = rw (pow-zero n, pow-zero m) one_one
  pow_cases n m (suc zero) rest h more =
      ap₂ (λ a b. some (whole {D = D} a b)) (sym (pow_one n)) (sym (pow_one m))
  pow_cases n m (suc (suc r)) rest h more =
      let not_zero : (suc (suc r) == 0) ≡ false = ground arith in
      let not_one : (suc (suc r) == 1) ≡ false = ground arith in
      rw (not_zero, not_one) (more (omega arith))

  -- If a fraction has a whole numerator, which is not above its denominator, then its power is the
  -- fraction of the powers, as long as the numerator stays at a million at most and the denominator
  -- below 2 ^ 64; and one call more than the exponent has binary digits is enough.
  pub pow-whole :
      (fuel n m r : ℕ)
      → n ≤ m
      → 0 < m
      → r < 2 ^ fuel
      → n ^ r ≤ 1000000
      → m ^ r < 2 ^ 64
      → pow {D = D} (suc fuel) (whole {D = D} n m) r ≡ some (whole {D = D} (n ^ r) (m ^ r))
  unfolding pow
  pow-whole zero n m r h some_m enough small fits =
      pow_cases n m r _ h (λ two. absurd (omega arith))
  pow-whole (suc fuel) n m r h some_m enough small fits = pow_cases n m r _ h λ two.
      let num = pow-le_pos n (r / 2) r (omega (arith, two)) (omega arith) in
      let denom = pow-le m (r / 2) r some_m (omega arith) in
      let half =
        pow-whole fuel n m (r / 2) h some_m (omega (arith, enough, pow_step 2 fuel))
          (omega (arith, num, small)) (omega (arith, denom, fits)) in
      rw half (
        rw (square_whole n m r h some_m two small fits) (elim (Bool-cases (r % 2 == 0)) [
          | inl even ↦ rw even (even_whole n m r ((==_iff _ _).0 even))
          | inr odd ↦ rw odd (odd_whole n m r h some_m two (ground (arith, odd)) small fits)
        ]))

  -- To reverse a fraction with a whole numerator, which is not above its denominator, and not above
  -- 2 ^ 53, twice gives the fraction again.
  pub reverse-reverse :
      (n m : ℕ)
      → n ≤ m
      → m ≤ 2 ^ 53
      → (reverse {D = D} (whole {D = D} n m) ≡ some (whole {D = D} (m - n) m))
        × ((reverse {D = D} (whole {D = D} n m) >>= reverse {D = D}) ≡ some (whole {D = D} n m))
  unfolding reverse
  reverse-reverse n m h small =
      let first = reverse-whole n m h small in
      let back : m - (m - n) ≡ n = omega (arith, h) in
      (
        first,
        rw first
            (reverse-whole (m - n) m (omega arith) small ∙ ap (λ k. some (whole {D = D} k m)) back),
      )
