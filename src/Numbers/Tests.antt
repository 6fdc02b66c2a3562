-- ===== src/Numbers/Tests.antt =====
-- Runs of the test of two denominators, and the theorems about it.
use cppkg.Numbers.Fraction
use cppkg.Numbers.Fraction.{Double, IsExact, whole, reverse}
use cppkg.Numbers.Fraction.Whole.{pow-whole, reverse-reverse}
use cppkg.Base.{
  ℕ, ◌-◌, ◌/◌, some, ltb, leb, le→leb, ◌>>=◌, ◌*◌, ◌%◌, ◌^◌, ◌<◌, ◌≤◌, ◌≡◌, ◌⊎◌, refl, arith, true,
  false,
}
use cppkg.Numbers.{shift, highest_1bit, mul_is_safe}
use cppkg.Numbers.Bits.{mul_is_safe-bounds, mul_is_safe-wraps}

highest_1bit_runs : (highest_1bit 1 ≡ 0) × (highest_1bit 255 ≡ 7) × (highest_1bit 256 ≡ 8)
unfolding highest_1bit shift
highest_1bit_runs = (refl, refl, refl)

mul_is_safe-bounds_example :
    ((mul_is_safe 1000 3000 ≡ true) × (1000 * 3000 < 2 ^ 66))
    ⊎ ((mul_is_safe 1000 3000 ≡ false) × (2 ^ 65 ≤ 1000 * 3000))
mul_is_safe-bounds_example =
    mul_is_safe-bounds 1000 3000 (omega arith) (omega arith) (omega arith) (omega arith)

mul_is_safe-wraps_run : (mul_is_safe (2 ^ 32) (2 ^ 32) ≡ true) × ((2 ^ 32 * 2 ^ 32) % 2 ^ 64 ≡ 0)
mul_is_safe-wraps_run = mul_is_safe-wraps 32 32 refl (omega arith) (omega arith)

-- Whole numbers, with a division that rounds down.
instance abbrev nat_double : Double ℕ
nat_double = record {
  of_nat = λ n. n;
  mul = λ a b. a * b;
  div = λ a b. a / b;
  sub = λ a b. a - b;
  is_finite = λ a. true;
  gt = λ a b. ltb b a;
  le = λ a b. leb a b;
}

nat_double-IsExact : IsExact ℕ
nat_double-IsExact = record {
  mul_whole = λ a b h. refl;
  sub_whole = λ a b h h'. refl;
  finite_whole = λ a h. refl;
  gt_whole = λ a b h h'. refl;
  le_whole = λ a b h. le→leb a b h;
}

three_quarters : Fraction.pow {D = ℕ} 4 (whole {D = ℕ} 3 4) 5 ≡ some (whole {D = ℕ} 243 1024)
unfolding Fraction.pow mul_is_safe highest_1bit shift
three_quarters = refl

pow-whole_example :
    Fraction.pow {D = ℕ} 4 (whole {D = ℕ} 3 4) 5 ≡ some (whole {D = ℕ} (3 ^ 5) (4 ^ 5))
pow-whole_example =
    pow-whole nat_double-IsExact 3 3 4 5 (omega arith) (omega arith) (omega arith) (omega arith)
      (omega arith)

reverse-reverse_run :
    (reverse {D = ℕ} (whole {D = ℕ} 1 4) ≡ some (whole {D = ℕ} (4 - 1) 4))
    × ((reverse {D = ℕ} (whole {D = ℕ} 1 4) >>= reverse {D = ℕ}) ≡ some (whole {D = ℕ} 1 4))
reverse-reverse_run = reverse-reverse nat_double-IsExact 1 4 (omega arith) (omega arith)
