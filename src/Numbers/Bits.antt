-- ===== src/Numbers/Bits.antt =====
-- What the test of two denominators tells of their product.
use native.Mathlib.Nat.{
  pow-le-pow_right, mul-le-mul, mul-le-mul_left, mul-lt-mul_of_pos_right, one-le-pow,
}
use native.Mathlib.Omega.{pow_step}
use cppkg.Base.{
  ℕ, zero, suc, ◌+◌, ◌*◌, ◌/◌, ◌%◌, ◌^◌, ◌≤◌, ◌<◌, ◌≡◌, refl, sym, ap, ◌∙◌, ◌⊎◌, inl, inr, arith,
  true, false, leb, ◌==◌, Bool-cases,
}
use cppkg.Numbers.Powers.{pow_add}
use cppkg.Numbers.{shift, highest_1bit, mul_is_safe}

-- `j` is the place of the highest bit of `val`.
Highest : ℕ → ℕ → Type 0
Highest val j = (2 ^ j ≤ val) × (val < 2 ^ suc j)

shift-Highest :
    (fuel val r : ℕ)
    → r + fuel ≤ 255
    → 0 < val
    → val < 2 ^ fuel
    → (j : ℕ) × (shift fuel val r ≡ r + j) × Highest val j
unfolding shift Highest
shift-Highest zero val r small some_bit fits = absurd (omega arith)
shift-Highest (suc fuel) val r small some_bit fits = elim (Bool-cases (val / 2 == 0)) [
  | inl last ↦ (0, rw last (omega arith), (omega (arith), ground (arith, last)))
  | inr more ↦
      let (j, counts, (low, high)) =
        shift-Highest fuel (val / 2) ((r + 1) % 2 ^ 8) (omega arith) (ground (arith, more))
          (omega (arith, pow_step 2 fuel)) in
      (
        suc j,
        rw more (omega (arith, counts)),
        (omega (arith, low, pow_step 2 j), omega (arith, high, pow_step 2 (suc j))),
      )
]

highest_1bit-Highest :
    (val : ℕ) → 0 < val → val < 2 ^ 64 → (j : ℕ) × (highest_1bit val ≡ j) × Highest val j
unfolding highest_1bit
highest_1bit-Highest val some_bit fits =
    let (j, counts, bits) = shift-Highest 64 val 0 (omega arith) some_bit fits in
    (j, omega (arith, counts), bits)

mul_high : (a b i j : ℕ) → 0 < b → a < 2 ^ suc i → b < 2 ^ suc j → i + j ≤ 64 → a * b < 2 ^ 66
mul_high a b i j some_bit high high' safe =
    let below = mul-lt-mul_of_pos_right high some_bit in
    let high_le : b ≤ 2 ^ suc j = omega (arith, high') in
    let up = mul-le-mul_left (2 ^ suc i) high_le in
    let sum_le : suc i + suc j ≤ 66 = omega (arith, safe) in
    let most = pow-le-pow_right {n = 2} (omega arith) sum_le in
    omega (arith, below, up, most, pow_add 2 (suc i) (suc j))

mul_low : (a b i j : ℕ) → 2 ^ i ≤ a → 2 ^ j ≤ b → 65 ≤ i + j → 2 ^ 65 ≤ a * b
mul_low a b i j low low' unsafe =
    let product = mul-le-mul low low' in
    let least = pow-le-pow_right {n = 2} (omega arith) unsafe in
    omega (arith, product, least, pow_add 2 i j)

-- If two denominators are positive numbers of 64 bits, then either the test accepts them and their
-- product is below 2 ^ 66, or it refuses them and their product is 2 ^ 65 or more.
pub mul_is_safe-bounds :
    (a b : ℕ)
    → 0 < a
    → 0 < b
    → a < 2 ^ 64
    → b < 2 ^ 64
    → ((mul_is_safe a b ≡ true) × (a * b < 2 ^ 66)) ⊎ ((mul_is_safe a b ≡ false) × (2 ^ 65 ≤ a * b))
unfolding mul_is_safe Highest
mul_is_safe-bounds a b some_a some_b fits fits' =
    let (i, counts, (low, high)) = highest_1bit-Highest a some_a fits in
    let (j, counts', (low', high')) = highest_1bit-Highest b some_b fits' in
    rw (counts, counts')
      (elim (Bool-cases (leb (i + j) 64)) [
        | inl safe ↦ inl (safe, mul_high a b i j some_b high high' (ground (arith, safe)))
        | inr unsafe ↦ inr (unsafe, mul_low a b i j low low' (ground (arith, unsafe)))
      ])

pow_small : (k : ℕ) → k < 64 → 2 ^ k < 2 ^ 64
pow_small k h =
    let next : suc k ≤ 64 = omega arith in
    let up = pow-le-pow_right {n = 2} (omega arith) next in
    omega (arith, up, pow_step 2 k, one-le-pow k 2 (omega arith))

-- If `i` and `j` add up to 64 and neither is 0, then the test accepts the denominators 2 ^ i and
-- 2 ^ j, whose product is 0 in 64 bits.
pub mul_is_safe-wraps :
    (i j : ℕ)
    → i + j ≡ 64
    → 0 < i
    → 0 < j
    → (mul_is_safe (2 ^ i) (2 ^ j) ≡ true) × ((2 ^ i * 2 ^ j) % 2 ^ 64 ≡ 0)
mul_is_safe-wraps i j sum some_i some_j =
    let product : 2 ^ i * 2 ^ j ≡ 2 ^ 64 = sym (pow_add 2 i j) ∙ ap (λ k. 2 ^ k) sum in
    elim (mul_is_safe-bounds (2 ^ i) (2 ^ j) (one-le-pow i 2 (omega arith))
      (one-le-pow j 2 (omega arith)) (pow_small i (omega arith)) (pow_small j (omega arith))) [
        | inl (safe, _) ↦ (safe, rw product refl)
        | inr (_, large) ↦ absurd (omega (arith, large, product))
      ]
