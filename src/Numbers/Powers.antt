-- ===== src/Numbers/Powers.antt =====
-- Powers of native numbers.
use native.Mathlib.Nat.{pow-le-pow_right, pow-zero, mul_assoc}
use native.Mathlib.Omega.{pow_step}
use cppkg.Base.{ℕ, zero, suc, ◌+◌, ◌*◌, ◌/◌, ◌%◌, ◌^◌, ◌≤◌, ◌<◌, ◌≡◌, sym, ap, ◌∙◌, arith}

pub pow_add : (n i j : ℕ) → n ^ (i + j) ≡ n ^ i * n ^ j
pow_add n zero j =
    let start : 0 + j ≡ j = omega arith in
    let one : n ^ j ≡ n ^ 0 * n ^ j = rw (pow-zero n) (omega arith) in ap (λ k. n ^ k) start ∙ one
pow_add n (suc i) j =
    let next : suc i + j ≡ suc (i + j) = omega arith in
    ap (λ k. n ^ k) next
    ∙ pow_step n (i + j)
    ∙ ap (λ p. n * p) (pow_add n i j)
    ∙ sym (mul_assoc n (n ^ i) (n ^ j))
    ∙ ap (λ p. p * n ^ j) (sym (pow_step n i))

-- The exponent is halved and doubled again.
pub pow_even : (n r : ℕ) → r % 2 ≡ 0 → n ^ (r / 2) * n ^ (r / 2) ≡ n ^ r
pow_even n r even =
    let sum : r / 2 + r / 2 ≡ r = omega (arith, even) in
    sym (pow_add n (r / 2) (r / 2)) ∙ ap (λ k. n ^ k) sum

pub pow_one : (n : ℕ) → n ^ 1 ≡ n
pow_one n = pow_step n 0 ∙ rw (pow-zero n) (omega arith)

pub pow_odd : (n r : ℕ) → r % 2 ≡ 1 → n ^ (r / 2) * n ^ (r / 2) * n ≡ n ^ r
pow_odd n r odd =
    let sum : r / 2 + r / 2 + 1 ≡ r = omega (arith, odd) in
    ap (λ p. p * n) (sym (pow_add n (r / 2) (r / 2)))
    ∙ ap (λ p. n ^ (r / 2 + r / 2) * p) (sym (pow_one n))
    ∙ sym (pow_add n (r / 2 + r / 2) 1)
    ∙ ap (λ k. n ^ k) sum

pub pow-le : (n i j : ℕ) → 0 < n → i ≤ j → n ^ i ≤ n ^ j
pow-le n i j some_n h = pow-le-pow_right some_n h

zero-pow : (i : ℕ) → 0 < i → 0 ^ i ≡ 0
zero-pow zero h = absurd (omega arith)
zero-pow (suc i) h = omega (arith, pow_step 0 i)

-- The same of 0, but for its power to 0.
pub pow-le_pos : (n i j : ℕ) → 0 < i → i ≤ j → n ^ i ≤ n ^ j
pow-le_pos zero i j some_i h = omega (arith, zero-pow i some_i)
pow-le_pos (suc n) i j some_i h = pow-le (suc n) i j (omega arith) h
