-- ===== src/Numbers.antt =====
-- cppkg/numbers/decimal.cc: the test of two denominators before they are multiplied. Numbers are
-- `uint64_t`, and the count of bits is `uint8_t`. The loop has 64 rounds of fuel, one a bit.
pub mod Powers
pub mod Bits
pub mod Fraction
mod Tests
use cppkg.Base.{ℕ, zero, suc, ◌+◌, ◌/◌, ◌%◌, ◌^◌, Bool, if◌then◌else◌, leb, ◌==◌}

-- `while (val >>= 1) { r++; }`
unfoldable pub shift : ℕ → ℕ → ℕ → ℕ
shift zero val r = r
shift (suc fuel) val r =
    let rest = shift fuel (val / 2) ((r + 1) % 2 ^ 8) in if val / 2 == 0 then r else rest

unfoldable pub highest_1bit : ℕ → ℕ
highest_1bit val = shift 64 val 0

unfoldable pub mul_is_safe : ℕ → ℕ → Bool
mul_is_safe a b =
    let a_bits = highest_1bit a in let b_bits = highest_1bit b in leb (a_bits + b_bits) 64
