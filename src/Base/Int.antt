-- ===== src/Base/Int.antt =====
-- Signed integers over the native numbers, and the two machine types that the code converts
-- between: `int16_t`, which it calls `IndexT`, and `size_t`.
use Prim.Native.Nat.{ℕ, suc, ◌+◌, ◌-◌, ◌*◌, ◌%◌, ◌^◌, ◌≤◌, ◌<◌}
use mathlib.Core.Path.{◌≡◌}
use mathlib.Core.Bool.{Bool}
use native.Mathlib.Omega.{arith}
use cppkg.Base.Tests.{ltb, leb, ◌==◌, if◌then◌else◌}

-- `negsuc n` is -(n + 1).
pub data ℤ : Type 0 where
  pos : ℕ → ℤ
  negsuc : ℕ → ℤ

abbrev pub pos_part : ℤ → ℕ
pos_part (pos n) = n
pos_part (negsuc n) = 0

abbrev pub neg_part : ℤ → ℕ
neg_part (pos n) = 0
neg_part (negsuc n) = suc n

-- a - b, as an integer.
abbrev pub sub_ℕ : ℕ → ℕ → ℤ
sub_ℕ a b = if leb b a then pos (a - b) else negsuc (b - a - 1)

infixl 65 ◌+ℤ◌ ◌-ℤ◌
abbrev pub ◌+ℤ◌ : ℤ → ℤ → ℤ
a +ℤ b = sub_ℕ (pos_part a + pos_part b) (neg_part a + neg_part b)

abbrev pub ◌-ℤ◌ : ℤ → ℤ → ℤ
a -ℤ b = sub_ℕ (pos_part a + neg_part b) (neg_part a + pos_part b)

infixl 70 ◌*ℤ◌ ◌%ℤ◌
abbrev pub ◌*ℤ◌ : ℤ → ℤ → ℤ
a *ℤ b =
    sub_ℕ (pos_part a * pos_part b + neg_part a * neg_part b)
      (pos_part a * neg_part b + neg_part a * pos_part b)

-- The remainder of `int` division, which has the sign of the dividend.
unfoldable pub ◌%ℤ◌ : ℤ → ℤ → ℤ
pos a %ℤ b = pos (a % (pos_part b + neg_part b))
negsuc a %ℤ b = sub_ℕ 0 (suc a % (pos_part b + neg_part b))

abbrev pub ltb_ℤ : ℤ → ℤ → Bool
ltb_ℤ a b = ltb (pos_part a + neg_part b) (pos_part b + neg_part a)

abbrev pub leb_ℤ : ℤ → ℤ → Bool
leb_ℤ a b = leb (pos_part a + neg_part b) (pos_part b + neg_part a)

abbrev pub eqb_ℤ : ℤ → ℤ → Bool
eqb_ℤ a b = (pos_part a + neg_part b) == (pos_part b + neg_part a)

-- The residue modulo 2 ^ 16, read in two's complement: an assignment to an `int16_t`.
unfoldable pub int16 : ℤ → ℤ
int16 (pos n) = if ltb (n % 65536) 32768 then pos (n % 65536) else negsuc (65535 - n % 65536)
int16 (negsuc n) = if ltb (n % 65536) 32768 then negsuc (n % 65536) else pos (65535 - n % 65536)

-- The residue modulo 2 ^ 64: a conversion to `size_t`.
unfoldable pub size : ℤ → ℕ
size (pos n) = n % 2 ^ 64
size (negsuc n) = 2 ^ 64 - 1 - n % 2 ^ 64

pub int16_pos : (n : ℕ) → n < 32768 → int16 (pos n) ≡ pos n
unfolding int16
int16_pos n h = ground arith

pub int16_sub : (a b : ℕ) → a < 32768 + b → b ≤ 32768 + a → int16 (sub_ℕ a b) ≡ sub_ℕ a b
unfolding int16
int16_sub a b h k = ground arith

pub size_sub : (a b : ℕ) → b ≤ a → a < 2 ^ 64 → size (sub_ℕ a b) ≡ a - b
unfolding size
size_sub a b h k = ground arith
