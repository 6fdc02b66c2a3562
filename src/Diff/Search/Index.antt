-- ===== src/Diff/Search/Index.antt =====
-- The index arithmetic of the search, as long as no `IndexT` overflows.
use native.Mathlib.Decide.{dec_lt}
use native.Mathlib.Nat.{add-zero}
use cppkg.Base.{
  ℕ, suc, ◌+◌, ◌-◌, ◌*◌, ◌%◌, ◌^◌, ◌≤◌, ◌<◌, ◌≡◌, ◌≢◌, arith, ltb, if◌then◌else◌, ℤ, pos, sub_ℕ,
  ◌∙◌, ◌+ℤ◌, ◌-ℤ◌, ◌*ℤ◌, ◌%ℤ◌, Bool, not, ◌&&◌, ◌||◌, ◌==◌, int16, size, leb_ℤ, true, false,
}
use cppkg.Diff.Furthest.{choose}
use cppkg.Diff.Search.{slot, keeps_x}

pub int16_next : (x : ℕ) → x < 32767 → int16 (pos x +ℤ pos 1) ≡ pos (suc x)
unfolding int16
int16_next x h = ground arith

pub int16_prev : (x : ℕ) → x < 32768 → int16 (pos (suc x) -ℤ pos 1) ≡ pos x
unfolding int16
int16_prev x h = ground arith

pub int16_suc : (x : ℕ) → x < 32767 → int16 (pos x +ℤ pos 1) ≡ pos (x + 1)
unfolding int16
int16_suc x h = ground arith

-- The diagonal k = 2 j - d, and its cell.
abbrev pub diag : ℕ → ℕ → ℤ
diag d j = sub_ℕ (2 * j) d

abbrev pub spot : ℕ → ℕ → ℕ → ℕ
spot w d j = if ltb (2 * j) d then w + 2 * j - d else 2 * j - d

pub spot-lt : (s d j : ℕ) → d ≤ s → j ≤ d → spot (2 * s + 1) d j < 2 * s + 1
spot-lt s d j h k = ground arith

-- Neighbouring diagonals, and those of one edit, have different cells.
pub spot_ne :
    (s d i j : ℕ)
    → suc d ≤ s
    → i ≤ suc d
    → j ≤ d
    → spot (2 * s + 1) (suc d) i ≢ spot (2 * s + 1) d j
spot_ne s d i j h k l e = ground arith

pub spot_apart : (s d i j : ℕ) → d ≤ s → i < j → j ≤ d → spot (2 * s + 1) d j ≢ spot (2 * s + 1) d i
spot_apart s d i j h k l e = ground arith

slot_mod : (w a b : ℕ) → b ≤ w + a → w + a < 2 ^ 64 → slot w (sub_ℕ a b) ≡ (w + a - b) % w
unfolding slot size
slot_mod w a b h k = ground arith

mod_small : (x w : ℕ) → x < w → x % w ≡ x
mod_small x w h = grind arith

mod_wrap : (x w : ℕ) → x < w → (w + x) % w ≡ x
mod_wrap x w h = grind arith

pub mod-lt : (x w : ℕ) → 0 < w → x % w < w
mod-lt x w h = omega arith

times : (a b : ℕ) → pos a *ℤ pos b ≡ pos (a * b)
times a b = ground arith

plus : (a b : ℕ) → pos a +ℤ pos b ≡ pos (a + b)
plus a b = ground arith

plus_sub : (w a b : ℕ) → b ≤ w + a → pos w +ℤ sub_ℕ a b ≡ pos (w + a - b)
plus_sub w a b h = ground arith

mod_pos : (a b : ℕ) → pos a %ℤ pos b ≡ pos (a % b)
unfolding ◌%ℤ◌
mod_pos a b = rw add-zero

-- A cell of the flattened trace.
pub index_lem :
    (w e a b : ℕ)
    → b ≤ w + a
    → pos e *ℤ pos w +ℤ (pos w +ℤ sub_ℕ a b) %ℤ pos w ≡ pos (e * w + (w + a - b) % w)
index_lem w e a b h =
    rw (plus_sub w a b h, mod_pos (w + a - b) w, times e w) (plus (e * w) ((w + a - b) % w))

pub spot_mod :
    (s d j : ℕ) → d ≤ s → j ≤ d → (2 * s + 1 + 2 * j - d) % (2 * s + 1) ≡ spot (2 * s + 1) d j
spot_mod s d j h k = elim (dec_lt (2 * j) d) [
  | yes p ↦ ground (arith, mod_small (2 * s + 1 + 2 * j - d) (2 * s + 1))
  | no p ↦
      let e : 2 * s + 1 + 2 * j - d ≡ 2 * s + 1 + (2 * j - d) = omega arith in
      rw e (ground (arith, mod_wrap (2 * j - d) (2 * s + 1)))
]

pub slot-diag :
    (s d j : ℕ) → d ≤ s → j ≤ d → s ≤ 16383 → slot (2 * s + 1) (diag d j) ≡ spot (2 * s + 1) d j
slot-diag s d j h k l =
    slot_mod (2 * s + 1) (2 * j) d (omega arith) (omega arith) ∙ spot_mod s d j h k

-- The neighbours of a diagonal belong to the edit before.
pub diag_left : (d j : ℕ) → 1 ≤ j → diag (suc d) j -ℤ pos 1 ≡ diag d (j - 1)
diag_left d j h = ground arith

pub diag_right : (d j : ℕ) → diag (suc d) j +ℤ pos 1 ≡ diag d j
diag_right d j = ground arith

pub diag_before : (d j : ℕ) → diag d j -ℤ pos 1 ≡ sub_ℕ (2 * j) (suc d)
diag_before d j = ground arith

-- The diagonal of a point.
pub diag_of :
    (x d j : ℕ)
    → 2 * j ≤ x + d
    → d ≤ 16383
    → j ≤ d
    → int16 (pos x -ℤ pos (x + d - 2 * j)) ≡ diag d j
unfolding int16
diag_of x d j h k l = ground arith

pub diag_next : (d j : ℕ) → d ≤ 16383 → j ≤ d → int16 (diag d j +ℤ pos 2) ≡ diag d (suc j)
unfolding int16
diag_next d j h k = ground arith

pub diag_in : (d j : ℕ) → j ≤ d → leb_ℤ (diag d j) (pos d) ≡ true
diag_in d j h = ground arith

pub first_diag : (d : ℕ) → d ≤ 16383 → int16 (pos 0 -ℤ pos d) ≡ diag d 0
unfolding int16
first_diag d h = ground arith

pub diag_out : (d : ℕ) → leb_ℤ (diag d (suc d)) (pos d) ≡ false
diag_out d = ground arith

-- The y that goes with an x on a diagonal.
pub int16_row :
    (x d j : ℕ)
    → 2 * j ≤ x + d
    → x + d - 2 * j < 32768
    → int16 (pos x -ℤ diag d j) ≡ pos (x + d - 2 * j)
unfolding int16
int16_row x d j h k = ground arith

-- The choice that `choose` makes.
abbrev pub keeps : ℕ → ℕ → ℕ → ℕ → Bool
keeps d j left here = (j == 0) || (not (j == d) && ltb left here)

pub keeps_x-keeps :
    (d j a b : ℕ) (p q : ℤ)
    → (1 ≤ j → p ≡ pos a)
    → (j ≤ d → q ≡ pos b)
    → j ≤ suc d
    → keeps_x (pos (suc d)) (diag (suc d) j) p q ≡ keeps (suc d) j a b
unfolding keeps_x
keeps_x-keeps d j a b p q hp hq h = ground arith

pub pick :
    (d j a b : ℕ) (p q : ℤ)
    → (1 ≤ j → p ≡ pos a)
    → (j ≤ d → q ≡ pos b)
    → j ≤ suc d
    → a < 32767
    → (if keeps_x (pos (suc d)) (diag (suc d) j) p q then q else int16 (p +ℤ pos 1))
      ≡ pos (choose (suc d) j a b)
unfolding keeps_x choose int16
pick d j a b p q hp hq h k = ground arith
