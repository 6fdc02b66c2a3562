-- ===== src/Diff/Myers/Overflow.antt =====
-- What `myers_diff` does when `IndexT` is too narrow for the arrays.
use native.Mathlib.Nat.{zero-add}
use cppkg.Base.{
  ℕ, zero, suc, ◌+◌, ◌*◌, ◌/◌, ◌^◌, ◌≤◌, ◌<◌, ◌≡◌, refl, ◌∙◌, arith, List, [], ◌++◌, Bool, true,
  false, ◌&&◌, inl, inr, Bool-cases, ltb, length, length-append, length-set, length-replicate,
  replicate, ℤ, pos, leb_ℤ, ◌+ℤ◌, ◌*ℤ◌, ◌-ℤ◌, int16, int16_pos, size, some, none,
}
use cppkg.Diff.Search.{n, m, max_edit, ncost, diagonals, rounds, max_size, myers_diff_trace}
use cppkg.Diff.Myers.{myers_diff_backtrace, walk_back, differences, myers_diff}

module _ {ℓ} {A : Type ℓ} (cmp : A → A → Bool) (orig updated : List A) where
  length-diagonals :
      (fuel : ℕ) (iedit k : ℤ) (costs : List ℤ) (cont : Bool)
      → length (diagonals cmp orig updated fuel iedit k costs cont).0 ≡ length costs
  unfolding diagonals
  length-diagonals zero iedit k costs cont = refl
  length-diagonals (suc fuel) iedit k costs cont = elim (Bool-cases (leb_ℤ k iedit && cont)) [
    | inl go ↦ rw go (length-diagonals fuel iedit _ _ _ ∙ length-set costs _ _)
    | inr end ↦ rw end
  ]

  length-rounds :
      (fuel : ℕ) (iedit : ℤ) (costs trace : List ℤ) (cont : Bool)
      → length (rounds cmp orig updated fuel iedit costs trace cont)
        ≤ length trace + fuel * length costs
  unfolding rounds
  length-rounds zero iedit costs trace cont = omega arith
  length-rounds (suc fuel) iedit costs trace cont =
      elim (Bool-cases (leb_ℤ iedit (max_edit cmp orig updated) && cont)) [
        | inl go ↦
            let after =
              diagonals cmp orig updated (length orig + length updated + 2) iedit
                (int16 (pos 0 -ℤ iedit)) costs true in
            let rest =
              length-rounds fuel (int16 (iedit +ℤ pos 1)) after.0 (trace ++ costs) after.1 in
            let same =
              length-diagonals (length orig + length updated + 2) iedit (int16 (pos 0 -ℤ iedit))
                costs true in
            rw go (
              bound
                (length (
                  rounds cmp orig updated fuel (int16 (iedit +ℤ pos 1)) after.0 (trace ++ costs)
                    after.1))
                (length trace) fuel (length costs) (rw (same, length-append) at rest))
        | inr end ↦ rw end (omega arith)
      ]
    where
      bound : (l t f c : ℕ) → l ≤ t + c + f * c → l ≤ t + suc f * c
      bound l t f c h = grind arith

times_mono : (a b c : ℕ) → a ≤ b → a * c ≤ b * c
times_mono a b c h = grind arith

few : (l s : ℕ) → l ≤ (s + 2) * (2 * s + 1) → s ≤ 32767 → l < 2 ^ 40
few l s h k = omega (arith, times_mono (s + 2) 32769 (2 * s + 1) (omega arith))

div_small : (l d : ℕ) → l < d → l / d ≡ 0
div_small l d h = grind arith

-- A sum between 16384 and 32767 makes the number of cells negative, as an `IndexT`.
no_rows : (l s : ℕ) → l < 2 ^ 40 → 16384 ≤ s → s ≤ 32767 → l / size (int16 (pos (2 * s + 1))) ≡ 0
unfolding int16 size
no_rows l s h low high = div_small l _ (ground arith)

module _ {ℓ} {A : Type ℓ} (cmp : A → A → Bool) (orig updated : List A) where
  module _ (low : 16384 ≤ length orig + length updated)
      (high : length orig + length updated ≤ 32767) where
    max_edit_fits : max_edit cmp orig updated ≡ pos (length orig + length updated)
    max_edit_fits =
        rw (int16_pos (length orig) (omega arith), int16_pos (length updated) (omega arith))
          (ground (arith, int16_pos (length orig + length updated)))

    ncost_fits : ncost cmp orig updated ≡ 2 * (length orig + length updated) + 1
    unfolding size
    ncost_fits = rw max_edit_fits (ground arith)

    -- The trace is as long as it should be.
    long_trace :
        (trace : List ℤ) × (myers_diff_trace cmp orig updated ≡ some trace)
        × (length trace < 2 ^ 40)
    unfolding myers_diff_trace
    long_trace =
        let costs = replicate (2 * (length orig + length updated) + 1) (pos 0) in
        let trace =
          rounds cmp orig updated (length orig + length updated + 2) (pos 0) costs [] true in
        let fits : ltb max_size (2 * (length orig + length updated) + 1) ≡ false = ground arith in
        let size =
          length-rounds cmp orig updated (length orig + length updated + 2) (pos 0) costs [] true in
        let wide = length-replicate (2 * (length orig + length updated) + 1) (pos 0) in
        (
          trace,
          rw (ncost_fits, fits),
          few (length trace) (length orig + length updated) (rw (wide, zero-add) at size) high,
        )

    narrow :
        pos 2 *ℤ (n cmp orig updated +ℤ m cmp orig updated) +ℤ pos 1
        ≡ pos (2 * (length orig + length updated) + 1)
    narrow =
        rw (int16_pos (length orig) (omega arith), int16_pos (length updated) (omega arith))
          (ground arith)

    no_points : myers_diff_backtrace cmp orig updated ≡ some []
    unfolding myers_diff_backtrace walk_back
    no_points =
        let (trace, runs, l) = long_trace in
        rw (
          runs,
          narrow,
          no_rows (length trace) (length orig + length updated) l low high,
          int16_pos 0 (omega arith),
        )

-- If the lengths add up to a number from 16384 to 32767, `myers_diff` returns no difference at
-- all, and no common element either, whatever the arrays hold.
pub myers_diff-overflow {ℓ} :
    {A : Type ℓ} (cmp : A → A → Bool) (orig updated : List A)
    → 16384 ≤ length orig + length updated
    → length orig + length updated ≤ 32767
    → myers_diff cmp orig updated ≡ some []
unfolding myers_diff differences
myers_diff-overflow cmp orig updated low high = rw (no_points cmp orig updated low high)

huge :
    (a b : ℕ)
    → a ≤ 32767
    → b ≤ 32767
    → 32768 ≤ a + b
    → ltb max_size (size (int16 (pos a +ℤ pos b) +ℤ int16 (pos a +ℤ pos b) +ℤ pos 1)) ≡ true
unfolding int16 size
huge a b ha hb h = ground arith

-- If neither array is longer than 32767 and together they are longer, the vector of costs is
-- asked for a negative length, and `myers_diff` throws.
pub myers_diff-throws {ℓ} :
    {A : Type ℓ} (cmp : A → A → Bool) (orig updated : List A)
    → length orig ≤ 32767
    → length updated ≤ 32767
    → 32768 ≤ length orig + length updated
    → myers_diff cmp orig updated ≡ none
unfolding myers_diff myers_diff_backtrace myers_diff_trace
myers_diff-throws cmp orig updated ha hb h = rw (
  int16_pos (length orig) (omega arith),
  int16_pos (length updated) (omega arith),
  huge (length orig) (length updated) ha hb h,
)
