-- ===== src/Arrs/Tests.antt =====
-- Runs of ranges and joined lists, and the theorems about them.
use mathlib.Core.List.{flatten}
use cppkg.Base.{
  ℕ, ◌≡◌, refl, arith, List, [], ◌∷◌, some, none, ℤ, pos, negsuc, ◌+ℤ◌, length, get_elem?,
}
use cppkg.Arrs.{range, array_range, lconcat, rconcat, concat}
use cppkg.Arrs.Ranges.{concat-flatten, range_elements, range-concat}

range_runs :
    (range (pos 2) (pos 5) ≡ some (pos 2 ∷ pos 3 ∷ pos 4 ∷ []))
    × (range (negsuc 0) (pos 1) ≡ some (negsuc 0 ∷ pos 0 ∷ []))
    × (range (pos 5) (pos 2) ≡ none)
    × (array_range 3 (pos 2) ≡ some (pos 2 ∷ pos 3 ∷ pos 4 ∷ []))
unfolding range array_range
range_runs = (refl, refl, refl, refl)

abbrev first : List ℕ
first = 1 ∷ 2 ∷ []

concat-flatten_run :
    (concat first first (first ∷ []) ≡ flatten (first ∷ first ∷ first ∷ []))
    × (lconcat first first ≡ concat first first [])
    × (rconcat first first ≡ concat first first [])
    × (concat (lconcat first first) (flatten (first ∷ [])) [] ≡ concat first first (first ∷ []))
concat-flatten_run = concat-flatten first first (first ∷ [])

range_elements_run :
    (xs : List ℤ) × (range (negsuc 1) (pos 3) ≡ some xs)
    × (negsuc 1 +ℤ pos (length xs) ≡ pos 3)
    × (get_elem? xs 4 ≡ some (negsuc 1 +ℤ pos 4))
range_elements_run = range_elements (negsuc 1) (pos 3) 4 refl refl (omega arith)

range-concat_example :
    (xs : List ℤ) × (ys : List ℤ) × (range (negsuc 1) (pos 1) ≡ some xs)
    × (range (pos 1) (pos 3) ≡ some ys)
    × (range (negsuc 1) (pos 3) ≡ some (concat xs ys []))
range-concat_example = range-concat (negsuc 1) (pos 1) (pos 3) refl refl refl
