-- ===== src/Diff/Search.antt =====
-- cppkg/diff/myers_diff.h: the greedy search of `myers_diff_trace` and `myers_diff_min_edit`.
-- Indices are `int16_t` (`IndexT`): an assignment to one goes through `int16`. Reading an array
-- before its first element is undefined in the source; here it ends the diagonal. The loops have
-- fuel: `length orig` for a diagonal, and `length orig + length updated + 2` for the others.
pub mod Index
pub mod Level
pub mod Rows
pub mod Rounds
use cppkg.Base.{
  ℕ, zero, suc, ◌+◌, ◌-◌, ◌%◌, ◌^◌, List, [], ◌∷◌, ◌++◌, Option, none, some, Bool, true, false, not,
  ◌&&◌, ◌||◌, if◌then◌else◌, ltb, length, get_elem?, get_or, set, replicate, ℤ, pos, negsuc, ◌+ℤ◌,
  ◌-ℤ◌, ltb_ℤ, leb_ℤ, eqb_ℤ, int16, size,
}

-- `*std::next(begin, i)`, and `v[i]` for a signed `i`.
abbrev pub deref {ℓ} : {A : Type ℓ} → List A → ℤ → Option A
deref xs (pos i) = get_elem? xs i
deref xs (negsuc i) = none

-- The cell of `costs` for diagonal `k`: `(ncost + k) % ncost` in `size_t`.
unfoldable pub slot : ℕ → ℤ → ℕ
slot ncost k = size (pos ncost +ℤ k) % ncost

-- Does the edit keep x, taking the end on diagonal k + 1?
unfoldable pub keeps_x : ℤ → ℤ → ℤ → ℤ → Bool
keeps_x iedit k prevk nextk = eqb_ℤ k (pos 0 -ℤ iedit) || (not (eqb_ℤ k iedit) && ltb_ℤ prevk nextk)

-- `std::vector<int16_t>::max_size()`, beyond which its constructor throws `std::length_error`.
abbrev pub max_size : ℕ
max_size = 2 ^ 62 - 1

module _ {ℓ} {A : Type ℓ} (cmp : A → A → Bool) (orig updated : List A) where
  unfoldable pub same : ℤ → ℤ → Bool
  same x y = elim (deref orig x) [
    | none ↦ false
    | some a ↦ elim (deref updated y) [ none ↦ false | some b ↦ cmp a b ]
  ]

  abbrev pub n : ℤ
  n = int16 (pos (length orig))

  abbrev pub m : ℤ
  m = int16 (pos (length updated))

  abbrev pub max_edit : ℤ
  max_edit = int16 (n +ℤ m)

  abbrev pub ncost : ℕ
  ncost = size (max_edit +ℤ max_edit +ℤ pos 1)

  -- `while (x < n && y < m && comparator(...)) { ++x; ++y; }`
  unfoldable pub slide : ℕ → ℤ → ℤ → ℤ × ℤ
  slide zero x y = (x, y)
  slide (suc fuel) x y =
      let rest = slide fuel (int16 (x +ℤ pos 1)) (int16 (y +ℤ pos 1)) in
      if ltb_ℤ x n && (ltb_ℤ y m && same x y) then rest else (x, y)

  -- The x and the y at which edit number `iedit` ends on diagonal `k`.
  unfoldable pub reach : List ℤ → ℤ → ℤ → ℤ × ℤ
  unfolding keeps_x slot
  reach costs iedit k =
      let prevk = get_or costs (slot ncost (k -ℤ pos 1)) (pos 0) in
      let nextk = get_or costs (slot ncost (k +ℤ pos 1)) (pos 0) in
      let x = if keeps_x iedit k prevk nextk then nextk else int16 (prevk +ℤ pos 1) in
      slide (length orig) x (int16 (x -ℤ k))

  -- The loop over the diagonals of one edit; it leaves `costs` and `cont`.
  unfoldable pub diagonals : ℕ → ℤ → ℤ → List ℤ → Bool → List ℤ × Bool
  unfolding reach
  diagonals zero iedit k costs cont = (costs, cont)
  diagonals (suc fuel) iedit k costs cont =
      let end = reach costs iedit k in
      let rest =
        diagonals fuel iedit (int16 (k +ℤ pos 2)) (set costs (slot ncost k) end.0)
          (ltb_ℤ end.0 n || ltb_ℤ end.1 m) in
      if leb_ℤ k iedit && cont then rest else (costs, cont)

  -- The loop over the edits, each of which first appends `costs` to the trace.
  unfoldable pub rounds : ℕ → ℤ → List ℤ → List ℤ → Bool → List ℤ
  unfolding diagonals
  rounds zero iedit costs trace cont = trace
  rounds (suc fuel) iedit costs trace cont =
      let after =
        diagonals (length orig + length updated + 2) iedit (int16 (pos 0 -ℤ iedit)) costs true in
      let rest = rounds fuel (int16 (iedit +ℤ pos 1)) after.0 (trace ++ costs) after.1 in
      if leb_ℤ iedit max_edit && cont then rest else trace

  -- `none` is the `std::length_error` of a vector that is too long.
  unfoldable pub myers_diff_trace : Option (List ℤ)
  unfolding rounds
  myers_diff_trace =
      let costs = replicate ncost (pos 0) in
      if ltb max_size ncost
      then none
      else some (rounds (length orig + length updated + 2) (pos 0) costs [] true)

  -- The loop over the diagonals as `myers_diff_min_edit` writes it; it leaves `min_edits` too.
  unfoldable pub diagonals_min : ℕ → ℤ → ℤ → List ℤ → Bool → ℤ → List ℤ × Bool × ℤ
  unfolding reach
  diagonals_min zero iedit k costs cont min_edits = (costs, cont, min_edits)
  diagonals_min (suc fuel) iedit k costs cont min_edits =
      let end = reach costs iedit k in
      let hit = leb_ℤ n end.0 && leb_ℤ m end.1 in
      let rest =
        diagonals_min fuel iedit (int16 (k +ℤ pos 2)) (set costs (slot ncost k) end.0)
          (if hit then false else cont) (if hit then iedit else min_edits) in
      if leb_ℤ k iedit && cont then rest else (costs, cont, min_edits)

  unfoldable pub rounds_min : ℕ → ℤ → List ℤ → Bool → ℤ → ℤ
  unfolding diagonals_min
  rounds_min zero iedit costs cont min_edits = min_edits
  rounds_min (suc fuel) iedit costs cont min_edits =
      let after =
        diagonals_min (length orig + length updated + 2) iedit (int16 (pos 0 -ℤ iedit)) costs true
          min_edits in
      let rest = rounds_min fuel (int16 (iedit +ℤ pos 1)) after.0 after.1 after.2 in
      if ltb_ℤ iedit max_edit && cont then rest else min_edits

  unfoldable pub myers_diff_min_edit : Option ℕ
  unfolding rounds_min
  myers_diff_min_edit =
      let costs = replicate ncost (pos 0) in
      if ltb max_size ncost
      then none
      else some (size (rounds_min (length orig + length updated + 2) (pos 0) costs true max_edit))
