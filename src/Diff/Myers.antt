-- ===== src/Diff/Myers.antt =====
-- cppkg/diff/myers_diff.h: the walk back through the trace, and the list of differences. Where the
-- source reads outside an array, which is undefined there, the model gives `none`.
pub mod Points
pub mod Back
pub mod Way
pub mod Result
pub mod Correct
pub mod Minimal
pub mod MinEdit
pub mod Overflow
use mathlib.Core.List.{reverse}
use mathlib.Core.Option
use cppkg.Base.{
  ◌>>=◌, ℕ, zero, suc, ◌/◌, List, [], ◌∷◌, ◌++◌, Option, none, some, Bool, ◌&&◌, if◌then◌else◌, ltb,
  length, ℤ, pos, negsuc, ◌+ℤ◌, ◌-ℤ◌, ◌*ℤ◌, ◌%ℤ◌, ltb_ℤ, eqb_ℤ, pos_part, int16, size,
}
use cppkg.Diff.Search.{deref, keeps_x, n, m, myers_diff_trace}

pub data Action : Type 0 where
  eq add del : Action

pub record Diff {ℓ} (A : Type ℓ) : Type ℓ where
  pub val : A
  pub orig : ℤ
  pub updated : ℤ
  pub action : Action

module _ {ℓ} {A : Type ℓ} (cmp : A → A → Bool) (orig updated : List A) where
  -- `while (x > prev_x && y > prev_y) points.push_back({--x, --y});`
  unfoldable pub retrace : ℕ → ℤ → ℤ → ℤ → ℤ → List (ℤ × ℤ)
  retrace zero x y prev_x prev_y = []
  retrace (suc fuel) x y prev_x prev_y =
      let x' = int16 (x -ℤ pos 1) in
      let y' = int16 (y -ℤ pos 1) in
      let rest = (x', y') ∷ retrace fuel x' y' prev_x prev_y in
      if ltb_ℤ prev_x x && ltb_ℤ prev_y y then rest else []

  -- `traces[iedit * ncost + (ncost + k) % ncost]`
  abbrev pub cell : List ℤ → ℤ → ℤ → ℤ → Option ℤ
  cell traces width iedit k = deref traces (iedit *ℤ width +ℤ (width +ℤ k) %ℤ width)

  -- The diagonal that edit number `iedit` came from.
  unfoldable pub previous : List ℤ → ℤ → ℤ → ℤ → Option ℤ
  unfolding keeps_x ◌%ℤ◌
  previous traces width iedit k = do
    prevk ← cell traces width iedit (k -ℤ pos 1)
    nextk ← cell traces width iedit (k +ℤ pos 1)
    some (int16 (if keeps_x iedit k prevk nextk then k +ℤ pos 1 else k -ℤ pos 1))

  -- The loop over the rows of the trace, the last one first; row `e` is that of `iedit = e`.
  unfoldable pub walk_back : List ℤ → ℤ → ℕ → ℤ → ℤ → Option (List (ℤ × ℤ))
  unfolding previous retrace
  walk_back traces width zero x y = some []
  walk_back traces width (suc e) x y = do
    prev_k ← previous traces width (pos e) (int16 (x -ℤ y))
    prev_x ← cell traces width (pos e) prev_k
    let prev_y = int16 (prev_x -ℤ prev_k)
    rest ← walk_back traces width e prev_x prev_y
    some (
        retrace (length orig) x y prev_x prev_y
        ++ ((if ltb 0 e then (prev_x, prev_y) ∷ [] else []) ++ rest))

  unfoldable pub myers_diff_backtrace : Option (List (ℤ × ℤ))
  unfolding walk_back myers_diff_trace
  myers_diff_backtrace = do
    traces ← myers_diff_trace cmp orig updated
    let width = int16 (pos 2 *ℤ (n cmp orig updated +ℤ m cmp orig updated) +ℤ pos 1)
    walk_back traces width (pos_part (int16 (pos (length traces / size width))))
        (n cmp orig updated) (m cmp orig updated)

  -- The difference between two neighbouring points.
  unfoldable pub difference : ℤ × ℤ → ℤ × ℤ → Option (Diff A)
  difference prev next =
      let added : A → Diff A =
        λ v. record { val = v; orig = negsuc 0; updated = next.1; action = add } in
      let deleted : A → Diff A =
        λ v. record { val = v; orig = next.0; updated = negsuc 0; action = del } in
      let kept : A → Diff A =
        λ v. record { val = v; orig = next.0; updated = next.1; action = eq } in
      if eqb_ℤ next.0 prev.0
      then Option.map added (deref updated next.1)
      else if eqb_ℤ next.1 prev.1
      then Option.map deleted (deref orig next.0)
      else Option.map kept (deref orig next.0)

  unfoldable pub differences : ℤ × ℤ → List (ℤ × ℤ) → Option (List (Diff A))
  unfolding difference
  differences prev [] = some []
  differences prev (next ∷ points) = do
    d ← difference prev next
    ds ← differences next points
    some (d ∷ ds)

  unfoldable pub myers_diff : Option (List (Diff A))
  unfolding differences myers_diff_backtrace
  myers_diff = do
    points ← myers_diff_backtrace
    ds ← differences (n cmp orig updated, m cmp orig updated) points
    some (reverse ds)
