-- ===== src/Diff/Furthest.antt =====
-- cppkg/diff/myers_diff.h, seen as a recursion on numbers. After `d` edits of which `j` are
-- deletions a script stands on the diagonal k = 2 j - d; `furthest d j` is the largest x there.
pub mod Bounds
pub mod Corner
pub mod Optimal
use native.Mathlib.Nat.{add-zero}
use cppkg.Base.{
  ℕ, zero, suc, ◌+◌, ◌-◌, ◌*◌, ◌≤◌, ◌<◌, ◌≡◌, refl, Bool, true, false, not, ◌&&◌, ◌||◌, arith, ltb,
  leb, ◌==◌, if◌then◌else◌, Bool-cases, ◌⊎◌, inl, inr, tests,
}

-- Where the edit number `d` starts its diagonal, from the ends `left` and `here` on the diagonals
-- k - 1 and k + 1 of the edit before it.
unfoldable pub choose : ℕ → ℕ → ℕ → ℕ → ℕ
choose d j left here = if (j == 0) || (not (j == d) && ltb left here) then here else left + 1

module _ (n m : ℕ) (eq : ℕ → ℕ → Bool) where
  -- The steps of the diagonal from (x, y).
  unfoldable pub run : ℕ → ℕ → ℕ → ℕ
  run zero x y = 0
  run (suc f) x y =
      let rest = suc (run f (x + 1) (y + 1)) in if ltb x n && (ltb y m && eq x y) then rest else 0

  pub run-le-x : (f x y : ℕ) → x ≤ n → x + run f x y ≤ n
  unfolding run
  run-le-x zero x y h = omega arith
  run-le-x (suc f) x y h = ground (arith, run-le-x f (x + 1) (y + 1))

  pub run-le-y : (f x y : ℕ) → y ≤ m → y + run f x y ≤ m
  unfolding run
  run-le-y zero x y h = omega arith
  run-le-y (suc f) x y h = ground (arith, run-le-y f (x + 1) (y + 1))

  pub run_right : (f x y : ℕ) → n ≤ x → run f x y ≡ 0
  unfolding run
  run_right zero x y h = refl
  run_right (suc f) x y h = ground arith

  pub run_below : (f x y : ℕ) → m ≤ y → run f x y ≡ 0
  unfolding run
  run_below zero x y h = refl
  run_below (suc f) x y h = ground arith

  pub run-le-fuel : (f x y : ℕ) → run f x y ≤ f
  unfolding run
  run-le-fuel zero x y = omega arith
  run-le-fuel (suc f) x y = ground (arith, run-le-fuel f (x + 1) (y + 1))

  -- Every step of a diagonal joins equal elements.
  pub run_same : (f x y i : ℕ) → i < run f x y → eq (x + i) (y + i) ≡ true
  unfolding run
  run_same zero x y i h = absurd (omega arith)
  run_same (suc f) x y zero h = rw (add-zero, add-zero) (ground arith)
  run_same (suc f) x y (suc i) h =
      let step = run_same f (x + 1) (y + 1) i (ground arith) in
      let ex : x + 1 + i ≡ x + suc i = omega arith in
      let ey : y + 1 + i ≡ y + suc i = omega arith in rw (← ex, ← ey) step

  -- A diagonal ends only at an edge or at different elements.
  pub run_stop :
      (f x y : ℕ)
      → n ≤ x + f
      → x + run f x y < n
      → y + run f x y < m
      → eq (x + run f x y) (y + run f x y) ≡ false
  unfolding run
  run_stop zero x y h hx hy = absurd (omega arith)
  run_stop (suc f) x y h hx hy = elim (Bool-cases (ltb x n && (ltb y m && eq x y))) [
    | inl go ↦
        let stop = run_stop f (x + 1) (y + 1) (omega arith) (ground arith) (ground arith) in
        let ex : x + 1 + run f (x + 1) (y + 1) ≡ x + suc (run f (x + 1) (y + 1)) = omega arith in
        let ey : y + 1 + run f (x + 1) (y + 1) ≡ y + suc (run f (x + 1) (y + 1)) = omega arith in
        rw (go, ← ex, ← ey) stop
    | inr end ↦ rw (end, add-zero, add-zero) (ground arith)
  ]

  unfoldable pub furthest : ℕ → ℕ → ℕ
  furthest zero j = run n 0 0
  furthest (suc d) j =
      let x = choose (suc d) j (furthest d (j - 1)) (furthest d j) in
      x + run n x (x + suc d - 2 * j)

  unfoldable pub start : ℕ → ℕ → ℕ
  start d j = choose (suc d) j (furthest d (j - 1)) (furthest d j)
