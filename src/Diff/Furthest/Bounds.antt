-- ===== src/Diff/Furthest/Bounds.antt =====
-- The range of the furthest ends, and how one edit moves them.
use cppkg.Base.{ℕ, zero, suc, ◌+◌, ◌-◌, ◌*◌, ◌≤◌, ◌≡◌, refl, Bool, arith, ◌⊎◌, inl, inr}
use cppkg.Diff.Furthest.{run, run-le-x, run-le-y, run_right, run_below, choose, furthest, start}

module _ (n m : ℕ) (eq : ℕ → ℕ → Bool) where
  pub furthest-suc :
      (d j : ℕ)
      → furthest n m eq (suc d) j
        ≡ start n m eq d j + run n m eq n (start n m eq d j) (start n m eq d j + suc d - 2 * j)
  unfolding furthest start
  furthest-suc d j = refl

  pub furthest-zero : furthest n m eq 0 0 ≡ 0 + run n m eq n 0 0
  unfolding furthest
  furthest-zero = omega arith

  pub run_x_bound : (f x y : ℕ) → x + run n m eq f x y ≤ n + (x - n)
  run_x_bound f x y = ground (arith, run-le-x n m eq f x y, run_right n m eq f x y)

  pub run_y_bound : (f x y : ℕ) → y + run n m eq f x y ≤ m + (y - m)
  run_y_bound f x y = ground (arith, run-le-y n m eq f x y, run_below n m eq f x y)

  -- The end stays on the board of x ≥ 0 and y ≥ 0, at most `d` beyond its far edges.
  pub record Placed (d j : ℕ) : Type 0 where
    pub right : furthest n m eq d j ≤ n + d
    pub above : 2 * j ≤ furthest n m eq d j + d
    pub below : furthest n m eq d j ≤ m + 2 * j

  -- An edit is an insertion, which keeps x, or a deletion, which adds one.
  pub start_cases :
      (d j : ℕ)
      → j ≤ suc d
      → ((j ≤ d) × (start n m eq d j ≡ furthest n m eq d j))
        ⊎ ((1 ≤ j) × (j - 1 ≤ d) × (start n m eq d j ≡ furthest n m eq d (j - 1) + 1))
  unfolding start choose
  start_cases d j h = ground arith

  -- Of the two it takes the one that ends further.
  pub start_down : (d j : ℕ) → j ≤ d → furthest n m eq d j ≤ start n m eq d j
  unfolding start choose
  start_down d j h = ground arith

  pub start_right : (d j : ℕ) → 1 ≤ j → j ≤ suc d → furthest n m eq d (j - 1) + 1 ≤ start n m eq d j
  unfolding start choose
  start_right d j h k = ground arith

  start-Placed :
      (d j : ℕ)
      → start n m eq d j ≤ n + suc d
      → 2 * j ≤ start n m eq d j + suc d
      → start n m eq d j ≤ m + 2 * j
      → Placed (suc d) j
  start-Placed d j right above below =
      let x = run_x_bound n (start n m eq d j) (start n m eq d j + suc d - 2 * j) in
      let y = run_y_bound n (start n m eq d j) (start n m eq d j + suc d - 2 * j) in
      let e = furthest-suc d j in
      record { right = omega arith; above = omega arith; below = omega arith }

  pub furthest-Placed : (d j : ℕ) → j ≤ d → Placed d j
  unfolding furthest
  furthest-Placed zero zero h =
      let x = run_x_bound n 0 0 in
      let y = run_y_bound n 0 0 in
      record { right = omega arith; above = omega arith; below = omega arith }
  furthest-Placed zero (suc j) h = absurd (omega arith)
  furthest-Placed (suc d) j h = elim (start_cases d j h) [
    | inl (k, e) ↦
        let p = furthest-Placed d j k in start-Placed d j (omega arith) (omega arith) (omega arith)
    | inr (one, k, e) ↦
        let p = furthest-Placed d (j - 1) k in
        start-Placed d j (omega arith) (omega arith) (omega arith)
  ]

  pub start_above : (d j : ℕ) → j ≤ suc d → 2 * j ≤ start n m eq d j + suc d
  start_above d j h = elim (start_cases d j h) [
    | inl (k, e) ↦ let p = furthest-Placed d j k in omega arith
    | inr (one, k, e) ↦ let p = furthest-Placed d (j - 1) k in omega arith
  ]

  pub start_below : (d j : ℕ) → j ≤ suc d → start n m eq d j ≤ m + 2 * j
  start_below d j h = elim (start_cases d j h) [
    | inl (k, e) ↦ let p = furthest-Placed d j k in omega arith
    | inr (one, k, e) ↦ let p = furthest-Placed d (j - 1) k in omega arith
  ]

  -- One more edit gains at least a deletion's column, and never loses one.
  pub furthest_down : (d j : ℕ) → j ≤ d → furthest n m eq d j ≤ furthest n m eq (suc d) j
  furthest_down d j h = omega (arith, start_down d j h, furthest-suc d j)

  pub furthest_right :
      (d j : ℕ) → 1 ≤ j → j ≤ suc d → furthest n m eq d (j - 1) + 1 ≤ furthest n m eq (suc d) j
  furthest_right d j h k = omega (arith, start_right d j h k, furthest-suc d j)

  pub furthest_delete :
      (d j : ℕ) → j ≤ d → furthest n m eq d j + 1 ≤ furthest n m eq (suc d) (suc j)
  furthest_delete d j h =
      let e : suc j - 1 ≡ j = omega arith in
      rw e at (furthest_right d (suc j) (omega arith) (omega arith))

  -- Even with no diagonal at all, `j` deletions reach column `j`.
  pub le-furthest : (d j : ℕ) → j ≤ d → j ≤ furthest n m eq d j
  le-furthest d zero h = omega arith
  le-furthest zero (suc j) h = absurd (omega arith)
  le-furthest (suc d) (suc j) h =
      omega (arith, le-furthest d j (omega arith), furthest_delete d j (omega arith))
