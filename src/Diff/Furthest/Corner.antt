-- ===== src/Diff/Furthest/Corner.antt =====
-- The first edit count that reaches the far corner reaches it exactly, on its diagonal.
use native.Mathlib.Decide.{dec_le}
use cppkg.Base.{ℕ, zero, suc, ◌+◌, ◌-◌, ◌*◌, ◌≤◌, ◌≡◌, Bool, arith, inl, inr}
use cppkg.Diff.Furthest.{furthest, start, run_right, run_below}
use cppkg.Diff.Furthest.Bounds.{
  furthest-suc, run_x_bound, run_y_bound, furthest-Placed, start_cases, le-furthest, furthest_down,
  furthest_right,
}

module _ (n m : ℕ) (eq : ℕ → ℕ → Bool) where
  -- The end of diagonal `j` has no element left on either side: the loops' test for the end.
  abbrev pub Done : ℕ → ℕ → Type 0
  Done d j = (n ≤ furthest n m eq d j) × (m + 2 * j ≤ furthest n m eq d j + d)

  -- It is so at the latest after deleting all of one and inserting all of the other.
  pub Done-all : Done (n + m) n
  Done-all = let h = le-furthest n m eq (n + m) n (omega arith) in (omega arith, omega arith)

  -- Where no element is left on a side, the edit is all of the step.
  still_y :
      (d j : ℕ)
      → m + 2 * j + 1 ≤ furthest n m eq (suc d) j + suc d
      → furthest n m eq (suc d) j ≡ start n m eq d j
  still_y d j out =
      let x = start n m eq d j in
      let y = run_y_bound n m eq n x (x + suc d - 2 * j) in
      let e = furthest-suc n m eq d j in
      let below : m ≤ x + suc d - 2 * j = omega arith in
      omega (arith, run_below n m eq n x (x + suc d - 2 * j) below)

  still_x :
      (d j : ℕ) → n + 1 ≤ furthest n m eq (suc d) j → furthest n m eq (suc d) j ≡ start n m eq d j
  still_x d j out =
      let x = start n m eq d j in
      let y = x + suc d - 2 * j in
      let b = run_x_bound n m eq n x y in
      let e = furthest-suc n m eq d j in
      let right : n ≤ x = omega arith in omega (arith, run_right n m eq n x y right)

  -- An end below the board came down to there.
  pub from_above :
      (d j : ℕ)
      → j ≤ suc d
      → m + 2 * j + 1 ≤ furthest n m eq (suc d) j + suc d
      → (j ≤ d) × (furthest n m eq (suc d) j ≤ furthest n m eq d j)
  from_above zero j h out = elim (start_cases n m eq zero j h) [
    | inl (k, e) ↦ (k, omega (arith, still_y zero j out))
    | inr (one, k, e) ↦
        let p = furthest-Placed n m eq zero (j - 1) k in absurd (omega (arith, still_y zero j out))
  ]
  from_above (suc d) j h out = elim (start_cases n m eq (suc d) j h) [
    | inl (k, e) ↦ (k, omega (arith, still_y (suc d) j out))
    | inr (one, k, e) ↦
        let y = still_y (suc d) j out in
        let before = from_above d (j - 1) k (omega arith) in
        let gain = furthest_right n m eq d j one (omega arith) in (omega arith, omega arith)
  ]

  -- An end right of the board came right to there.
  pub from_left :
      (d j : ℕ)
      → j ≤ suc d
      → n + 1 ≤ furthest n m eq (suc d) j
      → (1 ≤ j) × (furthest n m eq (suc d) j ≤ furthest n m eq d (j - 1) + 1)
  from_left zero j h out = elim (start_cases n m eq zero j h) [
    | inl (k, e) ↦
        let p = furthest-Placed n m eq zero j k in absurd (omega (arith, still_x zero j out))
    | inr (one, k, e) ↦ (one, omega (arith, still_x zero j out))
  ]
  from_left (suc d) j h out = elim (start_cases n m eq (suc d) j h) [
    | inl (k, e) ↦
        let x = still_x (suc d) j out in
        let before = from_left d j k (omega arith) in
        let gain = furthest_down n m eq d (j - 1) (omega arith) in (omega arith, omega arith)
    | inr (one, k, e) ↦ (one, omega (arith, still_x (suc d) j out))
  ]

  -- If no end was `Done` one edit before, an end that is `Done` is the corner (n, m) itself.
  pub corner :
      (d j : ℕ)
      → j ≤ d
      → ((i : ℕ) → suc i ≤ d → i ≤ d - 1 → ¬ Done (d - 1) i)
      → Done d j
      → (furthest n m eq d j ≡ n) × (m + 2 * j ≡ n + d)
  corner zero j h none done = let p = furthest-Placed n m eq zero j h in (omega arith, omega arith)
  corner (suc d) j h none done = (x_exact, omega (arith, x_exact, y_exact))
    where
      e : suc d - 1 ≡ d
      e = omega arith

      fresh : (i : ℕ) → i ≤ d → ¬ Done d i
      fresh i k now = none i (omega arith) (omega arith) (rw e now)

      y_exact : furthest n m eq (suc d) j + suc d ≤ m + 2 * j
      y_exact = elim (dec_le (furthest n m eq (suc d) j + suc d) (m + 2 * j)) [
        | yes k ↦ k
        | no k ↦
            let before = from_above d j h (omega arith) in
            absurd (fresh j before.0 (omega arith, omega arith))
      ]

      x_exact : furthest n m eq (suc d) j ≡ n
      x_exact = elim (dec_le (furthest n m eq (suc d) j) n) [
        | yes k ↦ omega arith
        | no k ↦
            let before = from_left d j h (omega arith) in
            absurd (fresh (j - 1) (omega arith) (omega arith, omega arith))
      ]
