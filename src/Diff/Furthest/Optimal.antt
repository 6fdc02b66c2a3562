-- ===== src/Diff/Furthest/Optimal.antt =====
-- No script is shorter: whatever `d` edits reach lies no further than `furthest`.
use native.Mathlib.Decide.{dec_lt}
use cppkg.Base.{ℕ, zero, suc, ◌+◌, ◌-◌, ◌*◌, ◌≤◌, ◌<◌, ◌≡◌, Bool, true, false, arith}
use cppkg.Diff.Furthest.{furthest, run, run_stop, start}
use cppkg.Diff.Furthest.Bounds.{
  furthest-zero, furthest-suc, start_above, furthest_down, furthest_delete,
}

-- A script's progress: `Walk d j x y` has used x old and y new elements, by `d` edits of which
-- `j` are deletions.
pub data Walk (n m : ℕ) (eq : ℕ → ℕ → Bool) : ℕ → ℕ → ℕ → ℕ → Type 0 where
  origin : Walk n m eq 0 0 0 0
  delete : {d j x y : ℕ} → x < n → Walk n m eq d j x y → Walk n m eq (suc d) (suc j) (suc x) y
  add : {d j x y : ℕ} → y < m → Walk n m eq d j x y → Walk n m eq (suc d) j x (suc y)
  keep :
      {d j x y : ℕ}
      → x < n
      → y < m
      → eq x y ≡ true
      → Walk n m eq d j x y
      → Walk n m eq d j (suc x) (suc y)

module _ (n m : ℕ) (eq : ℕ → ℕ → Bool) where
  -- No element of a diagonal is left over.
  furthest_stop :
      (d j y : ℕ)
      → j ≤ d
      → y + 2 * j ≡ furthest n m eq d j + d
      → furthest n m eq d j < n
      → y < m
      → eq (furthest n m eq d j) y ≡ false
  furthest_stop zero zero y h e hx hy =
      let f = furthest-zero n m eq in
      let at : y ≡ 0 + run n m eq n 0 0 = omega arith in
      let stop = run_stop n m eq n 0 0 (omega arith) (omega arith) (omega arith) in rw (f, at) stop
  furthest_stop zero (suc j) y h e hx hy = absurd (omega arith)
  furthest_stop (suc d) j y h e hx hy =
      let x = start n m eq d j in
      let y0 = x + suc d - 2 * j in
      let f = furthest-suc n m eq d j in
      let above = start_above n m eq d j h in
      let at : y ≡ y0 + run n m eq n x y0 = omega arith in
      rw (f, at) (run_stop n m eq n x y0 (omega arith) (omega arith) (omega arith))

  pub Walk-le-furthest :
      {d j x y : ℕ}
      → Walk n m eq d j x y
      → (j ≤ d) × (y + 2 * j ≡ x + d) × (x ≤ furthest n m eq d j)
  Walk-le-furthest origin = (omega arith, omega arith, omega arith)
  Walk-le-furthest (delete {d} {j} {x} {y} hx w) =
      let (k, e, l) = Walk-le-furthest w in
      (omega arith, omega arith, omega (arith, furthest_delete n m eq d j k))
  Walk-le-furthest (add {d} {j} {x} {y} hy w) =
      let (k, e, l) = Walk-le-furthest w in
      (omega arith, omega arith, omega (arith, furthest_down n m eq d j k))
  Walk-le-furthest (keep {d} {j} {x} {y} hx hy s w) =
      let (k, e, l) = Walk-le-furthest w in
      (
        k,
        omega arith,
        elim (dec_lt x (furthest n m eq d j)) [
          | yes before ↦ before
          | no at ↦
              let here : furthest n m eq d j ≡ x = omega arith in
              let stop = furthest_stop d j y k (omega arith) (omega arith) hy in cc
        ],
      )
