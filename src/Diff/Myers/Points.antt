-- ===== src/Diff/Myers/Points.antt =====
-- The points of the walk back, and its diagonal steps.
use native.Mathlib.Nat.{add-zero, add-suc}
use cppkg.Base.{
  ℕ, zero, suc, ◌+◌, ◌≤◌, ◌<◌, ◌≡◌, arith, List, [], ◌∷◌, ◌++◌, Bool, true, false, ◌&&◌, length, ℤ,
  pos, ltb_ℤ,
}
use cppkg.Diff.Myers.{retrace}
use cppkg.Diff.Search.Index.{int16_prev}

-- `Points same d x y ps`: the points `ps` lead from (x, y) to the origin by `d` edits and, for the
-- rest, diagonal steps between elements that are the same.
pub data Points (same : ℕ → ℕ → Bool) : ℕ → ℕ → ℕ → List (ℤ × ℤ) → Type 0 where
  origin : Points same 0 0 0 []
  kept :
      {d x y : ℕ} {ps : List (ℤ × ℤ)}
      → same x y ≡ true
      → Points same d x y ps
      → Points same d (suc x) (suc y) ((pos x, pos y) ∷ ps)
  deleted :
      {d x y : ℕ} {ps : List (ℤ × ℤ)}
      → Points same d x y ps
      → Points same (suc d) (suc x) y ((pos x, pos y) ∷ ps)
  added :
      {d x y : ℕ} {ps : List (ℤ × ℤ)}
      → Points same d x y ps
      → Points same (suc d) x (suc y) ((pos x, pos y) ∷ ps)

module _ {ℓ} {A : Type ℓ} (cmp : A → A → Bool) (orig updated : List A) where
  module _ (same : ℕ → ℕ → Bool) (a b : ℕ) (px py : ℤ) where
    retrace_step :
        (fuel r : ℕ)
        → a + r < 32767
        → b + r < 32767
        → (ltb_ℤ px (pos (a + suc r)) && ltb_ℤ py (pos (b + suc r))) ≡ true
        → retrace cmp orig updated (suc fuel) (pos (a + suc r)) (pos (b + suc r)) px py
          ≡ (pos (a + r), pos (b + r))
            ∷ retrace cmp orig updated fuel (pos (a + r)) (pos (b + r)) px py
    unfolding retrace
    retrace_step fuel r xs ys go = rw (
      go,
      add-suc a r,
      add-suc b r,
      int16_prev (a + r) (omega arith),
      int16_prev (b + r) (omega arith),
    )

    -- The loop goes back from (a + r, b + r) to (a, b), where its test fails.
    pub retrace-Points :
        (fuel r d : ℕ) (ps : List (ℤ × ℤ))
        → r ≤ fuel
        → a + r < 32768
        → b + r < 32768
        → ((i : ℕ) → 1 ≤ i → (ltb_ℤ px (pos (a + i)) && ltb_ℤ py (pos (b + i))) ≡ true)
        → (ltb_ℤ px (pos a) && ltb_ℤ py (pos b)) ≡ false
        → ((i : ℕ) → i < r → same (a + i) (b + i) ≡ true)
        → Points same d a b ps
        → Points same d
            (a + r)
            (b + r)
            (retrace cmp orig updated fuel (pos (a + r)) (pos (b + r)) px py ++ ps)
    retrace-Points zero zero d ps le xs ys go stop alike p =
        unfold retrace in rw (add-zero a, add-zero b) p
    retrace-Points (suc fuel) zero d ps le xs ys go stop alike p =
        unfold retrace in rw (add-zero a, add-zero b, stop) p
    retrace-Points zero (suc r) d ps le xs ys go stop alike p = absurd (omega arith)
    retrace-Points (suc fuel) (suc r) d ps le xs ys go stop alike p =
        rw
          (
            retrace_step fuel r (omega arith) (omega arith) (go (suc r) (omega arith)),
            add-suc a r,
            add-suc b r,
          )
          (kept (alike r (omega arith)) (
            retrace-Points fuel r d ps (omega arith) (omega arith) (omega arith) go stop
              (λ i l. alike i (omega arith)) p))

    pub retrace-Points_at :
        (x y r d : ℕ) (ps : List (ℤ × ℤ))
        → x ≡ a + r
        → y ≡ b + r
        → r ≤ length orig
        → x < 32768
        → y < 32768
        → ((i : ℕ) → 1 ≤ i → (ltb_ℤ px (pos (a + i)) && ltb_ℤ py (pos (b + i))) ≡ true)
        → (ltb_ℤ px (pos a) && ltb_ℤ py (pos b)) ≡ false
        → ((i : ℕ) → i < r → same (a + i) (b + i) ≡ true)
        → Points same d a b ps
        → Points same d x y (retrace cmp orig updated (length orig) (pos x) (pos y) px py ++ ps)
    retrace-Points_at x y r d ps ex ey le xs ys go stop alike p =
        rw (ex, ey)
          (retrace-Points (length orig) r d ps le (omega arith) (omega arith) go stop alike p)
