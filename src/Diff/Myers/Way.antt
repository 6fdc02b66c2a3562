-- ===== src/Diff/Myers/Way.antt =====
-- The whole walk back, from the far corner to the origin.
use cppkg.Base.{
  ℕ, zero, suc, ◌+◌, ◌-◌, ◌*◌, ◌≤◌, ◌<◌, ◌≡◌, refl, arith, List, [], ◌∷◌, Bool, true, false, ◌&&◌,
  inl, inr, Bool-cases, length, ℤ, pos, negsuc, ltb_ℤ, ◌-ℤ◌, int16,
}
use cppkg.Diff.Furthest.{run_same, run-le-fuel, start}
use cppkg.Diff.Furthest.Bounds.{furthest-suc, furthest-zero, Placed, furthest-Placed}
use cppkg.Diff.Myers.{walk_back}
use cppkg.Diff.Search.Index.{diag, diag_of, int16_row}
use cppkg.Diff.Search.Level.{alike, far, Small, steps}
use cppkg.Diff.Search.Rounds.{Traced}
use cppkg.Diff.Myers.Points.{deleted, added, origin, retrace-Points_at}
use cppkg.Diff.Myers.Back.{
  previous_zero, cell_zero, cell_far, keeps_here, previous_kept, previous_dropped, one_of_dropped,
  start_kept, start_dropped, kept_le, walk_step, walk_step_suc, Walked,
}

go_down :
    (p q i : ℕ) → 1 ≤ i → (ltb_ℤ (pos p) (pos (p + i)) && ltb_ℤ (pos q) (pos (suc q + i))) ≡ true
go_down p q i h = ground arith

go_back : (i : ℕ) → 1 ≤ i → (ltb_ℤ (pos 0) (pos (0 + i)) && ltb_ℤ (negsuc 0) (pos (0 + i))) ≡ true
go_back i h = ground arith

minus_one : int16 (pos 0 -ℤ pos 1) ≡ negsuc 0
unfolding int16
minus_one = refl

stop_down : (p q : ℕ) → (ltb_ℤ (pos p) (pos p) && ltb_ℤ (pos q) (pos (suc q))) ≡ false
stop_down p q = ground arith

go_right :
    (p q i : ℕ) → 1 ≤ i → (ltb_ℤ (pos p) (pos (suc p + i)) && ltb_ℤ (pos q) (pos (q + i))) ≡ true
go_right p q i h = ground arith

stop_right : (p q : ℕ) → (ltb_ℤ (pos p) (pos (suc p)) && ltb_ℤ (pos q) (pos q)) ≡ false
stop_right p q = ground arith

module _ {ℓ} {A : Type ℓ} (cmp : A → A → Bool) (orig updated : List A)
    (small : Small cmp orig updated) (traces : List ℤ) (rows : ℕ)
    (t : Traced cmp orig updated small traces rows) where
  begin : ℕ → ℕ → ℕ
  begin = start (length orig) (length updated) (alike cmp orig updated)

  -- The diagonal steps of edit d + 1.
  slid : ℕ → ℕ → ℕ
  slid d j = steps cmp orig updated (length orig) (begin d j) (begin d j + suc d - 2 * j)

  slid-le : (d j : ℕ) → slid d j ≤ length orig
  unfolding slid
  slid-le d j = run-le-fuel (length orig) (length updated) (alike cmp orig updated) _ _ _

  slid_same :
      (d j i : ℕ)
      → i < slid d j
      → alike cmp orig updated (begin d j + i) (begin d j + suc d - 2 * j + i) ≡ true
  unfolding slid
  slid_same d j i h = run_same (length orig) (length updated) (alike cmp orig updated) _ _ _ i h

  far-suc : (d j : ℕ) → far cmp orig updated (suc d) j ≡ begin d j + slid d j
  unfolding slid begin
  far-suc d j = furthest-suc (length orig) (length updated) (alike cmp orig updated) d j

  module _ (d j : ℕ) (h : suc d < rows) (k : suc d ≤ length orig + length updated)
      (l : j ≤ suc d) where
    x : ℕ
    x = far cmp orig updated (suc d) j

    y : ℕ
    y = far cmp orig updated (suc d) j + suc d - 2 * j

    x_small : x < 32768
    unfolding x
    x_small =
        let p =
          furthest-Placed (length orig) (length updated) (alike cmp orig updated) (suc d) j l in
        omega arith

    y_small : y < 32768
    unfolding y
    y_small =
        let p =
          furthest-Placed (length orig) (length updated) (alike cmp orig updated) (suc d) j l in
        omega arith

    k_lem : int16 (pos x -ℤ pos y) ≡ diag (suc d) j
    unfolding x y
    k_lem =
        let p =
          furthest-Placed (length orig) (length updated) (alike cmp orig updated) (suc d) j l in
        diag_of x (suc d) j p.above (omega arith) l

    -- An insertion: the edit before ended in the same column.
    Walked-kept :
        keeps_here cmp orig updated small traces rows t d j h k l ≡ true
        → Walked cmp orig updated small traces rows t d j
        → Walked cmp orig updated small traces rows t (suc d) j
    unfolding x y
    Walked-kept keep (ps, runs, points) = (
      _,
      walk_step_suc cmp orig updated small traces rows t d (pos x) (pos y) (pos px) (pos py)
          (diag d j) ps
          (rw k_lem (previous_kept cmp orig updated small traces rows t d j h k l keep))
          (cell_far cmp orig updated small traces rows t d j h (omega arith) le)
          (int16_row px d j p.above (omega (arith, p.below))) runs,
      retrace-Points_at cmp orig updated (alike cmp orig updated) px (suc py) (pos px) (pos py) x y
          (slid d j) (suc d) ((pos px, pos py) ∷ ps) x_from y_from (slid-le d j) x_small y_small
          (go_down px py) (stop_down px py) same (added points),
    )
      where
        le : j ≤ d
        le = kept_le cmp orig updated small traces rows t d j h k l keep

        px : ℕ
        px = far cmp orig updated d j

        py : ℕ
        py = far cmp orig updated d j + d - 2 * j

        p : Placed (length orig) (length updated) (alike cmp orig updated) d j
        p = furthest-Placed (length orig) (length updated) (alike cmp orig updated) d j le

        at : begin d j ≡ px
        at = unfold begin in start_kept cmp orig updated small traces rows t d j h k l keep

        at_y : begin d j + suc d - 2 * j ≡ suc py
        at_y = omega (arith, at, p.above)

        x_from : x ≡ px + slid d j
        x_from = omega (arith, far-suc d j, at)

        y_from : y ≡ suc py + slid d j
        y_from = omega (arith, far-suc d j, at, p.above)

        same : (i : ℕ) → i < slid d j → alike cmp orig updated (px + i) (suc py + i) ≡ true
        same i l = rw (at_y, at) at (slid_same d j i l)

    -- A deletion: it ended one column to the left.
    Walked-dropped :
        keeps_here cmp orig updated small traces rows t d j h k l ≡ false
        → Walked cmp orig updated small traces rows t d (j - 1)
        → Walked cmp orig updated small traces rows t (suc d) j
    unfolding x y
    Walked-dropped drop (ps, runs, points) = (
      _,
      walk_step_suc cmp orig updated small traces rows t d (pos x) (pos y) (pos px) (pos py)
          (diag d (j - 1)) ps
          (rw k_lem (previous_dropped cmp orig updated small traces rows t d j h k l drop))
          (cell_far cmp orig updated small traces rows t d (j - 1) h (omega arith) le)
          (int16_row px d (j - 1) p.above (omega (arith, p.below))) runs,
      retrace-Points_at cmp orig updated (alike cmp orig updated) (suc px) py (pos px) (pos py) x y
          (slid d j) (suc d) ((pos px, pos py) ∷ ps) x_from y_from (slid-le d j) x_small y_small
          (go_right px py) (stop_right px py) same (deleted points),
    )
      where
        one : 1 ≤ j
        one = one_of_dropped cmp orig updated small traces rows t d j h k l drop

        le : j - 1 ≤ d
        le = omega arith

        px : ℕ
        px = far cmp orig updated d (j - 1)

        py : ℕ
        py = far cmp orig updated d (j - 1) + d - 2 * (j - 1)

        p : Placed (length orig) (length updated) (alike cmp orig updated) d (j - 1)
        p = furthest-Placed (length orig) (length updated) (alike cmp orig updated) d (j - 1) le

        at : begin d j ≡ suc px
        at =
            unfold begin in
            omega (arith, start_dropped cmp orig updated small traces rows t d j h k l drop)

        at_y : begin d j + suc d - 2 * j ≡ py
        at_y = omega (arith, at, p.above, one)

        x_from : x ≡ suc px + slid d j
        x_from = omega (arith, far-suc d j, at)

        y_from : y ≡ py + slid d j
        y_from = omega (arith, far-suc d j, at, p.above, one)

        same : (i : ℕ) → i < slid d j → alike cmp orig updated (suc px + i) (py + i) ≡ true
        same i l = rw (at_y, at) at (slid_same d j i l)

  -- Round 0 takes k = 0 from below, and so ends at x = 0 with y = -1.
  Walked-zero : 0 < rows → Walked cmp orig updated small traces rows t 0 0
  Walked-zero h =
      let f = furthest-zero (length orig) (length updated) (alike cmp orig updated) in
      let p =
        furthest-Placed (length orig) (length updated) (alike cmp orig updated) 0 0 (omega arith) in
      (
        _,
        walk_step cmp orig updated small traces rows t 0 (pos x) (pos y) (pos 0) (negsuc 0) (pos 1)
            []
            (rw (diag_of x 0 0 (omega arith) (omega arith) (omega arith))
              (previous_zero cmp orig updated small traces rows t h))
            (cell_zero cmp orig updated small traces rows t h) minus_one (unfold walk_back in refl),
        retrace-Points_at cmp orig updated (alike cmp orig updated) 0 0 (pos 0) (negsuc 0) x y
            (steps cmp orig updated (length orig) 0 0) 0 [] f (omega arith)
            (run-le-fuel (length orig) (length updated) (alike cmp orig updated) _ _ _)
            (omega arith) (omega arith) go_back refl
            (run_same (length orig) (length updated) (alike cmp orig updated) (length orig) 0 0)
            origin,
      )
    where
      x : ℕ
      x = far cmp orig updated 0 0

      y : ℕ
      y = far cmp orig updated 0 0 + 0 - 2 * 0

  pub walked :
      (d j : ℕ)
      → d < rows
      → d ≤ length orig + length updated
      → j ≤ d
      → Walked cmp orig updated small traces rows t d j
  walked zero zero h k l = Walked-zero h
  walked zero (suc j) h k l = absurd (omega arith)
  walked (suc d) j h k l =
      elim (Bool-cases (keeps_here cmp orig updated small traces rows t d j h k l)) [
        | inl keep ↦ Walked-kept d j h k l keep (
            walked d j (omega arith) (omega arith)
              (kept_le cmp orig updated small traces rows t d j h k l keep))
        | inr drop ↦
            Walked-dropped d j h k l drop
              (walked d (j - 1) (omega arith) (omega arith) (omega arith))
      ]
