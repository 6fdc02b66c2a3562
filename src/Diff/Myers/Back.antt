-- ===== src/Diff/Myers/Back.antt =====
-- The walk back finds in the trace the way that the search took.
use cppkg.Base.{
  ℕ, suc, ◌+◌, ◌-◌, ◌*◌, ◌%◌, ◌≤◌, ◌<◌, ◌≡◌, ap, ◌∙◌, arith, List, [], ◌∷◌, ◌++◌, Bool, true, false,
  ltb, if◌then◌else◌, length, get_or, get_elem?-get_or, ℤ, pos, sub_ℕ, ◌+ℤ◌, ◌-ℤ◌, int16, int16_sub,
  Option, some,
}
use cppkg.Diff.Furthest.{start, choose}
use cppkg.Diff.Search.{keeps_x}
use cppkg.Diff.Myers.{cell, previous, retrace, walk_back}
use cppkg.Diff.Search.Index.{
  index_lem, mod-lt, spot_mod, diag, diag_right, diag_left, diag_before, keeps, keeps_x-keeps,
}
use cppkg.Diff.Search.Level.{alike, far, width, Small}
use cppkg.Diff.Search.Rounds.{earlier, Traced}
use cppkg.Diff.Myers.Points.{Points}

module _ {ℓ} {A : Type ℓ} (cmp : A → A → Bool) (orig updated : List A)
    (small : Small cmp orig updated) (traces : List ℤ) (rows : ℕ)
    (t : Traced cmp orig updated small traces rows) where
  pub at_ : ℕ → ℤ → Option ℤ
  at_ e k = cell cmp orig updated traces (pos (width cmp orig updated)) (pos e) k

  pub cell_any :
      (e a b : ℕ) (h : e < rows)
      → b ≤ width cmp orig updated + a
      → at_ e (sub_ℕ a b)
        ≡ some (
            get_or
              (t.row e h).0
              ((width cmp orig updated + a - b) % width cmp orig updated)
              (pos 0))
  unfolding at_
  cell_any e a b h k =
      let w = width cmp orig updated in
      let s = (w + a - b) % w in
      let l = mod-lt (w + a - b) w (omega arith) in
      rw (index_lem w e a b k) (
        get_elem?-get_or traces (e * w + s) (pos 0) (rw t.size (earlier w e rows s h l))
        ∙ ap some ((t.row e h).2 s l))

  pub cell_far :
      (d j : ℕ)
      → suc d < rows
      → d ≤ length orig + length updated
      → j ≤ d
      → at_ (suc d) (diag d j) ≡ some (pos (far cmp orig updated d j))
  cell_far d j h k l =
      cell_any (suc d) (2 * j) d h (omega arith)
      ∙ rw (spot_mod (length orig + length updated) d j k l) (ap some ((t.row (suc d) h).1 j l))

  -- Round 0 has only zeros, and takes k = 0 from the diagonal 1.
  pub previous_zero :
      0 < rows
      → previous cmp orig updated traces (pos (width cmp orig updated)) (pos 0) (diag 0 0)
        ≡ some (pos 1)
  unfolding previous keeps_x int16 at_
  previous_zero h = rw (cell_any 0 0 1 h (omega arith), cell_any 0 1 0 h (omega arith))

  pub cell_zero : 0 < rows → at_ 0 (pos 1) ≡ some (pos 0)
  cell_zero h = cell_any 0 1 0 h (omega arith) ∙ ap some ((t.row 0 h).1 _)

  module _ (d j : ℕ) (h : suc d < rows) (k : suc d ≤ length orig + length updated)
      (l : j ≤ suc d) where
    pub keeps_here : Bool
    keeps_here = keeps (suc d) j (far cmp orig updated d (j - 1)) (far cmp orig updated d j)

    left : ℤ
    left =
        get_or (t.row (suc d) h).0
          ((width cmp orig updated + 2 * j - suc (suc d)) % width cmp orig updated) (pos 0)

    right : ℤ
    right =
        get_or (t.row (suc d) h).0 ((width cmp orig updated + 2 * j - d) % width cmp orig updated)
          (pos 0)

    at-left : at_ (suc d) (diag (suc d) j -ℤ pos 1) ≡ some left
    unfolding left
    at-left = rw (diag_before (suc d) j) (cell_any (suc d) (2 * j) (suc (suc d)) h (omega arith))

    at-right : at_ (suc d) (diag (suc d) j +ℤ pos 1) ≡ some right
    unfolding right
    at-right = rw (diag_right d j) (cell_any (suc d) (2 * j) d h (omega arith))

    left-far : 1 ≤ j → left ≡ pos (far cmp orig updated d (j - 1))
    left-far one = cc (at-left, diag_left d j one, cell_far d (j - 1) h (omega arith) (omega arith))

    right_far : j ≤ d → right ≡ pos (far cmp orig updated d j)
    right_far le = cc (at-right, diag_right d j, cell_far d j h (omega arith) le)

    choice : keeps_x (pos (suc d)) (diag (suc d) j) left right ≡ keeps_here
    unfolding keeps_here
    choice = keeps_x-keeps d j _ _ left right left-far right_far l

    pub previous_kept :
        keeps_here ≡ true
        → previous cmp orig updated traces
            (pos (width cmp orig updated))
            (pos (suc d))
            (diag (suc d) j)
          ≡ some (diag d j)
    unfolding previous at_
    previous_kept keep =
        rw (at-left, at-right, choice, keep, diag_right d j)
          (ap some (int16_sub (2 * j) d (omega arith) (omega arith)))

    pub one_of_dropped : keeps_here ≡ false → 1 ≤ j
    unfolding keeps_here
    one_of_dropped drop = ground arith

    pub previous_dropped :
        keeps_here ≡ false
        → previous cmp orig updated traces
            (pos (width cmp orig updated))
            (pos (suc d))
            (diag (suc d) j)
          ≡ some (diag d (j - 1))
    unfolding previous at_
    previous_dropped drop =
        rw (at-left, at-right, choice, drop, diag_left d j (one_of_dropped drop))
          (ap some (int16_sub (2 * (j - 1)) d (omega arith) (omega arith)))

    pub start_kept :
        keeps_here ≡ true
        → start (length orig) (length updated) (alike cmp orig updated) d j
          ≡ far cmp orig updated d j
    unfolding keeps_here start choose
    start_kept keep = rw keep

    pub start_dropped :
        keeps_here ≡ false
        → start (length orig) (length updated) (alike cmp orig updated) d j
          ≡ far cmp orig updated d (j - 1) + 1
    unfolding keeps_here start choose
    start_dropped drop = rw drop

    pub kept_le : keeps_here ≡ true → j ≤ d
    unfolding keeps_here
    kept_le keep = ground arith

  pub walk_step :
      (e : ℕ) (x y px py prev_k : ℤ) (ps : List (ℤ × ℤ))
      → previous cmp orig updated traces (pos (width cmp orig updated)) (pos e) (int16 (x -ℤ y))
        ≡ some prev_k
      → at_ e prev_k ≡ some px
      → int16 (px -ℤ prev_k) ≡ py
      → walk_back cmp orig updated traces (pos (width cmp orig updated)) e px py ≡ some ps
      → walk_back cmp orig updated traces (pos (width cmp orig updated)) (suc e) x y
        ≡ some (
            retrace cmp orig updated (length orig) x y px py
            ++ ((if ltb 0 e then (px, py) ∷ [] else []) ++ ps))
  unfolding walk_back at_
  walk_step e x y px py prev_k ps hk hx hy rest = rw (hk, hx, hy, rest)

  pub walk_step_suc :
      (d : ℕ) (x y px py prev_k : ℤ) (ps : List (ℤ × ℤ))
      → previous cmp orig updated traces
          (pos (width cmp orig updated))
          (pos (suc d))
          (int16 (x -ℤ y))
        ≡ some prev_k
      → at_ (suc d) prev_k ≡ some px
      → int16 (px -ℤ prev_k) ≡ py
      → walk_back cmp orig updated traces (pos (width cmp orig updated)) (suc d) px py ≡ some ps
      → walk_back cmp orig updated traces (pos (width cmp orig updated)) (suc (suc d)) x y
        ≡ some (retrace cmp orig updated (length orig) x y px py ++ ((px, py) ∷ ps))
  walk_step_suc d x y px py prev_k ps hk hx hy rest =
      let pushed : ltb 0 (suc d) ≡ true = ground arith in
      rw pushed at (walk_step (suc d) x y px py prev_k ps hk hx hy rest)

  -- From the end of edit `d` on diagonal `j`.
  abbrev pub Walked : ℕ → ℕ → Type 0
  Walked d j =
      (ps : List (ℤ × ℤ)) × (walk_back cmp orig updated traces (pos (width cmp orig updated))
          (suc d) (pos (far cmp orig updated d j)) (pos (far cmp orig updated d j + d - 2 * j))
        ≡ some ps)
      × Points (alike cmp orig updated) d (far cmp orig updated d j)
          (far cmp orig updated d j + d - 2 * j) ps
