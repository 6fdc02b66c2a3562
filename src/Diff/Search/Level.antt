-- ===== src/Diff/Search/Level.antt =====
-- One edit of the search computes a row of `furthest`.
use cppkg.Base.{
  ℕ, zero, suc, ◌+◌, ◌-◌, ◌*◌, ◌≤◌, ◌<◌, ◌≡◌, refl, ap₂, ◌∙◌, arith, List, Bool, true, false, ◌&&◌,
  inl, inr, Bool-cases, ltb, if◌then◌else◌, length, get_or, ℤ, pos, ltb_ℤ, ◌+ℤ◌, ◌-ℤ◌, int16,
  int16_pos, size,
}
use cppkg.Diff.Furthest.{furthest, run, start}
use cppkg.Diff.Furthest.Bounds.{
  furthest-suc, furthest-zero, furthest-Placed, start_above, start_below,
}
use cppkg.Diff.Search.{same, n, m, max_edit, ncost, slide, reach, slot, keeps_x}
use cppkg.Diff.Search.Index.{
  int16_suc, diag, spot, slot-diag, diag_left, diag_right, pick, int16_row,
}

module _ {ℓ} {A : Type ℓ} (cmp : A → A → Bool) (orig updated : List A) where
  abbrev pub alike : ℕ → ℕ → Bool
  alike i j = same cmp orig updated (pos i) (pos j)

  abbrev pub far : ℕ → ℕ → ℕ
  far = furthest (length orig) (length updated) alike

  abbrev pub steps : ℕ → ℕ → ℕ → ℕ
  steps = run (length orig) (length updated) alike

  abbrev pub width : ℕ
  width = 2 * (length orig + length updated) + 1

  -- No `IndexT` overflows: twice the lengths and one fits.
  abbrev pub Small : Type 0
  Small = length orig + length updated ≤ 16383

module _ {ℓ} {A : Type ℓ} (cmp : A → A → Bool) (orig updated : List A)
    (small : Small cmp orig updated) where
  pub n_lem : n cmp orig updated ≡ pos (length orig)
  n_lem = int16_pos (length orig) (omega arith)

  pub m_lem : m cmp orig updated ≡ pos (length updated)
  m_lem = int16_pos (length updated) (omega arith)

  pub max_edit_lem : max_edit cmp orig updated ≡ pos (length orig + length updated)
  max_edit_lem = rw (n_lem, m_lem) (ground (arith, int16_pos (length orig + length updated)))

  pub ncost_lem : ncost cmp orig updated ≡ width cmp orig updated
  unfolding size
  ncost_lem = rw max_edit_lem (ground arith)

  more : ℕ → ℕ → Bool
  more x y = ltb x (length orig) && (ltb y (length updated) && alike cmp orig updated x y)

  slide_test :
      (x y : ℕ)
      → (ltb_ℤ (pos x) (n cmp orig updated)
          && (ltb_ℤ (pos y) (m cmp orig updated) && same cmp orig updated (pos x) (pos y)))
        ≡ more x y
  unfolding more
  slide_test x y = rw (n_lem, m_lem) (ground arith)

  slide_go :
      (fuel x y : ℕ)
      → more x y ≡ true
      → slide cmp orig updated (suc fuel) (pos x) (pos y)
        ≡ slide cmp orig updated fuel (pos (x + 1)) (pos (y + 1))
  slide_go fuel x y go =
      first ∙ ap₂ (slide cmp orig updated fuel) (int16_suc x x_lt) (int16_suc y y_lt)
    where
      first :
          slide cmp orig updated (suc fuel) (pos x) (pos y)
          ≡ slide cmp orig updated fuel (int16 (pos x +ℤ pos 1)) (int16 (pos y +ℤ pos 1))
      first = unfold slide in rw (slide_test x y, go)

      x_lt : x < 32767
      x_lt = unfold more in ground arith

      y_lt : y < 32767
      y_lt = unfold more in ground arith

  steps_go :
      (fuel x y : ℕ)
      → more x y ≡ true
      → steps cmp orig updated (suc fuel) x y ≡ suc (steps cmp orig updated fuel (x + 1) (y + 1))
  unfolding more run
  steps_go fuel x y go = rw go

  steps_end : (fuel x y : ℕ) → more x y ≡ false → steps cmp orig updated (suc fuel) x y ≡ 0
  unfolding more run
  steps_end fuel x y end = rw end

  slide_end :
      (fuel x y : ℕ)
      → more x y ≡ false
      → slide cmp orig updated (suc fuel) (pos x) (pos y) ≡ (pos x, pos y)
  unfolding slide
  slide_end fuel x y end = rw (slide_test x y, end)

  pub slide_lem :
      (fuel x y : ℕ)
      → slide cmp orig updated fuel (pos x) (pos y)
        ≡ (pos (x + steps cmp orig updated fuel x y), pos (y + steps cmp orig updated fuel x y))
  slide_lem zero x y = unfold slide run in ground arith
  slide_lem (suc fuel) x y = elim (Bool-cases (more x y)) [
    | inl go ↦
        let ih = slide_lem fuel (x + 1) (y + 1) in
        let e = steps_go fuel x y go in slide_go fuel x y go ∙ ih ∙ ground arith
    | inr end ↦ let e = steps_end fuel x y end in slide_end fuel x y end ∙ ground arith
  ]

  -- `costs` holds row `d`.
  abbrev pub Row : List ℤ → ℕ → Type 0
  Row costs d =
      (j : ℕ)
      → j ≤ d
      → get_or costs (spot (width cmp orig updated) d j) (pos 0) ≡ pos (far cmp orig updated d j)

  pub slot-width :
      (d j : ℕ)
      → d ≤ length orig + length updated
      → j ≤ d
      → slot (ncost cmp orig updated) (diag d j) ≡ spot (width cmp orig updated) d j
  slot-width d j h k = rw ncost_lem (slot-diag (length orig + length updated) d j h k small)

  module _ (costs : List ℤ) (d j : ℕ) (row : Row costs d) (h : suc d ≤ length orig + length updated)
      (k : j ≤ suc d) where
    prevk : ℤ
    prevk = get_or costs (slot (ncost cmp orig updated) (diag (suc d) j -ℤ pos 1)) (pos 0)

    nextk : ℤ
    nextk = get_or costs (slot (ncost cmp orig updated) (diag (suc d) j +ℤ pos 1)) (pos 0)

    prevk_lem : 1 ≤ j → prevk ≡ pos (far cmp orig updated d (j - 1))
    unfolding prevk
    prevk_lem one =
        rw (diag_left d j one, slot-width d (j - 1) (omega arith) (omega arith))
          (row (j - 1) (omega arith))

    nextk_lem : j ≤ d → nextk ≡ pos (far cmp orig updated d j)
    unfolding nextk
    nextk_lem l = rw (diag_right d j, slot-width d j (omega arith) l) (row j l)

    picked : ℤ
    picked =
        if keeps_x (pos (suc d)) (diag (suc d) j) prevk nextk then nextk else int16 (prevk +ℤ pos 1)

    begin : ℕ
    begin = start (length orig) (length updated) (alike cmp orig updated) d j

    picked_lem : picked ≡ pos begin
    unfolding picked begin start
    picked_lem =
        let p =
          furthest-Placed (length orig) (length updated) (alike cmp orig updated) d (j - 1)
            (omega arith) in
        pick d j (far cmp orig updated d (j - 1)) (far cmp orig updated d j) prevk nextk prevk_lem
          nextk_lem k (omega arith)

    y_lem : int16 (pos begin -ℤ diag (suc d) j) ≡ pos (begin + suc d - 2 * j)
    unfolding begin
    y_lem =
        int16_row begin (suc d) j
          (start_above (length orig) (length updated) (alike cmp orig updated) d j k)
          (omega (arith, start_below (length orig) (length updated) (alike cmp orig updated) d j k))

    reach-slide :
        reach cmp orig updated costs (pos (suc d)) (diag (suc d) j)
        ≡ slide cmp orig updated (length orig) picked (int16 (picked -ℤ diag (suc d) j))
    unfolding reach picked prevk nextk
    reach-slide = refl

    -- An edit ends where `furthest` says.
    pub reach_lem : reach cmp orig updated costs (pos (suc d)) (diag (suc d) j) ≡ (
      pos (far cmp orig updated (suc d) j),
      pos (far cmp orig updated (suc d) j + suc d - 2 * j),
    )
    unfolding begin
    reach_lem =
        let f = furthest-suc (length orig) (length updated) (alike cmp orig updated) d j in
        let above = start_above (length orig) (length updated) (alike cmp orig updated) d j k in
        rw (reach-slide, picked_lem, y_lem, slide_lem) (ground arith)

  -- With no edit the end is that of the diagonal from the start.
  pub reach_zero :
      (costs : List ℤ)
      → ((i : ℕ) → get_or costs i (pos 0) ≡ pos 0)
      → reach cmp orig updated costs (pos 0) (diag 0 0)
        ≡ (pos (far cmp orig updated 0 0), pos (far cmp orig updated 0 0 + 0 - 2 * 0))
  unfolding reach keeps_x
  reach_zero costs zeros =
      let f = furthest-zero (length orig) (length updated) (alike cmp orig updated) in
      rw (zeros, int16_pos 0 (omega arith), slide_lem) (ground arith)
