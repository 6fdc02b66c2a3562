-- ===== src/Diff/Search/Rows.antt =====
-- The loop over the diagonals of one edit fills a row, or stops at an end that is `Done`.
use native.Mathlib.Nat.{add-zero}
use native.Mathlib.Decide.{dec_lt}
use cppkg.Base.{
  ℕ, zero, suc, ◌+◌, ◌-◌, ◌*◌, ◌≤◌, ◌<◌, ◌≡◌, refl, ◌∙◌, ◌⊎◌, arith, List, Bool, true, false, ◌||◌,
  and_false, inl, inr, Bool-cases, ltb, length, get_or, set, length-set, get_or-set_self,
  get_or-set_ne, ℤ, pos, ◌-ℤ◌, int16,
}
use cppkg.Diff.Furthest.Corner.{Done}
use cppkg.Diff.Furthest.Bounds.{furthest-Placed}
use cppkg.Diff.Search.{reach, diagonals}
use cppkg.Diff.Search.Index.{
  diag, spot, spot-lt, spot_ne, spot_apart, diag_next, diag_in, diag_out, first_diag,
}
use cppkg.Diff.Search.Level.{
  alike, far, width, Small, n_lem, m_lem, slot-width, Row, reach_lem, reach_zero,
}

pub goes_on :
    (n m x d j : ℕ) → (ltb x n || ltb (x + d - 2 * j) m) ≡ true → ¬ ((n ≤ x) × (m + 2 * j ≤ x + d))
goes_on n m x d j h done = ground arith

pub comes_to_end :
    (n m x d j : ℕ)
    → 2 * j ≤ x + d
    → (ltb x n || ltb (x + d - 2 * j) m) ≡ false
    → (n ≤ x) × (m + 2 * j ≤ x + d)
comes_to_end n m x d j h e = ground arith

module _ {ℓ} {A : Type ℓ} (cmp : A → A → Bool) (orig updated : List A) where
  pub stopped :
      (fuel : ℕ) (iedit k : ℤ) (costs : List ℤ)
      → diagonals cmp orig updated fuel iedit k costs false ≡ (costs, false)
  unfolding diagonals
  stopped zero iedit k costs = refl
  stopped (suc fuel) iedit k costs = rw and_false

module _ {ℓ} {A : Type ℓ} (cmp : A → A → Bool) (orig updated : List A)
    (small : Small cmp orig updated) where
  pub ended :
      (fuel d : ℕ) (costs : List ℤ)
      → diagonals cmp orig updated (suc fuel) (pos d) (diag d (suc d)) costs true ≡ (costs, true)
  unfolding diagonals
  ended fuel d costs = rw (diag_out d)

  pub one_diagonal :
      (fuel d j x y : ℕ) (costs : List ℤ)
      → d ≤ length orig + length updated
      → j ≤ d
      → reach cmp orig updated costs (pos d) (diag d j) ≡ (pos x, pos y)
      → diagonals cmp orig updated (suc fuel) (pos d) (diag d j) costs true
        ≡ diagonals cmp orig updated fuel
            (pos d)
            (diag d (suc j))
            (set costs (spot (width cmp orig updated) d j) (pos x))
            (ltb x (length orig) || ltb y (length updated))
  unfolding diagonals
  one_diagonal fuel d j x y costs h k e = rw (
    diag_in d j k,
    e,
    diag_next d j (omega arith) k,
    slot-width cmp orig updated small d j h k,
    n_lem cmp orig updated small,
    m_lem cmp orig updated small,
    add-zero x,
    add-zero (length orig),
    add-zero y,
    add-zero (length updated),
  )

  -- No end of edit `d` before diagonal `j` is at the far corner.
  abbrev pub Open : ℕ → ℕ → Type 0
  Open d j = (i : ℕ) → i < j → ¬ Done (length orig) (length updated) (alike cmp orig updated) d i

  abbrev pub Filled : List ℤ → ℕ → ℕ → Type 0
  Filled costs d j =
      (i : ℕ)
      → i < j
      → get_or costs (spot (width cmp orig updated) d i) (pos 0) ≡ pos (far cmp orig updated d i)

  -- What the loop leaves: the whole row, and no end, or the news that there was an end.
  abbrev pub After : ℕ → List ℤ × Bool → Type 0
  After d r =
      ((r.1 ≡ true)
        × Row cmp orig updated small r.0 d
        × (length r.0 ≡ width cmp orig updated)
        × Open d (suc d))
      ⊎ ((r.1 ≡ false)
          × ((i : ℕ) × (i ≤ d) × Done (length orig) (length updated) (alike cmp orig updated) d i))

  abbrev pub put : List ℤ → ℕ → ℕ → List ℤ
  put costs d j = set costs (spot (width cmp orig updated) d j) (pos (far cmp orig updated d j))

  put-Filled :
      (d j : ℕ) (costs : List ℤ)
      → d ≤ length orig + length updated
      → j ≤ d
      → length costs ≡ width cmp orig updated
      → Filled costs d j
      → Filled (put costs d j) d (suc j)
  put-Filled d j costs h k wide filled i l = elim (dec_lt i j) [
    | yes before ↦
        get_or-set_ne costs _ _ _ _ (spot_apart (length orig + length updated) d i j h before k)
        ∙ filled i before
    | no at ↦
        let e : i ≡ j = omega arith in
        rw e
          (get_or-set_self costs _ _ _ (rw wide (spot-lt (length orig + length updated) d j h k)))
  ]

  put-Row :
      (d j : ℕ) (costs : List ℤ)
      → suc d ≤ length orig + length updated
      → j ≤ suc d
      → Row cmp orig updated small costs d
      → Row cmp orig updated small (put costs (suc d) j) d
  put-Row d j costs h k row i l =
      get_or-set_ne costs _ _ _ _ (spot_ne (length orig + length updated) d j i h k l) ∙ row i l

  Open-suc :
      (d j : ℕ)
      → Open d j
      → ¬ Done (length orig) (length updated) (alike cmp orig updated) d j
      → Open d (suc j)
  Open-suc d j before now i l done = elim (dec_lt i j) [
    | yes k ↦ before i k done
    | no k ↦ let e : j ≡ i = omega arith in now (rw e done)
  ]

  -- One diagonal, and then the rest if it has not come to the end.
  After-diagonal :
      (fuel d j : ℕ) (costs : List ℤ)
      → d ≤ length orig + length updated
      → j ≤ d
      → reach cmp orig updated costs (pos d) (diag d j)
        ≡ (pos (far cmp orig updated d j), pos (far cmp orig updated d j + d - 2 * j))
      → (¬ Done (length orig) (length updated) (alike cmp orig updated) d j
          → After d (diagonals cmp orig updated fuel (pos d) (diag d (suc j)) (put costs d j) true))
      → After d (diagonals cmp orig updated (suc fuel) (pos d) (diag d j) costs true)
  After-diagonal fuel d j costs h k e rest =
      rw (one_diagonal fuel d j x (x + d - 2 * j) costs h k e)
        (elim (Bool-cases (ltb x (length orig) || ltb (x + d - 2 * j) (length updated))) [
          | inl go ↦ rw go (rest (goes_on (length orig) (length updated) x d j go))
          | inr end ↦ rw (end, stopped) (inr (refl, (j, k, at_end end)))
        ])
    where
      x : ℕ
      x = far cmp orig updated d j

      at_end :
          (ltb x (length orig) || ltb (x + d - 2 * j) (length updated)) ≡ false
          → Done (length orig) (length updated) (alike cmp orig updated) d j
      at_end =
          let p = furthest-Placed (length orig) (length updated) (alike cmp orig updated) d j k in
          comes_to_end (length orig) (length updated) x d j p.above

  module _ (d : ℕ) (h : suc d ≤ length orig + length updated) where
    -- The loop from diagonal `j` on, with the diagonals before it done.
    diagonals_from :
        (fuel j : ℕ) (costs : List ℤ)
        → Row cmp orig updated small costs d
        → length costs ≡ width cmp orig updated
        → j ≤ suc (suc d)
        → suc (suc (suc d)) ≤ fuel + j
        → Filled costs (suc d) j
        → Open (suc d) j
        → After (suc d) (diagonals cmp orig updated fuel (pos (suc d)) (diag (suc d) j) costs true)
    diagonals_from zero j costs row wide k enough filled open_ = absurd (omega arith)
    diagonals_from (suc fuel) j costs row wide k enough filled open_ =
        elim (dec_lt j (suc (suc d))) [
          | no last ↦
              let e : j ≡ suc (suc d) = omega arith in
              rw (e, ended fuel (suc d) costs)
                (inl (refl, (λ i l. filled i (omega arith)), wide, λ i l. open_ i (omega arith)))
          | yes l ↦
              let le : j ≤ suc d = omega arith in
              After-diagonal fuel (suc d) j costs h le
                (reach_lem cmp orig updated small costs d j row h le)
                λ now.
                  diagonals_from fuel (suc j) (put costs (suc d) j) (put-Row d j costs h le row)
                    (length-set costs _ _ ∙ wide) (omega arith) (omega arith)
                    (put-Filled (suc d) j costs h le wide filled) (Open-suc (suc d) j open_ now)
        ]

    -- Edit number d + 1.
    pub diagonals-After :
        (fuel : ℕ) (costs : List ℤ)
        → Row cmp orig updated small costs d
        → length costs ≡ width cmp orig updated
        → suc (suc (suc d)) ≤ fuel
        → After (suc d) (
            diagonals cmp orig updated fuel (pos (suc d)) (int16 (pos 0 -ℤ pos (suc d))) costs true)
    diagonals-After fuel costs row wide enough = rw (first_diag (suc d) (omega arith)) (
        diagonals_from fuel 0 costs row wide (omega arith) (omega arith)
          (λ i l. absurd (omega arith)) (λ i l. absurd (omega arith)))

  -- The first round has no edit: it finds `costs` empty and follows the diagonal from the start.
  pub diagonals_zero-After :
      (fuel : ℕ) (costs : List ℤ)
      → ((i : ℕ) → get_or costs i (pos 0) ≡ pos 0)
      → length costs ≡ width cmp orig updated
      → 2 ≤ fuel
      → After 0 (diagonals cmp orig updated fuel (pos 0) (int16 (pos 0 -ℤ pos 0)) costs true)
  diagonals_zero-After zero costs zeros wide enough = absurd (omega arith)
  diagonals_zero-After (suc zero) costs zeros wide enough = absurd (omega arith)
  diagonals_zero-After (suc (suc fuel)) costs zeros wide enough = rw (first_diag 0 (omega arith)) (
      After-diagonal (suc fuel) 0 0 costs (omega arith) (omega arith)
        (reach_zero cmp orig updated small costs zeros)
        λ now. rw (ended fuel 0 (put costs 0 0)) (
          inl (
            refl,
            (λ i l. full i (omega arith)),
            length-set costs _ _ ∙ wide,
            Open-suc 0 0 (λ i l. absurd (omega arith)) now,
          )))
    where
      full : Filled (put costs 0 0) 0 1
      full = put-Filled 0 0 costs (omega arith) (omega arith) wide (λ i l. absurd (omega arith))
