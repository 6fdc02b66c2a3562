-- ===== src/Diff/Myers/MinEdit.antt =====
-- `myers_diff_min_edit` counts the edits of `myers_diff`, though its loops stop otherwise.
use native.Mathlib.Decide.{dec_lt}
use cppkg.Base.{
  ℕ, zero, suc, ◌+◌, ◌≤◌, ◌<◌, ◌≡◌, refl, ap, sym, ◌∙◌, ◌⊎◌, inl, inr, arith, List, Bool, true,
  false, not, ◌&&◌, ◌||◌, length, if◌then◌else◌, and_false, Bool-cases, ltb, get_or-replicate,
  length-replicate, replicate, set, ℤ, pos, ltb_ℤ, leb_ℤ, ◌+ℤ◌, int16, size, some,
}
use cppkg.Diff.Furthest.Corner.{Done}
use cppkg.Diff.Search.{
  n, m, max_edit, ncost, max_size, slot, reach, diagonals, diagonals_min, rounds_min,
  myers_diff_min_edit,
}
use cppkg.Diff.Myers.{myers_diff, Diff}
use cppkg.Diff.Search.Index.{int16_next}
use cppkg.Diff.Search.Level.{alike, width, Small, max_edit_lem, ncost_lem}
use cppkg.Diff.Search.Rows.{stopped}
use cppkg.Diff.Search.Rounds.{OpenBefore, OpenBefore-suc, Costs, round, round-After}
use cppkg.Diff.Myers.Correct.{edits-found}
use cppkg.Diff.Script.{edits}

hit_test : (x y a b : ℤ) → (leb_ℤ a x && leb_ℤ b y) ≡ not (ltb_ℤ x a || ltb_ℤ y b)
hit_test x y a b = ground arith

module _ {ℓ} {A : Type ℓ} (cmp : A → A → Bool) (orig updated : List A) where
  min_stopped :
      (fuel : ℕ) (iedit k least : ℤ) (costs : List ℤ)
      → diagonals_min cmp orig updated fuel iedit k costs false least ≡ (costs, false, least)
  unfolding diagonals_min
  min_stopped zero iedit k least costs = refl
  min_stopped (suc fuel) iedit k least costs = rw and_false

  -- The two loops over the diagonals take the same way; where they stop early, so that no
  -- diagonal is left to try, `iedit` is the least.
  diagonals_min-diagonals :
      (fuel : ℕ) (iedit k least : ℤ) (costs : List ℤ)
      → diagonals_min cmp orig updated fuel iedit k costs true least ≡ (
        (diagonals cmp orig updated fuel iedit k costs true).0,
        (diagonals cmp orig updated fuel iedit k costs true).1,
        if (diagonals cmp orig updated fuel iedit k costs true).1 then least else iedit,
      )
  unfolding diagonals_min diagonals
  diagonals_min-diagonals zero iedit k least costs = refl
  diagonals_min-diagonals (suc fuel) iedit k least costs = elim (Bool-cases (leb_ℤ k iedit)) [
    | inr out ↦ rw out
    | inl go ↦
        let end = reach cmp orig updated costs iedit k in
        rw (go, hit_test end.0 end.1 (n cmp orig updated) (m cmp orig updated))
          (elim (Bool-cases
            (ltb_ℤ end.0 (n cmp orig updated) || ltb_ℤ end.1 (m cmp orig updated))) [
              | inl more ↦ rw more (
                  diagonals_min-diagonals fuel iedit (int16 (k +ℤ pos 2)) least
                    (set costs (slot (ncost cmp orig updated) k) end.0))
              | inr hit ↦ rw (hit, min_stopped fuel, stopped cmp orig updated fuel)
            ])
  ]

  min_end :
      (fuel : ℕ) (iedit least : ℤ) (costs : List ℤ)
      → rounds_min cmp orig updated fuel iedit costs false least ≡ least
  unfolding rounds_min
  min_end zero iedit least costs = refl
  min_end (suc fuel) iedit least costs = rw and_false

module _ {ℓ} {A : Type ℓ} (cmp : A → A → Bool) (orig updated : List A)
    (small : Small cmp orig updated) where
  record MinFound (value : ℤ) : Type 0 where
    edits_ : ℕ
    value_lem : value ≡ pos edits_
    bound : edits_ ≤ length orig + length updated
    before : OpenBefore cmp orig updated small edits_
    last :
        (edits_ ≡ length orig + length updated)
        ⊎ ((j : ℕ) × (j ≤ edits_)
            × Done (length orig) (length updated) (alike cmp orig updated) edits_ j)

  min_round :
      (fuel d : ℕ) (costs : List ℤ) (least : ℤ)
      → d < length orig + length updated
      → rounds_min cmp orig updated (suc fuel) (pos d) costs true least
        ≡ rounds_min cmp orig updated fuel
            (pos (suc d))
            (round cmp orig updated small d costs).0
            (round cmp orig updated small d costs).1
            (if (round cmp orig updated small d costs).1 then least else pos d)
  unfolding rounds_min round
  min_round fuel d costs least h =
      let test : ltb_ℤ (pos d) (max_edit cmp orig updated) ≡ true =
        rw (max_edit_lem cmp orig updated small) (ground arith) in
      rw (test, int16_next d (omega arith), diagonals_min-diagonals cmp orig updated)

  min_last :
      (fuel d : ℕ) (costs : List ℤ) (least : ℤ)
      → d ≡ length orig + length updated
      → rounds_min cmp orig updated (suc fuel) (pos d) costs true least ≡ least
  unfolding rounds_min
  min_last fuel d costs least h =
      let test : ltb_ℤ (pos d) (max_edit cmp orig updated) ≡ false =
        rw (max_edit_lem cmp orig updated small) (ground arith) in
      rw test

  rounds_min-MinFound :
      (fuel d : ℕ) (costs : List ℤ)
      → Costs cmp orig updated small d costs
      → length costs ≡ width cmp orig updated
      → d ≤ length orig + length updated
      → length orig + length updated + 1 ≤ fuel + d
      → OpenBefore cmp orig updated small d
      → MinFound (rounds_min cmp orig updated fuel (pos d) costs true (max_edit cmp orig updated))
  rounds_min-MinFound zero d costs c wide h enough before = absurd (omega arith)
  rounds_min-MinFound (suc fuel) d costs c wide h enough before =
      elim (dec_lt d (length orig + length updated)) [
        | yes k ↦
            rw (min_round fuel d costs (max_edit cmp orig updated) k)
              (elim (round-After cmp orig updated small d costs c wide h) [
                | inl (go, row, wide', open_) ↦ rw go (
                    rounds_min-MinFound fuel (suc d) (round cmp orig updated small d costs).0 row
                      wide' k (omega arith) (OpenBefore-suc cmp orig updated small d before open_))
                | inr (end, found) ↦
                    rw (end, min_end cmp orig updated fuel)
                      (record {
                        edits_ = d;
                        value_lem = refl;
                        bound = h;
                        before = before;
                        last = inr found;
                      })
              ])
        | no k ↦
            let e : d ≡ length orig + length updated = omega arith in
            rw (min_last fuel d costs (max_edit cmp orig updated) e) (record {
              edits_ = d;
              value_lem = max_edit_lem cmp orig updated small ∙ ap pos (sym e);
              bound = h;
              before = before;
              last = inl e;
            })
      ]

  min-MinFound :
      (value : ℤ) × (myers_diff_min_edit cmp orig updated ≡ some (size value)) × MinFound value
  unfolding myers_diff_min_edit
  min-MinFound =
      let fits : ltb max_size (width cmp orig updated) ≡ false = ground arith in
      (
        _,
        rw (ncost_lem cmp orig updated small, fits),
        rounds_min-MinFound (length orig + length updated + 2) 0
            (replicate (width cmp orig updated) (pos 0))
            (λ i. get_or-replicate (width cmp orig updated) i (pos 0)) (length-replicate _ _)
            (omega arith) (omega arith) (λ e h. absurd (omega arith)),
      )

  -- The first round that is `Done` is one and the same.
  first_unique :
      (d e : ℕ)
      → OpenBefore cmp orig updated small d
      → ((j : ℕ) × (j ≤ e) × Done (length orig) (length updated) (alike cmp orig updated) e j)
      → d ≤ e
  first_unique d e before (j, le, done) = elim (dec_lt e d) [
    | yes k ↦ absurd (before e k j (omega arith) done)
    | no k ↦ omega arith
  ]

size_small : (a : ℕ) → a ≤ 16383 → size (pos a) ≡ a
unfolding size
size_small a h = omega arith

-- If the lengths add up to 16383 at most, `myers_diff_min_edit` returns the number of insertions
-- and deletions in the result of `myers_diff`.
pub myers_diff_min_edit-edits {ℓ} :
    {A : Type ℓ} (cmp : A → A → Bool) (orig updated : List A)
    → length orig + length updated ≤ 16383
    → (ds : List (Diff A)) × (myers_diff cmp orig updated ≡ some ds)
      × (myers_diff_min_edit cmp orig updated ≡ some (edits ds))
myers_diff_min_edit-edits cmp orig updated small =
    let (d, o, before, done, bound) = edits-found cmp orig updated small in
    let (value, runs, f) = min-MinFound cmp orig updated small in
    let le = first_unique cmp orig updated small f.edits_ d f.before done in
    let ge : d ≤ f.edits_ = elim f.last [
      | inl e ↦ omega arith
      | inr found ↦ first_unique cmp orig updated small d f.edits_ before found
    ] in
    let e : f.edits_ ≡ edits o.diffs = omega (arith, o.cost) in
    (
      o.diffs,
      o.runs,
      runs ∙ ap some (ap size f.value_lem ∙ size_small f.edits_ (omega (arith, f.bound)) ∙ e),
    )
