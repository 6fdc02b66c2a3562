-- ===== src/Diff/Myers/Correct.antt =====
-- What `myers_diff` promises, for arrays whose indices and costs fit `IndexT`.
use mathlib.Core.List.{reverse}
use cppkg.Base.{
  ℕ, suc, ◌+◌, ◌-◌, ◌*◌, ◌/◌, ◌%◌, ◌^◌, ◌≤◌, ◌<◌, ◌≡◌, ap, ◌∙◌, arith, List, Bool, true, length,
  take-length, ℤ, pos, some, int16, int16_pos, size, pos_part, ◌+ℤ◌, ◌*ℤ◌,
}
use cppkg.Diff.Furthest.Corner.{Done, corner}
use cppkg.Diff.Search.{myers_diff_trace}
use cppkg.Diff.Myers.{Diff, myers_diff, myers_diff_backtrace, walk_back}
use cppkg.Diff.Search.Level.{alike, far, width, Small, n_lem, m_lem}
use cppkg.Diff.Search.Rounds.{Found, Traced, OpenBefore, myers_diff_trace-Found}
use cppkg.Diff.Myers.Points.{Points}
use cppkg.Diff.Myers.Way.{walked}
use cppkg.Diff.Myers.Result.{AllPlaced, AllPlaced-reverse, differences-Covers}
use cppkg.Diff.Script.{olds, news, Numbered, originals, updateds, edits}

rows_lem : (rows w : ℕ) → 0 < w → (rows * w) / w ≡ rows
rows_lem rows w h = grind arith

row_count :
    (rows s : ℕ)
    → rows ≤ 16384
    → s ≤ 16383
    → pos_part (int16 (pos ((rows * (2 * s + 1)) / size (pos (2 * s + 1))))) ≡ rows
unfolding size int16
row_count rows s h k =
    let e : (2 * s + 1) % 2 ^ 64 ≡ 2 * s + 1 = omega arith in
    rw (e, rows_lem rows (2 * s + 1) (omega arith)) (ap pos_part (int16_pos rows (omega arith)))

row_width :
    (a b : ℕ) → a + b ≤ 16383 → int16 (pos 2 *ℤ (pos a +ℤ pos b) +ℤ pos 1) ≡ pos (2 * (a + b) + 1)
unfolding int16
row_width a b h = ground arith

module _ {ℓ} {A : Type ℓ} (cmp : A → A → Bool) (orig updated : List A)
    (small : Small cmp orig updated) where
  -- The corner that the search found, from its side.
  Found-corner :
      {trace : List ℤ} (f : Found cmp orig updated small trace)
      → (far cmp orig updated f.edits f.index ≡ length orig)
        × (length updated + 2 * f.index ≡ length orig + f.edits)
  Found-corner f =
      corner (length orig) (length updated) (alike cmp orig updated) f.edits f.index f.index_le
        (λ i h k. f.before (f.edits - 1) (omega arith) i (omega arith)) f.done

  backtrace-walk :
      (trace : List ℤ) (rows : ℕ)
      → rows ≤ 16384
      → Traced cmp orig updated small trace rows
      → myers_diff_trace cmp orig updated ≡ some trace
      → myers_diff_backtrace cmp orig updated
        ≡ walk_back cmp orig updated trace
            (pos (width cmp orig updated))
            rows
            (pos (length orig))
            (pos (length updated))
  unfolding myers_diff_backtrace
  backtrace-walk trace rows h t e = rw (
    e,
    n_lem cmp orig updated small,
    m_lem cmp orig updated small,
    row_width (length orig) (length updated) small,
    t.size,
    row_count rows (length orig + length updated) h small,
  )

  backtrace-Points :
      (trace : List ℤ) (f : Found cmp orig updated small trace)
      → myers_diff_trace cmp orig updated ≡ some trace
      → (ps : List (ℤ × ℤ)) × (myers_diff_backtrace cmp orig updated ≡ some ps)
        × Points (alike cmp orig updated) f.edits (length orig) (length updated) ps
  backtrace-Points trace f e =
      let (ps, runs, points) =
        walked cmp orig updated small trace (suc f.edits) f.traced f.edits f.index (omega arith)
          f.bound f.index_le in
      let (ex, k) = Found-corner f in
      let ey : length orig + f.edits - 2 * f.index ≡ length updated = omega arith in
      (
        ps,
        backtrace-walk trace (suc f.edits) (omega arith) f.traced e ∙ (rw (ex, ey) at runs),
        rw (ex, ey) at points,
      )

  -- All that is known of the result.
  pub record Outcome (d : ℕ) : Type ℓ where
    pub diffs : List (Diff A)
    pub runs : myers_diff cmp orig updated ≡ some diffs
    pub old : originals diffs ≡ orig
    pub new : ((a b : A) → cmp a b ≡ true → a ≡ b) → updateds diffs ≡ updated
    pub cost : edits diffs ≡ d
    pub places : AllPlaced cmp orig updated diffs
    pub used_old : olds diffs ≡ length orig
    pub used_new : news diffs ≡ length updated
    pub numbered : Numbered 0 0 diffs

  outcome :
      (trace : List ℤ) (f : Found cmp orig updated small trace)
      → myers_diff_trace cmp orig updated ≡ some trace
      → Outcome f.edits
  unfolding myers_diff
  outcome trace f e =
      let (ps, back, points) = backtrace-Points trace f e in
      let (ds, runs, c) = differences-Covers cmp orig updated points (omega arith) (omega arith) in
      record {
        diffs = reverse ds;
        runs = rw (back, n_lem cmp orig updated small, m_lem cmp orig updated small, runs);
        old = c.old ∙ take-length orig;
        new = λ sound. c.new sound ∙ take-length updated;
        cost = c.cost;
        places = AllPlaced-reverse cmp orig updated ds c.places;
        used_old = c.used_old;
        used_new = c.used_new;
        numbered = c.numbered;
      }

  pub edits-found :
      (d : ℕ) × Outcome d
      × OpenBefore cmp orig updated small d
      × ((j : ℕ) × (j ≤ d) × Done (length orig) (length updated) (alike cmp orig updated) d j)
      × (d ≤ length orig + length updated)
  edits-found =
      let (trace, e, f) = myers_diff_trace-Found cmp orig updated small in
      (f.edits, outcome trace f e, f.before, (f.index, f.index_le, f.done), f.bound)

-- If the lengths add up to 16383 at most and the comparison accepts only equal elements, then
-- `myers_diff` returns a list of differences; its kept and deleted entries spell the original
-- array, and its kept and added entries the updated one.
pub myers_diff-replays {ℓ} :
    {A : Type ℓ} (cmp : A → A → Bool) (orig updated : List A)
    → length orig + length updated ≤ 16383
    → ((a b : A) → cmp a b ≡ true → a ≡ b)
    → (ds : List (Diff A)) × (myers_diff cmp orig updated ≡ some ds)
      × (originals ds ≡ orig)
      × (updateds ds ≡ updated)
myers_diff-replays cmp orig updated small sound =
    let o = (edits-found cmp orig updated small).1 in (o.diffs, o.runs, o.old, o.new sound)
