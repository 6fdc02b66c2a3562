-- ===== src/Diff/Message/Printed.antt =====
-- What a message prints: the lines near a change, under their numbers.
use cppkg.Base.{
  ℕ, zero, suc, ◌+◌, ◌≤◌, ◌<◌, ◌≡◌, refl, sym, ap, ap₂, ◌∙◌, arith, List, [], ◌∷◌, ◌++◌, Bool,
  false, some, if◌then◌else◌, length, length-append, length-take, get_or, take, take-suc, drop,
  drop-cons, pos, int16,
}
use cppkg.Diff.Myers.{Diff, Action, eq, add, del}
use cppkg.Diff.Script.{originals, updateds, originals-append, updateds-append, old_count, new_count}
use cppkg.Diff.Message.{Text, diff_line_format, print_lines, shown, to_string}
use cppkg.Diff.Message.Window.{near, shown-near, length-shown}

-- The line of an entry, numbered by the lines of each text before it.
abbrev pub line_at : ℕ → List (Diff Text) → Diff Text → Text
line_at at all d =
    diff_line_format d.val d.action (length (originals (take at all)))
      (length (updateds (take at all)))

-- The lines of the entries `ds`, the first of which stands at `at`, that are near a change.
unfoldable pub near_lines : ℕ → List (Diff Text) → List (Diff Text) → Text
near_lines at all [] = []
near_lines at all (d ∷ ds) =
    (if near at 0 all then line_at at all d else []) ++ near_lines (suc at) all ds

drop-get_or :
    (show : List Bool) (at : ℕ)
    → at < length show
    → drop at show ≡ get_or show at false ∷ drop (suc at) show
drop-get_or [] at h = absurd (omega arith)
drop-get_or (s ∷ show) zero h = refl
drop-get_or (s ∷ show) (suc at) h = drop-get_or show at (omega arith)

count_originals : (d : Diff Text) → length (originals (d ∷ [])) ≡ old_count d.action
unfolding originals
count_originals d = by_action d.action d.val
  where
    by_action :
        (action : Action) (val : Text)
        → length
            (originals (record { val = val; orig = pos 0; updated = pos 0; action = action } ∷ []))
          ≡ old_count action
    by_action eq val = refl
    by_action add val = refl
    by_action del val = refl

count_updateds : (d : Diff Text) → length (updateds (d ∷ [])) ≡ new_count d.action
unfolding updateds
count_updateds d = by_action d.action d.val
  where
    by_action :
        (action : Action) (val : Text)
        → length
            (updateds (record { val = val; orig = pos 0; updated = pos 0; action = action } ∷ []))
          ≡ new_count action
    by_action eq val = refl
    by_action add val = refl
    by_action del val = refl

-- One entry further.
originals-take :
    (at : ℕ) (all ds : List (Diff Text)) (d : Diff Text)
    → drop at all ≡ d ∷ ds
    → length (originals (take (suc at) all)) ≡ length (originals (take at all)) + old_count d.action
originals-take at all ds d here =
    ap (λ l. length (originals l)) (take-suc at all d (drop-cons at all ds d here).0)
    ∙ ap length (originals-append (take at all) (d ∷ []))
    ∙ length-append (originals (take at all)) (originals (d ∷ []))
    ∙ ap (λ k. length (originals (take at all)) + k) (count_originals d)

updateds-take :
    (at : ℕ) (all ds : List (Diff Text)) (d : Diff Text)
    → drop at all ≡ d ∷ ds
    → length (updateds (take (suc at) all)) ≡ length (updateds (take at all)) + new_count d.action
updateds-take at all ds d here =
    ap (λ l. length (updateds l)) (take-suc at all d (drop-cons at all ds d here).0)
    ∙ ap length (updateds-append (take at all) (d ∷ []))
    ∙ length-append (updateds (take at all)) (updateds (d ∷ []))
    ∙ ap (λ k. length (updateds (take at all)) + k) (count_updateds d)

print_lines-near_lines :
    (at : ℕ) (all ds : List (Diff Text))
    → drop at all ≡ ds
    → print_lines
        (length (originals (take at all)))
        (length (updateds (take at all)))
        ds
        (drop at (shown (length all) all))
      ≡ near_lines at all ds
unfolding print_lines near_lines
print_lines-near_lines at all [] here = refl
print_lines-near_lines at all (d ∷ ds) here =
    let (found, further, below) = drop-cons at all ds d here in
    let flag = drop-get_or (shown (length all) all) at (omega (arith, below, length-shown all)) in
    let later = print_lines-near_lines (suc at) all ds further in
    rw (flag, shown-near all at below)
      (ap (λ rest. (if near at 0 all then line_at at all d else []) ++ rest)
        (ap₂ (λ o u. print_lines o u ds (drop (suc at) (shown (length all) all)))
            (sym (originals-take at all ds d here)) (sym (updateds-take at all ds d here))
          ∙ later))

int16_below : (k n : ℕ) → int16 (pos k) ≡ pos n → n ≤ k
unfolding int16
int16_below k n h = ground (arith, h)

-- If an `IndexT` makes `n` of the number of differences, then the message is, in their order, the
-- lines of those among the first `n` that are within three places of a change among these; each
-- under the numbers of lines that the differences before it have of the two texts.
pub to_string-near_lines :
    (diffs : List (Diff Text)) (n : ℕ)
    → int16 (pos (length diffs)) ≡ pos n
    → to_string diffs ≡ some (near_lines 0 (take n diffs) (take n diffs))
unfolding to_string originals updateds
to_string-near_lines diffs n counted =
    let few = int16_below (length diffs) n counted in
    let size : length (take n diffs) ≡ n = omega (arith, length-take n diffs, few) in
    rw (to_string, counted)
      (ap (λ k. some (print_lines 0 0 (take n diffs) (shown k (take n diffs)))) (sym size)
        ∙ ap some (print_lines-near_lines 0 (take n diffs) (take n diffs) refl))
