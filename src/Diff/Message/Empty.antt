-- ===== src/Diff/Message/Empty.antt =====
-- When a message is empty.
use cppkg.Base.{
  ℕ, zero, suc, ◌+◌, ◌≤◌, ◌<◌, ◌≡◌, ◌↔◌, refl, ap, sym, ◌∙◌, arith, List, [], ◌∷◌, ◌++◌, Bool, true,
  false, le→leb, length, get_or, replicate, some, some_inj, inl, inr, Bool-cases, pos, ==_iff,
}
use cppkg.Diff.Myers.{Action, Diff, eq, add, del}
use cppkg.Diff.Script.{originals, updateds, edits, spell_same, cost_of, old_count, new_count}
use cppkg.Diff.Myers.Correct.{myers_diff-replays}
use cppkg.Diff.Myers.Minimal.{myers_diff-shortest}
use cppkg.Diff.Message.{
  Text, text_eq, is_eq, mark, shown, print_lines, diff_line_format, to_string, diff_msg,
}
use cppkg.Diff.Message.Batches.{text_eq_sound, length_bound, to_string-some}
use cppkg.Diff.Message.Window.{near, shown-near, length-shown}

text_eq_refl : (s : Text) → text_eq s s ≡ true
unfolding text_eq
text_eq_refl [] = refl
text_eq_refl (a ∷ s) = rw ((==_iff a a).1 refl) (text_eq_refl s)

-- The differences of a text to itself.
same_lines : List Text → List (Diff Text)
same_lines [] = []
same_lines (a ∷ s) = record { val = a; orig = pos 0; updated = pos 0; action = eq } ∷ same_lines s

same_lines_spell :
    (s : List Text)
    → (originals (same_lines s) ≡ s) × (updateds (same_lines s) ≡ s) × (edits (same_lines s) ≡ 0)
unfolding same_lines originals updateds edits
same_lines_spell [] = (refl, refl, refl)
same_lines_spell (a ∷ s) =
    let (old, new, none_changed) = same_lines_spell s in
    (ap (λ l. a ∷ l) old, ap (λ l. a ∷ l) new, omega (arith, none_changed))

is_eq_of_cost : (action : Action) → cost_of action ≡ 0 → action ≡ eq
is_eq_of_cost eq h = refl
is_eq_of_cost add h = absurd (omega arith)
is_eq_of_cost del h = absurd (omega arith)

-- Without a change nothing is marked, and nothing printed.
mark_unchanged :
    (ndiffs i : ℕ) (ds : List (Diff Text)) (show : List Bool)
    → edits ds ≡ 0
    → mark ndiffs i ds show ≡ show
unfolding mark edits
mark_unchanged ndiffs i [] show h = refl
mark_unchanged ndiffs i (d ∷ ds) show h =
    let kept : is_eq d.action ≡ true = ap is_eq (is_eq_of_cost d.action (omega (arith, h))) in
    rw kept (mark_unchanged ndiffs (i + 1) ds show (omega (arith, h)))

print_lines_hidden :
    (ds : List (Diff Text)) (o u : ℕ) → print_lines o u ds (replicate (length ds) false) ≡ []
unfolding print_lines
print_lines_hidden [] o u = refl
print_lines_hidden (d ∷ ds) o u =
    print_lines_hidden ds (o + old_count d.action) (u + new_count d.action)

-- Where nothing is printed, nothing was marked.
line_not_empty :
    (val : Text) (action : Action) (o u : ℕ) (rest : Text)
    → diff_line_format val action o u ++ rest ≡ []
    → false ≡ true
unfolding diff_line_format
line_not_empty val eq o u rest h = ground arith
line_not_empty val add o u rest h = ground arith
line_not_empty val del o u rest h = ground arith

print_lines_empty :
    (ds : List (Diff Text)) (show : List Bool) (o u i : ℕ)
    → length show ≡ length ds
    → print_lines o u ds show ≡ []
    → get_or show i false ≡ false
unfolding print_lines
print_lines_empty [] [] o u i l h = refl
print_lines_empty [] (s ∷ show) o u i l h = absurd (omega (arith, l))
print_lines_empty (d ∷ ds) [] o u i l h = refl
print_lines_empty (d ∷ ds) (true ∷ show) o u i l h =
    let wrong = line_not_empty d.val d.action o u _ h in cc
print_lines_empty (d ∷ ds) (false ∷ show) o u zero l h = refl
print_lines_empty (d ∷ ds) (false ∷ show) o u (suc i) l h =
    print_lines_empty ds show (o + old_count d.action) (u + new_count d.action) i (omega (arith, l))
      h

near_self :
    (i : ℕ) (ds : List (Diff Text)) (d : Diff Text)
    → is_eq d.action ≡ false
    → near i i (d ∷ ds) ≡ true
unfolding near
near_self i ds d changed = rw (changed, le→leb i (i + 3) (omega arith)) refl

near_later :
    (at i : ℕ) (ds : List (Diff Text)) (d : Diff Text)
    → near at i (d ∷ ds) ≡ false
    → near at (i + 1) ds ≡ false
unfolding near
near_later at i ds d h = ground (arith, h)

cost_kept : (action : Action) → is_eq action ≡ true → cost_of action ≡ 0
cost_kept eq h = refl
cost_kept add h = cc
cost_kept del h = cc

-- No place is near a change: there is none.
edits_unmarked :
    (i : ℕ) (ds : List (Diff Text))
    → ((at : ℕ) → at < i + length ds → near at i ds ≡ false)
    → edits ds ≡ 0
unfolding edits
edits_unmarked i [] h = refl
edits_unmarked i (d ∷ ds) h = elim (Bool-cases (is_eq d.action)) [
  | inl kept ↦
      let rest =
        edits_unmarked (i + 1) ds (λ at l. near_later at i ds d (h at (omega (arith, l)))) in
      omega (arith, rest, cost_kept d.action kept)
  | inr changed ↦
      let marked = near_self i ds d changed in absurd (ground (arith, marked, h i (omega arith)))
]

to_string_unchanged :
    (ds : List (Diff Text)) → length ds ≤ 32767 → edits ds ≡ 0 → to_string ds ≡ some []
unfolding shown
to_string_unchanged ds few h =
    to_string-some ds few
    ∙ ap (λ show. some (print_lines 0 0 ds show))
        (mark_unchanged (length ds) 0 ds (replicate (length ds) false) h)
    ∙ ap some (print_lines_hidden ds 0 0)

unchanged_to_string :
    (ds : List (Diff Text)) → length ds ≤ 32767 → to_string ds ≡ some [] → edits ds ≡ 0
unchanged_to_string ds few h =
    let printed = some_inj (sym (to_string-some ds few) ∙ h) in
    edits_unmarked 0 ds (λ at l.
      sym (shown-near ds at (omega (arith, l)))
      ∙ print_lines_empty ds (shown (length ds) ds) 0 0 at (length-shown ds) printed)

-- If the lengths add up to 16383 at most, then the message is empty exactly if the texts are the
-- same.
pub diff_msg-empty :
    (expect got : List Text)
    → length expect + length got ≤ 16383
    → (diff_msg expect got ≡ some []) ↔ (expect ≡ got)
unfolding diff_msg
diff_msg-empty expect got small =
    let (ds, runs, old, new) = myers_diff-replays text_eq expect got small text_eq_sound in
    let few : length ds ≤ 32767 =
      omega (arith, length_bound ds, ap length old, ap length new, small) in
    (
      λ h.
          let printed : to_string ds ≡ some [] = rw runs at h in
          sym old ∙ spell_same ds (unchanged_to_string ds few printed) ∙ new,
      λ same.
          let (old', new', none_changed) = same_lines_spell expect in
          let best =
            myers_diff-shortest text_eq expect got ds (same_lines expect) small text_eq_refl runs
              old' (new' ∙ same) in
          rw runs (to_string_unchanged ds few (omega (arith, best, none_changed))),
    )
