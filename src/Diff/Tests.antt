-- ===== src/Diff/Tests.antt =====
-- Runs of the diff, and the theorems about it, on small inputs.
use cppkg.Base.{
  map, int16, ◌↔◌, ◌+◌, ℕ, ◌≤◌, ◌≡◌, refl, arith, List, [], ◌∷◌, none, some, Bool, true, false,
  ◌==◌, ==_iff, replicate, length-replicate, pos, negsuc, int16, size,
}
use cppkg.Diff.Distance.{distance, myers_diff_min_edit-distance}
use cppkg.Diff.Distance.Metric.{myers_diff_min_edit_metric}
use cppkg.Diff.Myers.{Diff, eq, add, del, myers_diff}
use cppkg.Diff.Search.{myers_diff_min_edit, slide, same}
use cppkg.Diff.Script.{originals, updateds, edits, Numbered}
use cppkg.Diff.Myers.Result.{AllPlaced}
use cppkg.Diff.Myers.Correct.{myers_diff-replays}
use cppkg.Diff.Myers.Minimal.{myers_diff-shortest, myers_diff-AllPlaced}
use cppkg.Diff.Myers.MinEdit.{myers_diff_min_edit-edits}
use cppkg.Diff.Message.{Text, to_string, safe_diff_msg, diff_msg}
use cppkg.Diff.Message.Batches.{safe_diff_msg-diff_msg}
use cppkg.Diff.Message.Window.{near}
use cppkg.Diff.Message.Printed.{near_lines, to_string-near_lines}
use cppkg.Diff.Myers.Overflow.{myers_diff-overflow, myers_diff-throws}

-- `std::equal_to`.
abbrev pub equal_to : ℕ → ℕ → Bool
equal_to x y = x == y

abbrev abcabba : List ℕ
abcabba = b'a' ∷ b'b' ∷ b'c' ∷ b'a' ∷ b'b' ∷ b'b' ∷ b'a' ∷ []

abbrev cbabac : List ℕ
cbabac = b'c' ∷ b'b' ∷ b'a' ∷ b'b' ∷ b'a' ∷ b'c' ∷ []

equal_to_sound : (a b : ℕ) → equal_to a b ≡ true → a ≡ b
equal_to_sound a b = (==_iff a b).0

equal_to_refl : (a : ℕ) → equal_to a a ≡ true
equal_to_refl a = (==_iff a a).1 refl

abbrev abcabba_diff : List (Diff ℕ)
abcabba_diff =
    record { val = b'a'; orig = pos 0; updated = negsuc 0; action = del }
    ∷ record { val = b'b'; orig = pos 1; updated = negsuc 0; action = del }
    ∷ record { val = b'c'; orig = pos 2; updated = pos 0; action = eq }
    ∷ record { val = b'b'; orig = negsuc 0; updated = pos 1; action = add }
    ∷ record { val = b'a'; orig = pos 3; updated = pos 2; action = eq }
    ∷ record { val = b'b'; orig = pos 4; updated = pos 3; action = eq }
    ∷ record { val = b'b'; orig = pos 5; updated = negsuc 0; action = del }
    ∷ record { val = b'a'; orig = pos 6; updated = pos 4; action = eq }
    ∷ record { val = b'c'; orig = negsuc 0; updated = pos 5; action = add }
    ∷ []

program : Unit {0}
unfolding myers_diff myers_diff_min_edit slide same int16 size
program = tt

-- The example of the tutorial that the source follows: five edits.
abcabba_runs : (myers_diff equal_to abcabba cbabac ≡ some abcabba_diff) × (edits abcabba_diff ≡ 5)
unfolding program edits
abcabba_runs = (refl, refl)

min_edit_runs : myers_diff_min_edit equal_to abcabba cbabac ≡ some 5
unfolding program
min_edit_runs = refl

myers_diff-replays_example :
    (ds : List (Diff ℕ)) × (myers_diff equal_to abcabba cbabac ≡ some ds)
    × (originals ds ≡ abcabba)
    × (updateds ds ≡ cbabac)
myers_diff-replays_example = myers_diff-replays equal_to abcabba cbabac (omega arith) equal_to_sound

myers_diff-shortest_example : edits abcabba_diff ≤ edits abcabba_diff
unfolding originals updateds
myers_diff-shortest_example =
    myers_diff-shortest equal_to abcabba cbabac abcabba_diff abcabba_diff (omega arith)
      equal_to_refl abcabba_runs.0 refl refl

myers_diff_min_edit-edits_example :
    (ds : List (Diff ℕ)) × (myers_diff equal_to abcabba cbabac ≡ some ds)
    × (myers_diff_min_edit equal_to abcabba cbabac ≡ some (edits ds))
myers_diff_min_edit-edits_example = myers_diff_min_edit-edits equal_to abcabba cbabac (omega arith)

myers_diff-AllPlaced_example :
    AllPlaced equal_to abcabba cbabac abcabba_diff × Numbered 0 0 abcabba_diff
myers_diff-AllPlaced_example =
    myers_diff-AllPlaced equal_to abcabba cbabac abcabba_diff (omega arith) abcabba_runs.0

myers_diff-overflow_example : myers_diff equal_to (replicate 16384 0) [] ≡ some []
myers_diff-overflow_example =
    myers_diff-overflow equal_to (replicate 16384 0) []
      (omega (arith, length-replicate {A = ℕ} 16384 0))
      (omega (arith, length-replicate {A = ℕ} 16384 0))

myers_diff-throws_run : myers_diff equal_to (replicate 16384 0) (replicate 16384 1) ≡ none
myers_diff-throws_run =
    myers_diff-throws equal_to (replicate 16384 0) (replicate 16384 1)
      (omega (arith, length-replicate {A = ℕ} 16384 0))
      (omega (arith, length-replicate {A = ℕ} 16384 1))
      (omega (arith, length-replicate {A = ℕ} 16384 0, length-replicate {A = ℕ} 16384 1))

abbrev kept_line : Diff Text
kept_line = record { val = []; orig = pos 0; updated = pos 0; action = eq }

abbrev far_change : List (Diff Text)
far_change =
    kept_line
    ∷ kept_line
    ∷ kept_line
    ∷ kept_line
    ∷ record { val = []; orig = pos 4; updated = negsuc 0; action = del }
    ∷ []

-- The first line is too far from the change.
near_run : map (λ at. near at 0 far_change) (0 ∷ 1 ∷ 4 ∷ []) ≡ false ∷ true ∷ true ∷ []
unfolding near
near_run = refl

to_string-near_lines_example : to_string far_change ≡ some (near_lines 0 far_change far_change)
unfolding int16
to_string-near_lines_example = to_string-near_lines far_change 5 refl

abbrev two_lines : List Text
two_lines = (b'a' ∷ b'b' ∷ []) ∷ (b'c' ∷ []) ∷ []

abbrev other_lines : List Text
other_lines = (b'c' ∷ []) ∷ (b'd' ∷ []) ∷ []

safe_diff_msg-diff_msg_run :
    (message : Text) × (safe_diff_msg two_lines other_lines 2 ≡ some message)
    × (diff_msg two_lines other_lines ≡ some message)
safe_diff_msg-diff_msg_run =
    safe_diff_msg-diff_msg two_lines other_lines 2 (omega arith) (omega arith) (omega arith)

myers_diff_min_edit-distance_example :
    (myers_diff_min_edit equal_to abcabba cbabac ≡ some (distance equal_to abcabba cbabac))
    × ((ds : List (Diff ℕ)) × (myers_diff equal_to abcabba cbabac ≡ some ds)
        × (edits ds ≡ distance equal_to abcabba cbabac))
myers_diff_min_edit-distance_example =
    myers_diff_min_edit-distance equal_to abcabba cbabac (omega arith) equal_to_sound equal_to_refl

abbrev cab : List ℕ
cab = 3 ∷ 1 ∷ 2 ∷ []

myers_diff_min_edit_metric_example :
    (xy : ℕ) × (yz : ℕ) × (xz : ℕ) × (myers_diff_min_edit equal_to abcabba cbabac ≡ some xy)
    × (myers_diff_min_edit equal_to cbabac abcabba ≡ some xy)
    × (myers_diff_min_edit equal_to cbabac cab ≡ some yz)
    × (myers_diff_min_edit equal_to abcabba cab ≡ some xz)
    × ((xy ≡ 0) ↔ (abcabba ≡ cbabac))
    × (xz ≤ xy + yz)
myers_diff_min_edit_metric_example =
    myers_diff_min_edit_metric equal_to equal_to_sound equal_to_refl abcabba cbabac cab
      (omega arith) (omega arith) (omega arith)
