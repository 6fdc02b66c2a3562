-- ===== src/Diff/Message.antt =====
-- cppkg/diff/format.h and cppkg/diff/msg.cc: differences as text, and the diff in batches. A text
-- is the list of its bytes, and a line of the input is a text. `none` is what `myers_diff` throws,
-- an array of negative length, a pointer moved outside its array, or fuel that has run out.
pub mod Window
pub mod Printed
pub mod Batches
pub mod Cuts
pub mod Replay
pub mod Empty
pub mod Endless
mod Tests
use cppkg.Base.{
  ◌>>=◌, ℕ, zero, suc, ◌+◌, ◌-◌, ◌/◌, ◌%◌, min, List, [], ◌∷◌, ◌++◌, Option, none, some, Bool, true,
  false, ◌&&◌, ◌==◌, if◌then◌else◌, ltb, leb, length, take, drop, replicate, ℤ, pos, negsuc, ◌+ℤ◌,
  pos_part, int16,
}
use cppkg.Diff.Myers.{Action, eq, add, del, Diff, myers_diff}
use cppkg.Diff.Script.{old_count, new_count}

abbrev pub Text : Type 0
Text = List ℕ

-- `std::equal_to<std::string>`.
unfoldable pub text_eq : Text → Text → Bool
text_eq [] [] = true
text_eq [] (b ∷ t) = false
text_eq (a ∷ s) [] = false
text_eq (a ∷ s) (b ∷ t) = (a == b) && text_eq s t

digits : ℕ → ℕ → Text → Text
digits zero n rest = rest
digits (suc fuel) n rest =
    let more = digits fuel (n / 10) ((b'0' + n % 10) ∷ rest) in
    if ltb n 10 then (b'0' + n) ∷ rest else more

-- What `<<` prints of a number that is not negative.
unfoldable pub decimal : ℕ → Text
unfolding digits
decimal n = digits (n + 1) n []

abbrev pub tab : ℕ
tab = 9

abbrev pub newline : ℕ
newline = 10

abbrev pub line_head : Action → ℕ → ℕ → Text
line_head eq orig updated = b' ' ∷ b' ' ∷ (decimal orig ++ tab ∷ decimal updated)
line_head add orig updated = b'+' ∷ b' ' ∷ b' ' ∷ tab ∷ decimal updated
line_head del orig updated = b'-' ∷ b' ' ∷ (decimal orig ++ tab ∷ b' ' ∷ [])

unfoldable pub diff_line_format : Text → Action → ℕ → ℕ → Text
unfolding decimal
diff_line_format val action orig updated =
    line_head action orig updated ++ tab ∷ (val ++ newline ∷ [])

abbrev pub lines_before : ℕ
lines_before = 3

abbrev pub lines_after : ℕ
lines_after = 3

abbrev pub is_eq : Action → Bool
is_eq eq = true
is_eq add = false
is_eq del = false

-- `std::memset(show + begin, true, count)`
unfoldable pub fill : List Bool → ℕ → ℕ → List Bool
fill [] begin count = []
fill (s ∷ show) zero zero = s ∷ show
fill (s ∷ show) zero (suc count) = true ∷ fill show zero count
fill (s ∷ show) (suc begin) count = s ∷ fill show begin count

-- The loop that marks the lines to show. `i - lines_before` stops at 0, as `std::max` makes it.
unfoldable pub mark : ℕ → ℕ → List (Diff Text) → List Bool → List Bool
mark ndiffs i [] show = show
mark ndiffs i (d ∷ ds) show =
    let begin = i - lines_before in
    let end = min (ndiffs - 1) (i + lines_after) in
    mark ndiffs (i + 1) ds (if is_eq d.action then show else fill show begin (end - begin + 1))

-- The loop that prints them.
unfoldable pub print_lines : ℕ → ℕ → List (Diff Text) → List Bool → Text
print_lines oidx uidx [] show = []
print_lines oidx uidx (d ∷ ds) [] = []
print_lines oidx uidx (d ∷ ds) (s ∷ show) =
    (if s then diff_line_format d.val d.action oidx uidx else [])
    ++ print_lines (oidx + old_count d.action) (uidx + new_count d.action) ds show

-- Which of the first `ndiffs` differences are shown.
unfoldable pub shown : ℕ → List (Diff Text) → List Bool
unfolding mark
shown ndiffs ds = mark ndiffs 0 ds (replicate ndiffs false)

-- `ndiffs` is an `IndexT`: it can be less than the number of differences, of which only so many are
-- looked at then, and it can be negative.
unfoldable pub to_string : List (Diff Text) → Option Text
unfolding print_lines shown
to_string diffs = elim (int16 (pos (length diffs))) [
  | pos ndiffs ↦ let ds = take ndiffs diffs in some (print_lines 0 0 ds (shown ndiffs ds))
  | negsuc _ ↦ none
]

unfoldable pub diff_msg : List Text → List Text → Option Text
unfolding to_string text_eq
diff_msg expect got = myers_diff text_eq expect got >>= to_string

-- `exit + offset`, as the start of what is left.
unfoldable pub from_offset : List Text → ℤ → Option (List Text)
from_offset lines (pos k) = if leb k (length lines) then some (drop k lines) else none
from_offset lines (negsuc _) = none

pub record Cut : Type 0 where
  pub diff_end : ℤ
  pub eoffset : ℤ
  pub goffset : ℤ

-- The loop that looks for the last kept entry of a batch.
unfoldable pub find_cut : ℕ → List (Diff Text) → Cut → Cut
find_cut i [] cut = cut
find_cut i (d ∷ ds) cut = find_cut (i + 1) ds (
    if is_eq d.action
    then record {
      diff_end = int16 (pos i +ℤ pos 1);
      eoffset = int16 (d.orig +ℤ pos 1);
      goffset = int16 (d.updated +ℤ pos 1);
    }
    else cut)

unfoldable pub cut_batch : List (Diff Text) → ℕ → ℕ → Cut
unfolding find_cut
cut_batch mdiffs nexpect ngot =
    find_cut 0 (take (pos_part (int16 (pos (length mdiffs)))) mdiffs) (record {
      diff_end = int16 (pos (length mdiffs));
      eoffset = int16 (pos nexpect);
      goffset = int16 (pos ngot);
    })

-- `safe_diff_msg_helper`: what it appends to `diffs`.
unfoldable pub safe_diff_msg_helper : ℕ → List Text → List Text → ℕ → Option (List (Diff Text))
unfolding text_eq cut_batch from_offset
safe_diff_msg_helper zero expect got batch_limit = none
safe_diff_msg_helper (suc fuel) expect got batch_limit =
    let whole = myers_diff text_eq expect got >>= λ mdiffs.
    some (take (pos_part (int16 (pos (length mdiffs)))) mdiffs) in
    let batch : Option (List (Diff Text)) = (do
      mdiffs ← myers_diff text_eq (take batch_limit expect) (take batch_limit got)
      let cut = cut_batch mdiffs (min batch_limit (length expect)) (min batch_limit (length got))
      expect' ← from_offset expect cut.eoffset
      got' ← from_offset got cut.goffset
      rest ← safe_diff_msg_helper fuel expect' got' batch_limit
      some (take (pos_part cut.diff_end) mdiffs ++ rest)) in
    if leb (length expect) batch_limit && leb (length got) batch_limit then whole else batch

-- The fuel is one more than the number of lines.
unfoldable pub safe_diff_msg : List Text → List Text → ℕ → Option Text
unfolding safe_diff_msg_helper to_string
safe_diff_msg expect got batch_limit =
    safe_diff_msg_helper (length expect + length got + 1) expect got batch_limit >>= to_string
