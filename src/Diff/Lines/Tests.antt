-- ===== src/Diff/Lines/Tests.antt =====
-- The theorems about lines, on small inputs.
use cppkg.Base.{◌≡◌, ◌↔◌, refl, arith, List, [], ◌∷◌, some, true, false, if◌then◌else◌, ◌==◌}
use cppkg.Diff.Message.{Text, newline}
use cppkg.Diff.Lines.{process_lines, diff_lines}
use cppkg.Diff.Lines.Getline.{write_lines, all_one_line, process_lines-write_lines}
use cppkg.Diff.Lines.Same.{diff_lines-empty}

-- A trim of spaces at the start.
abbrev trim_start : Text → Text
trim_start [] = []
trim_start (c ∷ line) = if c == b' ' then trim_start line else c ∷ line

abbrev some_lines : List Text
some_lines = (b'a' ∷ b'b' ∷ []) ∷ [] ∷ (b' ' ∷ b'c' ∷ []) ∷ []

-- The last line needs no newline, and spaces and empty lines are left out.
process_lines_runs :
    process_lines trim_start
      (b'a' ∷ newline ∷ newline ∷ b' ' ∷ newline ∷ b' ' ∷ b'c' ∷ [])
      true
      true
    ≡ (b'a' ∷ []) ∷ (b'c' ∷ []) ∷ []
unfolding process_lines
process_lines_runs = refl

process_lines-write_lines_example :
    process_lines trim_start (write_lines some_lines) false false ≡ some_lines
unfolding all_one_line
process_lines-write_lines_example = process_lines-write_lines trim_start some_lines refl

abbrev spaced : Text
spaced = b' ' ∷ b'a' ∷ newline ∷ newline ∷ []

diff_lines-empty_example :
    (diff_lines trim_start spaced (b'a' ∷ []) true true ≡ some [])
    ↔ (process_lines trim_start spaced true true ≡ process_lines trim_start (b'a' ∷ []) true true)
unfolding process_lines
diff_lines-empty_example = diff_lines-empty trim_start spaced (b'a' ∷ []) true true (omega arith)
