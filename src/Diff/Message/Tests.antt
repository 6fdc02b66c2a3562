-- ===== src/Diff/Message/Tests.antt =====
-- The theorems about messages, on small inputs.
use cppkg.Base.{length, ◌≡◌, ◌↔◌, arith, List, [], ◌∷◌, none, some}
use cppkg.Diff.Myers.{Diff}
use cppkg.Diff.Script.{originals, updateds}
use cppkg.Diff.Message.{Text, safe_diff_msg_helper, safe_diff_msg, diff_msg, print_lines, shown}
use cppkg.Diff.Message.Replay.{safe_diff_msg_helper-replays, safe_diff_msg-to_string}
use cppkg.Diff.Message.Endless.{safe_diff_msg_helper-zero}
use cppkg.Diff.Message.Empty.{diff_msg-empty}

abbrev three_lines : List Text
three_lines = (b'a' ∷ b'b' ∷ []) ∷ (b'c' ∷ []) ∷ (b'd' ∷ []) ∷ []

abbrev two_lines : List Text
two_lines = (b'c' ∷ []) ∷ (b'e' ∷ []) ∷ []

-- Batches of one line.
safe_diff_msg_helper-replays_example :
    (ds : List (Diff Text)) × (safe_diff_msg_helper 6 three_lines two_lines 1 ≡ some ds)
    × (originals ds ≡ three_lines)
    × (updateds ds ≡ two_lines)
safe_diff_msg_helper-replays_example =
    safe_diff_msg_helper-replays 6 three_lines two_lines 1 (omega arith) (omega arith) (omega arith)

safe_diff_msg-to_string_run :
    (ds : List (Diff Text)) × (safe_diff_msg three_lines two_lines 2
      ≡ some (print_lines 0 0 ds (shown (length ds) ds)))
    × (originals ds ≡ three_lines)
    × (updateds ds ≡ two_lines)
safe_diff_msg-to_string_run =
    safe_diff_msg-to_string three_lines two_lines 2 (omega arith) (omega arith) (omega arith)

zero_limit : safe_diff_msg_helper 100 three_lines two_lines 0 ≡ none
zero_limit = safe_diff_msg_helper-zero 100 three_lines two_lines (omega arith)

diff_msg-empty_example : (diff_msg three_lines two_lines ≡ some []) ↔ (three_lines ≡ two_lines)
diff_msg-empty_example = diff_msg-empty three_lines two_lines (omega arith)
