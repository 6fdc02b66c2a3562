-- ===== src/Diff/Lines/Same.antt =====
-- When the message about two streams is empty.
use cppkg.Base.{◌+◌, ◌≤◌, ◌≡◌, ◌↔◌, sym, ◌∙◌, arith, Bool, [], some, length}
use cppkg.Diff.Message.{Text}
use cppkg.Diff.Message.Batches.{safe_diff_msg-diff_msg}
use cppkg.Diff.Message.Empty.{diff_msg-empty}
use cppkg.Diff.Lines.{process_lines, diff_lines}

-- If 16383 lines at most are considered in all, then the message of `diff_lines` is empty exactly
-- if the considered lines of both streams are the same.
pub diff_lines-empty :
    (trim : Text → Text) (expect got : Text) (ignore_empty_lines trim_spaces : Bool)
    → length (process_lines trim expect ignore_empty_lines trim_spaces)
        + length (process_lines trim got ignore_empty_lines trim_spaces)
      ≤ 16383
    → (diff_lines trim expect got ignore_empty_lines trim_spaces ≡ some []) ↔ (
        process_lines trim expect ignore_empty_lines trim_spaces
        ≡ process_lines trim got ignore_empty_lines trim_spaces)
unfolding diff_lines
diff_lines-empty trim expect got ignore_empty_lines trim_spaces small =
    let exlines = process_lines trim expect ignore_empty_lines trim_spaces in
    let golines = process_lines trim got ignore_empty_lines trim_spaces in
    let (message, batches, whole) =
      safe_diff_msg-diff_msg exlines golines 32767 small (omega arith) (omega arith) in
    let same = diff_msg-empty exlines golines small in
    (λ h. same.0 (whole ∙ sym batches ∙ h), λ h. batches ∙ sym whole ∙ same.1 h)
