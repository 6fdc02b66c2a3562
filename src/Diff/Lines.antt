-- ===== src/Diff/Lines.antt =====
-- cppkg/diff/msg.cc: texts read line by line. A stream is the bytes that it holds. `trim` is
-- `cisab::fmts::trim`, which is not part of the repository.
pub mod Getline
pub mod Same
mod Tests
use cppkg.Base.{
  ℕ, List, [], ◌∷◌, Option, Bool, true, false, not, ◌||◌, if◌then◌else◌, ◌==◌, ltb, length,
}
use cppkg.Diff.Message.{Text, newline, safe_diff_msg}

abbrev pub extend : ℕ → List Text → List Text
extend c [] = (c ∷ []) ∷ []
extend c (line ∷ lines) = (c ∷ line) ∷ lines

-- What `while (std::getline(str, line))` sees: a newline ends a line, and so does the end of the
-- stream if a line has begun.
unfoldable pub getlines : Text → List Text
getlines [] = []
getlines (c ∷ str) = if c == newline then [] ∷ getlines str else extend c (getlines str)

module _ (trim : Text → Text) where
  unfoldable pub consider : Bool → Bool → List Text → List Text
  consider ignore_empty_lines trim_spaces [] = []
  consider ignore_empty_lines trim_spaces (line ∷ lines) =
      let line' = if trim_spaces then trim line else line in
      let rest = consider ignore_empty_lines trim_spaces lines in
      if not ignore_empty_lines || ltb 0 (length line') then line' ∷ rest else rest

  unfoldable pub process_lines : Text → Bool → Bool → List Text
  unfolding consider getlines
  process_lines str ignore_empty_lines trim_spaces =
      consider ignore_empty_lines trim_spaces (getlines str)

  -- `std::numeric_limits<IndexT>::max()`
  abbrev pub default_batch_limit : ℕ
  default_batch_limit = 32767

  unfoldable pub diff_lines : Text → Text → Bool → Bool → Option Text
  unfolding process_lines safe_diff_msg
  diff_lines expect got ignore_empty_lines trim_spaces =
      let exlines = process_lines expect ignore_empty_lines trim_spaces in
      let golines = process_lines got ignore_empty_lines trim_spaces in
      safe_diff_msg exlines golines default_batch_limit
