-- ===== src/Diff/Message/Endless.antt =====
-- The diff in batches with a batch limit of 0.
use cppkg.Base.{
  ℕ, zero, suc, ◌+◌, ◌<◌, ◌≡◌, refl, arith, List, [], none, some, length, int16, size, pos, min,
  leb, le→leb, ◌&&◌, false,
}
use cppkg.Diff.Myers.{myers_diff}
use cppkg.Diff.Search.{slide, same}
use cppkg.Diff.Message.{Text, text_eq, safe_diff_msg_helper, cut_batch, from_offset}

nothing : myers_diff text_eq [] [] ≡ some []
unfolding myers_diff slide same int16 size text_eq
nothing = refl

cut_batch-nil : cut_batch [] 0 0 ≡ record { diff_end = pos 0; eoffset = pos 0; goffset = pos 0 }
unfolding cut_batch int16
cut_batch-nil = refl

from_offset-zero : (lines : List Text) → from_offset lines (pos 0) ≡ some lines
unfolding from_offset
from_offset-zero lines = rw (le→leb 0 (length lines) (omega arith)) refl

min-zero : (k : ℕ) → min 0 k ≡ 0
min-zero k = omega arith

-- With a batch limit of 0 and a text that is not empty, no number of calls is enough for the diff
-- in batches to return.
pub safe_diff_msg_helper-zero :
    (fuel : ℕ) (expect got : List Text)
    → 0 < length expect + length got
    → safe_diff_msg_helper fuel expect got 0 ≡ none
unfolding safe_diff_msg_helper
safe_diff_msg_helper-zero zero expect got some_line = refl
safe_diff_msg_helper-zero (suc fuel) expect got some_line =
    let long : (leb (length expect) 0 && leb (length got) 0) ≡ false = ground arith in
    rw
      (
        long,
        nothing,
        min-zero (length expect),
        min-zero (length got),
        cut_batch-nil,
        from_offset-zero expect,
        from_offset-zero got,
        safe_diff_msg_helper-zero fuel expect got some_line,
      )
      refl
