-- ===== src/Diff/Message/Replay.antt =====
-- The diff in batches ends, and its differences spell both texts.
use mathlib.Core.List.{append-nil}
use cppkg.Base.{
  ℕ, zero, suc, ◌+◌, ◌≤◌, ◌<◌, ◌≡◌, refl, ap, sym, subst, le→leb, ◌∙◌, arith, List, [], ◌∷◌, ◌++◌,
  false, ◌&&◌, leb, length, take, drop, take-length, length-take, length-drop, min, ℤ, pos, int16,
  int16_pos, pos_part, some, inl, inr, Bool-cases,
}
use cppkg.Diff.Myers.{Diff, myers_diff}
use cppkg.Diff.Script.{originals, updateds, olds, news, originals-append, updateds-append, Numbered}
use cppkg.Diff.Myers.Correct.{myers_diff-replays}
use cppkg.Diff.Myers.Minimal.{myers_diff-AllPlaced}
use cppkg.Diff.Message.{
  Text, text_eq, safe_diff_msg_helper, safe_diff_msg, print_lines, shown, Cut, cut_batch, find_cut,
  from_offset,
}
use cppkg.Diff.Message.Batches.{text_eq_sound, length_bound, to_string-some}
use cppkg.Diff.Message.Cuts.{IsCut, find_cut-IsCut, length-originals, length-updateds}

-- The first part of a text that is spelled, and the rest of the whole text behind it.
drop-spelled :
    (n : ℕ) (xs a b : List Text)
    → take n xs ≡ a ++ b
    → (length a ≤ length xs) × (a ++ drop (length a) xs ≡ xs)
drop-spelled n xs [] b h = (omega arith, refl)
drop-spelled zero xs (x ∷ a) b h = cc
drop-spelled (suc n) [] (x ∷ a) b h = cc
drop-spelled (suc n) (y ∷ xs) (x ∷ a) b h =
    let head : y ≡ x = cc in
    let tail : take n xs ≡ a ++ b = cc in
    let (le, same) = drop-spelled n xs a b tail in (omega arith, rw head (ap (λ l. x ∷ l) same))

cut_batch-IsCut :
    (mdiffs : List (Diff Text)) (nexpect ngot : ℕ)
    → length mdiffs ≤ 16382
    → olds mdiffs ≡ nexpect
    → news mdiffs ≡ ngot
    → nexpect ≤ 8191
    → ngot ≤ 8191
    → 1 ≤ nexpect + ngot
    → Numbered 0 0 mdiffs
    → IsCut mdiffs (cut_batch mdiffs nexpect ngot)
unfolding cut_batch olds news
cut_batch-IsCut mdiffs nexpect ngot few old new small small' some_line numbered =
    let end = int16_pos (length mdiffs) (omega arith) in
    let start : Cut = record {
      diff_end = int16 (pos (length mdiffs));
      eoffset = int16 (pos nexpect);
      goffset = int16 (pos ngot);
    } in
    let whole : IsCut mdiffs start = record {
      first = mdiffs;
      rest = [];
      parts = sym (append-nil mdiffs);
      diff_end = end;
      eoffset = int16_pos nexpect (omega arith) ∙ ap pos (sym old);
      goffset = int16_pos ngot (omega arith) ∙ ap pos (sym new);
      moves = omega arith;
    } in
    let all = ap (λ k. take (pos_part k) mdiffs) end ∙ take-length mdiffs in
    subst (IsCut mdiffs) (ap (λ ds. find_cut 0 ds start) (sym all))
      (find_cut-IsCut 0 0 0 mdiffs [] mdiffs start refl refl refl refl (omega arith) numbered whole)

-- What one batch comes to: its differences, and where it is cut.
record Batch (batch_limit : ℕ) (expect got : List Text) : Type 0 where
  mdiffs : List (Diff Text)
  runs : myers_diff text_eq (take batch_limit expect) (take batch_limit got) ≡ some mdiffs
  cut :
      IsCut mdiffs
        (cut_batch mdiffs (min batch_limit (length expect)) (min batch_limit (length got)))
  old : originals mdiffs ≡ take batch_limit expect
  new : updateds mdiffs ≡ take batch_limit got

Batch-found :
    (batch_limit : ℕ) (expect got : List Text)
    → batch_limit ≤ 8191
    → 1 ≤ min batch_limit (length expect) + min batch_limit (length got)
    → Batch batch_limit expect got
Batch-found batch_limit expect got small some_line =
    let old_size = length-take batch_limit expect in
    let new_size = length-take batch_limit got in
    let few : length (take batch_limit expect) + length (take batch_limit got) ≤ 16382 =
      omega (arith, old_size, new_size) in
    let few' : length (take batch_limit expect) + length (take batch_limit got) ≤ 16383 =
      omega (arith, few) in
    let (mdiffs, runs, old, new) =
      myers_diff-replays text_eq (take batch_limit expect) (take batch_limit got) few'
        text_eq_sound in
    record {
      mdiffs = mdiffs;
      runs = runs;
      cut =
          cut_batch-IsCut mdiffs (min batch_limit (length expect)) (min batch_limit (length got))
            (omega (arith, length_bound mdiffs, ap length old, ap length new, few))
            (sym (length-originals mdiffs) ∙ ap length old ∙ old_size)
            (sym (length-updateds mdiffs) ∙ ap length new ∙ new_size) (omega arith) (omega arith)
            some_line
            (myers_diff-AllPlaced text_eq (take batch_limit expect) (take batch_limit got) mdiffs
              few' runs).1;
      old = old;
      new = new;
    }

from_offset-drop :
    (lines : List Text) (k : ℕ) (offset : ℤ)
    → offset ≡ pos k
    → k ≤ length lines
    → from_offset lines offset ≡ some (drop k lines)
unfolding from_offset
from_offset-drop lines k offset e le = rw (e, from_offset) (rw (le→leb k (length lines) le) refl)

-- The part of a batch before the cut spells the start of the text.
spelled_start :
    (batch_limit : ℕ) (lines : List Text) (spelled : List (Diff Text) → List Text)
    (count : List (Diff Text) → ℕ) (mdiffs first rest : List (Diff Text))
    → ((a b : List (Diff Text)) → spelled (a ++ b) ≡ spelled a ++ spelled b)
    → ((a : List (Diff Text)) → length (spelled a) ≡ count a)
    → mdiffs ≡ first ++ rest
    → spelled mdiffs ≡ take batch_limit lines
    → (count first ≤ length lines) × (spelled first ++ drop (count first) lines ≡ lines)
spelled_start batch_limit lines spelled count mdiffs first rest append counted parts all =
    let (le, same) =
      drop-spelled batch_limit lines (spelled first) (spelled rest)
        (sym all ∙ ap spelled parts ∙ append first rest) in
    (rw (counted first) at le, ap (λ k. spelled first ++ drop k lines) (sym (counted first)) ∙ same)

take-append : (a b : List (Diff Text)) → take (length a) (a ++ b) ≡ a
take-append [] b = refl
take-append (d ∷ a) b = ap (λ l. d ∷ l) (take-append a b)

-- What the diff in batches has to do.
abbrev Replays : ℕ → List Text → List Text → ℕ → Type 0
Replays fuel expect got batch_limit =
    (ds : List (Diff Text)) × (safe_diff_msg_helper fuel expect got batch_limit ≡ some ds)
    × (originals ds ≡ expect)
    × (updateds ds ≡ got)

-- One batch, and the diff of what it leaves.
Replays-Batch :
    (fuel : ℕ) (expect got : List Text) (batch_limit : ℕ) (b : Batch batch_limit expect got)
    → (leb (length expect) batch_limit && leb (length got) batch_limit) ≡ false
    → olds b.cut.first ≤ length expect
    → news b.cut.first ≤ length got
    → originals b.cut.first ++ drop (olds b.cut.first) expect ≡ expect
    → updateds b.cut.first ++ drop (news b.cut.first) got ≡ got
    → Replays fuel (drop (olds b.cut.first) expect) (drop (news b.cut.first) got) batch_limit
    → Replays (suc fuel) expect got batch_limit
unfolding safe_diff_msg_helper
Replays-Batch fuel expect got batch_limit b long le le' same same' (rest, ran, old, new) =
    let first = b.cut.first in
    let taken : take (length first) b.mdiffs ≡ first =
      ap (take (length first)) b.cut.parts ∙ take-append first b.cut.rest in
    (
      first ++ rest,
      rw
          (
            long,
            b.runs,
            from_offset-drop expect (olds first) _ b.cut.eoffset le,
            from_offset-drop got (news first) _ b.cut.goffset le',
            ran,
            b.cut.diff_end,
            taken,
          )
          refl,
      originals-append first rest ∙ ap (λ l. originals first ++ l) old ∙ same,
      updateds-append first rest ∙ ap (λ l. updateds first ++ l) new ∙ same',
    )

-- For a batch limit from 1 to 8191, and with fuel for more batches than there are lines, the diff
-- in batches returns, and its differences spell the two texts.
pub safe_diff_msg_helper-replays :
    (fuel : ℕ) (expect got : List Text) (batch_limit : ℕ)
    → length expect + length got < fuel
    → 0 < batch_limit
    → batch_limit ≤ 8191
    → (ds : List (Diff Text)) × (safe_diff_msg_helper fuel expect got batch_limit ≡ some ds)
      × (originals ds ≡ expect)
      × (updateds ds ≡ got)
unfolding safe_diff_msg_helper
safe_diff_msg_helper-replays zero expect got batch_limit enough some_limit small =
    absurd (omega arith)
safe_diff_msg_helper-replays (suc fuel) expect got batch_limit enough some_limit small =
    elim (Bool-cases (leb (length expect) batch_limit && leb (length got) batch_limit)) [
      | inl fits ↦
          let few : length expect + length got ≤ 16382 = ground (arith, fits) in
          let (ds, runs, old, new) =
            myers_diff-replays text_eq expect got (omega (arith, few)) text_eq_sound in
          let bound : length ds ≤ 16382 =
            omega (arith, length_bound ds, ap length old, ap length new, few) in
          (
            ds,
            rw (fits, runs, int16_pos (length ds) (omega (arith, bound)), take-length ds) refl,
            old,
            new,
          )
      | inr long ↦
          let some_line : 1 ≤ min batch_limit (length expect) + min batch_limit (length got) =
            ground (arith, long) in
          let b = Batch-found batch_limit expect got small some_line in
          let (le, same) =
            spelled_start batch_limit expect originals olds b.mdiffs b.cut.first b.cut.rest
              originals-append length-originals b.cut.parts b.old in
          let (le', same') =
            spelled_start batch_limit got updateds news b.mdiffs b.cut.first b.cut.rest
              updateds-append length-updateds b.cut.parts b.new in
          let smaller : length (drop (olds b.cut.first) expect)
                + length (drop (news b.cut.first) got)
              < fuel =
            omega (
              arith,
              length-drop (olds b.cut.first) expect,
              length-drop (news b.cut.first) got,
              b.cut.moves,
              le,
              le',
              enough,
            ) in
          Replays-Batch fuel expect got batch_limit b long le le' same same' (
            safe_diff_msg_helper-replays fuel (drop (olds b.cut.first) expect)
              (drop (news b.cut.first) got) batch_limit smaller some_limit small)
    ]

-- For a batch limit from 1 to 8191 and texts of 32767 lines in all at most, `safe_diff_msg` returns
-- the message of a list of differences that spells the two texts.
pub safe_diff_msg-to_string :
    (expect got : List Text) (batch_limit : ℕ)
    → length expect + length got ≤ 32767
    → 0 < batch_limit
    → batch_limit ≤ 8191
    → (ds : List (Diff Text)) × (safe_diff_msg expect got batch_limit
        ≡ some (print_lines 0 0 ds (shown (length ds) ds)))
      × (originals ds ≡ expect)
      × (updateds ds ≡ got)
unfolding safe_diff_msg
safe_diff_msg-to_string expect got batch_limit few some_limit small =
    let (ds, runs, old, new) =
      safe_diff_msg_helper-replays (length expect + length got + 1) expect got batch_limit
        (omega arith) some_limit small in
    let bound : length ds ≤ 32767 =
      omega (arith, length_bound ds, ap length old, ap length new, few) in
    (ds, rw runs (to_string-some ds bound), old, new)
