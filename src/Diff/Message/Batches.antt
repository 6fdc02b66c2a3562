-- ===== src/Diff/Message/Batches.antt =====
-- The diff in batches, where one batch is enough.
use cppkg.Base.{
  ℕ, suc, ◌+◌, ◌≤◌, ◌≡◌, refl, ap, ap₂, arith, List, [], ◌∷◌, true, ◌==◌, ==_iff, le→leb, length,
  take-length, int16_pos, some,
}
use cppkg.Diff.Myers.{Diff, Action, eq, add, del}
use cppkg.Diff.Script.{originals, updateds, old_of, new_of}
use cppkg.Diff.Myers.Correct.{myers_diff-replays}
use cppkg.Diff.Message.{
  Text, text_eq, safe_diff_msg_helper, safe_diff_msg, diff_msg, to_string, print_lines, shown,
}

pub text_eq_sound : (s t : Text) → text_eq s t ≡ true → s ≡ t
unfolding text_eq
text_eq_sound [] [] h = refl
text_eq_sound [] (b ∷ t) h = ground arith
text_eq_sound (a ∷ s) [] h = ground arith
text_eq_sound (a ∷ s) (b ∷ t) h =
    let both : ((a == b) ≡ true) × (text_eq s t ≡ true) = ground (arith, h) in
    ap₂ (λ x y. x ∷ y) ((==_iff a b).0 both.0) (text_eq_sound s t both.1)

length_entry :
    (action : Action) (a : Text) (olds news : List Text)
    → length olds + length news + 1 ≤ length (old_of action a olds) + length (new_of action a news)
length_entry eq a olds news = omega arith
length_entry add a olds news = omega arith
length_entry del a olds news = omega arith

pub length_bound :
    (ds : List (Diff Text)) → length ds ≤ length (originals ds) + length (updateds ds)
unfolding originals updateds
length_bound [] = omega arith
length_bound (d ∷ ds) =
    omega (arith, length_bound ds, length_entry d.action d.val (originals ds) (updateds ds))

pub to_string-some :
    (ds : List (Diff Text))
    → length ds ≤ 32767
    → to_string ds ≡ some (print_lines 0 0 ds (shown (length ds) ds))
unfolding to_string
to_string-some ds few =
    rw (to_string, int16_pos (length ds) (omega (arith, few)), take-length ds) refl

-- If the lengths add up to 16383 at most and neither text is longer than the batch limit, then the
-- diff in batches returns a message, and the diff as a whole returns the same.
pub safe_diff_msg-diff_msg :
    (expect got : List Text) (batch_limit : ℕ)
    → length expect + length got ≤ 16383
    → length expect ≤ batch_limit
    → length got ≤ batch_limit
    → (message : Text) × (safe_diff_msg expect got batch_limit ≡ some message)
      × (diff_msg expect got ≡ some message)
unfolding safe_diff_msg safe_diff_msg_helper diff_msg
safe_diff_msg-diff_msg expect got batch_limit small fits fits' =
    let (ds, runs, old, new) = myers_diff-replays text_eq expect got small text_eq_sound in
    let one_more : length expect + length got + 1 ≡ suc (length expect + length got) =
      omega arith in
    let few : length ds ≤ 32767 =
      omega (arith, length_bound ds, ap length old, ap length new, small) in
    let printed = to_string-some ds few in
    (
      print_lines 0 0 ds (shown (length ds) ds),
      rw
          (
            one_more,
            le→leb (length expect) batch_limit fits,
            le→leb (length got) batch_limit fits',
            runs,
            int16_pos (length ds) (omega (arith, few)),
            take-length ds,
          )
          printed,
      rw runs printed,
    )
