-- ===== src/Diff/Message/Cuts.antt =====
-- Where a batch is cut: after its last kept entry, or at its end if it keeps nothing.
use mathlib.Core.List.{append_assoc}
use cppkg.Base.{
  ℕ, ◌+◌, ◌≤◌, ◌≡◌, refl, ap, sym, ◌∙◌, subst, arith, List, [], ◌∷◌, ◌++◌, true, length,
  length-append, pos, ◌+ℤ◌, int16, inl, inr, Bool-cases,
}
use cppkg.Diff.Myers.{Diff, Action, eq, add, del}
use cppkg.Diff.Script.{
  originals, updateds, old_of, new_of, olds, news, old_count, new_count, olds-append, news-append,
  Numbered, At,
}
use cppkg.Diff.Message.{Text, is_eq, Cut, find_cut}

length-old_of :
    (action : Action) (a : Text) (rest : List Text)
    → length (old_of action a rest) ≡ old_count action + length rest
length-old_of eq a rest = omega arith
length-old_of add a rest = omega arith
length-old_of del a rest = omega arith

length-new_of :
    (action : Action) (a : Text) (rest : List Text)
    → length (new_of action a rest) ≡ new_count action + length rest
length-new_of eq a rest = omega arith
length-new_of add a rest = omega arith
length-new_of del a rest = omega arith

pub length-originals : (ds : List (Diff Text)) → length (originals ds) ≡ olds ds
unfolding originals olds
length-originals [] = refl
length-originals (d ∷ ds) =
    omega (arith, length-old_of d.action d.val (originals ds), length-originals ds)

pub length-updateds : (ds : List (Diff Text)) → length (updateds ds) ≡ news ds
unfolding updateds news
length-updateds [] = refl
length-updateds (d ∷ ds) =
    omega (arith, length-new_of d.action d.val (updateds ds), length-updateds ds)

counts_le : (action : Action) → (old_count action ≤ 1) × (new_count action ≤ 1)
counts_le eq = (omega arith, omega arith)
counts_le add = (omega arith, omega arith)
counts_le del = (omega arith, omega arith)

olds-le : (ds : List (Diff Text)) → (olds ds ≤ length ds) × (news ds ≤ length ds)
unfolding olds news
olds-le [] = (omega arith, omega arith)
olds-le (d ∷ ds) =
    (omega (arith, olds-le ds, counts_le d.action), omega (arith, olds-le ds, counts_le d.action))

is_eq_lem : (action : Action) → is_eq action ≡ true → action ≡ eq
is_eq_lem eq h = refl
is_eq_lem add h = cc
is_eq_lem del h = cc

int16_next : (i : ℕ) → i ≤ 32766 → int16 (pos i +ℤ pos 1) ≡ pos (i + 1)
unfolding int16
int16_next i h = ground arith

-- The cut stands after a first part of the batch, which is not empty.
pub record IsCut (whole : List (Diff Text)) (cut : Cut) : Type 0 where
  pub first : List (Diff Text)
  pub rest : List (Diff Text)
  pub parts : whole ≡ first ++ rest
  pub diff_end : cut.diff_end ≡ pos (length first)
  pub eoffset : cut.eoffset ≡ pos (olds first)
  pub goffset : cut.goffset ≡ pos (news first)
  pub moves : 1 ≤ olds first + news first

olds_snoc :
    (p : List (Diff Text)) (d : Diff Text)
    → (olds (p ++ d ∷ []) ≡ olds p + old_count d.action)
      × (news (p ++ d ∷ []) ≡ news p + new_count d.action)
      × (length (p ++ d ∷ []) ≡ length p + 1)
unfolding olds news
olds_snoc p d = (
  omega (arith, olds-append p (d ∷ [])),
  omega (arith, news-append p (d ∷ [])),
  omega (arith, length-append p (d ∷ [])),
)

kept-IsCut :
    (i x y : ℕ) (whole p ds : List (Diff Text)) (d : Diff Text)
    → whole ≡ (p ++ d ∷ []) ++ ds
    → i ≡ length p
    → x ≡ olds p
    → y ≡ news p
    → length whole ≤ 32766
    → d.action ≡ eq
    → At d.action x y d.orig d.updated
    → IsCut whole (record {
      diff_end = int16 (pos i +ℤ pos 1);
      eoffset = int16 (d.orig +ℤ pos 1);
      goffset = int16 (d.updated +ℤ pos 1);
    })
kept-IsCut i x y whole p ds d parts ei ex ey small kept at =
    let (o, u) = subst (λ a. At a x y d.orig d.updated) kept at in
    let (so, sn, sl) = olds_snoc p d in
    let one : old_count d.action ≡ 1 = ap old_count kept in
    let one' : new_count d.action ≡ 1 = ap new_count kept in
    let size : length whole ≡ length p + 1 + length ds =
      omega (arith, ap length parts, length-append (p ++ d ∷ []) ds, sl) in
    let (le, le') = olds-le p in
    record {
      first = p ++ d ∷ [];
      rest = ds;
      parts = parts;
      diff_end = int16_next i (omega arith) ∙ ap pos (omega arith);
      eoffset = ap (λ k. int16 (k +ℤ pos 1)) o ∙ int16_next x (omega arith) ∙ ap pos (omega arith);
      goffset = ap (λ k. int16 (k +ℤ pos 1)) u ∙ int16_next y (omega arith) ∙ ap pos (omega arith);
      moves = omega arith;
    }

pub find_cut-IsCut :
    (i x y : ℕ) (whole p ds : List (Diff Text)) (cut : Cut)
    → whole ≡ p ++ ds
    → i ≡ length p
    → x ≡ olds p
    → y ≡ news p
    → length whole ≤ 32766
    → Numbered x y ds
    → IsCut whole cut
    → IsCut whole (find_cut i ds cut)
unfolding find_cut
find_cut-IsCut i x y whole p [] cut parts ei ex ey small numbered sofar = sofar
find_cut-IsCut i x y whole p (d ∷ ds) cut parts ei ex ey small numbered sofar =
    let parts' = parts ∙ sym (append_assoc p (d ∷ []) ds) in
    let (so, sn, sl) = olds_snoc p d in
    let next = λ (cut' : Cut) (h : IsCut whole cut').
      find_cut-IsCut (i + 1) (x + old_count d.action) (y + new_count d.action) whole (p ++ d ∷ [])
        ds cut' parts' (omega arith) (omega arith) (omega arith) small numbered.1 h in
    elim (Bool-cases (is_eq d.action)) [
      | inl kept ↦ rw kept (
          next _ (
            kept-IsCut i x y whole p ds d parts' ei ex ey small (is_eq_lem d.action kept)
              numbered.0))
      | inr changed ↦ rw changed (next cut sofar)
    ]
