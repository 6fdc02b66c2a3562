-- ===== src/Diff/Message/Window.antt =====
-- Which lines a message shows.
use cppkg.Base.{
  ℕ, zero, suc, ◌+◌, ◌-◌, ◌<◌, ◌≡◌, refl, ap, ◌∙◌, inl, inr, arith, List, [], ◌∷◌, Bool, true,
  false, ◌&&◌, ◌||◌, if◌then◌else◌, ltb, leb, length, length-replicate, get_or, get_or-replicate,
  replicate, min, Bool-cases,
}
use cppkg.Diff.Myers.{Diff}
use cppkg.Diff.Message.{Text, is_eq, fill, mark, shown}

or_false : (b : Bool) → (b || false) ≡ b
or_false b = ground arith

get_or-fill :
    (show : List Bool) (begin count i : ℕ)
    → i < length show
    → get_or (fill show begin count) i false
      ≡ (leb begin i && ltb i (begin + count)) || get_or show i false
unfolding fill
get_or-fill [] begin count i h = absurd (omega arith)
get_or-fill (s ∷ show) zero zero i h = ground arith
get_or-fill (s ∷ show) zero (suc count) zero h = ground arith
get_or-fill (s ∷ show) zero (suc count) (suc i) h = ground (arith, get_or-fill show zero count i)
get_or-fill (s ∷ show) (suc begin) count zero h = ground arith
get_or-fill (s ∷ show) (suc begin) count (suc i) h = ground (arith, get_or-fill show begin count i)

length-fill : (show : List Bool) (begin count : ℕ) → length (fill show begin count) ≡ length show
unfolding fill
length-fill [] begin count = refl
length-fill (s ∷ show) zero zero = refl
length-fill (s ∷ show) zero (suc count) = ap suc (length-fill show zero count)
length-fill (s ∷ show) (suc begin) count = ap suc (length-fill show begin count)

-- Is there a change among the entries `ds`, the first of which stands at `i`, within three places
-- of `at`?
unfoldable pub near : ℕ → ℕ → List (Diff Text) → Bool
near at i [] = false
near at i (d ∷ ds) =
    ((if is_eq d.action then false else true) && (leb at (i + 3) && leb i (at + 3)))
    || near at (i + 1) ds

or_swap : (a b c : Bool) → (a || (b || c)) ≡ ((b || a) || c)
or_swap a b c = ground arith

-- The stretch from three before to three after, cut to the list, holds what is that near.
window_test :
    (ndiffs i at : ℕ)
    → i < ndiffs
    → at < ndiffs
    → (leb (i - 3) at && ltb at (i - 3 + (min (ndiffs - 1) (i + 3) - (i - 3) + 1)))
      ≡ (leb at (i + 3) && leb i (at + 3))
window_test ndiffs i at h k = ground arith

-- The marks add up.
mark-near :
    (ndiffs i at : ℕ) (ds : List (Diff Text)) (show : List Bool)
    → length show ≡ ndiffs
    → i + length ds ≡ ndiffs
    → at < ndiffs
    → get_or (mark ndiffs i ds show) at false ≡ (near at i ds || get_or show at false)
unfolding mark near
mark-near ndiffs i at [] show h k l = refl
mark-near ndiffs i at (d ∷ ds) show h k l = elim (Bool-cases (is_eq d.action)) [
  | inl same ↦ rw same (mark-near ndiffs (i + 1) at ds show h (omega arith) l)
  | inr changed ↦
      let begin = i - 3 in
      let count = min (ndiffs - 1) (i + 3) - (i - 3) + 1 in
      let rest =
        mark-near ndiffs (i + 1) at ds (fill show begin count) (length-fill show begin count ∙ h)
          (omega arith) l in
      let filled = get_or-fill show begin count at (omega arith) in
      rw changed (
        rest
        ∙ ap (λ b. near at (i + 1) ds || b)
            (filled ∙ ap (λ b. b || get_or show at false) (window_test ndiffs i at (omega arith) l))
        ∙ or_swap (near at (i + 1) ds) (leb at (i + 3) && leb i (at + 3)) (get_or show at false))
]

-- An entry is shown exactly if a change is within three places of it.
pub shown-near :
    (ds : List (Diff Text)) (at : ℕ)
    → at < length ds
    → get_or (shown (length ds) ds) at false ≡ near at 0 ds
unfolding shown
shown-near ds at h =
    mark-near (length ds) 0 at ds (replicate (length ds) false) (length-replicate _ _) (omega arith)
      h
    ∙ rw (get_or-replicate (length ds) at false) (or_false (near at 0 ds))

length-mark :
    (ndiffs i : ℕ) (ds : List (Diff Text)) (show : List Bool)
    → length (mark ndiffs i ds show) ≡ length show
unfolding mark
length-mark ndiffs i [] show = refl
length-mark ndiffs i (d ∷ ds) show = elim (Bool-cases (is_eq d.action)) [
  | inl same ↦ rw same (length-mark ndiffs (i + 1) ds show)
  | inr changed ↦ rw changed (length-mark ndiffs (i + 1) ds _ ∙ length-fill show _ _)
]

pub length-shown : (ds : List (Diff Text)) → length (shown (length ds) ds) ≡ length ds
unfolding shown
length-shown ds = length-mark (length ds) 0 ds _ ∙ length-replicate _ _
