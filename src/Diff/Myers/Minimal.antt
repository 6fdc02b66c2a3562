-- ===== src/Diff/Myers/Minimal.antt =====
-- No list of differences between the two arrays has fewer edits than the one of `myers_diff`.
use cppkg.Base.{
  some_inj, ℕ, ◌+◌, ◌≤◌, ◌≡◌, refl, sym, ◌∙◌, ◌⊎◌, inl, inr, arith, List, [], ◌∷◌, Bool, true,
  length, drop, drop-cons, drop-nil, get_elem?, some,
}
use native.Mathlib.Decide.{dec_le}
use cppkg.Diff.Furthest.Optimal.{Walk, origin, delete, add, keep, Walk-le-furthest}
use cppkg.Diff.Search.{same}
use cppkg.Diff.Myers.{Diff, Action, myers_diff}
use cppkg.Diff.Search.Level.{alike, Small}
use cppkg.Diff.Search.Rounds.{OpenBefore}
use cppkg.Diff.Myers.Result.{AllPlaced}
use cppkg.Diff.Myers.Correct.{edits-found}
use cppkg.Diff.Script.{Numbered, originals, updateds, edits}

Action-cases : (a : Action) → (a ≡ Action.eq) ⊎ ((a ≡ Action.add) ⊎ (a ≡ Action.del))
Action-cases Action.eq = inl refl
Action-cases Action.add = inr (inl refl)
Action-cases Action.del = inr (inr refl)

module _ {ℓ} {A : Type ℓ} (cmp : A → A → Bool) (orig updated : List A)
    (reflexive : (a : A) → cmp a a ≡ true) where
  alike_self :
      (x y : ℕ) (a : A)
      → get_elem? orig x ≡ some a
      → get_elem? updated y ≡ some a
      → alike cmp orig updated x y ≡ true
  unfolding same
  alike_self x y a hx hy = ground (arith, reflexive a)

  abbrev Way : ℕ → ℕ → ℕ → ℕ → Type 0
  Way = Walk (length orig) (length updated) (alike cmp orig updated)

  -- A list of differences, read from the front, walks from the origin to the far corner.
  script-Walk :
      (es : List (Diff A)) {d j x y : ℕ}
      → Way d j x y
      → x ≤ length orig
      → y ≤ length updated
      → originals es ≡ drop x orig
      → updateds es ≡ drop y updated
      → (d' : ℕ) × (j' : ℕ) × Way d' j' (length orig) (length updated) × (d' ≡ d + edits es)
  unfolding originals updateds edits
  script-Walk [] {d} {j} {x} {y} w hx hy old new =
      let ex : x ≡ length orig = omega (arith, drop-nil x orig (sym old)) in
      let ey : y ≡ length updated = omega (arith, drop-nil y updated (sym new)) in
      (d, j, rw (ex, ey) at w, omega arith)
  script-Walk (e ∷ es) {d} {j} {x} {y} w hx hy old new = elim (Action-cases e.action) [
    | inl k ↦
        let (ha, rest, lx) = drop-cons x orig (originals es) e.val (sym (rw k at old)) in
        let (hb, rest', ly) = drop-cons y updated (updateds es) e.val (sym (rw k at new)) in
        let (d', j', w', c) =
          script-Walk es (keep lx ly (alike_self x y e.val ha hb) w) lx ly (sym rest) (sym rest') in
        (d', j', w', rw k (omega arith))
    | inr (inl k) ↦
        let old' : originals es ≡ drop x orig = rw k at old in
        let (hb, rest', ly) = drop-cons y updated (updateds es) e.val (sym (rw k at new)) in
        let (d', j', w', c) = script-Walk es (add ly w) hx ly old' (sym rest') in
        (d', j', w', rw k (omega arith))
    | inr (inr k) ↦
        let new' : updateds es ≡ drop y updated = rw k at new in
        let (ha, rest, lx) = drop-cons x orig (originals es) e.val (sym (rw k at old)) in
        let (d', j', w', c) = script-Walk es (delete lx w) lx hy (sym rest) new' in
        (d', j', w', rw k (omega arith))
  ]

  -- Whatever walks to the far corner has as many edits as the search found.
  Walk-edits :
      (small : Small cmp orig updated) (found d j : ℕ)
      → OpenBefore cmp orig updated small found
      → Way d j (length orig) (length updated)
      → found ≤ d
  Walk-edits small found d j before w =
      let (le, diag, far) =
        Walk-le-furthest (length orig) (length updated) (alike cmp orig updated) w in
      elim (dec_le found d) [
        | yes k ↦ k
        | no k ↦ absurd (before d (omega arith) j (omega arith) (far, omega arith))
      ]

-- If the lengths add up to 16383 at most and the comparison accepts equal elements, the result of
-- `myers_diff` has at most as many insertions and deletions as any list of differences `es` that
-- spells the original array by its kept and deleted entries and the updated one by its kept and
-- added entries.
pub myers_diff-shortest {ℓ} :
    {A : Type ℓ} (cmp : A → A → Bool) (orig updated : List A) (ds es : List (Diff A))
    → length orig + length updated ≤ 16383
    → ((a : A) → cmp a a ≡ true)
    → myers_diff cmp orig updated ≡ some ds
    → originals es ≡ orig
    → updateds es ≡ updated
    → edits ds ≤ edits es
myers_diff-shortest cmp orig updated ds es small reflexive runs old new =
    let (d, o, before, done, bound) = edits-found cmp orig updated small in
    let (d', j', w, c) =
      script-Walk cmp orig updated reflexive es origin (omega arith) (omega arith) old new in
    let same : o.diffs ≡ ds = some_inj (sym o.runs ∙ runs) in
    let least = Walk-edits cmp orig updated reflexive small d d' j' before w in
    rw (← same) (omega (arith, o.cost))

-- If the lengths add up to 16383 at most, every entry of the result of `myers_diff` names places
-- that hold what it says: a kept entry the places of its value in the original array and of an
-- element of the updated one that the comparison accepts for it, a deleted entry a place in the
-- original array and -1, an added entry -1 and a place in the updated array. Along the list these
-- places go up from 0, without a gap.
pub myers_diff-AllPlaced {ℓ} :
    {A : Type ℓ} (cmp : A → A → Bool) (orig updated : List A) (ds : List (Diff A))
    → length orig + length updated ≤ 16383
    → myers_diff cmp orig updated ≡ some ds
    → AllPlaced cmp orig updated ds × Numbered 0 0 ds
myers_diff-AllPlaced cmp orig updated ds small runs =
    let (d, o, before, done, bound) = edits-found cmp orig updated small in
    let same : o.diffs ≡ ds = some_inj (sym o.runs ∙ runs) in
    (rw same at o.places, rw same at o.numbered)
