-- ===== src/Diff/Script.antt =====
-- What a list of differences says of the two arrays, whoever made it.
use native.Mathlib.Nat.{add-zero, add_assoc}
use cppkg.Base.{ℕ, ◌+◌, ◌≡◌, refl, ap, subst, arith, List, [], ◌∷◌, ◌++◌, ℤ, pos, negsuc}
use cppkg.Diff.Myers.{Diff, Action, add, del, eq}

abbrev pub cost_of : Action → ℕ
cost_of eq = 0
cost_of add = 1
cost_of del = 1

module _ {ℓ} {A : Type ℓ} where
  -- What an entry contributes to the original, and to the updated array.
  abbrev pub old_of : Action → A → List A → List A
  old_of eq a rest = a ∷ rest
  old_of add a rest = rest
  old_of del a rest = a ∷ rest

  abbrev pub new_of : Action → A → List A → List A
  new_of eq a rest = a ∷ rest
  new_of add a rest = a ∷ rest
  new_of del a rest = rest

  unfoldable pub originals : List (Diff A) → List A
  originals [] = []
  originals (d ∷ ds) = old_of d.action d.val (originals ds)

  unfoldable pub updateds : List (Diff A) → List A
  updateds [] = []
  updateds (d ∷ ds) = new_of d.action d.val (updateds ds)

  -- The number of insertions and deletions.
  unfoldable pub edits : List (Diff A) → ℕ
  edits [] = 0
  edits (d ∷ ds) = cost_of d.action + edits ds

  pub originals-append :
      (ds es : List (Diff A)) → originals (ds ++ es) ≡ originals ds ++ originals es
  unfolding originals
  originals-append [] es = refl
  originals-append (d ∷ ds) es = ground (arith, originals-append ds es)

  pub updateds-append : (ds es : List (Diff A)) → updateds (ds ++ es) ≡ updateds ds ++ updateds es
  unfolding updateds
  updateds-append [] es = refl
  updateds-append (d ∷ ds) es = ground (arith, updateds-append ds es)

  pub edits-append : (ds es : List (Diff A)) → edits (ds ++ es) ≡ edits ds + edits es
  unfolding edits
  edits-append [] es = omega arith
  edits-append (d ∷ ds) es = omega (arith, edits-append ds es)

  same_step :
      (action : Action) (a : A) (x y : List A)
      → cost_of action ≡ 0
      → x ≡ y
      → old_of action a x ≡ new_of action a y
  same_step eq a x y h e = ap (λ l. a ∷ l) e
  same_step add a x y h e = absurd (ground (arith, h))
  same_step del a x y h e = absurd (ground (arith, h))

  -- Without an edit both arrays are the same.
  pub spell_same : (ds : List (Diff A)) → edits ds ≡ 0 → originals ds ≡ updateds ds
  unfolding originals updateds edits
  spell_same [] h = refl
  spell_same (d ∷ ds) h =
      same_step d.action d.val (originals ds) (updateds ds) (omega (arith, h))
        (spell_same ds (omega (arith, h)))

-- The places that an entry of the list has to name: those that the entries before it leave.
abbrev pub At : Action → ℕ → ℕ → ℤ → ℤ → Type 0
At eq i j o u = (o ≡ pos i) × (u ≡ pos j)
At add i j o u = (o ≡ negsuc 0) × (u ≡ pos j)
At del i j o u = (o ≡ pos i) × (u ≡ negsuc 0)

abbrev pub old_count : Action → ℕ
old_count eq = 1
old_count add = 0
old_count del = 1

abbrev pub new_count : Action → ℕ
new_count eq = 1
new_count add = 1
new_count del = 0

module _ {ℓ} {A : Type ℓ} where
  unfoldable pub olds : List (Diff A) → ℕ
  olds [] = 0
  olds (d ∷ ds) = old_count d.action + olds ds

  unfoldable pub news : List (Diff A) → ℕ
  news [] = 0
  news (d ∷ ds) = new_count d.action + news ds

  -- Entries that go on from places `i` and `j` name one place after the other.
  abbrev pub Numbered : ℕ → ℕ → List (Diff A) → Type 0
  Numbered i j [] = Unit
  Numbered i j (d ∷ ds) =
      At d.action i j d.orig d.updated
      × Numbered (i + old_count d.action) (j + new_count d.action) ds

  pub Numbered-append :
      (ds es : List (Diff A)) (i j : ℕ)
      → Numbered i j ds
      → Numbered (i + olds ds) (j + news ds) es
      → Numbered i j (ds ++ es)
  unfolding olds news
  Numbered-append [] es i j hd he = rw (add-zero, add-zero) at he
  Numbered-append (d ∷ ds) es i j hd he =
      (hd.0, Numbered-append ds es _ _ hd.1 (rw (← add_assoc, ← add_assoc) at he))

  pub olds-append : (ds es : List (Diff A)) → olds (ds ++ es) ≡ olds ds + olds es
  unfolding olds
  olds-append [] es = omega arith
  olds-append (d ∷ ds) es = omega (arith, olds-append ds es)

  pub news-append : (ds es : List (Diff A)) → news (ds ++ es) ≡ news ds + news es
  unfolding news
  news-append [] es = omega arith
  news-append (d ∷ ds) es = omega (arith, news-append ds es)

  pub Numbered-snoc :
      (ds : List (Diff A)) (d : Diff A) (x y : ℕ)
      → Numbered 0 0 ds
      → olds ds ≡ x
      → news ds ≡ y
      → At d.action x y d.orig d.updated
      → Numbered 0 0 (ds ++ d ∷ [])
  Numbered-snoc ds d x y h ex ey at =
      let fx : x ≡ 0 + olds ds = omega arith in
      let fy : y ≡ 0 + news ds = omega arith in
      Numbered-append ds (d ∷ []) 0 0 h (
        subst (λ k. At d.action k (0 + news ds) d.orig d.updated) fx
            (subst (λ k. At d.action x k d.orig d.updated) fy at),
        tt,
      )
