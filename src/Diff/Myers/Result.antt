-- ===== src/Diff/Myers/Result.antt =====
-- From the points to the list of differences, and what it says.
use mathlib.Core.List.{reverse, reverse-cons, append-nil}
use cppkg.Base.{
  ℕ, suc, ◌≤◌, ◌≡◌, refl, ap, arith, List, [], ◌∷◌, ◌++◌, Bool, true, length, take, take-suc,
  get_elem?, get_elem?_in, ℤ, pos, negsuc, some,
}
use cppkg.Diff.Search.{same}
use cppkg.Diff.Myers.{Diff, Action, add, del, eq, difference, differences}
use cppkg.Diff.Search.Level.{alike}
use cppkg.Diff.Myers.Points.{Points, kept, deleted, added, origin}
use cppkg.Diff.Script.{
  olds, news, olds-append, news-append, Numbered, Numbered-snoc, originals, updateds, edits,
  originals-append, updateds-append, edits-append,
}

module _ {ℓ} {A : Type ℓ} (cmp : A → A → Bool) (orig updated : List A) where
  -- An entry names places that hold what it says.
  abbrev pub Placed : Action → A → ℤ → ℤ → Type ℓ
  Placed eq v i j =
      (x : ℕ) × (y : ℕ) × (b : A) × (i ≡ pos x)
      × (j ≡ pos y)
      × (get_elem? orig x ≡ some v)
      × (get_elem? updated y ≡ some b)
      × (cmp v b ≡ true)
  Placed add v i j = (y : ℕ) × (i ≡ negsuc 0) × (j ≡ pos y) × (get_elem? updated y ≡ some v)
  Placed del v i j = (x : ℕ) × (i ≡ pos x) × (j ≡ negsuc 0) × (get_elem? orig x ≡ some v)

  abbrev pub AllPlaced : List (Diff A) → Type ℓ
  AllPlaced [] = Unit
  AllPlaced (d ∷ ds) = Placed d.action d.val d.orig d.updated × AllPlaced ds

  -- The entries `ds`, the last first, use up the first `x` and the first `y` elements.
  pub record Covers (d x y : ℕ) (ds : List (Diff A)) : Type ℓ where
    pub old : originals (reverse ds) ≡ take x orig
    pub new : ((a b : A) → cmp a b ≡ true → a ≡ b) → updateds (reverse ds) ≡ take y updated
    pub cost : edits (reverse ds) ≡ d
    pub places : AllPlaced ds
    pub used_old : olds (reverse ds) ≡ x
    pub used_new : news (reverse ds) ≡ y
    pub numbered : Numbered 0 0 (reverse ds)

  -- Elements that are alike are there.
  alike_elems :
      (x y : ℕ)
      → alike cmp orig updated x y ≡ true
      → (a : A) × (b : A) × (get_elem? orig x ≡ some a)
        × (get_elem? updated y ≡ some b)
        × (cmp a b ≡ true)
  unfolding same
  alike_elems x y h = ground arith

  step_kept :
      (x y : ℕ) (a : A)
      → get_elem? orig x ≡ some a
      → difference cmp orig updated (pos (suc x), pos (suc y)) (pos x, pos y)
        ≡ some (record { val = a; orig = pos x; updated = pos y; action = eq })
  unfolding difference
  step_kept x y a h = ground arith

  step_deleted :
      (x y : ℕ) (a : A)
      → get_elem? orig x ≡ some a
      → difference cmp orig updated (pos (suc x), pos y) (pos x, pos y)
        ≡ some (record { val = a; orig = pos x; updated = negsuc 0; action = del })
  unfolding difference
  step_deleted x y a h = ground arith

  step_added :
      (x y : ℕ) (b : A)
      → get_elem? updated y ≡ some b
      → difference cmp orig updated (pos x, pos (suc y)) (pos x, pos y)
        ≡ some (record { val = b; orig = negsuc 0; updated = pos y; action = add })
  unfolding difference
  step_added x y b h = ground arith

  cover_kept :
      (d x y : ℕ) (a b : A) (ds : List (Diff A))
      → get_elem? orig x ≡ some a
      → get_elem? updated y ≡ some b
      → cmp a b ≡ true
      → Covers d x y ds
      → Covers d
          (suc x)
          (suc y)
          (record { val = a; orig = pos x; updated = pos y; action = eq } ∷ ds)
  unfolding originals updateds edits olds news
  cover_kept d x y a b ds ha hb same c = record {
    old = rw (reverse-cons, originals-append, c.old, take-suc x orig a ha);
    new = λ sound.
        let e = sound a b same in
        rw (reverse-cons, updateds-append, c.new sound, take-suc y updated b hb)
          (ap (λ z. take y updated ++ z ∷ []) e);
    cost = rw (reverse-cons, edits-append, c.cost) (omega arith);
    places = ((x, y, b, refl, refl, ha, hb, same), c.places);
    used_old = rw (reverse-cons, olds-append, c.used_old) (omega arith);
    used_new = rw (reverse-cons, news-append, c.used_new) (omega arith);
    numbered =
        rw reverse-cons
          (Numbered-snoc (reverse ds) _ x y c.numbered c.used_old c.used_new (refl, refl));
  }

  cover_deleted :
      (d x y : ℕ) (a : A) (ds : List (Diff A))
      → get_elem? orig x ≡ some a
      → Covers d x y ds
      → Covers
          (suc d)
          (suc x)
          y
          (record { val = a; orig = pos x; updated = negsuc 0; action = del } ∷ ds)
  unfolding originals updateds edits olds news
  cover_deleted d x y a ds ha c = record {
    old = rw (reverse-cons, originals-append, c.old, take-suc x orig a ha);
    new = λ sound. rw (reverse-cons, updateds-append, c.new sound, append-nil);
    cost = rw (reverse-cons, edits-append, c.cost) (omega arith);
    places = ((x, refl, refl, ha), c.places);
    used_old = rw (reverse-cons, olds-append, c.used_old) (omega arith);
    used_new = rw (reverse-cons, news-append, c.used_new) (omega arith);
    numbered =
        rw reverse-cons
          (Numbered-snoc (reverse ds) _ x y c.numbered c.used_old c.used_new (refl, refl));
  }

  cover_added :
      (d x y : ℕ) (b : A) (ds : List (Diff A))
      → get_elem? updated y ≡ some b
      → Covers d x y ds
      → Covers
          (suc d)
          x
          (suc y)
          (record { val = b; orig = negsuc 0; updated = pos y; action = add } ∷ ds)
  unfolding originals updateds edits olds news
  cover_added d x y b ds hb c = record {
    old = rw (reverse-cons, originals-append, c.old, append-nil);
    new = λ sound. rw (reverse-cons, updateds-append, c.new sound, take-suc y updated b hb);
    cost = rw (reverse-cons, edits-append, c.cost) (omega arith);
    places = ((y, refl, refl, hb), c.places);
    used_old = rw (reverse-cons, olds-append, c.used_old) (omega arith);
    used_new = rw (reverse-cons, news-append, c.used_new) (omega arith);
    numbered =
        rw reverse-cons
          (Numbered-snoc (reverse ds) _ x y c.numbered c.used_old c.used_new (refl, refl));
  }

  pub differences-Covers :
      {d x y : ℕ} {ps : List (ℤ × ℤ)}
      → Points (alike cmp orig updated) d x y ps
      → x ≤ length orig
      → y ≤ length updated
      → (ds : List (Diff A)) × (differences cmp orig updated (pos x, pos y) ps ≡ some ds)
        × Covers d x y ds
  unfolding differences
  differences-Covers origin hx hy = (
    [],
    refl,
    record {
      old = nothing_old;
      new = λ sound. nothing_new;
      cost = nothing_cost;
      places = tt;
      used_old = nothing_used_old;
      used_new = nothing_used_new;
      numbered = tt;
    },
  )
    where
      nothing_old : originals (reverse []) ≡ take 0 orig
      nothing_old = unfold originals in refl

      nothing_new : updateds (reverse []) ≡ take 0 updated
      nothing_new = unfold updateds in refl

      nothing_used_old : olds {A = A} (reverse []) ≡ 0
      nothing_used_old = unfold olds in refl

      nothing_used_new : news {A = A} (reverse []) ≡ 0
      nothing_used_new = unfold news in refl

      nothing_cost : edits {A = A} (reverse []) ≡ 0
      nothing_cost = unfold edits in refl
  differences-Covers (kept {d} {x} {y} e p) hx hy =
      let (a, b, ha, hb, same) = alike_elems x y e in
      let (ds, runs, c) = differences-Covers p (omega arith) (omega arith) in
      (_, rw (step_kept x y a ha, runs), cover_kept d x y a b ds ha hb same c)
  differences-Covers (deleted {d} {x} {y} p) hx hy =
      let (a, ha) = get_elem?_in orig x hx in
      let (ds, runs, c) = differences-Covers p (omega arith) (omega arith) in
      (_, rw (step_deleted x y a ha, runs), cover_deleted d x y a ds ha c)
  differences-Covers (added {d} {x} {y} p) hx hy =
      let (b, hb) = get_elem?_in updated y hy in
      let (ds, runs, c) = differences-Covers p (omega arith) (omega arith) in
      (_, rw (step_added x y b hb, runs), cover_added d x y b ds hb c)

  AllPlaced-append : (ds es : List (Diff A)) → AllPlaced ds → AllPlaced es → AllPlaced (ds ++ es)
  AllPlaced-append [] es hd he = he
  AllPlaced-append (d ∷ ds) es hd he = (hd.0, AllPlaced-append ds es hd.1 he)

  pub AllPlaced-reverse : (ds : List (Diff A)) → AllPlaced ds → AllPlaced (reverse ds)
  AllPlaced-reverse [] h = tt
  AllPlaced-reverse (d ∷ ds) h =
      rw reverse-cons (AllPlaced-append (reverse ds) (d ∷ []) (AllPlaced-reverse ds h.1) (h.0, tt))
