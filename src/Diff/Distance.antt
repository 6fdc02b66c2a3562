-- ===== src/Diff/Distance.antt =====
-- The edit distance of two arrays by its recursion, as a reference for the numbers that the search
-- of cppkg/diff/myers_diff.h finds.
pub mod Metric
use cppkg.Base.{
  ℕ, suc, ◌+◌, ◌≤◌, ◌≡◌, refl, sym, ap, ap₂, subst, ◌∙◌, arith, List, [], ◌∷◌, some, some_inj, Bool,
  true, if◌then◌else◌, length, min, leb, inl, inr, Bool-cases, negsuc,
}
use cppkg.Diff.Myers.{Diff, Action, add, del, eq, myers_diff}
use cppkg.Diff.Search.{myers_diff_min_edit}
use cppkg.Diff.Script.{originals, updateds, edits, old_of, new_of, cost_of}
use cppkg.Diff.Myers.Correct.{myers_diff-replays}
use cppkg.Diff.Myers.Minimal.{myers_diff-shortest}
use cppkg.Diff.Myers.MinEdit.{myers_diff_min_edit-edits}

module _ {ℓ} {A : Type ℓ} (cmp : A → A → Bool) where
  -- To delete the first element, to add the first one of the other array, or to keep both.
  unfoldable pub distance : List A → List A → ℕ
  distance [] y = length y
  distance (a ∷ x) [] = suc (length x)
  distance (a ∷ x) (b ∷ y) =
      let apart = suc (min (distance x (b ∷ y)) (distance (a ∷ x) y)) in
      if cmp a b then min (distance x y) apart else apart

  pub distance_none : (x : List A) → distance x [] ≡ length x
  unfolding distance
  distance_none [] = refl
  distance_none (a ∷ x) = refl

  pub distance_add : (a : A) (x y : List A) → distance x (a ∷ y) ≤ suc (distance x y)
  unfolding distance
  distance_add a [] y = omega arith
  distance_add a (c ∷ x) y = elim (Bool-cases (cmp c a)) [
    | inl same ↦ rw same (omega arith)
    | inr apart ↦ rw apart (omega arith)
  ]

  pub distance_del : (a : A) (x y : List A) → distance (a ∷ x) y ≤ suc (distance x y)
  unfolding distance
  distance_del a x [] = omega (arith, distance_none x)
  distance_del a x (b ∷ y) = elim (Bool-cases (cmp a b)) [
    | inl same ↦ rw same (omega arith)
    | inr apart ↦ rw apart (omega arith)
  ]

  -- No list of differences does with fewer edits.
  module _ (reflexive : (a : A) → cmp a a ≡ true) where
    pub distance_eq : (a : A) (x y : List A) → distance (a ∷ x) (a ∷ y) ≤ distance x y
    unfolding distance
    distance_eq a x y = rw (reflexive a) (omega arith)

    edits_step :
        (action : Action) (a : A) (x y : List A) (n : ℕ)
        → distance x y ≤ n
        → distance (old_of action a x) (new_of action a y) ≤ cost_of action + n
    edits_step eq a x y n h = omega (arith, distance_eq a x y)
    edits_step add a x y n h = omega (arith, distance_add a x y)
    edits_step del a x y n h = omega (arith, distance_del a x y)

    pub distance-edits : (es : List (Diff A)) → distance (originals es) (updateds es) ≤ edits es
    unfolding originals updateds edits distance
    distance-edits [] = omega arith
    distance-edits (d ∷ es) =
        edits_step d.action d.val (originals es) (updateds es) (edits es) (distance-edits es)

  -- Lists of differences of two arrays with so many edits.
  abbrev pub Script : List A → List A → ℕ → Type ℓ
  Script x y n = (es : List (Diff A)) × (originals es ≡ x) × (updateds es ≡ y) × (edits es ≡ n)

  entry : Action → A → Diff A
  entry action a = record { val = a; orig = negsuc 0; updated = negsuc 0; action = action }

  extend :
      (action : Action) (a : A) (x y : List A) (n : ℕ)
      → Script x y n
      → Script (old_of action a x) (new_of action a y) (cost_of action + n)
  unfolding originals updateds edits entry
  extend action a x y n (es, old, new, count) = (
    entry action a ∷ es,
    ap (old_of action a) old,
    ap (new_of action a) new,
    ap (λ k. cost_of action + k) count,
  )

  recount : (x y : List A) (m n : ℕ) → m ≡ n → Script x y m → Script x y n
  recount x y m n e (es, old, new, count) = (es, old, new, count ∙ e)

  nothing : Script [] [] 0
  unfolding originals updateds edits
  nothing = ([], refl, refl, refl)

  pick : (x y : List A) (m n : ℕ) → Script x y m → Script x y n → Script x y (min m n)
  pick x y m n s t = elim (Bool-cases (leb m n)) [
    | inl le ↦ (s.0, s.1, s.2, s.3 ∙ ground (arith, le))
    | inr gt ↦ (t.0, t.1, t.2, t.3 ∙ ground (arith, gt))
  ]

  -- Some list of differences does with as many.
  module _ (sound : (a b : A) → cmp a b ≡ true → a ≡ b) where
    keep : (a b : A) (x y : List A) (n : ℕ) → a ≡ b → Script x y n → Script (a ∷ x) (b ∷ y) n
    keep a b x y n e s =
        subst (λ c. Script (a ∷ x) (c ∷ y) n) e
          (recount (a ∷ x) (a ∷ y) (0 + n) n (omega arith) (extend eq a x y n s))

    pub script_found : (x y : List A) → Script x y (distance x y)
    unfolding distance
    script_found [] [] = nothing
    script_found [] (b ∷ y) =
        recount [] (b ∷ y) (1 + length y) (suc (length y)) (omega arith)
          (extend add b [] y (length y) (script_found [] y))
    script_found (a ∷ x) [] =
        recount (a ∷ x) [] (1 + distance x []) (suc (length x)) (omega (arith, distance_none x))
          (extend del a x [] (distance x []) (script_found x []))
    script_found (a ∷ x) (b ∷ y) =
        let deleted = extend del a x (b ∷ y) (distance x (b ∷ y)) (script_found x (b ∷ y)) in
        let added = extend add b (a ∷ x) y (distance (a ∷ x) y) (script_found (a ∷ x) y) in
        let apart =
          recount (a ∷ x) (b ∷ y) (min (1 + distance x (b ∷ y)) (1 + distance (a ∷ x) y))
            (suc (min (distance x (b ∷ y)) (distance (a ∷ x) y))) (omega arith)
            (pick (a ∷ x) (b ∷ y) (1 + distance x (b ∷ y)) (1 + distance (a ∷ x) y) deleted
              added) in
        elim (Bool-cases (cmp a b)) [
          | inl same ↦ rw same (
              pick (a ∷ x) (b ∷ y) (distance x y)
                (suc (min (distance x (b ∷ y)) (distance (a ∷ x) y)))
                (keep a b x y (distance x y) (sound a b same) (script_found x y)) apart)
          | inr other ↦ rw other apart
        ]

  -- If the lengths add up to 16383 at most, and the comparison accepts the same elements and no
  -- others, then `myers_diff_min_edit` returns the edit distance, and `myers_diff` a list with that
  -- many edits.
  pub myers_diff_min_edit-distance :
      (orig updated : List A)
      → length orig + length updated ≤ 16383
      → ((a b : A) → cmp a b ≡ true → a ≡ b)
      → ((a : A) → cmp a a ≡ true)
      → (myers_diff_min_edit cmp orig updated ≡ some (distance orig updated))
        × ((ds : List (Diff A)) × (myers_diff cmp orig updated ≡ some ds)
            × (edits ds ≡ distance orig updated))
  myers_diff_min_edit-distance orig updated small sound reflexive =
      let (ds, runs, counts) = myers_diff_min_edit-edits cmp orig updated small in
      let (ds', runs', old, new) = myers_diff-replays cmp orig updated small sound in
      let same : ds' ≡ ds = some_inj (sym runs' ∙ runs) in
      let (es, old', new', count) = script_found sound orig updated in
      let most = myers_diff-shortest cmp orig updated ds es small reflexive runs old' new' in
      let spelled : distance (originals ds') (updateds ds') ≡ distance orig updated =
        ap₂ distance old new in
      let equal : edits ds ≡ distance orig updated =
        omega (arith, most, count, spelled, distance-edits reflexive ds', ap edits same) in
      (counts ∙ ap some equal, (ds, runs, equal))
