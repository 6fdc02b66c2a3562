-- ===== src/Diff/Distance/Metric.antt =====
-- The edit distance is a metric, and so is what `myers_diff_min_edit` of cppkg/diff/myers_diff.h
-- returns.
use cppkg.Base.{
  ℕ, suc, ◌+◌, ◌≤◌, ◌≡◌, ◌↔◌, refl, sym, ap, ap₂, ◌∙◌, arith, List, [], ◌∷◌, some, Bool, true,
  length, inl, inr, Bool-cases,
}
use cppkg.Diff.Myers.{Diff, Action, add, del, eq}
use cppkg.Diff.Search.{myers_diff_min_edit}
use cppkg.Diff.Script.{originals, updateds, edits, spell_same, old_of, new_of, cost_of}
use cppkg.Diff.Distance.{
  distance, distance_none, distance_add, distance_del, distance_eq, script_found,
  myers_diff_min_edit-distance,
}

module _ {ℓ} {A : Type ℓ} (cmp : A → A → Bool) where
  distance_drop : (a : A) (y z : List A) → distance cmp y z ≤ suc (distance cmp (a ∷ y) z)
  unfolding distance
  distance_drop a y [] = omega (arith, distance_none cmp y)
  distance_drop a y (c ∷ z) =
      let later = distance_drop a y z in
      elim (Bool-cases (cmp a c)) [
        | inl same ↦ rw same (omega (arith, later, distance_add cmp c y z))
        | inr apart ↦ rw apart (omega (arith, later, distance_add cmp c y z))
      ]

  -- To keep an element in front of both arrays.
  keep_step :
      (a : A) (x y : List A) (n : ℕ)
      → ((z : List A) → distance cmp x z ≤ n + distance cmp y z)
      → (z : List A) → distance cmp (a ∷ x) z ≤ n + distance cmp (a ∷ y) z
  unfolding distance
  keep_step a x y n close [] = omega (arith, close [], distance_none cmp x, distance_none cmp y)
  keep_step a x y n close (c ∷ z) =
      let later = keep_step a x y n close z in
      elim (Bool-cases (cmp a c)) [
        | inl same ↦ rw same (omega (arith, later, close z, close (c ∷ z)))
        | inr apart ↦ rw apart (omega (arith, later, close z, close (c ∷ z)))
      ]

  action_step :
      (action : Action) (a : A) (x y : List A) (n : ℕ)
      → ((z : List A) → distance cmp x z ≤ n + distance cmp y z)
      → (z : List A)
      → distance cmp (old_of action a x) z
        ≤ (cost_of action + n) + distance cmp (new_of action a y) z
  action_step eq a x y n close z = omega (arith, keep_step a x y n close z)
  action_step add a x y n close z = omega (arith, close z, distance_drop a y z)
  action_step del a x y n close z = omega (arith, close z, distance_del cmp a x z)

  -- What a list of differences leads to is not further from a third array than its edits.
  distance-edits_between :
      (es : List (Diff A)) (z : List A)
      → distance cmp (originals es) z ≤ edits es + distance cmp (updateds es) z
  unfolding originals updateds edits
  distance-edits_between [] z = omega arith
  distance-edits_between (e ∷ es) z =
      action_step e.action e.val (originals es) (updateds es) (edits es) (distance-edits_between es)
        z

  module _ (sound : (a b : A) → cmp a b ≡ true → a ≡ b) (reflexive : (a : A) → cmp a a ≡ true) where
    triangle : (x y z : List A) → distance cmp x z ≤ distance cmp x y + distance cmp y z
    triangle x y z =
        let (es, old, new, count) = script_found cmp sound x y in
        omega (
          arith,
          distance-edits_between es z,
          ap (λ l. distance cmp l z) old,
          ap (λ l. distance cmp l z) new,
          count,
        )

    distance_self : (x : List A) → distance cmp x x ≡ 0
    unfolding distance
    distance_self [] = refl
    distance_self (a ∷ x) = omega (arith, distance_eq cmp reflexive a x x, distance_self x)

    distance_zero : (x y : List A) → distance cmp x y ≡ 0 → x ≡ y
    distance_zero x y h =
        let (es, old, new, count) = script_found cmp sound x y in
        sym old ∙ spell_same es (count ∙ h) ∙ new

    cmp_swap : (a b : A) → cmp a b ≡ cmp b a
    cmp_swap a b = elim (Bool-cases (cmp a b)) [
      | inl same ↦ ap₂ cmp (sound a b same) (sym (sound a b same))
      | inr apart ↦ elim (Bool-cases (cmp b a)) [
        | inl same ↦ ap₂ cmp (sym (sound b a same)) (sound b a same)
        | inr other ↦ apart ∙ sym other
      ]
    ]

    distance_swap : (x y : List A) → distance cmp x y ≡ distance cmp y x
    unfolding distance
    distance_swap [] [] = refl
    distance_swap [] (b ∷ y) = refl
    distance_swap (a ∷ x) [] = refl
    distance_swap (a ∷ x) (b ∷ y) =
        let both = distance_swap x y in
        let first = distance_swap x (b ∷ y) in
        let second = distance_swap (a ∷ x) y in
        elim (Bool-cases (cmp a b)) [
          | inl same ↦ rw (same, sym (cmp_swap a b) ∙ same) (omega (arith, both, first, second))
          | inr apart ↦ rw (apart, sym (cmp_swap a b) ∙ apart) (omega (arith, both, first, second))
        ]

    -- If the lengths of any two of three arrays add up to 16383 at most, and the comparison accepts
    -- the same elements and no others, then `myers_diff_min_edit` is a metric on them: it is 0
    -- exactly for the same array, it does not depend on the order of the two, and the number for the
    -- first and the third is not above the sum of the others.
    pub myers_diff_min_edit_metric :
        (x y z : List A)
        → length x + length y ≤ 16383
        → length y + length z ≤ 16383
        → length x + length z ≤ 16383
        → (xy : ℕ) × (yz : ℕ) × (xz : ℕ) × (myers_diff_min_edit cmp x y ≡ some xy)
          × (myers_diff_min_edit cmp y x ≡ some xy)
          × (myers_diff_min_edit cmp y z ≡ some yz)
          × (myers_diff_min_edit cmp x z ≡ some xz)
          × ((xy ≡ 0) ↔ (x ≡ y))
          × (xz ≤ xy + yz)
    myers_diff_min_edit_metric x y z small small' small'' =
        let found = λ (u v : List A) (h : length u + length v ≤ 16383).
          (myers_diff_min_edit-distance cmp u v h sound reflexive).0 in
        (
          distance cmp x y,
          distance cmp y z,
          distance cmp x z,
          found x y small,
          found y x (omega (arith, small)) ∙ ap some (distance_swap y x),
          found y z small',
          found x z small'',
          (distance_zero x y, λ same. ap (λ l. distance cmp x l) (sym same) ∙ distance_self x),
          triangle x y z,
        )
