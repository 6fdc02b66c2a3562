-- ===== src/Arrs/Ranges.antt =====
-- What ranges and joined lists hold.
use mathlib.Core.List.{append_assoc, append-nil, flatten}
use cppkg.Base.{
  ℕ, zero, suc, ◌+◌, ◌<◌, ◌≡◌, refl, sym, ap, ap₂, ◌∙◌, arith, List, [], ◌∷◌, ◌++◌, some, true, ℤ,
  pos, pos_part, ◌+ℤ◌, ◌-ℤ◌, leb_ℤ, length, get_elem?,
}
use cppkg.Arrs.{is_int, iota, range, lconcat, rconcat, concat, concat_helper}

-- To join lists, the second of which is followed by any number of others, is to append them all.
concat_helper-flatten {ℓ} :
    {T : Type ℓ} (source r : List T) (other : List (List T))
    → concat_helper source r other ≡ source ++ flatten (r ∷ other)
unfolding concat_helper lconcat flatten
concat_helper-flatten source r [] = ap (λ l. source ++ l) (sym (append-nil r))
concat_helper-flatten source r (r' ∷ other) =
    concat_helper-flatten (source ++ r) r' other ∙ append_assoc source r (r' ++ flatten other)

-- `concat` of two or more lists appends them in their order, `lconcat` and `rconcat` are `concat` of
-- two, and the further lists may be joined first.
pub concat-flatten {ℓ} :
    {T : Type ℓ} (l r : List T) (other : List (List T))
    → (concat l r other ≡ flatten (l ∷ r ∷ other))
      × (lconcat l r ≡ concat l r [])
      × (rconcat l r ≡ concat l r [])
      × (concat (lconcat l r) (flatten other) [] ≡ concat l r other)
unfolding concat lconcat rconcat flatten
concat-flatten l r [] = (ap (λ k. l ++ k) (sym (append-nil r)), refl, refl, append-nil (l ++ r))
concat-flatten l r (r' ∷ other) = (
  concat_helper-flatten l r (r' ∷ other),
  refl,
  refl,
  append_assoc l r (r' ++ flatten other) ∙ sym (concat_helper-flatten l r (r' ∷ other)),
)

int_zero : (value : ℤ) → value +ℤ pos 0 ≡ value
int_zero value = ground arith

int_next : (value : ℤ) (i : ℕ) → (value +ℤ pos 1) +ℤ pos i ≡ value +ℤ pos (suc i)
int_next value i = ground arith

length-iota : (n : ℕ) (value : ℤ) → length (iota n value) ≡ n
unfolding iota
length-iota zero value = refl
length-iota (suc n) value = ap suc (length-iota n (value +ℤ pos 1))

get_elem?-iota :
    (n : ℕ) (value : ℤ) (i : ℕ) → i < n → get_elem? (iota n value) i ≡ some (value +ℤ pos i)
unfolding iota
get_elem?-iota zero value i h = absurd (omega arith)
get_elem?-iota (suc n) value zero h = ap some (sym (int_zero value))
get_elem?-iota (suc n) value (suc i) h =
    get_elem?-iota n (value +ℤ pos 1) i (omega arith) ∙ ap some (int_next value i)

iota_add : (a b : ℕ) (value : ℤ) → iota (a + b) value ≡ iota a value ++ iota b (value +ℤ pos a)
unfolding iota
iota_add zero b value = let start : 0 + b ≡ b = omega arith in ap₂ iota start (sym (int_zero value))
iota_add (suc a) b value =
    let next : suc a + b ≡ suc (a + b) = omega arith in
    rw next (
      ap (λ l. value ∷ l)
        (iota_add a b (value +ℤ pos 1)
          ∙ ap (λ v. iota a (value +ℤ pos 1) ++ iota b v) (int_next value a)))

-- A range whose length fits.
range_defined :
    (begin end : ℤ)
    → is_int (end -ℤ begin) ≡ true
    → leb_ℤ begin end ≡ true
    → range begin end ≡ some (iota (pos_part (end -ℤ begin)) begin)
unfolding range
range_defined begin end fits h =
    let up : leb_ℤ (pos 0) (end -ℤ begin) ≡ true = ground (arith, h) in rw (fits, up) refl

-- If the begin is not above the end, and their difference is an `int`, then a range has as many
-- elements as that difference, and the one at place `i` is the begin plus `i`.
pub range_elements :
    (begin end : ℤ) (i : ℕ)
    → leb_ℤ begin end ≡ true
    → is_int (end -ℤ begin) ≡ true
    → i < pos_part (end -ℤ begin)
    → (xs : List ℤ) × (range begin end ≡ some xs)
      × (begin +ℤ pos (length xs) ≡ end)
      × (get_elem? xs i ≡ some (begin +ℤ pos i))
range_elements begin end i h fits below =
    let n = pos_part (end -ℤ begin) in
    (
      iota n begin,
      range_defined begin end fits h,
      rw (length-iota n begin) (reaches begin end h),
      get_elem?-iota n begin i below,
    )
  where
    reaches :
        (begin end : ℤ) → leb_ℤ begin end ≡ true → begin +ℤ pos (pos_part (end -ℤ begin)) ≡ end
    reaches begin end h = ground (arith, h)

module _ (begin mid end : ℤ) (h : leb_ℤ begin mid ≡ true) (h' : leb_ℤ mid end ≡ true) where
  le-through : leb_ℤ begin end ≡ true
  le-through = ground (arith, h, h')

  length-through : pos_part (end -ℤ begin) ≡ pos_part (mid -ℤ begin) + pos_part (end -ℤ mid)
  length-through = ground (arith, h, h')

  reaches-mid : begin +ℤ pos (pos_part (mid -ℤ begin)) ≡ mid
  reaches-mid = ground (arith, h)

  is_int_before : is_int (end -ℤ begin) ≡ true → is_int (mid -ℤ begin) ≡ true
  is_int_before fits = ground (arith, h, h', fits)

  is_int_behind : is_int (end -ℤ begin) ≡ true → is_int (end -ℤ mid) ≡ true
  is_int_behind fits = ground (arith, h, h', fits)

-- A range is the ranges before and behind any number between its ends, joined.
pub range-concat :
    (begin mid end : ℤ)
    → leb_ℤ begin mid ≡ true
    → leb_ℤ mid end ≡ true
    → is_int (end -ℤ begin) ≡ true
    → (xs : List ℤ) × (ys : List ℤ) × (range begin mid ≡ some xs)
      × (range mid end ≡ some ys)
      × (range begin end ≡ some (concat xs ys []))
unfolding concat lconcat
range-concat begin mid end h h' fits =
    let a = pos_part (mid -ℤ begin) in
    let b = pos_part (end -ℤ mid) in
    (
      iota a begin,
      iota b mid,
      range_defined begin mid (is_int_before begin mid end h h' fits) h,
      range_defined mid end (is_int_behind begin mid end h h' fits) h',
      range_defined begin end fits (le-through begin mid end h h')
          ∙ ap (λ n. some (iota n begin)) (length-through begin mid end h h')
          ∙ ap some (iota_add a b begin)
          ∙ ap (λ v. some (iota a begin ++ iota b v)) (reaches-mid begin mid end h h'),
    )
