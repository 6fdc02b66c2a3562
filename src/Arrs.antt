-- ===== src/Arrs.antt =====
-- cppkg/arrs: ranges of integers, and lists joined to one. A vector, an `std::list` and an
-- `std::array` are lists, and integers are of type `int`. `none` is what an allocation throws, or
-- undefined behaviour: an `int` that overflows. Arguments by reference are different objects.
pub mod Ranges
mod Tests
use cppkg.Base.{
  ℕ, zero, suc, ◌+◌, ◌^◌, List, [], ◌∷◌, ◌++◌, Option, none, some, Bool, ◌&&◌, if◌then◌else◌, ◌==◌,
  ℤ, pos, negsuc, pos_part, ◌+ℤ◌, ◌-ℤ◌, leb_ℤ, ltb_ℤ,
}

abbrev pub is_int : ℤ → Bool
is_int z = leb_ℤ (negsuc 2147483647) z && ltb_ℤ z (pos 2147483648)

-- `std::iota` over so many elements.
unfoldable pub iota : ℕ → ℤ → List ℤ
iota zero value = []
iota (suc n) value = value ∷ iota n (value +ℤ pos 1)

-- `range` of vecs.h and `list_range` of list.h. A negative number is a huge one as a size, for which
-- there is no memory.
unfoldable pub range : ℤ → ℤ → Option (List ℤ)
unfolding iota
range begin end =
    let n = end -ℤ begin in
    if is_int n && leb_ℤ (pos 0) n then some (iota (pos_part n) begin) else none

-- `array_range`, which counts one further than it writes.
unfoldable pub array_range : ℕ → ℤ → Option (List ℤ)
unfolding iota
array_range n begin =
    if is_int (begin +ℤ pos n) then some (iota n begin) else if n == 0 then some [] else none

-- The functions of vecs.h, which list.h repeats for `std::list`.
module _ {ℓ} {T : Type ℓ} where
  -- What is then in `l`, and in `r`.
  unfoldable pub lconcat : List T → List T → List T
  lconcat l r = l ++ r

  unfoldable pub rconcat : List T → List T → List T
  rconcat l r = l ++ r

  -- Both forms: with no further argument, and with the first of them.
  unfoldable pub concat_helper : List T → List T → List (List T) → List T
  unfolding lconcat
  concat_helper source r [] = lconcat source r
  concat_helper source r (r' ∷ other) = concat_helper (lconcat source r) r' other

  unfoldable pub concat : List T → List T → List (List T) → List T
  unfolding lconcat concat_helper
  concat l r [] = lconcat l r
  concat l r (r' ∷ other) = concat_helper l r (r' ∷ other)
