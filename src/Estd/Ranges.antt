-- ===== src/Estd/Ranges.antt =====
-- cppkg/estd/range.h and cppkg/estd/algorithm.h, for elements of type `int`.
use cppkg.Base.{
  ℕ, ◌+◌, ◌≡◌, refl, ap, arith, List, [], ◌∷◌, ◌++◌, Bool, true, false, ◌&&◌, ◌||◌, if◌then◌else◌,
  ℤ, pos, ltb_ℤ, leb_ℤ, eqb_ℤ, take, length,
}

pub record NumRange : Type 0 where
  pub lower : ℤ
  pub upper : ℤ

-- `NumRange (void)`
abbrev pub no_range : NumRange
no_range = record { lower = pos 0; upper = pos 0 }

-- With `std::min` and `std::max`.
unfoldable pub num_range : ℤ → ℤ → NumRange
num_range bound1 bound2 = record {
  lower = if ltb_ℤ bound2 bound1 then bound2 else bound1;
  upper = if ltb_ℤ bound1 bound2 then bound2 else bound1;
}

unfoldable pub contains : NumRange → ℤ → Bool
contains r val = leb_ℤ r.lower val && leb_ℤ val r.upper

module _ {ℓ} {T : Type ℓ} where
  -- What `std::remove_if` keeps, in front of `pend`.
  unfoldable pub kept : (T → Bool) → List T → List T
  kept pred [] = []
  kept pred (a ∷ vec) = if pred a then kept pred vec else a ∷ kept pred vec

  -- `tail` is what `std::remove_if` leaves from `pend` on, which the standard does not say.
  unfoldable pub remove_if : List T → (T → Bool) → List T → List T
  unfolding kept
  remove_if tail pred vec = take (length (kept pred vec)) (kept pred vec ++ tail)

  take_front : (xs ys : List T) → take (length xs) (xs ++ ys) ≡ xs
  take_front [] ys = refl
  take_front (x ∷ xs) ys = ap (λ l. x ∷ l) (take_front xs ys)

  remove_if-kept : (tail vec : List T) (pred : T → Bool) → remove_if tail pred vec ≡ kept pred vec
  unfolding remove_if
  remove_if-kept tail vec pred = take_front (kept pred vec) tail

-- How often a number stands in a list.
unfoldable pub occurrences : ℤ → List ℤ → ℕ
occurrences v [] = 0
occurrences v (a ∷ vec) = (if eqb_ℤ a v then 1 else 0) + occurrences v vec

-- Is a number between two others, in either order?
abbrev pub between : ℤ → ℤ → ℤ → Bool
between a b v = (leb_ℤ a v && leb_ℤ v b) || (leb_ℤ b v && leb_ℤ v a)

contains-num_range : (a b v : ℤ) → contains (num_range a b) v ≡ between a b v
unfolding contains num_range
contains-num_range a b v = ground arith

eqb_ℤ-eq : (a b : ℤ) → eqb_ℤ a b ≡ true → a ≡ b
eqb_ℤ-eq a b h = ground (arith, h)

-- What stays of one element.
occurrences-if :
    (c : Bool) (v x : ℤ) (vec : List ℤ)
    → occurrences v (if c then vec else x ∷ vec)
      ≡ (if c then 0 else (if eqb_ℤ x v then 1 else 0)) + occurrences v vec
unfolding occurrences
occurrences-if true v x vec = ground arith
occurrences-if false v x vec = refl

-- The bounds treat equal numbers alike.
stays :
    (p q e : Bool) (o : ℕ)
    → (e ≡ true → p ≡ q)
    → (if p then 0 else (if e then 1 else 0)) + (if q then 0 else o)
      ≡ (if q then 0 else (if e then 1 else 0) + o)
stays p q e o same = ground (arith, same)

kept-occurrences :
    (a b v : ℤ) (vec : List ℤ)
    → occurrences v (kept (contains (num_range a b)) vec)
      ≡ (if between a b v then 0 else occurrences v vec)
unfolding kept occurrences
kept-occurrences a b v [] = ground arith
kept-occurrences a b v (x ∷ vec) =
    rw
      (
        occurrences-if (contains (num_range a b) x) v x (kept (contains (num_range a b)) vec),
        contains-num_range a b x,
        kept-occurrences a b v vec,
      )
      (stays (between a b x) (between a b v) (eqb_ℤ x v) (occurrences v vec)
        (λ h. ap (λ y. between a b y) (eqb_ℤ-eq x v h)))

-- To remove from a vector what a range contains leaves no number between the two bounds, whichever
-- is the higher one, and every other number as often as before.
pub remove_if-num_range :
    (tail vec : List ℤ) (a b v : ℤ)
    → occurrences v (remove_if tail (contains (num_range a b)) vec)
      ≡ (if between a b v then 0 else occurrences v vec)
remove_if-num_range tail vec a b v =
    rw (remove_if-kept tail vec (contains (num_range a b))) (kept-occurrences a b v vec)
