-- ===== src/Estd/Strings.antt =====
-- cppkg/estd/strs.cc: how a string begins and ends. A string is the list of its bytes.
use cppkg.Base.{
  ℕ, suc, ◌-◌, ◌≡◌, refl, ap, ap₂, sym, ◌∙◌, ◌↔◌, ◌⊎◌, inl, inr, arith, List, [], ◌∷◌, ◌++◌, Bool,
  true, false, ◌&&◌, if◌then◌else◌, ltb, ◌==◌, ==_iff, length, take, drop, length-append,
  length-drop, take-append-drop, min, Bool-cases,
}

-- `std::equal(first, last, other)`. The other string is as long as the range in both calls.
unfoldable pub equal : List ℕ → List ℕ → Bool
equal [] ys = true
equal (x ∷ xs) [] = false
equal (x ∷ xs) (y ∷ ys) = (x == y) && equal xs ys

unfoldable pub has_prefix : List ℕ → List ℕ → Bool
unfolding equal
has_prefix str prefix =
    let n = length str in let nprefix = length prefix in equal (take (min n nprefix) str) prefix

unfoldable pub has_affix : List ℕ → List ℕ → Bool
unfolding equal
has_affix str affix =
    let n = length str in
    let naffix = length affix in if ltb n naffix then false else equal (drop (n - naffix) str) affix

and_true : (a b : Bool) → (a && b) ≡ true → (a ≡ true) × (b ≡ true)
and_true true true h = (refl, refl)
and_true true false h = ground arith
and_true false b h = ground arith

min-suc : (a b : ℕ) → min (suc a) (suc b) ≡ suc (min a b)
min-suc a b = omega arith

-- Does one of the two begin with the other?
Begins : List ℕ → List ℕ → Type 0
Begins str prefix =
    ((rest : List ℕ) × (str ≡ prefix ++ rest)) ⊎ ((rest : List ℕ) × (prefix ≡ str ++ rest))

Begins-found : (str prefix : List ℕ) → has_prefix str prefix ≡ true → Begins str prefix
unfolding has_prefix Begins
Begins-found [] prefix h = inr (prefix, refl)
Begins-found (a ∷ str) [] h = inl (a ∷ str, refl)
Begins-found (a ∷ str) (b ∷ prefix) h =
    let step = rw (min-suc (length str) (length prefix)) at h in
    let (head, tail) =
      and_true (a == b) (equal (take (min (length str) (length prefix)) str) prefix) step in
    let same = (==_iff a b).0 head in
    elim (Begins-found str prefix tail) [
      | inl (rest, e) ↦ inl (rest, ap₂ (λ x y. x ∷ y) same e)
      | inr (rest, e) ↦ inr (rest, ap₂ (λ x y. x ∷ y) (sym same) e)
    ]

has_prefix_short : (xs rest : List ℕ) → has_prefix xs (xs ++ rest) ≡ true
unfolding has_prefix
has_prefix_short [] rest =
    let none_left : min 0 (length rest) ≡ 0 = omega arith in rw none_left refl
has_prefix_short (x ∷ xs) rest =
    rw (min-suc (length xs) (length (xs ++ rest))) (ground (arith, has_prefix_short xs rest))

has_prefix_long : (xs rest : List ℕ) → has_prefix (xs ++ rest) xs ≡ true
unfolding has_prefix
has_prefix_long [] [] = refl
has_prefix_long [] (x ∷ rest) =
    let none_left : min (suc (length rest)) 0 ≡ 0 = omega arith in rw none_left refl
has_prefix_long (x ∷ xs) rest =
    rw (min-suc (length (xs ++ rest)) (length xs)) (ground (arith, has_prefix_long xs rest))

-- `has_prefix` accepts exactly if the string begins with the prefix, or the prefix with the string.
pub has_prefix_iff :
    (str prefix : List ℕ)
    → (has_prefix str prefix ≡ true)
      ↔ (((rest : List ℕ) × (str ≡ prefix ++ rest)) ⊎ ((rest : List ℕ) × (prefix ≡ str ++ rest)))
unfolding Begins
has_prefix_iff str prefix = (
  Begins-found str prefix,
  λ h. elim h [
    | inl (rest, e) ↦ rw e (has_prefix_long prefix rest)
    | inr (rest, e) ↦ rw e (has_prefix_short str rest)
  ],
)

equal-same : (xs ys : List ℕ) → length xs ≡ length ys → equal xs ys ≡ true → xs ≡ ys
unfolding equal
equal-same [] [] l h = refl
equal-same [] (y ∷ ys) l h = absurd (omega (arith, l))
equal-same (x ∷ xs) [] l h = absurd (omega (arith, l))
equal-same (x ∷ xs) (y ∷ ys) l h =
    let (head, tail) = and_true (x == y) (equal xs ys) h in
    ap₂ (λ a b. a ∷ b) ((==_iff x y).0 head) (equal-same xs ys (omega (arith, l)) tail)

equal_refl : (xs : List ℕ) → equal xs xs ≡ true
unfolding equal
equal_refl [] = refl
equal_refl (x ∷ xs) = rw ((==_iff x x).1 refl) (equal_refl xs)

drop-append : (xs ys : List ℕ) → drop (length xs) (xs ++ ys) ≡ ys
drop-append [] ys = refl
drop-append (x ∷ xs) ys = drop-append xs ys

affix-found :
    (str affix : List ℕ) → has_affix str affix ≡ true → (start : List ℕ) × (str ≡ start ++ affix)
unfolding has_affix
affix-found str affix h = elim (Bool-cases (ltb (length str) (length affix))) [
  | inl short ↦ absurd (ground (arith, h, short))
  | inr long ↦
      let k = length str - length affix in
      let equals : equal (drop k str) affix ≡ true = rw long at h in
      let same = equal-same (drop k str) affix (length-drop k str ∙ ground (arith, long)) equals in
      (take k str, sym (take-append-drop k str) ∙ ap (λ end. take k str ++ end) same)
]

affix-accepted : (start affix : List ℕ) → has_affix (start ++ affix) affix ≡ true
unfolding has_affix
affix-accepted start affix =
    let sizes = length-append start affix in
    let long : ltb (length (start ++ affix)) (length affix) ≡ false = ground (arith, sizes) in
    let at_start : length (start ++ affix) - length affix ≡ length start = omega (arith, sizes) in
    rw long (rw at_start (rw (drop-append start affix) (equal_refl affix)))

-- `has_affix` accepts exactly if the string ends with the affix.
pub has_affix_iff :
    (str affix : List ℕ)
    → (has_affix str affix ≡ true) ↔ ((start : List ℕ) × (str ≡ start ++ affix))
has_affix_iff str affix = (affix-found str affix, λ h. rw h.1 (affix-accepted h.0 affix))
