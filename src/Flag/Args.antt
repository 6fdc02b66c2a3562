-- ===== src/Flag/Args.antt =====
-- The usage of arguments that are added one after the other, each so many times at most.
use mathlib.Core.List.{append_assoc, append-nil}
use cppkg.Base.{
  ℕ, zero, suc, ◌+◌, ◌≤◌, ◌<◌, ◌≡◌, refl, sym, ap, ap₂, ◌∙◌, arith, List, [], ◌∷◌, ◌++◌, some,
  false, ◌==◌,
}
use cppkg.Flag.FlagSet.{Text, Boost, FlagSet, unlimited, names, usage_args, add_arg, created}

-- What boost documents of its positions, as long as they are limited: `add` makes a name that of
-- the next places, and of so many.
pub record IsPositional (b : Boost) : Type 0 where
  pub max_none : b.max_total_count b.no_positions ≡ 0
  pub max_add :
      (name : Text) (count : ℕ) (pos : b.Positional)
      → b.max_total_count pos + count < unlimited
      → b.max_total_count (b.add_position name count pos) ≡ b.max_total_count pos + count
  pub name_before :
      (name : Text) (count : ℕ) (pos : b.Positional) (i : ℕ)
      → i < b.max_total_count pos
      → b.max_total_count pos + count < unlimited
      → b.name_for_position (b.add_position name count pos) i ≡ b.name_for_position pos i
  pub name_added :
      (name : Text) (count : ℕ) (pos : b.Positional) (i : ℕ)
      → b.max_total_count pos ≤ i
      → i < b.max_total_count pos + count
      → b.max_total_count pos + count < unlimited
      → b.name_for_position (b.add_position name count pos) i ≡ name

-- A name so many times, each behind a space.
abbrev pub repeated : ℕ → Text → Text
repeated zero name = []
repeated (suc n) name = b' ' ∷ name ++ repeated n name

module _ (b : Boost) where
  -- An argument is its option, its name and its count.
  abbrev pub Arg : Type 0
  Arg = b.Opt × Text × ℕ

  unfoldable pub add_args : List Arg → FlagSet b → FlagSet b
  add_args [] s = s
  add_args ((opt, name, count) ∷ args) s = add_args args (add_arg b opt name count s)

  abbrev pub total : List Arg → ℕ
  total [] = 0
  total ((opt, name, count) ∷ args) = count + total args

  abbrev pub all_names : List Arg → Text
  all_names [] = []
  all_names ((opt, name, count) ∷ args) = repeated count name ++ all_names args

  names_same :
      (n i : ℕ) (pos pos' : b.Positional)
      → ((j : ℕ) → i ≤ j → j < i + n → b.name_for_position pos' j ≡ b.name_for_position pos j)
      → names b n i pos' ≡ names b n i pos
  unfolding names
  names_same zero i pos pos' same = refl
  names_same (suc n) i pos pos' same =
      ap₂ (λ name rest. b' ' ∷ name ++ rest) (same i (omega arith) (omega arith))
        (names_same n (suc i) pos pos' (λ j le lt. same j (omega arith) (omega arith)))

  names-repeated :
      (n i : ℕ) (pos : b.Positional) (name : Text)
      → ((j : ℕ) → i ≤ j → j < i + n → b.name_for_position pos j ≡ name)
      → names b n i pos ≡ repeated n name
  unfolding names
  names-repeated zero i pos name same = refl
  names-repeated (suc n) i pos name same =
      ap₂ (λ name rest. b' ' ∷ name ++ rest) (same i (omega arith) (omega arith))
        (names-repeated n (suc i) pos name (λ j le lt. same j (omega arith) (omega arith)))

  names_add :
      (m n i : ℕ) (pos : b.Positional)
      → names b (m + n) i pos ≡ names b m i pos ++ names b n (i + m) pos
  unfolding names
  names_add zero n i pos = ap₂ (λ k j. names b k j pos) (omega arith) (omega arith)
  names_add (suc m) n i pos =
      let count : suc m + n ≡ suc (m + n) = omega arith in
      let place : suc i + m ≡ i + suc m = omega arith in
      ap (λ k. names b k i pos) count
      ∙ ap (λ rest. b' ' ∷ b.name_for_position pos i ++ rest)
          (names_add m n (suc i) pos ∙ ap (λ j. names b m (suc i) pos ++ names b n j pos) place)
      ∙ ap (λ rest. b' ' ∷ rest)
          (sym (
            append_assoc (b.name_for_position pos i) (names b m (suc i) pos)
              (names b n (i + suc m) pos)))

  module _ (positional : IsPositional b) where
    -- The names with one more argument.
    names-add_arg :
        (opt : b.Opt) (name : Text) (count : ℕ) (s : FlagSet b)
        → b.max_total_count s.pos + count < unlimited
        → names b (b.max_total_count s.pos + count) 0 (add_arg b opt name count s).pos
          ≡ names b (b.max_total_count s.pos) 0 s.pos ++ repeated count name
    unfolding add_arg
    names-add_arg opt name count s h =
        let n = b.max_total_count s.pos in
        let pos' = b.add_position name count s.pos in
        names_add n count 0 pos'
        ∙ ap₂ (λ x y. x ++ y)
            (names_same n 0 s.pos pos'
              (λ j le lt. positional.name_before name count s.pos j (omega arith) h))
            (names-repeated count (0 + n) pos' name
              (λ j le lt. positional.name_added name count s.pos j (omega arith) (omega arith) h))

    names-add_args :
        (args : List Arg) (s : FlagSet b)
        → b.max_total_count s.pos + total args < unlimited
        → (b.max_total_count (add_args args s).pos ≡ b.max_total_count s.pos + total args)
          × (names b (b.max_total_count s.pos + total args) 0 (add_args args s).pos
              ≡ names b (b.max_total_count s.pos) 0 s.pos ++ all_names args)
    unfolding add_args add_arg
    names-add_args [] s h =
        let none_more : b.max_total_count s.pos + 0 ≡ b.max_total_count s.pos = omega arith in
        (sym none_more, ap (λ k. names b k 0 s.pos) none_more ∙ sym (append-nil _))
    names-add_args ((opt, name, count) ∷ args) s h =
        let s' = add_arg b opt name count s in
        let final = add_args args s' in
        let more : b.max_total_count s'.pos ≡ b.max_total_count s.pos + count =
          positional.max_add name count s.pos (omega (arith, h)) in
        let (counted, named) = names-add_args args s' (omega (arith, h, more)) in
        let sum : b.max_total_count s'.pos + total args
            ≡ b.max_total_count s.pos + (count + total args) =
          omega (arith, more) in
        let first = names-add_arg opt name count s (omega (arith, h)) in
        (
          counted ∙ sum,
          ap (λ k. names b k 0 final.pos) (sym sum)
              ∙ named
              ∙ ap (λ xs. xs ++ all_names args) (ap (λ k. names b k 0 s'.pos) more ∙ first)
              ∙ append_assoc (names b (b.max_total_count s.pos) 0 s.pos) (repeated count name)
                  (all_names args),
        )

    -- If arguments are added to a new set, each under a name and with a count, and the counts add up to
    -- less than the number that stands for no limit, the usage names each as often as its count, in
    -- the order in which they were added.
    pub usage_args-add_args :
        (fuel : ℕ) (args : List Arg)
        → total args < unlimited
        → usage_args b fuel (add_args args (created b)).pos ≡ some (all_names args)
    unfolding usage_args names
    usage_args-add_args fuel args h =
        let none_yet = positional.max_none in
        let (counted, named) = names-add_args args (created b) (omega (arith, h, none_yet)) in
        let limited : (b.max_total_count (add_args args (created b)).pos == unlimited) ≡ false =
          ground (arith, counted, none_yet, h) in
        rw limited (
          ap some (
            ap (λ k. names b k 0 (add_args args (created b)).pos) counted
            ∙ named
            ∙ ap (λ k. names b k 0 (created b).pos ++ all_names args) none_yet))
