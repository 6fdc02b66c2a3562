-- ===== src/Flag/Usage.antt =====
-- What the usage says of the arguments.
use cppkg.Base.{
  ℕ, zero, suc, ◌+◌, ◌-◌, ◌≤◌, ◌<◌, ◌≡◌, ◌≢◌, refl, sym, ap, ◌∙◌, arith, List, [], ◌∷◌, ◌++◌,
  Option, some, false, ◌==◌, ==_iff, ◌>>=◌, inl, inr, Bool-cases, nat_eq, list_eq, Eq-cases, beq_ne,
  beq_refl,
}
use cppkg.Flag.FlagSet.{Text, Boost, unlimited, names, names_to, usage_args, make_usage_string}

module _ (b : Boost) where
  open b use {Opt, Positional, name_for_position, max_total_count}

  -- The place of the first name, from `i` on, that is the last one.
  abbrev pub First : Text → Positional → ℕ → ℕ → Type 0
  First last pos i zero = name_for_position pos i ≡ last
  First last pos i (suc k) = (name_for_position pos i ≢ last) × First last pos (suc i) k

  -- Any name is met.
  First-search :
      (last : Text) (pos : Positional) (n i : ℕ)
      → name_for_position pos (i + n) ≡ last
      → (k : ℕ) × (k ≤ n) × First last pos i k
  First-search last pos zero i met =
      let start : i + 0 ≡ i = omega arith in
      (0, omega arith, ap (name_for_position pos) (sym start) ∙ met)
  First-search last pos (suc n) i met = elim (Eq-cases (name_for_position pos i) last) [
    | inl same ↦ (0, omega arith, same)
    | inr apart ↦
        let next : suc i + n ≡ i + suc n = omega arith in
        let (k, below, first) =
          First-search last pos n (suc i) (ap (name_for_position pos) next ∙ met) in
        (suc k, omega (arith, below), (apart, first))
  ]

  names_to-First :
      (last arg : Text) (pos : Positional) (i k fuel : ℕ)
      → First last pos i k
      → suc k < fuel
      → arg ≢ last
      → names_to b fuel arg last i pos ≡ some (names b (suc k) i pos, last)
  unfolding names_to names
  names_to-First last arg pos i k zero first enough apart = absurd (omega arith)
  names_to-First last arg pos i k (suc zero) first enough apart = absurd (omega arith)
  names_to-First last arg pos i zero (suc (suc fuel)) first enough apart =
      rw (beq_ne arg last apart) (
        rw (beq_refl (name_for_position pos i) last first)
          (ap (λ a. some (b' ' ∷ name_for_position pos i ++ [], a)) first))
  names_to-First last arg pos i (suc k) (suc (suc fuel)) (other, first) enough apart =
      rw (beq_ne arg last apart) (
        rw
          (names_to-First last (name_for_position pos i) pos (suc i) k (suc fuel) first
            (omega arith) other)
          refl)

  -- If the number of arguments is unlimited, the last name is not empty, and there is fuel for as
  -- many rounds as there are numbers, then the usage of the arguments names each, up to the first
  -- that has the last name, and then that name in brackets.
  pub usage_args-First :
      (fuel : ℕ) (pos : Positional)
      → max_total_count pos ≡ unlimited
      → unlimited < fuel
      → name_for_position pos (unlimited - 1) ≢ []
      → (k : ℕ) × First (name_for_position pos (unlimited - 1)) pos 0 k
        × (usage_args b fuel pos
            ≡ some (
                names b (suc k) 0 pos
                ++ b' ' ∷ b'[' ∷ name_for_position pos (unlimited - 1)
                ++ b'.' ∷ b'.' ∷ b'.' ∷ b']' ∷ []))
  unfolding usage_args
  usage_args-First fuel pos all enough named =
      let last = name_for_position pos (unlimited - 1) in
      let (k, below, first) = First-search last pos (unlimited - 1) 0 refl in
      (
        k,
        first,
        rw
            (
              all,
              names_to-First last [] pos 0 k fuel first (omega (arith, below)) (λ e. named (sym e)),
            )
            refl,
      )

  names_to_none :
      (last arg : Text) (pos : Positional) (fuel : ℕ)
      → 0 < fuel
      → arg ≡ last
      → names_to b fuel arg last 0 pos ≡ some ([], arg)
  unfolding names_to
  names_to_none last arg pos zero enough same = absurd (omega arith)
  names_to_none last arg pos (suc fuel) enough same = rw (beq_refl arg last same) refl

  usage_args_empty :
      (fuel : ℕ) (pos : Positional)
      → max_total_count pos ≡ unlimited
      → unlimited < fuel
      → name_for_position pos (unlimited - 1) ≡ []
      → (text : Text) × (usage_args b fuel pos ≡ some text)
  unfolding usage_args
  usage_args_empty fuel pos all enough empty = (
    b' ' ∷ b'[' ∷ b'.' ∷ b'.' ∷ b'.' ∷ b']' ∷ [],
    rw
        (
          all,
          names_to_none (name_for_position pos (unlimited - 1)) [] pos fuel (omega arith)
              (sym empty),
        )
        refl,
  )

  usage_args_limited :
      (fuel : ℕ) (pos : Positional)
      → (max_total_count pos == unlimited) ≡ false
      → (text : Text) × (usage_args b fuel pos ≡ some text)
  unfolding usage_args
  usage_args_limited fuel pos limited = (names b (max_total_count pos) 0 pos, rw limited refl)

  usage_args_defined :
      (fuel : ℕ) (pos : Positional)
      → unlimited < fuel
      → (text : Text) × (usage_args b fuel pos ≡ some text)
  usage_args_defined fuel pos enough = elim (Bool-cases (max_total_count pos == unlimited)) [
    | inl all ↦ elim (Eq-cases (name_for_position pos (unlimited - 1)) []) [
      | inl empty ↦ usage_args_empty fuel pos ((==_iff _ _).0 all) enough empty
      | inr named ↦
          let (k, first, text) = usage_args-First fuel pos ((==_iff _ _).0 all) enough named in
          (_, text)
    ]
    | inr limited ↦ usage_args_limited fuel pos limited
  ]

  -- The usage is defined.
  pub usage_defined :
      (fuel : ℕ) (program : Text) (flags : List Opt) (pos : Positional)
      → unlimited < fuel
      → (text : Text) × (make_usage_string b fuel program flags pos ≡ some text)
  unfolding make_usage_string
  usage_defined fuel program flags pos enough =
      let (args, defined) = usage_args_defined fuel pos enough in
      some_bind (usage_args b fuel pos) args _ defined
    where
      some_bind :
          (o : Option Text) (a : Text) (f : Text → Text)
          → o ≡ some a
          → (text : Text) × ((o >>= (λ x. some (f x))) ≡ some text)
      some_bind o a f e = (f a, rw e refl)
