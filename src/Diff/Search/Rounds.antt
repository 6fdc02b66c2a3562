-- ===== src/Diff/Search/Rounds.antt =====
-- The trace: one copy of `costs` for each round, up to the first round that reaches the far corner.
use native.Mathlib.Decide.{dec_lt}
use cppkg.Base.{
  ℕ, zero, suc, ◌+◌, ◌*◌, ◌≤◌, ◌<◌, ◌≡◌, refl, ◌∙◌, arith, List, [], ◌++◌, Bool, true, false, inl,
  inr, and_false, ltb, length, length-append, length-replicate, get_or, get_or-append_left,
  get_or-append_right, get_or-replicate, replicate, ℤ, pos, leb_ℤ, ◌-ℤ◌, int16, some,
}
use cppkg.Diff.Furthest.Corner.{Done, Done-all}
use cppkg.Diff.Search.{diagonals, rounds, max_size, max_edit, myers_diff_trace}
use cppkg.Diff.Search.Index.{int16_next}
use cppkg.Diff.Search.Level.{alike, width, Small, max_edit_lem, ncost_lem, Row}
use cppkg.Diff.Search.Rows.{Open, After, diagonals-After, diagonals_zero-After}

pub earlier : (w e d s : ℕ) → e < d → s < w → e * w + s < d * w
earlier w e d s h k = grind arith

module _ {ℓ} {A : Type ℓ} (cmp : A → A → Bool) (orig updated : List A)
    (small : Small cmp orig updated) where
  -- `costs` as round `e` finds it.
  abbrev pub Costs : ℕ → List ℤ → Type 0
  Costs zero costs = (i : ℕ) → get_or costs i (pos 0) ≡ pos 0
  Costs (suc e) costs = Row cmp orig updated small costs e

  -- A trace of `d` rounds.
  pub record Traced (trace : List ℤ) (d : ℕ) : Type 0 where
    pub size : length trace ≡ d * width cmp orig updated
    pub row :
        (e : ℕ)
        → e < d
        → (costs : List ℤ) × Costs e costs
          × ((s : ℕ)
              → s < width cmp orig updated
              → get_or trace (e * width cmp orig updated + s) (pos 0) ≡ get_or costs s (pos 0))

  Traced-append :
      (trace costs : List ℤ) (d : ℕ)
      → Traced trace d
      → Costs d costs
      → length costs ≡ width cmp orig updated
      → Traced (trace ++ costs) (suc d)
  Traced-append trace costs d t c wide = record {
    size = omega (arith, length-append trace costs, t.size);
    row = λ e h. elim (dec_lt e d) [
      | yes k ↦
          let (old, is, at) = t.row e k in
          (
            old,
            is,
            λ s l.
                get_or-append_left trace costs _ (pos 0)
                  (rw t.size (earlier (width cmp orig updated) e d s k l))
                ∙ at s l,
          )
      | no k ↦
          let same : e ≡ d = omega arith in
          (
            costs,
            rw same c,
            λ s l. rw same (get_or-append_right trace costs _ s (pos 0) (rw t.size)),
          )
    ];
  }

  abbrev pub OpenBefore : ℕ → Type 0
  OpenBefore d = (e : ℕ) → e < d → Open cmp orig updated small e (suc e)

  pub OpenBefore-suc :
      (d : ℕ) → OpenBefore d → Open cmp orig updated small d (suc d) → OpenBefore (suc d)
  OpenBefore-suc d before now e h = elim (dec_lt e d) [
    | yes k ↦ before e k
    | no k ↦ let same : e ≡ d = omega arith in rw same now
  ]

  pub record Found (trace : List ℤ) : Type 0 where
    pub edits : ℕ
    pub bound : edits ≤ length orig + length updated
    pub before : OpenBefore edits
    pub index : ℕ
    pub index_le : index ≤ edits
    pub done : Done (length orig) (length updated) (alike cmp orig updated) edits index
    pub traced : Traced trace (suc edits)

  rounds_end :
      (fuel : ℕ) (iedit : ℤ) (costs trace : List ℤ)
      → rounds cmp orig updated fuel iedit costs trace false ≡ trace
  unfolding rounds
  rounds_end zero iedit costs trace = refl
  rounds_end (suc fuel) iedit costs trace = rw and_false

  unfoldable pub round : ℕ → List ℤ → List ℤ × Bool
  round d costs =
      diagonals cmp orig updated (length orig + length updated + 2) (pos d) (int16 (pos 0 -ℤ pos d))
        costs true

  one_round :
      (fuel d : ℕ) (costs trace : List ℤ)
      → d ≤ length orig + length updated
      → rounds cmp orig updated (suc fuel) (pos d) costs trace true
        ≡ rounds cmp orig updated fuel
            (pos (suc d))
            (round d costs).0
            (trace ++ costs)
            (round d costs).1
  unfolding rounds round
  one_round fuel d costs trace h =
      let test : leb_ℤ (pos d) (max_edit cmp orig updated) ≡ true =
        rw (max_edit_lem cmp orig updated small) (ground arith) in
      rw (test, int16_next d (omega arith))

  pub round-After :
      (d : ℕ) (costs : List ℤ)
      → Costs d costs
      → length costs ≡ width cmp orig updated
      → d ≤ length orig + length updated
      → After cmp orig updated small d (round d costs)
  unfolding round
  round-After zero costs c wide h =
      diagonals_zero-After cmp orig updated small _ costs c wide (omega arith)
  round-After (suc d) costs c wide h =
      diagonals-After cmp orig updated small d h _ costs c wide (omega arith)

  rounds-Found :
      (fuel d : ℕ) (costs trace : List ℤ)
      → Costs d costs
      → length costs ≡ width cmp orig updated
      → d ≤ length orig + length updated
      → length orig + length updated + 1 ≤ fuel + d
      → Traced trace d
      → OpenBefore d
      → Found (rounds cmp orig updated fuel (pos d) costs trace true)
  rounds-Found zero d costs trace c wide h enough t before = absurd (omega arith)
  rounds-Found (suc fuel) d costs trace c wide h enough t before =
      rw (one_round fuel d costs trace h) (elim (round-After d costs c wide h) [
        | inl (go, row, wide', open_) ↦ rw go (
            rounds-Found fuel (suc d) (round d costs).0 (trace ++ costs) row wide' (further open_)
              (omega arith) (Traced-append trace costs d t c wide) (OpenBefore-suc d before open_))
        | inr (end, (i, le, done)) ↦
            rw (end, rounds_end)
              (record {
                edits = d;
                bound = h;
                before = before;
                index = i;
                index_le = le;
                done = done;
                traced = Traced-append trace costs d t c wide;
              })
      ])
    where
      further : Open cmp orig updated small d (suc d) → suc d ≤ length orig + length updated
      further open_ = elim (dec_lt d (length orig + length updated)) [
        | yes k ↦ k
        | no k ↦
            let last : length orig + length updated ≡ d = omega arith in
            let all = Done-all (length orig) (length updated) (alike cmp orig updated) in
            absurd (open_ (length orig) (omega arith) (rw last at all))
      ]

  trace-Found : Found (
      rounds cmp orig updated
        (length orig + length updated + 2)
        (pos 0)
        (replicate (width cmp orig updated) (pos 0))
        []
        true)
  trace-Found =
      rounds-Found (length orig + length updated + 2) 0 _ []
        (λ i. get_or-replicate (width cmp orig updated) i (pos 0)) (length-replicate _ _)
        (omega arith) (omega arith)
        (record { size = omega arith; row = λ e h. absurd (omega arith) })
        (λ e h. absurd (omega arith))

  -- The trace is there, and its rows are those of the search up to its end.
  pub myers_diff_trace-Found :
      (trace : List ℤ) × (myers_diff_trace cmp orig updated ≡ some trace) × Found trace
  unfolding myers_diff_trace
  myers_diff_trace-Found =
      let fits : ltb max_size (width cmp orig updated) ≡ false = ground arith in
      (_, rw (ncost_lem cmp orig updated small, fits), trace-Found)
