-- ===== src/Jobs/Sequence/Reach.antt =====
-- What holds in every state that a sequence can reach.
use cppkg.Base.{
  ◌≡◌, refl, List, [], ◌∷◌, Option, none, some, Bool, true, false, if◌then◌else◌, inl, inr,
  Option-cases,
}
use cppkg.Jobs.Sequence
use cppkg.Jobs.Sequence.{Sequence, Event, Effect, step, created}

module _ (P : Sequence → Type 0) where
  abbrev pub Keeps : Option (Sequence × List Effect) → Type 0
  Keeps none = Unit {0}
  Keeps (some r) = P r.0

  -- A step that is taken only where a test holds.
  pub Keeps-guarded :
      (test : Bool) (r : Sequence × List Effect)
      → (test ≡ true → P r.0)
      → Keeps (if test then some r else none)
  Keeps-guarded true r h = h refl
  Keeps-guarded false r h = tt

  module _ (keeps : (e : Event) (s : Sequence) → P s → Keeps (step e s)) where
    run-Keeps : (es : List Event) (s : Sequence) → P s → Keeps (Sequence.run es s)
    unfolding Sequence.run
    run-Keeps [] s h = h
    run-Keeps (e ∷ es) s h = elim (Option-cases (step e s)) [
      | inl stuck ↦ rw stuck tt
      | inr (now, taken) ↦
          let next : P now.0 = rw taken at (keeps e s h) in
          elim (Option-cases (Sequence.run es now.0)) [
            | inl stuck ↦ rw (taken, stuck) tt
            | inr (later, ran) ↦
                let last : P later.0 = rw ran at (run-Keeps es now.0 next) in rw (taken, ran) last
          ]
    ]

    -- What holds at first, and after each step if it held before, holds in every state that a
    -- sequence can reach.
    pub run_invariant :
        (es : List Event) (s : Sequence) (log : List Effect)
        → P created
        → Sequence.run es created ≡ some (s, log)
        → P s
    run_invariant es s log h ran = rw ran at (run-Keeps es created h)
