-- ===== src/Jobs/ScopeGuard/Once.antt =====
-- Guards run what they were given, once.
use cppkg.Base.{
  ℕ, zero, suc, ◌+◌, ◌≡◌, refl, ap, get_elem?, count, count-append, count-set, arith, List, [], ◌∷◌,
  ◌++◌, Option, none, some, false, if◌then◌else◌, ◌==◌, set, ◌>>=◌, inl, inr, Bool-cases,
  Option-cases,
}
use cppkg.Jobs.ScopeGuard
use cppkg.Jobs.ScopeGuard.{Guards, term, fire}

pub data Op : Type 0 where
  construct : Option ℕ → Op
  destroy move_construct : ℕ → Op
  move_assign : ℕ → ℕ → Op

unfoldable pub apply : Op → Guards → Option (Guards × List ℕ)
unfolding ScopeGuard.construct ScopeGuard.destroy ScopeGuard.move_construct ScopeGuard.move_assign
apply (Op.construct f) gs = ScopeGuard.construct f gs
apply (Op.destroy i) gs = ScopeGuard.destroy i gs
apply (Op.move_construct other) gs = ScopeGuard.move_construct other gs
apply (Op.move_assign this other) gs = ScopeGuard.move_assign this other gs

unfoldable pub run : List Op → Guards → Option (Guards × List ℕ)
unfolding apply
run [] gs = some (gs, [])
run (op ∷ ops) gs = do
  after ← apply op gs
  later ← run ops after.0
  some (later.0, after.1 ++ later.1)

-- How often a function has run, how often guards hold it, and how often guards were given it.
unfoldable pub runs : ℕ → List ℕ → ℕ
runs p [] = 0
runs p (f ∷ log) = (if f == p then 1 else 0) + runs p log

abbrev pub holds : ℕ → Option ℕ → ℕ
holds p none = 0
holds p (some f) = if f == p then 1 else 0

abbrev pub guards : ℕ → Option (Option ℕ) → ℕ
guards p none = 0
guards p (some f) = holds p f

abbrev pub held : ℕ → Guards → ℕ
held p gs = count (guards p) gs

abbrev pub given : ℕ → Op → ℕ
given p (Op.construct f) = holds p f
given p (Op.destroy i) = 0
given p (Op.move_construct i) = 0
given p (Op.move_assign i j) = 0

unfoldable pub all_given : ℕ → List Op → ℕ
all_given p [] = 0
all_given p (op ∷ ops) = given p op + all_given p ops

runs-append : (p : ℕ) (a b : List ℕ) → runs p (a ++ b) ≡ runs p a + runs p b
unfolding runs
runs-append p [] b = omega arith
runs-append p (f ∷ a) b = omega (arith, runs-append p a b)

runs-fire : (p : ℕ) (f : Option ℕ) → runs p (fire f) ≡ holds p f
unfolding runs
runs-fire p none = refl
runs-fire p (some f) = omega arith

term-guard :
    (i : ℕ) (gs : Guards) (f : Option ℕ) → term i gs ≡ some f → get_elem? gs i ≡ some (some f)
unfolding term
term-guard i [] f h = ground (arith, h)
term-guard zero (g ∷ gs) f h = ap some h
term-guard (suc i) (g ∷ gs) f h = term-guard i gs f h

held-set :
    (p i : ℕ) (f : Option ℕ) (v : Option (Option ℕ)) (gs : Guards)
    → term i gs ≡ some f
    → held p (set gs i v) + holds p f ≡ held p gs + guards p v
held-set p i f v gs h = count-set (guards p) gs i (some f) v (term-guard i gs f h)

term-set_other :
    (i j : ℕ) (f : Option ℕ) (v : Option (Option ℕ)) (gs : Guards)
    → (i == j) ≡ false
    → term j gs ≡ some f
    → term j (set gs i v) ≡ some f
unfolding term
term-set_other i j f v [] ne h = h
term-set_other zero zero f v (g ∷ gs) ne h = ground arith
term-set_other zero (suc j) f v (g ∷ gs) ne h = h
term-set_other (suc i) zero f v (g ∷ gs) ne h = h
term-set_other (suc i) (suc j) f v (g ∷ gs) ne h = term-set_other i j f v gs (ground (arith, ne)) h

-- Nothing is lost and nothing runs twice: what has run and what is held add up.
abbrev Balanced : ℕ → ℕ → Option (Guards × List ℕ) → Type 0
Balanced p total none = Unit {0}
Balanced p total (some r) = runs p r.1 + held p r.0 ≡ total

apply-Balanced : (p : ℕ) (op : Op) (gs : Guards) → Balanced p (given p op + held p gs) (apply op gs)
unfolding apply runs count
apply-Balanced p (Op.construct f) gs = omega (arith, count-append (guards p) gs (some f ∷ []))
apply-Balanced p (Op.destroy i) gs = elim (Option-cases (term i gs)) [
  | inl dead ↦ rw dead tt
  | inr (f, alive) ↦ rw alive (omega (arith, runs-fire p f, held-set p i f none gs alive))
]
apply-Balanced p (Op.move_construct i) gs = elim (Option-cases (term i gs)) [
  | inl dead ↦ rw dead tt
  | inr (f, alive) ↦ rw alive (
      omega (
        arith,
        held-set p i f (some none) gs alive,
        count-append (guards p) (set gs i (some none)) (some f ∷ []),
      ))
]
apply-Balanced p (Op.move_assign i j) gs = elim (Bool-cases (i == j)) [
  | inl same ↦ elim (Option-cases (term i gs)) [
    | inl dead ↦ rw (same, dead, ScopeGuard.move_assign) tt
    | inr (f, alive) ↦ rw (same, alive, ScopeGuard.move_assign) (omega arith)
  ]
  | inr other ↦ elim (Option-cases (term i gs)) [
    | inl dead ↦ rw (other, dead, ScopeGuard.move_assign) tt
    | inr (old, alive) ↦ elim (Option-cases (term j gs)) [
      | inl dead ↦ rw (other, alive, dead, ScopeGuard.move_assign) tt
      | inr (f, alive') ↦
          let gs' = set gs i (some f) in
          let still = term-set_other i j f (some f) gs other alive' in
          rw (other, alive, alive', ScopeGuard.move_assign)
            (omega (
              arith,
              runs-fire p old,
              held-set p i old (some f) gs alive,
              held-set p j f (some none) gs' still,
            ))
    ]
  ]
]

run-Balanced :
    (p : ℕ) (ops : List Op) (gs : Guards) → Balanced p (all_given p ops + held p gs) (run ops gs)
unfolding run all_given runs
run-Balanced p [] gs = omega arith
run-Balanced p (op ∷ ops) gs =
    let one = apply-Balanced p op gs in
    elim (Option-cases (apply op gs)) [
      | inl dead ↦ rw dead tt
      | inr (r, applied) ↦
          let total : runs p r.1 + held p r.0 ≡ given p op + held p gs = rw applied at one in
          let all = run-Balanced p ops r.0 in
          elim (Option-cases (run ops r.0)) [
            | inl dead ↦ rw (applied, dead) tt
            | inr (r', ran) ↦
                let total' : runs p r'.1 + held p r'.0 ≡ all_given p ops + held p r.0 =
                  rw ran at all in
                rw (applied, ran) (omega (arith, total, total', runs-append p r.1 r'.1))
          ]
    ]

-- If a sequence of constructions, moves and destructions uses only guards that live, then a
-- function has run as often as guards were constructed with it, but for the guards that hold it at
-- the end.
pub run-held :
    (p : ℕ) (ops : List Op) (gs : Guards) (log : List ℕ)
    → run ops [] ≡ some (gs, log)
    → runs p log + held p gs ≡ all_given p ops
unfolding count
run-held p ops gs log ran =
    let all = run-Balanced p ops [] in
    let total : runs p log + held p gs ≡ all_given p ops + held p [] = rw ran at all in
    omega (arith, total)
