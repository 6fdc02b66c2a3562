-- ===== src/Jobs/ScopeGuard.antt =====
-- cppkg/jobs/scope_guard.h: guards that run a function when they are destroyed. A guard is an
-- index into the list of all guards so far; `none` there is a guard that has been destroyed, and
-- `some term_` one that lives. A function is a number, and `term_` is `none` if it is empty. `none`
-- as a result is the use of a guard that does not live.
pub mod Once
use cppkg.Base.{
  ℕ, zero, suc, ◌+◌, ◌≡◌, List, [], ◌∷◌, ◌++◌, Option, none, some, Bool, if◌then◌else◌, ◌==◌,
  get_elem?, set, ◌>>=◌,
}

abbrev pub Guards : Type 0
Guards = List (Option (Option ℕ))

-- `term_` of a guard that lives.
unfoldable pub term : ℕ → Guards → Option (Option ℕ)
term i gs = elim (get_elem? gs i) [ none ↦ none | some guard ↦ guard ]

-- `if (term_) term_();`: the functions that run.
abbrev pub fire : Option ℕ → List ℕ
fire none = []
fire (some f) = f ∷ []

unfoldable pub construct : Option ℕ → Guards → Option (Guards × List ℕ)
construct f gs = some (gs ++ some f ∷ [], [])

-- `~ScopeGuard`
unfoldable pub destroy : ℕ → Guards → Option (Guards × List ℕ)
unfolding term
destroy i gs = do f ← term i gs; some (set gs i none, fire f)

-- `ScopeGuard (ScopeGuard&& other)`
unfoldable pub move_construct : ℕ → Guards → Option (Guards × List ℕ)
unfolding term
move_construct other gs = do f ← term other gs; some (set gs other (some none) ++ some f ∷ [], [])

-- `operator = (ScopeGuard&& other)`
unfoldable pub move_assign : ℕ → ℕ → Guards → Option (Guards × List ℕ)
unfolding term
move_assign this other gs =
    let moved : Option (Guards × List ℕ) = (do
      old ← term this gs
      f ← term other gs
      some (set (set gs this (some f)) other (some none), fire old)) in
    if this == other then term this gs >>= (λ _. some (gs, [])) else moved
