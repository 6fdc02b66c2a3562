-- ===== src/Estd/Config/Owned.antt =====
-- A `ConfigMap` deletes what it made, once.
use cppkg.Base.{
  ℕ, ◌+◌, ◌≡◌, refl, arith, List, [], ◌∷◌, ◌++◌, Bool, if◌then◌else◌, ◌&&◌, ◌==◌, Eq, Bool-cases,
  inl, inr,
}
use cppkg.Estd.UnorderedMap.{erase}
use cppkg.Estd.Contain.{has}
use cppkg.Estd.Config.{
  ConfigEntry, Effect, initialised, deleted, destroy, destroy_all, add_entry, erased, rm_entry,
}

-- What a client does with a map; `add` says what its `init` would return.
pub data Op {ℓ} (K : Type ℓ) : Type ℓ where
  add : K → ℕ → Bool → Op K
  rm : K → Op K

-- How often an object was made with a deletion, how often it was deleted, and how often a map
-- holds it with a deletion.
unfoldable pub made : ℕ → List Effect → ℕ
made p [] = 0
made p (initialised o del ∷ log) = (if o == p && del then 1 else 0) + made p log
made p (deleted o ∷ log) = made p log

unfoldable pub deletions : ℕ → List Effect → ℕ
deletions p [] = 0
deletions p (initialised o del ∷ log) = deletions p log
deletions p (deleted o ∷ log) = (if o == p then 1 else 0) + deletions p log

abbrev pub owns : ℕ → ConfigEntry → ℕ
owns p entry = if entry.object == p && entry.deletion then 1 else 0

held {ℓ} : {K : Type ℓ} → ℕ → List (K × ConfigEntry) → ℕ
held p [] = 0
held p (entry ∷ entries) = owns p entry.1 + held p entries

made-append : (p : ℕ) (a b : List Effect) → made p (a ++ b) ≡ made p a + made p b
unfolding made
made-append p [] b = omega arith
made-append p (initialised o del ∷ a) b = omega (arith, made-append p a b)
made-append p (deleted o ∷ a) b = made-append p a b

pub deletions-append :
    (p : ℕ) (a b : List Effect) → deletions p (a ++ b) ≡ deletions p a + deletions p b
unfolding deletions
deletions-append p [] b = omega arith
deletions-append p (initialised o del ∷ a) b = deletions-append p a b
deletions-append p (deleted o ∷ a) b = omega (arith, deletions-append p a b)

pub deletions-destroy :
    (p : ℕ) (entry : ConfigEntry)
    → (deletions p (destroy entry) ≡ owns p entry) × (made p (destroy entry) ≡ 0)
unfolding deletions made
deletions-destroy p entry = elim (Bool-cases entry.deletion) [
  | inl deletes ↦ ground (arith, deletes)
  | inr keeps ↦ ground (arith, keeps)
]

held-append {ℓ} :
    {K : Type ℓ} (p : ℕ) (a b : List (K × ConfigEntry)) → held p (a ++ b) ≡ held p a + held p b
unfolding held
held-append p [] b = omega arith
held-append p (entry ∷ a) b = omega (arith, held-append p a b)

deletions-destroy_all {ℓ} :
    {K : Type ℓ} (p : ℕ) (entries : List (K × ConfigEntry))
    → deletions p (destroy_all entries) ≡ held p entries
unfolding destroy_all held deletions
deletions-destroy_all p [] = refl
deletions-destroy_all p (entry ∷ entries) = omega (
  arith,
  deletions-append p (destroy entry.1) (destroy_all entries),
  (deletions-destroy p entry.1).0,
  deletions-destroy_all p entries,
)

module _ {ℓ} {K : Type ℓ} ⦃e : Eq K⦄ where
  unfoldable pub apply : Op K → List (K × ConfigEntry) → List (K × ConfigEntry) × List Effect
  unfolding add_entry rm_entry
  apply (add k object del) entries = add_entry k object del entries
  apply (rm k) entries = rm_entry k entries

  unfoldable pub run : List (Op K) → List (K × ConfigEntry) → List (K × ConfigEntry) × List Effect
  unfolding apply
  run [] entries = (entries, [])
  run (op ∷ ops) entries =
      let after = apply op entries in let later = run ops after.0 in (later.0, after.1 ++ later.1)

  deletions-erased :
      (p : ℕ) (k : K) (entries : List (K × ConfigEntry))
      → (deletions p (erased k entries) + held p (erase k entries) ≡ held p entries)
        × (made p (erased k entries) ≡ 0)
  unfolding erased erase held deletions made
  deletions-erased p k [] = (omega arith, refl)
  deletions-erased p k (entry ∷ entries) = elim (Bool-cases (e.beq entry.0 k)) [
    | inl same ↦ rw same (
      omega (
        arith,
        deletions-append p (destroy entry.1) (erased k entries),
        (deletions-destroy p entry.1).0,
        (deletions-erased p k entries).0,
      ),
      omega (
        arith,
        made-append p (destroy entry.1) (erased k entries),
        (deletions-destroy p entry.1).1,
        (deletions-erased p k entries).1,
      ),
    )
    | inr other ↦
        rw other (omega (arith, (deletions-erased p k entries).0), (deletions-erased p k entries).1)
  ]

  apply-held :
      (p : ℕ) (op : Op K) (entries : List (K × ConfigEntry))
      → made p (apply op entries).1 + held p entries
        ≡ deletions p (apply op entries).1 + held p (apply op entries).0
  unfolding apply made deletions held
  apply-held p (add k object del) entries = elim (Bool-cases (has entries k)) [
    | inl old ↦ rw old (omega arith)
    | inr new ↦ rw new (
        omega (arith, held-append p entries ((k, record { object = object; deletion = del }) ∷ [])))
  ]
  apply-held p (rm k) entries = elim (Bool-cases (has entries k)) [
    | inl old ↦
        rw old (omega (arith, (deletions-erased p k entries).0, (deletions-erased p k entries).1))
    | inr new ↦ rw new (omega arith)
  ]

  run-held :
      (p : ℕ) (ops : List (Op K)) (entries : List (K × ConfigEntry))
      → made p (run ops entries).1 + held p entries
        ≡ deletions p (run ops entries).1 + held p (run ops entries).0
  unfolding run made deletions
  run-held p [] entries = refl
  run-held p (op ∷ ops) entries =
      let after = apply op entries in
      let later = run ops after.0 in
      omega (
        arith,
        apply-held p op entries,
        run-held p ops after.0,
        made-append p after.1 later.1,
        deletions-append p after.1 later.1,
      )

  -- Whatever is added to a new map and removed from it, once the map is destroyed each object has
  -- been deleted as often as an `init` that came with a deletion has made it.
  pub run-deletions :
      (p : ℕ) (ops : List (Op K))
      → made p (run ops []).1 ≡ deletions p ((run ops []).1 ++ destroy_all (run ops []).0)
  unfolding held
  run-deletions p ops = omega (
    arith,
    run-held p ops [],
    deletions-append p (run ops []).1 (destroy_all (run ops []).0),
    deletions-destroy_all p (run ops []).0,
  )
