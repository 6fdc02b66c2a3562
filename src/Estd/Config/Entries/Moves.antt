-- ===== src/Estd/Config/Entries/Moves.antt =====
-- Which objects entries delete, and which they lose.
use cppkg.Base.{
  ℕ, zero, suc, ◌+◌, ◌≡◌, ap, arith, List, [], ◌∷◌, ◌++◌, Option, none, some, Bool, false,
  if◌then◌else◌, ◌==◌, get_elem?, set, ◌>>=◌, inl, inr, Bool-cases, Option-cases, count,
  count-append, count-set,
}
use cppkg.Estd.Config.{ConfigEntry, Effect}
use cppkg.Estd.Config.Owned.{deletions, deletions-append, deletions-destroy, owns}
use cppkg.Estd.Config.Entries
use cppkg.Estd.Config.Entries.{Entries, entry_at, moved_from}

-- A move says whether the function that was moved from stays where it was.
pub data Op : Type 0 where
  construct : ConfigEntry → Op
  destroy_entry : ℕ → Op
  move_construct : Bool → ℕ → Op
  move_assign : Bool → ℕ → ℕ → Op

unfoldable pub apply : Op → Entries → Option (Entries × List Effect)
unfolding Entries.construct Entries.destroy_entry Entries.move_construct Entries.move_assign
apply (Op.construct entry) es = Entries.construct entry es
apply (Op.destroy_entry i) es = Entries.destroy_entry i es
apply (Op.move_construct keeps other) es = Entries.move_construct keeps other es
apply (Op.move_assign keeps this other) es = Entries.move_assign keeps this other es

abbrev pub owned_by : ℕ → Option ConfigEntry → ℕ
owned_by p none = 0
owned_by p (some entry) = owns p entry

-- How often an object is given to an entry with a deletion.
abbrev pub given : ℕ → Op → ℕ
given p (Op.construct entry) = owns p entry
given p (Op.destroy_entry i) = 0
given p (Op.move_construct keeps i) = 0
given p (Op.move_assign keeps i j) = 0

-- Does a move leave an object and its deletion where they were as well?
unfoldable pub copied : ℕ → Op → Entries → ℕ
copied p (Op.construct entry) es = 0
copied p (Op.destroy_entry i) es = 0
copied p (Op.move_construct keeps i) es = if keeps then owned_by p (entry_at i es) else 0
copied p (Op.move_assign keeps i j) es =
    if i == j then 0 else if keeps then owned_by p (entry_at j es) else 0

-- Is an object that was to be deleted overwritten?
unfoldable pub overwritten : ℕ → Op → Entries → ℕ
overwritten p (Op.construct entry) es = 0
overwritten p (Op.destroy_entry i) es = 0
overwritten p (Op.move_construct keeps i) es = 0
overwritten p (Op.move_assign keeps i j) es = if i == j then 0 else owned_by p (entry_at i es)

-- How often an object was given to entries, copied and overwritten by some operations.
pub record Tally : Type 0 where
  pub gained : ℕ
  pub copies : ℕ
  pub lost : ℕ

-- The entries after some operations, the effects, and the tally of an object.
unfoldable pub run : ℕ → List Op → Entries → Option (Entries × List Effect × Tally)
unfolding apply copied overwritten
run p [] es = some (es, [], record { gained = 0; copies = 0; lost = 0 })
run p (op ∷ ops) es = do
  after ← apply op es
  later ← run p ops after.0
  let tally : Tally = later.2
  some (
    later.0,
    after.1 ++ later.1,
    record {
      gained = given p op + tally.gained;
      copies = copied p op es + tally.copies;
      lost = overwritten p op es + tally.lost;
    },
  )

entry_at-some :
    (i : ℕ) (es : Entries) (entry : ConfigEntry)
    → entry_at i es ≡ some entry
    → get_elem? es i ≡ some (some entry)
unfolding entry_at
entry_at-some i [] entry h = ground (arith, h)
entry_at-some zero (e ∷ es) entry h = ap some h
entry_at-some (suc i) (e ∷ es) entry h = entry_at-some i es entry h

entry_at-set_other :
    (i j : ℕ) (entry : ConfigEntry) (v : Option ConfigEntry) (es : Entries)
    → (i == j) ≡ false
    → entry_at j es ≡ some entry
    → entry_at j (set es i v) ≡ some entry
unfolding entry_at
entry_at-set_other i j entry v [] ne h = h
entry_at-set_other zero zero entry v (e ∷ es) ne h = ground arith
entry_at-set_other zero (suc j) entry v (e ∷ es) ne h = h
entry_at-set_other (suc i) zero entry v (e ∷ es) ne h = h
entry_at-set_other (suc i) (suc j) entry v (e ∷ es) ne h =
    entry_at-set_other i j entry v es (ground (arith, ne)) h

count-owned :
    (p i : ℕ) (entry : ConfigEntry) (v : Option ConfigEntry) (es : Entries)
    → entry_at i es ≡ some entry
    → count (owned_by p) (set es i v) + owns p entry ≡ count (owned_by p) es + owned_by p v
count-owned p i entry v es h =
    count-set (owned_by p) es i (some entry) v (entry_at-some i es entry h)

owns-moved_from :
    (p : ℕ) (keeps : Bool) (entry : ConfigEntry)
    → owns p (moved_from keeps entry) ≡ (if keeps then owns p entry else 0)
owns-moved_from p keeps entry = ground arith

-- What is deleted, overwritten and held adds up to what was held and copied.
abbrev Balanced : ℕ → ℕ → ℕ → Option (Entries × List Effect) → Type 0
Balanced p lost total none = Unit {0}
Balanced p lost total (some r) = deletions p r.1 + lost + count (owned_by p) r.0 ≡ total

apply-Balanced :
    (p : ℕ) (op : Op) (es : Entries)
    → Balanced p
        (overwritten p op es)
        (given p op + copied p op es + count (owned_by p) es)
        (apply op es)
unfolding apply copied overwritten deletions count
apply-Balanced p (Op.construct entry) es =
    omega (arith, count-append (owned_by p) es (some entry ∷ []))
apply-Balanced p (Op.destroy_entry i) es = elim (Option-cases (entry_at i es)) [
  | inl dead ↦ rw dead tt
  | inr (entry, alive) ↦
      rw alive (omega (arith, (deletions-destroy p entry).0, count-owned p i entry none es alive))
]
apply-Balanced p (Op.move_construct keeps i) es = elim (Option-cases (entry_at i es)) [
  | inl dead ↦ rw dead tt
  | inr (entry, alive) ↦
      let left = some (moved_from keeps entry) in
      rw alive (
        omega (
          arith,
          owns-moved_from p keeps entry,
          count-owned p i entry left es alive,
          count-append (owned_by p) (set es i left) (some entry ∷ []),
        ))
]
apply-Balanced p (Op.move_assign keeps i j) es = elim (Bool-cases (i == j)) [
  | inl same ↦ elim (Option-cases (entry_at i es)) [
    | inl dead ↦ rw (same, dead, Entries.move_assign) tt
    | inr (entry, alive) ↦ rw (same, alive, Entries.move_assign) (omega arith)
  ]
  | inr other ↦ elim (Option-cases (entry_at i es)) [
    | inl dead ↦ rw (other, dead, Entries.move_assign) tt
    | inr (old, alive) ↦ elim (Option-cases (entry_at j es)) [
      | inl dead ↦ rw (other, alive, dead, Entries.move_assign) tt
      | inr (entry, alive') ↦
          let left = some (moved_from keeps entry) in
          let still = entry_at-set_other i j entry (some entry) es other alive' in
          rw (other, alive, alive', Entries.move_assign)
            (omega (
              arith,
              owns-moved_from p keeps entry,
              count-owned p i old (some entry) es alive,
              count-owned p j entry left (set es i (some entry)) still,
            ))
    ]
  ]
]

RunBalanced : ℕ → Entries → Option (Entries × List Effect × Tally) → Type 0
RunBalanced p es none = Unit {0}
RunBalanced p es (some (es', log, tally)) =
    deletions p log + tally.lost + count (owned_by p) es'
    ≡ tally.gained + tally.copies + count (owned_by p) es

run-Balanced : (p : ℕ) (ops : List Op) (es : Entries) → RunBalanced p es (run p ops es)
unfolding run deletions RunBalanced
run-Balanced p [] es = omega arith
run-Balanced p (op ∷ ops) es =
    let one = apply-Balanced p op es in
    elim (Option-cases (apply op es)) [
      | inl dead ↦ rw dead tt
      | inr (r, applied) ↦
          let total = rw applied at one in
          let all = run-Balanced p ops r.0 in
          elim (Option-cases (run p ops r.0)) [
            | inl dead ↦ rw (applied, dead) tt
            | inr ((es', log, tally), ran) ↦
                let total' = rw ran at all in
                rw (applied, ran) (omega (arith, total, total', deletions-append p r.1 log))
          ]
    ]

-- Whether or not a `std::function` stays where it was moved from, which may differ from move to
-- move: if a sequence of constructions, moves and destructions uses only entries that live, then
-- the deletions of an object, the assignments to entries that were to delete it, and the entries
-- that are to delete it at the end are together as many as the entries that were constructed with it
-- and a deletion, and the moves that left both where they were.
pub run-owned :
    (p : ℕ) (ops : List Op) (es : Entries) (log : List Effect) (tally : Tally)
    → run p ops [] ≡ some (es, log, tally)
    → deletions p log + tally.lost + count (owned_by p) es ≡ tally.gained + tally.copies
unfolding count RunBalanced
run-owned p ops es log tally ran =
    let all = run-Balanced p ops [] in let total = rw ran at all in omega (arith, total)
