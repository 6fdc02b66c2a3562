-- ===== src/Estd/Config/Entries.antt =====
-- The moves of a `ConfigEntry` of cppkg/estd/config.h. An entry is an index into the list of all
-- entries so far; `none` there is one that has been destroyed, and `none` as a result is the use of
-- an entry that does not live. `keeps` tells whether a `std::function` that was moved from still
-- holds its function or is empty: the standard does not say, and it may be either at each move.
pub mod Moves
use cppkg.Base.{
  ℕ, ◌≡◌, List, [], ◌∷◌, ◌++◌, Option, none, some, Bool, ◌&&◌, if◌then◌else◌, ◌==◌, get_elem?, set,
  ◌>>=◌,
}
use cppkg.Estd.Config.{ConfigEntry, Effect, destroy}

abbrev pub Entries : Type 0
Entries = List (Option ConfigEntry)

unfoldable pub entry_at : ℕ → Entries → Option ConfigEntry
entry_at i es = elim (get_elem? es i) [ none ↦ none | some entry ↦ entry ]

-- The other entry, moved from.
abbrev pub moved_from : Bool → ConfigEntry → ConfigEntry
moved_from keeps entry = record entry { deletion = keeps && entry.deletion }

-- `ConfigEntry (void* data, EntryDelF deletion)`
unfoldable pub construct : ConfigEntry → Entries → Option (Entries × List Effect)
construct entry es = some (es ++ some entry ∷ [], [])

-- `~ConfigEntry`
unfoldable pub destroy_entry : ℕ → Entries → Option (Entries × List Effect)
unfolding entry_at
destroy_entry i es = do entry ← entry_at i es; some (set es i none, destroy entry)

-- `ConfigEntry (ConfigEntry&& other)`
unfoldable pub move_construct : Bool → ℕ → Entries → Option (Entries × List Effect)
unfolding entry_at
move_construct keeps other es = do
  entry ← entry_at other es
  some (set es other (some (moved_from keeps entry)) ++ some entry ∷ [], [])

-- `operator = (ConfigEntry&& other)`
unfoldable pub move_assign : Bool → ℕ → ℕ → Entries → Option (Entries × List Effect)
unfolding entry_at
move_assign keeps this other es =
    let moved : Option (Entries × List Effect) = (do
      old ← entry_at this es
      entry ← entry_at other es
      some (set (set es this (some entry)) other (some (moved_from keeps entry)), [])) in
    if this == other then entry_at this es >>= (λ _. some (es, [])) else moved
