-- ===== src/Flag/FlagSet.antt =====
-- cppkg/flag/flagset.h and cppkg/flag/flagset.cc. A text is the list of its bytes. What the code takes
-- from boost is a record of types and functions: an option with its description, what `pos_` says
-- of the arguments, and the values that a command line gives.
use cppkg.Base.{
  ℕ, ◌-◌, ◌>>=◌, zero, suc, List, [], ◌∷◌, ◌++◌, Option, none, some, Bool, true, false,
  if◌then◌else◌, ltb, ◌==◌, length, nat_eq, list_eq,
}

abbrev pub Text : Type 0
Text = List ℕ

pub record Boost : Type 1 where
  pub Opt : Type 0
  pub Positional : Type 0
  pub Vars : Type 0
  -- The option that `parse` adds.
  pub help : Opt
  -- `operator <<` of a description, and `path(...).stem().string()`.
  pub print : List Opt → Text
  pub stem : Text → Text
  -- `add`, `max_total_count` and `name_for_position` of the positions.
  pub no_positions : Positional
  pub add_position : Text → ℕ → Positional → Positional
  pub max_total_count : Positional → ℕ
  pub name_for_position : Positional → ℕ → Text
  -- `store` of the parsed command line, and `notify`: the values then, and the message of what they
  -- throw. `has_help` is `vars.count("help")`.
  pub store : List Opt → Positional → List Text → Vars → Vars × Option Text
  pub notify : Vars → Vars × Option Text
  pub has_help : Vars → Bool

-- What `cisab::logs` gets.
pub data Log : Type 0 where
  warn error : Text → Log

-- `std::numeric_limits<unsigned>::max()`
abbrev pub unlimited : ℕ
unlimited = 4294967295

module _ (b : Boost) where
  open b use {
    Opt, Positional, Vars, help, print, stem, no_positions, add_position, max_total_count,
    name_for_position, store, notify, has_help,
  }

  pub record FlagSet : Type 0 where
    pub flags : List Opt
    pub args : List Opt
    pub pos : Positional

  -- The constructor.
  abbrev pub created : FlagSet
  created = record { flags = []; args = []; pos = no_positions }

  -- `add_flags()(...)(...)`
  unfoldable pub add_flags : List Opt → FlagSet → FlagSet
  add_flags opts s = record s { flags = s.flags ++ opts }

  unfoldable pub add_arg : Opt → Text → ℕ → FlagSet → FlagSet
  add_arg opt name maxcount s = record s {
    args = s.args ++ opt ∷ [];
    pos = add_position name maxcount s.pos;
  }

  -- The names of the first arguments, each behind a space.
  unfoldable pub names : ℕ → ℕ → Positional → Text
  names zero i pos = []
  names (suc n) i pos = b' ' ∷ name_for_position pos i ++ names n (suc i) pos

  -- The loop to the last name: what it prints, and `arg` then.
  unfoldable pub names_to : ℕ → Text → Text → ℕ → Positional → Option (Text × Text)
  names_to zero arg last i pos = none
  names_to (suc fuel) arg last i pos =
      let rest : Option (Text × Text) =
        elim (names_to fuel (name_for_position pos i) last (suc i) pos) [
          | none ↦ none
          | some (text, arg') ↦ some (b' ' ∷ name_for_position pos i ++ text, arg')
        ] in
      if list_eq.beq arg last then some ([], arg) else rest

  -- The arguments in the usage. `none` is a loop that takes more rounds than there is fuel.
  unfoldable pub usage_args : ℕ → Positional → Option Text
  usage_args fuel pos =
      if max_total_count pos == unlimited
      then elim (names_to fuel [] (name_for_position pos (unlimited - 1)) 0 pos) [
        | none ↦ none
        | some (text, arg) ↦ some (text ++ b' ' ∷ b'[' ∷ arg ++ b'.' ∷ b'.' ∷ b'.' ∷ b']' ∷ [])
      ]
      else some (names (max_total_count pos) 0 pos)

  unfoldable pub make_usage_string : ℕ → Text → List Opt → Positional → Option Text
  make_usage_string fuel program_name flag_desc pos = do
    args ← usage_args fuel pos
    some (
        b'u' ∷ b's' ∷ b'a' ∷ b'g' ∷ b'e' ∷ b':' ∷ b' ' ∷ program_name
        ++ b' '
          ∷ (if ltb 0 (length flag_desc)
              then b'[' ∷ b'f' ∷ b'l' ∷ b'a' ∷ b'g' ∷ b's' ∷ b']' ∷ []
              else [])
        ++ args
        ++ 10 ∷ print flag_desc)

  -- What `parse` leaves behind: its result, the flags, the values, and the log. `none` is a usage
  -- that takes more fuel.
  pub record Parsed : Type 0 where
    pub parsed : Bool
    pub set : FlagSet
    pub vars : Vars
    pub log : List Log

  -- How `parse` ends: by what `store` throws, by the help flag and the usage, or by what `notify`
  -- throws; `vars` and `vars'` are the values after the two calls.
  unfoldable pub parse_end :
      FlagSet → Option Text → Bool → Option Text → Option Text → Vars → Vars → Option Parsed
  parse_end s (some what) helped usage threw vars vars' =
      some (record { parsed = false; set = s; vars = vars; log = error what ∷ [] })
  parse_end s none true (some usage) threw vars vars' =
      some (record { parsed = false; set = s; vars = vars; log = warn usage ∷ [] })
  parse_end s none true none threw vars vars' = none
  parse_end s none false usage (some what) vars vars' =
      some (record { parsed = false; set = s; vars = vars'; log = error what ∷ [] })
  parse_end s none false usage none vars vars' =
      some (record { parsed = true; set = s; vars = vars'; log = [] })

  -- `parse` of the arguments, the first of which is the program's.
  unfoldable pub parse : ℕ → Text → List Text → Vars → FlagSet → Option Parsed
  unfolding parse_end
  parse fuel program argv vars s =
      let flags = s.flags ++ help ∷ [] in
      let stored = store (flags ++ s.args) s.pos (program ∷ argv) vars in
      let notified = notify stored.0 in
      parse_end (record s { flags = flags }) stored.1 (has_help stored.0)
        (make_usage_string fuel (stem program) flags s.pos) notified.1 stored.0 notified.0
