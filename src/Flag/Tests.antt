-- ===== src/Flag/Tests.antt =====
-- Runs of the usage and of `parse`, and the theorems about them.
use cppkg.Flag.Args.{IsPositional, add_args, usage_args-add_args}
use cppkg.Base.{
  ◌-◌, zero, replicate, ◌+◌, ◌≤◌, ◌<◌, ap, ◌∙◌, length-append, length-replicate, get_or-append_left,
  get_or-append_right, ℕ, suc, ◌≡◌, ◌≢◌, ◌↔◌, refl, arith, List, [], ◌∷◌, ◌++◌, none, some, true,
  if◌then◌else◌, ltb, ◌==◌, length, get_or, nat_eq, list_eq,
}
use cppkg.Flag.FlagSet
use cppkg.Flag.FlagSet.{
  Text, Boost, FlagSet, Parsed, unlimited, names, names_to, usage_args, make_usage_string,
  parse_end, add_arg,
}
use cppkg.Flag.Usage.{First, usage_args-First}
use cppkg.Flag.Parse.{Succeeds, parse-Succeeds}

-- An option is its name; the positions are the names and the one that is repeated, which is empty
-- if none is; the values are the arguments, and `h` among them is the flag.
abbrev small_boost : Boost
small_boost = record {
  Opt = ℕ;
  Positional = List Text × Text;
  Vars = List Text;
  help = b'h';
  print = λ opts. opts;
  stem = λ path. path;
  no_positions = ([], []);
  add_position =
      λ name maxcount pos. if maxcount == 1 then (pos.0 ++ name ∷ [], pos.1) else (pos.0, name);
  max_total_count = λ pos. if ltb 0 (length pos.1) then unlimited else length pos.0;
  name_for_position = λ pos i. get_or pos.0 i pos.1;
  store = λ opts pos argv vars. (argv, none);
  notify = λ vars. (vars, none);
  has_help = λ vars. ltb 2 (length vars);
}

abbrev two_args : FlagSet small_boost
two_args = record { flags = []; args = 1 ∷ 2 ∷ []; pos = ((b'a' ∷ []) ∷ [], b'b' ∷ []) }

two_args_added :
    add_arg small_boost 2
      (b'b' ∷ [])
      5
      (add_arg small_boost 1 (b'a' ∷ []) 1 (FlagSet.created small_boost))
    ≡ two_args
unfolding add_arg
two_args_added = refl

-- `usage:  a b [b...]`
usage_runs :
    usage_args small_boost 4 two_args.pos
    ≡ some (b' ' ∷ b'a' ∷ b' ' ∷ b'b' ∷ b' ' ∷ b'[' ∷ b'b' ∷ b'.' ∷ b'.' ∷ b'.' ∷ b']' ∷ [])
unfolding usage_args names_to
usage_runs = refl

parse_runs :
    FlagSet.parse small_boost 4 (b'p' ∷ []) ((b'x' ∷ []) ∷ []) [] two_args
    ≡ some (record {
      parsed = true;
      set = record two_args { flags = b'h' ∷ [] };
      vars = (b'p' ∷ []) ∷ (b'x' ∷ []) ∷ [];
      log = [];
    })
unfolding FlagSet.parse parse_end
parse_runs = refl

b_is_named : ◌≢◌ {A = Text} (b'b' ∷ []) []
b_is_named e = ground (arith, e)

usage_args-First_example :
    (k : ℕ) × First small_boost (b'b' ∷ []) two_args.pos 0 k
    × (usage_args small_boost 4294967296 two_args.pos
        ≡ some (
            names small_boost (suc k) 0 two_args.pos
            ++ b' ' ∷ b'[' ∷ b'b' ∷ []
            ++ b'.' ∷ b'.' ∷ b'.' ∷ b']' ∷ []))
usage_args-First_example =
    usage_args-First small_boost 4294967296 two_args.pos refl (omega arith) b_is_named

parse-Succeeds_example :
    (p : Parsed small_boost) × (FlagSet.parse small_boost 4294967296
        (b'p' ∷ [])
        ((b'x' ∷ []) ∷ [])
        []
        two_args
      ≡ some p)
    × ((p.parsed ≡ true) ↔ Succeeds small_boost (b'p' ∷ []) ((b'x' ∷ []) ∷ []) [] two_args)
    × (length p.log ≡ (if p.parsed then 0 else 1))
    × (p.set ≡ record two_args { flags = b'h' ∷ [] })
parse-Succeeds_example =
    parse-Succeeds small_boost 4294967296 (b'p' ∷ []) ((b'x' ∷ []) ∷ []) [] two_args (omega arith)

-- Positions as the list of their names.
abbrev list_boost : Boost
list_boost = record {
  Opt = ℕ;
  Positional = List Text;
  Vars = List Text;
  help = b'h';
  print = λ opts. opts;
  stem = λ path. path;
  no_positions = [];
  add_position = λ name maxcount pos. pos ++ replicate maxcount name;
  max_total_count = λ pos. length pos;
  name_for_position = λ pos i. get_or pos i [];
  store = λ opts pos argv vars. (argv, none);
  notify = λ vars. (vars, none);
  has_help = λ vars. ltb 2 (length vars);
}

list_boost-IsPositional : IsPositional list_boost
list_boost-IsPositional = record {
  max_none = refl;
  max_add = λ name count pos h.
      length-append pos (replicate count name)
      ∙ ap (λ k. length pos + k) (length-replicate count name);
  name_before =
      λ name count pos i below h. get_or-append_left pos (replicate count name) i [] below;
  name_added = λ name count pos i above below h. added name count pos i above below;
}
  where
    added :
        (name : Text) (count : ℕ) (pos : List Text) (i : ℕ)
        → length pos ≤ i
        → i < length pos + count
        → get_or (pos ++ replicate count name) i [] ≡ name
    added name count pos i above below =
        get_or-append_right pos (replicate count name) i (i - length pos) [] (omega (arith, above))
        ∙ inside name count (i - length pos) (omega (arith, above, below))
      where
        inside : (name : Text) (count j : ℕ) → j < count → get_or (replicate count name) j [] ≡ name
        inside name zero j h = absurd (omega arith)
        inside name (suc count) zero h = refl
        inside name (suc count) (suc j) h = inside name count j (omega arith)

-- ` a b b`
usage_args-add_args_example :
    usage_args list_boost 0
      (add_args list_boost
        ((1, b'a' ∷ [], 1) ∷ (2, b'b' ∷ [], 2) ∷ [])
        (FlagSet.created list_boost)).pos
    ≡ some (b' ' ∷ b'a' ∷ b' ' ∷ b'b' ∷ b' ' ∷ b'b' ∷ [])
usage_args-add_args_example =
    usage_args-add_args list_boost list_boost-IsPositional 0
      ((1, b'a' ∷ [], 1) ∷ (2, b'b' ∷ [], 2) ∷ []) (omega arith)
