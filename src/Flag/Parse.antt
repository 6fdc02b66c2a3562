-- ===== src/Flag/Parse.antt =====
-- What `parse` returns, logs and leaves behind.
use cppkg.Base.{
  ℕ, ◌<◌, ◌≡◌, ◌↔◌, refl, arith, List, [], ◌∷◌, ◌++◌, Option, none, some, Bool, true, false,
  if◌then◌else◌, length,
}
use cppkg.Flag.FlagSet.{Text, Boost, FlagSet, Parsed, unlimited, parse, parse_end}
use cppkg.Flag.Usage.{usage_defined}

module _ (b : Boost) where
  open b use {Opt, Vars, help, stem, store, notify, has_help}

  -- The values after the command line is stored, and what is thrown there.
  abbrev pub stored : Text → List Text → Vars → FlagSet b → Vars × Option Text
  stored program argv vars s = store ((s.flags ++ help ∷ []) ++ s.args) s.pos (program ∷ argv) vars

  abbrev pub Succeeds : Text → List Text → Vars → FlagSet b → Type 0
  Succeeds program argv vars s =
      ((stored program argv vars s).1 ≡ none)
      × (has_help (stored program argv vars s).0 ≡ false)
      × ((notify (stored program argv vars s).0).1 ≡ none)

  parse_end_lem :
      (s : FlagSet b) (threw : Option Text) (helped : Bool) (usage : Text) (threw' : Option Text)
      (vars vars' : Vars)
      → (p : Parsed b) × (parse_end b s threw helped (some usage) threw' vars vars' ≡ some p)
        × ((p.parsed ≡ true) ↔ ((threw ≡ none) × (helped ≡ false) × (threw' ≡ none)))
        × (length p.log ≡ (if p.parsed then 0 else 1))
        × (p.set ≡ s)
  unfolding parse_end
  parse_end_lem s (some what) helped usage threw' vars vars' = (_, refl, ground arith, refl, refl)
  parse_end_lem s none true usage threw' vars vars' = (_, refl, ground arith, refl, refl)
  parse_end_lem s none false usage (some what) vars vars' = (_, refl, ground arith, refl, refl)
  parse_end_lem s none false usage none vars vars' = (_, refl, ground arith, refl, refl)

  -- With fuel for the longest usage, `parse` returns. It accepts exactly if the command line is
  -- stored and notified without an exception and holds no help flag; it logs one message if it
  -- does not accept, and none if it does; and it leaves one more help option among the flags, and
  -- the arguments as they were.
  pub parse-Succeeds :
      (fuel : ℕ) (program : Text) (argv : List Text) (vars : Vars) (s : FlagSet b)
      → unlimited < fuel
      → (p : Parsed b) × (parse b fuel program argv vars s ≡ some p)
        × ((p.parsed ≡ true) ↔ Succeeds program argv vars s)
        × (length p.log ≡ (if p.parsed then 0 else 1))
        × (p.set ≡ record s { flags = s.flags ++ help ∷ [] })
  unfolding parse
  parse-Succeeds fuel program argv vars s enough =
      let after = stored program argv vars s in
      let (text, shown) = usage_defined b fuel (stem program) (s.flags ++ help ∷ []) s.pos enough in
      rw shown (
        parse_end_lem (record s { flags = s.flags ++ help ∷ [] }) after.1 (has_help after.0) text
          (notify after.0).1 after.0 (notify after.0).0)
