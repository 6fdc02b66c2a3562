-- ===== src/Estd/Config.antt =====
-- cppkg/estd/config.h: `ConfigMap`, which owns objects of any type under a key, and deletes each by
-- the function that came with it. An object is its address; what the map does to objects is a list
-- of effects. An entry is held by the map alone, so that it is destroyed where the map lets it go.
pub mod Owned
pub mod Lookups
pub mod Entries
use cppkg.Base.{
  ℕ, ◌+◌, ◌≡◌, refl, ap, arith, List, [], ◌∷◌, ◌++◌, Option, none, some, Bool, true, false,
  if◌then◌else◌, ◌==◌, Eq, Bool-cases,
}
use cppkg.Estd.UnorderedMap.{find, erase, is_some}
use cppkg.Estd.Contain.{has}

-- `deletion` tells whether `deletion_` holds a function.
pub record ConfigEntry : Type 0 where
  pub object : ℕ
  pub deletion : Bool

-- `initialised` is what `init` returns, beside whether a deletion came with it.
pub data Effect : Type 0 where
  initialised : ℕ → Bool → Effect
  deleted : ℕ → Effect

-- `~ConfigEntry`
abbrev pub destroy : ConfigEntry → List Effect
destroy entry = if entry.deletion then deleted entry.object ∷ [] else []

module _ {ℓ} {K : Type ℓ} where
  -- `~ConfigMap`
  unfoldable pub destroy_all : List (K × ConfigEntry) → List Effect
  destroy_all [] = []
  destroy_all (entry ∷ entries) = destroy entry.1 ++ destroy_all entries

  unfoldable pub get_keys : List (K × ConfigEntry) → List K
  get_keys [] = []
  get_keys (entry ∷ entries) = entry.0 ∷ get_keys entries

module _ {ℓ} {K : Type ℓ} ⦃e : Eq K⦄ where
  unfoldable pub has_key : K → List (K × ConfigEntry) → Bool
  has_key cfg_key entries = has entries cfg_key

  -- Null for a missing key.
  unfoldable pub get_obj : K → List (K × ConfigEntry) → Option ℕ
  get_obj cfg_key entries = elim (find cfg_key entries) [
    | none ↦ none
    | some entry ↦ some entry.object
  ]

  -- `object` is what `init` returns, if it is called.
  unfoldable pub add_entry :
      K → ℕ → Bool → List (K × ConfigEntry) → List (K × ConfigEntry) × List Effect
  add_entry cfg_key object del entries = if has entries cfg_key then (entries, []) else (
    entries ++ (cfg_key, record { object = object; deletion = del }) ∷ [],
    initialised object del ∷ [],
  )

  -- What `entries_.erase(cfg_key)` destroys.
  unfoldable pub erased : K → List (K × ConfigEntry) → List Effect
  erased cfg_key [] = []
  erased cfg_key (entry ∷ entries) =
      (if e.beq entry.0 cfg_key then destroy entry.1 else []) ++ erased cfg_key entries

  unfoldable pub rm_entry : K → List (K × ConfigEntry) → List (K × ConfigEntry) × List Effect
  unfolding erased
  rm_entry cfg_key entries =
      if has entries cfg_key then (erase cfg_key entries, erased cfg_key entries) else (entries, [])
