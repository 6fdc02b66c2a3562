-- ===== src/Estd/Contain.antt =====
-- cppkg/estd/contain.h: lookups in maps and lists. A set is the list of its elements.
use cppkg.Base.{
  ◌≡◌, refl, ap, inl, inr, arith, List, [], ◌∷◌, ◌++◌, Option, none, some, Bool, true, false,
  if◌then◌else◌, Eq, Option-cases,
}
use cppkg.Estd.UnorderedMap.{find, is_some}

module _ {ℓ κ} {K : Type ℓ} {V : Type κ} where
  unfoldable pub get_keys : List (K × V) → List K
  get_keys [] = []
  get_keys (entry ∷ m) = entry.0 ∷ get_keys m

module _ {ℓ} {A : Type ℓ} ⦃e : Eq A⦄ where
  -- `et != std::find(s.begin(), et, key)`
  unfoldable pub arr_has : List A → A → Bool
  arr_has [] key = false
  arr_has (a ∷ s) key = if e.beq a key then true else arr_has s key

  -- `k.emplace(key)` of an `std::unordered_set`.
  unfoldable pub emplace : A → List A → List A
  unfolding arr_has
  emplace key k = if arr_has k key then k else k ++ key ∷ []

  arr_has-append :
      (s : List A) (a key : A)
      → arr_has (s ++ a ∷ []) key ≡ (if arr_has s key then true else e.beq a key)
  unfolding arr_has
  arr_has-append [] a key = ground arith
  arr_has-append (b ∷ s) a key = ground (arith, arr_has-append s a key)

  arr_has-emplace :
      (s : List A) (a key : A)
      → arr_has (emplace a s) key ≡ (if e.beq a key then true else arr_has s key)
  unfolding emplace
  arr_has-emplace s a key =
      ground
        (arith, arr_has-append s a key, e.beq_iff a key, λ (same : a ≡ key). ap (arr_has s) same)

module _ {ℓ κ} {K : Type ℓ} {V : Type κ} ⦃e : Eq K⦄ where
  abbrev pub has : List (K × V) → K → Bool
  has s key = is_some (find key s)

  -- The result, and what is then in `val`.
  unfoldable pub get : V → List (K × V) → K → Bool × V
  get val s key = elim (find key s) [ none ↦ (false, val) | some v ↦ (true, v) ]

  unfoldable pub try_get : List (K × V) → K → V → V
  try_get s key default_val = elim (find key s) [ none ↦ default_val | some v ↦ v ]

  -- `none` is what `cisab::logs::fatalf` throws.
  unfoldable pub must_getf : List (K × V) → K → Option V
  must_getf s key = elim (find key s) [ none ↦ none | some v ↦ some v ]

  unfoldable pub map_keyset : List (K × V) → List K → List K
  unfolding emplace
  map_keyset [] k = k
  map_keyset (p ∷ kv) k = map_keyset kv (emplace p.0 k)

  arr_has-map_keyset :
      (m : List (K × V)) (k : List K) (key : K)
      → arr_has (map_keyset m k) key ≡ (if arr_has k key then true else has m key)
  unfolding map_keyset find
  arr_has-map_keyset [] k key = ground arith
  arr_has-map_keyset (p ∷ m) k key =
      ground (arith, arr_has-map_keyset m (emplace p.0 k) key, arr_has-emplace k p.0 key)

  arr_has-get_keys : (m : List (K × V)) (key : K) → arr_has (get_keys m) key ≡ has m key
  unfolding get_keys arr_has find
  arr_has-get_keys [] key = refl
  arr_has-get_keys (p ∷ m) key = ground (arith, arr_has-get_keys m key)

  found_or_default :
      (m : List (K × V)) (key : K) (default_val : V)
      → (get default_val m key ≡ (has m key, try_get m key default_val))
        × (must_getf m key ≡ (if has m key then some (try_get m key default_val) else none))
  unfolding get try_get must_getf
  found_or_default m key default_val = elim (Option-cases (find key m)) [
    | inl missing ↦ (rw (missing, get, try_get) refl, rw (missing, must_getf) refl)
    | inr (v, here) ↦ (rw (here, get, try_get) refl, rw (here, must_getf, try_get) refl)
  ]

  -- The lookups agree: `get` and `try_get` find a value exactly if `has` finds the key, and the
  -- same one, or else leave the default; `must_getf` returns that value, and throws exactly if the
  -- key is missing; and `get_keys` and `map_keyset` hold exactly the keys that `has` finds.
  pub lookups_agree :
      (m : List (K × V)) (key : K) (default_val : V)
      → (get default_val m key ≡ (has m key, try_get m key default_val))
        × (must_getf m key ≡ (if has m key then some (try_get m key default_val) else none))
        × (arr_has (get_keys m) key ≡ has m key)
        × (arr_has (map_keyset m []) key ≡ has m key)
  unfolding arr_has
  lookups_agree m key default_val = (
    (found_or_default m key default_val).0,
    (found_or_default m key default_val).1,
    arr_has-get_keys m key,
    arr_has-map_keyset m [] key,
  )
