-- ===== src/Estd/Config/Lookups.antt =====
-- What a `ConfigMap` finds after an entry is added or removed.
use cppkg.Base.{
  ℕ, ◌≡◌, refl, ap, sym, ◌∙◌, arith, List, [], ◌∷◌, ◌++◌, Option, none, some, Bool, true, false,
  if◌then◌else◌, Eq, Bool-cases, Option-cases, inl, inr,
}
use cppkg.Estd.UnorderedMap.{find, erase, find-erase, is_some}
use cppkg.Estd.Contain.{has, arr_has}
use cppkg.Estd.Config.{ConfigEntry, get_obj, get_keys, has_key, add_entry, rm_entry}

abbrev object_of : Option ConfigEntry → Option ℕ
object_of none = none
object_of (some entry) = some entry.object

object_of_found : (o : Option ConfigEntry) → object_of (if is_some o then o else none) ≡ object_of o
object_of_found none = refl
object_of_found (some entry) = refl

find_of_is_some : (o : Option ConfigEntry) → is_some o ≡ false → o ≡ none
find_of_is_some none h = refl
find_of_is_some (some entry) h = cc

module _ {ℓ} {K : Type ℓ} ⦃e : Eq K⦄ where
  get_obj-find : (k : K) (m : List (K × ConfigEntry)) → get_obj k m ≡ object_of (find k m)
  unfolding get_obj
  get_obj-find k m = elim (Option-cases (find k m)) [
    | inl missing ↦ rw (missing, get_obj) refl
    | inr (entry, here) ↦ rw (here, get_obj) refl
  ]

  find-append :
      (k j : K) (entry : ConfigEntry) (m : List (K × ConfigEntry))
      → find j (m ++ (k, entry) ∷ [])
        ≡ (if is_some (find j m) then find j m else if e.beq k j then some entry else none)
  unfolding find
  find-append k j entry [] = refl
  find-append k j entry (first ∷ m) = ground (arith, find-append k j entry m)

  get_obj_missing :
      (k j : K) (m : List (K × ConfigEntry)) → has m k ≡ false → e.beq k j ≡ true → find j m ≡ none
  get_obj_missing k j m new same =
      ap (λ i. find i m) (sym ((e.beq_iff k j).0 same)) ∙ find_of_is_some (find k m) new

  get_obj-add_entry :
      (k j : K) (object : ℕ) (del : Bool) (m : List (K × ConfigEntry))
      → get_obj j (add_entry k object del m).0
        ≡ (if has m k then get_obj j m else if e.beq k j then some object else get_obj j m)
  unfolding add_entry
  get_obj-add_entry k j object del m = elim (Bool-cases (has m k)) [
    | inl old ↦ rw old refl
    | inr new ↦
        let entry : ConfigEntry = record { object = object; deletion = del } in
        let found =
          get_obj-find j (m ++ (k, entry) ∷ []) ∙ ap object_of (find-append k j entry m) in
        elim (Bool-cases (e.beq k j)) [
          | inl same ↦ rw (new, same) (found ∙ rw (get_obj_missing k j m new same, same) refl)
          | inr other ↦
              rw (new, other)
                (found ∙ rw other (object_of_found (find j m) ∙ sym (get_obj-find j m)))
        ]
  ]

  get_obj-rm_entry :
      (k j : K) (m : List (K × ConfigEntry))
      → get_obj j (rm_entry k m).0 ≡ (if e.beq k j then none else get_obj j m)
  unfolding rm_entry
  get_obj-rm_entry k j m = elim (Bool-cases (has m k)) [
    | inl old ↦
        let found = get_obj-find j (erase k m) ∙ ap object_of (find-erase k j m) in
        elim (Bool-cases (e.beq k j)) [
          | inl same ↦ rw (old, same) (found ∙ rw same refl)
          | inr other ↦ rw (old, other) (found ∙ rw other (sym (get_obj-find j m)))
        ]
    | inr new ↦ elim (Bool-cases (e.beq k j)) [
      | inl same ↦ rw (new, same) (get_obj-find j m ∙ ap object_of (get_obj_missing k j m new same))
      | inr other ↦ rw (new, other) refl
    ]
  ]

  -- Adding an entry under a new key makes its object the one that is found there, adding one under
  -- an old key changes nothing, and removing a key makes it missing; no other key is affected.
  pub get_obj_after :
      (k j : K) (object : ℕ) (del : Bool) (m : List (K × ConfigEntry))
      → (get_obj j (add_entry k object del m).0
          ≡ (if has m k then get_obj j m else if e.beq k j then some object else get_obj j m))
        × (get_obj j (rm_entry k m).0 ≡ (if e.beq k j then none else get_obj j m))
  get_obj_after k j object del m = (get_obj-add_entry k j object del m, get_obj-rm_entry k j m)

  arr_has-get_keys : (m : List (K × ConfigEntry)) (k : K) → arr_has (get_keys m) k ≡ has m k
  unfolding get_keys arr_has find
  arr_has-get_keys [] k = refl
  arr_has-get_keys (entry ∷ m) k = ground (arith, arr_has-get_keys m k)

  -- A map has a key exactly if it lists it, and exactly if it has an object for it.
  pub keys_agree :
      (k : K) (m : List (K × ConfigEntry))
      → (arr_has (get_keys m) k ≡ has_key k m) × (is_some (get_obj k m) ≡ has_key k m)
  unfolding has_key get_obj
  keys_agree k m = (
    arr_has-get_keys m k,
    elim (Option-cases (find k m)) [
      | inl missing ↦ rw (missing, get_obj) refl
      | inr (entry, here) ↦ rw (here, get_obj) refl
    ],
  )
