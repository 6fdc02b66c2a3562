-- ===== src/Estd/HashList.antt =====
-- cppkg/estd/hashlist.h: a list without duplicates, with a map from its values to its nodes. A
-- node of the `std::list` is a number beside its value, which stays the same while other nodes come
-- and go; an iterator is `some` number, or `none` for `end()`. `none` as a result is undefined
-- behaviour: an iterator that is not of the list.
pub mod Nodes
pub mod Invariant
pub mod Spec
pub mod Refinement
pub mod Iterators
use cppkg.Base.{
  ℕ, zero, suc, ◌+◌, List, [], ◌∷◌, ◌++◌, Option, none, some, Bool, if◌then◌else◌, ◌==◌, Eq, map,
  length,
}
use cppkg.Estd.UnorderedMap.{find, assign, erase as map_erase}
use cppkg.Estd.Contain.{has}

pub record HashList {ℓ} (T : Type ℓ) : Type ℓ where
  pub lst : List (ℕ × T)
  pub umap : List (T × ℕ)
  -- The number of the next node.
  pub fresh : ℕ

module _ {ℓ} {T : Type ℓ} where
  -- `std::list::insert` in front of a node, and of any position.
  unfoldable pub insert_before : ℕ → ℕ × T → List (ℕ × T) → Option (List (ℕ × T))
  insert_before p node [] = none
  insert_before p node (n ∷ l) =
      if n.0 == p
      then some (node ∷ n ∷ l)
      else elim (insert_before p node l) [ none ↦ none | some l' ↦ some (n ∷ l') ]

  unfoldable pub list_insert : Option ℕ → ℕ × T → List (ℕ × T) → Option (List (ℕ × T))
  list_insert none node l = some (l ++ node ∷ [])
  list_insert (some p) node l = insert_before p node l

  -- `std::list::erase` of a node.
  unfoldable pub list_erase : ℕ → List (ℕ × T) → Option (List (ℕ × T))
  list_erase p [] = none
  list_erase p (n ∷ l) =
      if n.0 == p then some l else elim (list_erase p l) [ none ↦ none | some l' ↦ some (n ∷ l') ]

  -- `std::list::back`, and `pop_back` of a list that is not empty.
  unfoldable pub back : ℕ × T → List (ℕ × T) → T
  back n [] = n.1
  back n (n' ∷ l) = back n' l

  unfoldable pub list_pop_back : ℕ × T → List (ℕ × T) → List (ℕ × T)
  list_pop_back n [] = []
  list_pop_back n (n' ∷ l) = n ∷ list_pop_back n' l

  abbrev pub empty : HashList T
  empty = record { lst = []; umap = []; fresh = 0 }

  -- What a loop from `begin()` to `end()` sees.
  abbrev pub values : List (ℕ × T) → List T
  values [] = []
  values (n ∷ l) = n.1 ∷ values l

  -- `std::next(begin(), i)`, or the end.
  unfoldable pub iterator : ℕ → List (ℕ × T) → Option ℕ
  iterator i [] = none
  iterator zero (n ∷ l) = some n.0
  iterator (suc i) (n ∷ l) = iterator i l

module _ {ℓ} {T : Type ℓ} ⦃e : Eq T⦄ where
  -- Each operation that returns an iterator returns it beside the new list.
  unfoldable pub push_back : T → HashList T → Option ℕ × HashList T
  push_back val s = if has s.umap val then (find val s.umap, s) else (
    some s.fresh,
    record {
      lst = s.lst ++ (s.fresh, val) ∷ [];
      umap = assign val s.fresh s.umap;
      fresh = s.fresh + 1;
    },
  )

  unfoldable pub pop_back : HashList T → HashList T
  pop_back s = elim s.lst [
    | [] ↦ s
    | n ∷ l ↦ record s { lst = list_pop_back n l; umap = map_erase (back n l) s.umap }
  ]

  unfoldable pub insert : Option ℕ → T → HashList T → Option (Option ℕ × HashList T)
  insert position val s =
      if has s.umap val
      then some (find val s.umap, s)
      else elim (list_insert position (s.fresh, val) s.lst) [
        | none ↦ none
        | some l ↦ some (
          some s.fresh,
          record { lst = l; umap = assign val s.fresh s.umap; fresh = s.fresh + 1 },
        )
      ]

  unfoldable pub erase : T → HashList T → Option (HashList T)
  erase val s = elim (find val s.umap) [
    | none ↦ some s
    | some p ↦ elim (list_erase p s.lst) [
      | none ↦ none
      | some l ↦ some (record s { lst = l; umap = map_erase val s.umap })
    ]
  ]

  unfoldable pub clear : HashList T → HashList T
  clear s = record s { lst = []; umap = [] }

  -- The constructor from a range.
  unfoldable pub from_range : List T → HashList T → HashList T
  unfolding push_back
  from_range [] s = s
  from_range (val ∷ vals) s = from_range vals (push_back val s).1
