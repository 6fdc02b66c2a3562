-- ===== src/Estd/HashList/Refinement.antt =====
-- Each operation of a hash list does to its values what its specification does to a list without
-- duplicates.
use mathlib.Core.List.{append-nil}
use cppkg.Base.{
  ℕ, ◌≡◌, refl, ap, sym, ◌∙◌, inl, inr, arith, List, [], ◌∷◌, none, some, true, false, Eq, take,
  drop, Bool-cases, Option-cases, take-append-drop,
}
use cppkg.Estd.UnorderedMap.{find, erase as map_erase, is_some}
use cppkg.Estd.HashList
use cppkg.Estd.HashList.{HashList, empty, iterator, values, back, list_pop_back, list_erase}
use cppkg.Estd.HashList.Nodes.{
  nodes, node_of, holders, remove, holders_of_none, values-append, values-take, values-drop,
  list_erase-node_of, list_pop_back-remove, list_insert-iterator, remove_none,
}
use cppkg.Estd.HashList.Invariant.{
  IsValid, with_node, with_node-IsValid, without, without-IsValid, empty-IsValid,
}
use cppkg.Estd.HashList.Spec.{Op, spec, apply, run, spec_run, contains, leave_out, drop_last}

module _ {ℓ} {T : Type ℓ} ⦃e : Eq T⦄ where
  contains-values : (v : T) (l : List (ℕ × T)) → contains v (values l) ≡ is_some (node_of v l)
  unfolding contains node_of
  contains-values v [] = refl
  contains-values v (n ∷ l) = ground (arith, contains-values v l)

  values-remove : (v : T) (l : List (ℕ × T)) → values (remove v l) ≡ leave_out v (values l)
  unfolding remove leave_out
  values-remove v [] = refl
  values-remove v (n ∷ l) = elim (Bool-cases (e.beq n.1 v)) [
    | inl same ↦ rw same (values-remove v l)
    | inr other ↦ rw other (ap (λ vs. n.1 ∷ vs) (values-remove v l))
  ]

  values-list_pop_back :
      (n : ℕ × T) (l : List (ℕ × T)) → values (list_pop_back n l) ≡ drop_last n.1 (values l)
  unfolding list_pop_back drop_last
  values-list_pop_back n [] = refl
  values-list_pop_back n (n' ∷ l) = ap (λ vs. n.1 ∷ vs) (values-list_pop_back n' l)

  -- What one operation has to do.
  Refines : Op T → HashList T → Type ℓ
  Refines op s =
      (s' : HashList T) × (apply op s ≡ some s')
      × IsValid s'
      × (values s'.lst ≡ spec op (values s.lst))

  -- Is the value there? As the code asks the map, and as the specification asks the list.
  absent :
      (v : T) (s : HashList T)
      → IsValid s
      → find v s.umap ≡ none
      → (contains v (values s.lst) ≡ false) × (holders v s.lst ≡ 0)
  absent v s valid missing =
      let nowhere = sym (valid.mapped v) ∙ missing in
      (contains-values v s.lst ∙ ap is_some nowhere, holders_of_none v s.lst nowhere)

  present :
      (v : T) (p : ℕ) (s : HashList T)
      → IsValid s
      → find v s.umap ≡ some p
      → contains v (values s.lst) ≡ true
  present v p s valid here = contains-values v s.lst ∙ ap is_some (sym (valid.mapped v) ∙ here)

  push_back-Refines : (v : T) (s : HashList T) → IsValid s → Refines (Op.push_back v) s
  unfolding apply spec Refines HashList.push_back
  push_back-Refines v s valid = elim (Option-cases (find v s.umap)) [
    | inl missing ↦
        let (new, unheld) = absent v s valid missing in
        (
          with_node s.lst [] v s,
          rw missing refl,
          with_node-IsValid s.lst [] v s valid (append-nil s.lst) unheld,
          rw new (values-append s.lst ((s.fresh, v) ∷ [])),
        )
    | inr (p, here) ↦ (s, rw here refl, valid, rw (present v p s valid here) refl)
  ]

  insert-Refines : (i : ℕ) (v : T) (s : HashList T) → IsValid s → Refines (Op.insert i v) s
  unfolding apply spec Refines HashList.insert
  insert-Refines i v s valid = elim (Option-cases (find v s.umap)) [
    | inl missing ↦
        let (new, unheld) = absent v s valid missing in
        (
          with_node (take i s.lst) (drop i s.lst) v s,
          rw (missing, list_insert-iterator i (s.fresh, v) s.lst valid.distinct) refl,
          with_node-IsValid (take i s.lst) (drop i s.lst) v s valid (take-append-drop i s.lst)
              unheld,
          rw
              (
                new,
                values-append (take i s.lst) ((s.fresh, v) ∷ drop i s.lst),
                values-take i s.lst,
                values-drop i s.lst,
              )
              refl,
        )
    | inr (p, here) ↦ (s, rw here refl, valid, rw (present v p s valid here) refl)
  ]

  erase_absent : (v : T) (s : HashList T) → find v s.umap ≡ none → HashList.erase v s ≡ some s
  unfolding HashList.erase
  erase_absent v s missing = rw (missing, HashList.erase) refl

  erase_present :
      (v : T) (p : ℕ) (s : HashList T)
      → find v s.umap ≡ some p
      → list_erase p s.lst ≡ some (remove v s.lst)
      → HashList.erase v s ≡ some (without v s)
  unfolding HashList.erase
  erase_present v p s here gone = rw (here, gone, HashList.erase) refl

  erase-Refines : (v : T) (s : HashList T) → IsValid s → Refines (Op.erase v) s
  unfolding apply spec Refines HashList.erase
  erase-Refines v s valid = elim (Option-cases (find v s.umap)) [
    | inl missing ↦
        let (new, unheld) = absent v s valid missing in
        let same : leave_out v (values s.lst) ≡ values s.lst =
          sym (values-remove v s.lst) ∙ ap values (remove_none v s.lst unheld) in
        (s, erase_absent v s missing, valid, sym same)
    | inr (p, here) ↦
        let node = sym (valid.mapped v) ∙ here in
        (
          without v s,
          erase_present v p s here
              (list_erase-node_of v p s.lst (valid.distinct p) (valid.single v) node),
          without-IsValid v s valid,
          values-remove v s.lst,
        )
  ]

  pop_back_parts :
      (l : List (ℕ × T)) (umap : List (T × ℕ)) (fresh : ℕ)
      → IsValid (record { lst = l; umap = umap; fresh = fresh })
      → Refines Op.pop_back (record { lst = l; umap = umap; fresh = fresh })
  unfolding apply spec Refines HashList.pop_back
  pop_back_parts [] umap fresh valid =
      (record { lst = []; umap = umap; fresh = fresh }, refl, valid, refl)
  pop_back_parts (n ∷ l) umap fresh valid =
      let s : HashList T = record { lst = n ∷ l; umap = umap; fresh = fresh } in
      let dropped = list_pop_back-remove n l (valid.single (back n l)) in
      (
        without (back n l) s,
        ap (λ l'. some (record { lst = l'; umap = map_erase (back n l) umap; fresh = fresh }))
            dropped,
        without-IsValid (back n l) s valid,
        ap values (sym dropped) ∙ values-list_pop_back n l,
      )

  pop_back-Refines : (s : HashList T) → IsValid s → Refines Op.pop_back s
  pop_back-Refines s valid = pop_back_parts s.lst s.umap s.fresh valid

  clear-IsValid : (s : HashList T) → IsValid s → IsValid (HashList.clear s)
  unfolding HashList.clear find node_of holders nodes
  clear-IsValid s valid = record {
    mapped = λ v. refl;
    single = λ v. omega arith;
    distinct = λ p. omega arith;
    unused = λ p h. refl;
  }

  -- On a valid hash list every operation succeeds, keeps it valid, and does to its values what the
  -- specification says.
  pub apply-Refines :
      (op : Op T) (s : HashList T)
      → IsValid s
      → (s' : HashList T) × (apply op s ≡ some s')
        × IsValid s'
        × (values s'.lst ≡ spec op (values s.lst))
  unfolding Refines apply spec HashList.clear
  apply-Refines (Op.push_back v) s valid = push_back-Refines v s valid
  apply-Refines (Op.insert i v) s valid = insert-Refines i v s valid
  apply-Refines (Op.erase v) s valid = erase-Refines v s valid
  apply-Refines Op.pop_back s valid = pop_back-Refines s valid
  apply-Refines Op.clear s valid = (HashList.clear s, refl, clear-IsValid s valid, refl)

  run-IsValid :
      (ops : List (Op T)) (s : HashList T)
      → IsValid s
      → (s' : HashList T) × (run ops s ≡ some s')
        × IsValid s'
        × (values s'.lst ≡ spec_run ops (values s.lst))
  unfolding run spec_run
  run-IsValid [] s valid = (s, refl, valid, refl)
  run-IsValid (op ∷ ops) s valid =
      let (s', runs, valid', same) = apply-Refines op s valid in
      let (s'', runs', valid'', same') = run-IsValid ops s' valid' in
      (s'', rw runs runs', valid'', same' ∙ ap (spec_run ops) same)

  -- However a new hash list is used, no operation fails, the list and the map agree at the end, and
  -- the list holds what the specification says.
  pub run-spec_run :
      (ops : List (Op T))
      → (s : HashList T) × (run ops empty ≡ some s) × IsValid s × (values s.lst ≡ spec_run ops [])
  run-spec_run ops = run-IsValid ops empty empty-IsValid
