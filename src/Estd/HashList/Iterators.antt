-- ===== src/Estd/HashList/Iterators.antt =====
-- The iterators that a hash list returns, and the list that a range makes.
use cppkg.Base.{
  ◌≡◌, refl, ap, sym, subst, some_inj, ◌∙◌, inl, inr, List, [], ◌∷◌, true, Eq, map, Option-cases,
}
use cppkg.Estd.UnorderedMap.{find, find-assign, is_some}
use cppkg.Estd.HashList
use cppkg.Estd.HashList.{HashList, empty, values, from_range}
use cppkg.Estd.HashList.Nodes.{node_of}
use cppkg.Estd.HashList.Invariant.{IsValid, empty-IsValid}
use cppkg.Estd.HashList.Spec.{Op, spec_run, apply, spec}
use cppkg.Estd.HashList.Refinement.{apply-Refines}

module _ {ℓ} {T : Type ℓ} ⦃e : Eq T⦄ where
  push_back-find :
      (v : T) (s : HashList T)
      → (find v (HashList.push_back v s).1.umap ≡ (HashList.push_back v s).0)
        × (is_some (HashList.push_back v s).0 ≡ true)
  unfolding HashList.push_back
  push_back-find v s = elim (Option-cases (find v s.umap)) [
    | inl missing ↦
        rw missing (find-assign v v s.fresh s.umap ∙ rw ((e.beq_iff v v).1 refl) refl, refl)
    | inr (p, here) ↦ rw here (here, refl)
  ]

  push_back-IsValid :
      (v : T) (s : HashList T)
      → IsValid s
      → IsValid (HashList.push_back v s).1
        × (values (HashList.push_back v s).1.lst ≡ spec (Op.push_back v) (values s.lst))
  unfolding apply
  push_back-IsValid v s valid =
      let (s', runs, valid', same) = apply-Refines (Op.push_back v) s valid in
      let result = some_inj (sym runs) in
      (subst IsValid result valid', ap (λ (t : HashList T). values t.lst) (sym result) ∙ same)

  -- On a valid hash list, `push_back` leaves a valid one, and the iterator that it returns is that
  -- of the node that holds the value.
  pub push_back-node_of :
      (v : T) (s : HashList T)
      → IsValid s
      → IsValid (HashList.push_back v s).1
        × (node_of v (HashList.push_back v s).1.lst ≡ (HashList.push_back v s).0)
        × (is_some (HashList.push_back v s).0 ≡ true)
  push_back-node_of v s valid =
      let (result, _) = push_back-IsValid v s valid in
      let (found, some_node) = push_back-find v s in
      (result, sym (result.mapped v) ∙ found, some_node)

  from_range-IsValid :
      (vals : List T) (s : HashList T)
      → IsValid s
      → IsValid (from_range vals s)
        × (values (from_range vals s).lst ≡ spec_run (map Op.push_back vals) (values s.lst))
  unfolding from_range spec_run
  from_range-IsValid [] s valid = (valid, refl)
  from_range-IsValid (v ∷ vals) s valid =
      let (one, same) = push_back-IsValid v s valid in
      let (all, same') = from_range-IsValid vals (HashList.push_back v s).1 one in
      (all, same' ∙ ap (spec_run (map Op.push_back vals)) same)

  -- The list that a range makes is valid, and holds what pushing the values of the range one after
  -- the other onto a list without duplicates gives.
  pub from_range-spec_run :
      (vals : List T)
      → IsValid (from_range vals empty)
        × (values (from_range vals empty).lst ≡ spec_run (map Op.push_back vals) [])
  from_range-spec_run vals = from_range-IsValid vals empty empty-IsValid
