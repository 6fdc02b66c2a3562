-- ===== src/Estd/HashList/Invariant.antt =====
-- The list and the map agree, and every operation keeps it so.
use cppkg.Base.{
  ℕ, ◌+◌, ◌≤◌, ◌≡◌, refl, ap, sym, ◌∙◌, arith, List, ◌∷◌, ◌++◌, none, some, true, if◌then◌else◌,
  ◌==◌, Eq,
}
use cppkg.Estd.UnorderedMap.{find, assign, erase as map_erase, find-assign, find-erase}
use cppkg.Estd.HashList.{HashList, empty}
use cppkg.Estd.HashList.Nodes.{
  nodes, nodes-append, node_of, holders, remove, holders-append, node_of-insert, node_of-remove,
  holders-remove, nodes-remove,
}

module _ {ℓ} {T : Type ℓ} ⦃e : Eq T⦄ where
  -- The map leads each value to its node, no value and no number of a node stands twice, and the
  -- next number is new.
  pub record IsValid (s : HashList T) : Type ℓ where
    pub mapped : (v : T) → find v s.umap ≡ node_of v s.lst
    pub single : (v : T) → holders v s.lst ≤ 1
    pub distinct : (p : ℕ) → nodes p s.lst ≤ 1
    pub unused : (p : ℕ) → s.fresh ≤ p → nodes p s.lst ≡ 0

  pub empty-IsValid : IsValid empty
  unfolding find node_of holders nodes
  empty-IsValid = record {
    mapped = λ v. refl;
    single = λ v. omega arith;
    distinct = λ p. omega arith;
    unused = λ p h. refl;
  }

  -- A new node anywhere in the list.
  abbrev pub with_node : List (ℕ × T) → List (ℕ × T) → T → HashList T → HashList T
  with_node a b v s = record {
    lst = a ++ (s.fresh, v) ∷ b;
    umap = assign v s.fresh s.umap;
    fresh = s.fresh + 1;
  }

  holders_with_node :
      (a b : List (ℕ × T)) (p : ℕ) (v w : T)
      → holders w (a ++ (p, v) ∷ b) ≡ (if e.beq v w then 1 else 0) + holders w (a ++ b)
  unfolding holders
  holders_with_node a b p v w = omega (arith, holders-append w a ((p, v) ∷ b), holders-append w a b)

  nodes_with_node :
      (a b : List (ℕ × T)) (p q : ℕ) (v : T)
      → nodes q (a ++ (p, v) ∷ b) ≡ (if p == q then 1 else 0) + nodes q (a ++ b)
  unfolding nodes
  nodes_with_node a b p q v = omega (arith, nodes-append q a ((p, v) ∷ b), nodes-append q a b)

  holders_same : (v w : T) (l : List (ℕ × T)) → e.beq v w ≡ true → holders v l ≡ holders w l
  holders_same v w l same = ap (λ u. holders u l) ((e.beq_iff v w).0 same)

  pub with_node-IsValid :
      (a b : List (ℕ × T)) (v : T) (s : HashList T)
      → IsValid s
      → a ++ b ≡ s.lst
      → holders v s.lst ≡ 0
      → IsValid (with_node a b v s)
  with_node-IsValid a b v s valid whole new =
      let new' : holders v (a ++ b) ≡ 0 = rw whole new in
      record {
        mapped = λ w.
            find-assign v w s.fresh s.umap
            ∙ ap (λ o. if e.beq v w then some s.fresh else o)
                (valid.mapped w ∙ ap (node_of w) (sym whole))
            ∙ sym (node_of-insert v w s.fresh a b new');
        single = λ w. ground (
          arith,
          holders_with_node a b s.fresh v w,
          holders_same v w s.lst,
          valid.single w,
          ap (holders w) whole,
        );
        distinct = λ p. ground (
          arith,
          nodes_with_node a b s.fresh p v,
          valid.distinct p,
          valid.unused p,
          ap (nodes p) whole,
        );
        unused = λ p h.
            ground (arith, nodes_with_node a b s.fresh p v, valid.unused p, ap (nodes p) whole);
      }

  -- Without a value.
  abbrev pub without : T → HashList T → HashList T
  without v s = record { lst = remove v s.lst; umap = map_erase v s.umap; fresh = s.fresh }

  pub without-IsValid : (v : T) (s : HashList T) → IsValid s → IsValid (without v s)
  without-IsValid v s valid = record {
    mapped = λ w.
        find-erase v w s.umap
        ∙ ap (λ o. if e.beq v w then none else o) (valid.mapped w)
        ∙ sym (node_of-remove v w s.lst);
    single = λ w. omega (arith, holders-remove v w s.lst, valid.single w);
    distinct = λ p. omega (arith, nodes-remove v p s.lst, valid.distinct p);
    unused = λ p h. omega (arith, nodes-remove v p s.lst, valid.unused p h);
  }
