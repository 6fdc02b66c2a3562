-- ===== src/Estd/HashList/Nodes.antt =====
-- The nodes of a list: which node holds a value, and how insertion and removal change that.
use cppkg.Base.{
  ℕ, zero, suc, ◌+◌, ◌≤◌, ◌≡◌, refl, ap, sym, inl, inr, arith, List, [], ◌∷◌, ◌++◌, Option, none,
  some, true, false, if◌then◌else◌, ◌==◌, Eq, take, drop, Option-cases, Bool-cases,
}
use cppkg.Estd.HashList.{
  values, list_insert, insert_before, list_erase, list_pop_back, back, iterator,
}

module _ {ℓ} {T : Type ℓ} where
  -- How many nodes have this number?
  unfoldable pub nodes : ℕ → List (ℕ × T) → ℕ
  nodes p [] = 0
  nodes p (n ∷ l) = (if n.0 == p then 1 else 0) + nodes p l

  pub nodes-append : (p : ℕ) (a b : List (ℕ × T)) → nodes p (a ++ b) ≡ nodes p a + nodes p b
  unfolding nodes
  nodes-append p [] b = omega arith
  nodes-append p (n ∷ a) b = omega (arith, nodes-append p a b)

  pub values-append : (a b : List (ℕ × T)) → values (a ++ b) ≡ values a ++ values b
  values-append [] b = refl
  values-append (n ∷ a) b = ap (λ l. n.1 ∷ l) (values-append a b)

  pub values-take : (i : ℕ) (l : List (ℕ × T)) → values (take i l) ≡ take i (values l)
  values-take zero l = refl
  values-take (suc i) [] = refl
  values-take (suc i) (n ∷ l) = ap (λ l. n.1 ∷ l) (values-take i l)

  pub values-drop : (i : ℕ) (l : List (ℕ × T)) → values (drop i l) ≡ drop i (values l)
  values-drop zero l = refl
  values-drop (suc i) [] = refl
  values-drop (suc i) (n ∷ l) = values-drop i l

  iterator_held : (i p : ℕ) (l : List (ℕ × T)) → iterator i l ≡ some p → 1 ≤ nodes p l
  unfolding iterator nodes
  iterator_held i p [] h = ground arith
  iterator_held zero p (n ∷ l) h = ground arith
  iterator_held (suc i) p (n ∷ l) h = ground (arith, iterator_held i p l)

  insert_before-iterator :
      (i p : ℕ) (node : ℕ × T) (l : List (ℕ × T))
      → nodes p l ≤ 1
      → iterator i l ≡ some p
      → insert_before p node l ≡ some (take i l ++ node ∷ drop i l)
  unfolding insert_before iterator nodes
  insert_before-iterator i p node [] distinct h = ground arith
  insert_before-iterator zero p node (n ∷ l) distinct h = ground arith
  insert_before-iterator (suc i) p node (n ∷ l) distinct h =
      ground (arith, iterator_held i p l, insert_before-iterator i p node l)

  append-iterator_end :
      (i : ℕ) (node : ℕ × T) (l : List (ℕ × T))
      → iterator i l ≡ none
      → l ++ node ∷ [] ≡ take i l ++ node ∷ drop i l
  unfolding iterator
  append-iterator_end zero node [] h = refl
  append-iterator_end (suc i) node [] h = refl
  append-iterator_end zero node (n ∷ l) h = ground arith
  append-iterator_end (suc i) node (n ∷ l) h = ap (λ l. n ∷ l) (append-iterator_end i node l h)

  -- In front of the position that is `i` steps from the start.
  pub list_insert-iterator :
      (i : ℕ) (node : ℕ × T) (l : List (ℕ × T))
      → ((p : ℕ) → nodes p l ≤ 1)
      → list_insert (iterator i l) node l ≡ some (take i l ++ node ∷ drop i l)
  unfolding list_insert
  list_insert-iterator i node l distinct = elim (Option-cases (iterator i l)) [
    | inl end ↦ rw (end, list_insert) (ap some (append-iterator_end i node l end))
    | inr (p, here) ↦ rw (here, list_insert) (insert_before-iterator i p node l (distinct p) here)
  ]

module _ {ℓ} {T : Type ℓ} ⦃e : Eq T⦄ where
  -- The first node that holds the value, and how many nodes do.
  unfoldable pub node_of : T → List (ℕ × T) → Option ℕ
  node_of v [] = none
  node_of v (n ∷ l) = if e.beq n.1 v then some n.0 else node_of v l

  unfoldable pub holders : T → List (ℕ × T) → ℕ
  holders v [] = 0
  holders v (n ∷ l) = (if e.beq n.1 v then 1 else 0) + holders v l

  unfoldable pub remove : T → List (ℕ × T) → List (ℕ × T)
  remove v [] = []
  remove v (n ∷ l) = if e.beq n.1 v then remove v l else n ∷ remove v l

  pub holders-append : (v : T) (a b : List (ℕ × T)) → holders v (a ++ b) ≡ holders v a + holders v b
  unfolding holders
  holders-append v [] b = omega arith
  holders-append v (n ∷ a) b = omega (arith, holders-append v a b)

  pub node_of-insert :
      (v w : T) (p : ℕ) (a b : List (ℕ × T))
      → holders v (a ++ b) ≡ 0
      → node_of w (a ++ (p, v) ∷ b) ≡ (if e.beq v w then some p else node_of w (a ++ b))
  unfolding node_of holders
  node_of-insert v w p [] b h = refl
  node_of-insert v w p (n ∷ a) b h =
      ground (arith, e.beq_iff v w, e.beq_iff n.1 v, e.beq_iff n.1 w, node_of-insert v w p a b)

  pub node_of-remove :
      (v w : T) (l : List (ℕ × T))
      → node_of w (remove v l) ≡ (if e.beq v w then none else node_of w l)
  unfolding node_of remove
  node_of-remove v w [] = ground arith
  node_of-remove v w (n ∷ l) =
      ground (arith, e.beq_iff v w, e.beq_iff n.1 v, e.beq_iff n.1 w, node_of-remove v w l)

  pub holders-remove : (v w : T) (l : List (ℕ × T)) → holders w (remove v l) ≤ holders w l
  unfolding holders remove
  holders-remove v w [] = omega arith
  holders-remove v w (n ∷ l) = ground (arith, holders-remove v w l)

  pub nodes-remove : (v : T) (p : ℕ) (l : List (ℕ × T)) → nodes p (remove v l) ≤ nodes p l
  unfolding nodes remove
  nodes-remove v p [] = omega arith
  nodes-remove v p (n ∷ l) = ground (arith, nodes-remove v p l)

  pub remove_none : (v : T) (l : List (ℕ × T)) → holders v l ≡ 0 → remove v l ≡ l
  unfolding remove holders
  remove_none v [] h = refl
  remove_none v (n ∷ l) h = ground (arith, remove_none v l)

  pub node_of-held : (v : T) (p : ℕ) (l : List (ℕ × T)) → node_of v l ≡ some p → 1 ≤ nodes p l
  unfolding node_of nodes
  node_of-held v p [] h = ground arith
  node_of-held v p (n ∷ l) h = ground (arith, node_of-held v p l)

  pub holders_of_none : (v : T) (l : List (ℕ × T)) → node_of v l ≡ none → holders v l ≡ 0
  unfolding node_of holders
  holders_of_none v [] h = refl
  holders_of_none v (n ∷ l) h = ground (arith, holders_of_none v l)

  -- To erase the node that holds a value is to remove the value.
  pub list_erase-node_of :
      (v : T) (p : ℕ) (l : List (ℕ × T))
      → nodes p l ≤ 1
      → holders v l ≤ 1
      → node_of v l ≡ some p
      → list_erase p l ≡ some (remove v l)
  unfolding list_erase node_of nodes holders remove
  list_erase-node_of v p [] distinct single h = ground arith
  list_erase-node_of v p (n ∷ l) distinct single h = elim (Bool-cases (e.beq n.1 v)) [
    | inl same ↦
        let here : (n.0 == p) ≡ true = ground (arith, same, h) in
        let rest : holders v l ≡ 0 = ground (arith, same, single) in
        rw (here, same) (ap some (sym (remove_none v l rest)))
    | inr other ↦
        let later : node_of v l ≡ some p = rw other at h in
        let elsewhere : (n.0 == p) ≡ false = ground (arith, distinct, node_of-held v p l later) in
        let fewer : nodes p l ≤ 1 = ground (arith, distinct) in
        let fewer' : holders v l ≤ 1 = ground (arith, single) in
        rw (elsewhere, other, list_erase-node_of v p l fewer fewer' later) refl
  ]

  holders-back : (n : ℕ × T) (l : List (ℕ × T)) → 1 ≤ holders (back n l) (n ∷ l)
  unfolding holders back
  holders-back n [] = ground (arith, e.beq_iff n.1 n.1)
  holders-back n (n' ∷ l) = ground (arith, holders-back n' l)

  -- To drop the last node is to remove its value.
  pub list_pop_back-remove :
      (n : ℕ × T) (l : List (ℕ × T))
      → holders (back n l) (n ∷ l) ≤ 1
      → list_pop_back n l ≡ remove (back n l) (n ∷ l)
  unfolding list_pop_back remove holders back
  list_pop_back-remove n [] single = ground (arith, e.beq_iff n.1 n.1)
  list_pop_back-remove n (n' ∷ l) single =
      ground (arith, list_pop_back-remove n' l, holders-back n' l)
