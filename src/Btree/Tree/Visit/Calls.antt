-- ===== src/Btree/Tree/Visit/Calls.antt =====
-- The calls of `nkfs_btree_enum_tree`: for which nodes and indexes, and in which order.
use ddfs.Base.{
  ℕ, zero, suc, ◌+◌, ◌≤◌, ◌<◌, ◌≡◌, refl, sym, ap, ◌∙◌, ◌≢◌, inl, inr, Bool, true, false, Option,
  none, some, List, [], ◌∷◌, ◌++◌, arith, ◌==◌, ==_iff, ne→==, Bool-cases, bind-some,
}
use ddfs.Btree.Node.{Node}
use ddfs.Btree.Node.Kids.{kid_at, HasPages, node_child-in}
use ddfs.Btree.Tree.Valid.{lo_of, hi_of, IsTree}
use ddfs.Btree.Tree.Visit.{enum_keys, visit_children, after_keys, enum_node}

-- A node's slots `i`, ..., `i + r - 1`
abbrev pub own_slots : Node → ℕ → ℕ → List (Node × ℕ)
own_slots n zero i = []
own_slots n (suc r) i = (n, i) ∷ own_slots n r (i + 1)

abbrev pub kids_slots : (ℕ → List (Node × ℕ)) → ℕ → ℕ → List (Node × ℕ)
kids_slots below zero i = []
kids_slots below (suc r) i = below i ++ kids_slots below r (i + 1)

abbrev pub node_slots : Option Node → (Node → List (Node × ℕ)) → List (Node × ℕ)
node_slots none more = []
node_slots (some n) more = own_slots n n.nr_keys 0 ++ more n

-- The slots of the tree of height `h` below block `b`: each node's own, by their indexes, and then those
-- below its children, from the first child to the last.
unfoldable pub slots_below : (ℕ → Option Node) → ℕ → ℕ → List (Node × ℕ)
slots_below nodes zero b = node_slots (nodes b) (λ n. [])
slots_below nodes (suc h) b =
    node_slots (nodes b) (λ n. kids_slots (λ i. slots_below nodes h (kid_at n i)) (n.nr_keys + 1) 0)

module _ {C : Type 0} (f : C → Node → ℕ → C) where
  -- A callback that changes its context and never says stop.
  abbrev pub going_on : C → Node → ℕ → Bool × C
  going_on c node i = (false, f c node i)

  -- The context after the calls for a list of slots.
  abbrev pub called : C → List (Node × ℕ) → C
  called c [] = c
  called c ((n, i) ∷ slots) = called (f c n i) slots

  called-++ : (c : C) (a b : List (Node × ℕ)) → called c (a ++ b) ≡ called (called c a) b
  called-++ c [] b = refl
  called-++ c ((n, i) ∷ a) b = called-++ (f c n i) a b

  enum_keys-called :
      (node : Node) (r i : ℕ) (c : C)
      → enum_keys going_on node r i c ≡ (false, called c (own_slots node r i))
  unfolding enum_keys
  enum_keys-called node zero i c = refl
  enum_keys-called node (suc r) i c = enum_keys-called node r (i + 1) (f c node i)

  visit_children-called :
      (visit : ℕ → C → Option (Bool × C)) (node : Node) (below : ℕ → List (Node × ℕ)) (r i : ℕ)
      → HasPages node
      → i + r ≤ 2048
      → ((j : ℕ) → j < i + r → (c : C) → visit (kid_at node j) c ≡ some (false, called c (below j)))
      → (c : C) → visit_children visit node r i c ≡ some (false, called c (kids_slots below r i))
  unfolding visit_children
  visit_children-called visit node below zero i pages room each c = refl
  visit_children-called visit node below (suc r) i pages room each c =
      bind-some _ (node_child-in node i pages (omega arith)) (
        bind-some _ (each i (omega arith) c) (
          visit_children-called visit node below r (i + 1) pages (omega arith)
            (λ j h. each j (omega arith)) (called c (below i))
          ∙ ap (λ x. some (false, x)) (sym (called-++ c (below i) (kids_slots below r (i + 1))))))

  after_leaf :
      (visit : ℕ → C → Option (Bool × C)) (n : Node) (c : C)
      → n.leaf ≢ 0
      → after_keys visit n (false, c) ≡ some (false, c)
  unfolding after_keys
  after_leaf visit n c leaf = rw (after_keys, ne→== n.leaf 0 leaf) refl

  after_inner :
      (visit : ℕ → C → Option (Bool × C)) (n : Node) (c : C)
      → n.leaf ≡ 0
      → after_keys visit n (false, c) ≡ visit_children visit n (n.nr_keys + 1) 0 c
  unfolding after_keys
  after_inner visit n c leaf = rw (after_keys, (==_iff n.leaf 0).1 leaf) refl

  -- What `nkfs_btree_enum_node` does on a node once it is read.
  of_node :
      (visit : ℕ → C → Option (Bool × C)) (n : Node) (more : List (Node × ℕ)) (c : C)
      → (n.nr_keys ≡ 0 → more ≡ [])
      → ((x : C) → after_keys visit n (false, x) ≡ some (false, called x more))
      → (elim (n.nr_keys == 0) as (λ _. Option (Bool × C)) [
        | true ↦ some (false, c)
        | false ↦ after_keys visit n (enum_keys going_on n n.nr_keys 0 c)
      ])
        ≡ some (false, called c (own_slots n n.nr_keys 0 ++ more))
  of_node visit n more c empty rest = elim (Bool-cases (n.nr_keys == 0)) [
    | inl e ↦
        let z = (==_iff n.nr_keys 0).0 e in
        rw e (
          ap (λ x. some (false, x))
            (sym (ap (λ k. called c (own_slots n k 0 ++ more)) z ∙ ap (called c) (empty z))))
    | inr e ↦ rw e (
        ap (after_keys visit n) (enum_keys-called n n.nr_keys 0 c)
        ∙ rest (called c (own_slots n n.nr_keys 0))
        ∙ ap (λ x. some (false, x)) (sym (called-++ c (own_slots n n.nr_keys 0) more)))
  ]

  -- The enumeration calls for each slot of the tree, in order, and ends within the height.
  pub enum_node-called :
      (nodes : ℕ → Option Node) (h b lo hi : ℕ)
      → IsTree nodes h b lo hi
      → (c : C)
      → enum_node going_on nodes (suc h) b c ≡ some (false, called c (slots_below nodes h b))
  unfolding enum_node slots_below
  enum_node-called nodes zero b lo hi (n, e, leaf, okay) c = bind-some _ e (
      of_node (enum_node going_on nodes 0) n [] c (λ z. refl)
        (λ x. after_leaf (enum_node going_on nodes 0) n x leaf)
      ∙ ap (λ m. some (false, called c (node_slots m (λ n. [])))) (sym e))
  enum_node-called nodes (suc h) b lo hi (n, e, leaf, pos, pages, okay, sub) c = bind-some _ e (
      of_node (enum_node going_on nodes (suc h)) n (below n) c (λ z. absurd (omega (arith, z, pos)))
        (λ x.
          after_inner (enum_node going_on nodes (suc h)) n x leaf
          ∙ visit_children-called (enum_node going_on nodes (suc h)) n
              (λ i. slots_below nodes h (kid_at n i)) (n.nr_keys + 1) 0 pages
              (omega (arith, okay.small))
              (λ j l y.
                enum_node-called nodes h (kid_at n j) (lo_of n lo j) (hi_of n hi j)
                  (sub j (omega arith)) y)
              x)
      ∙ ap (λ m. some (false, called c (node_slots m below))) (sym e))
    where
      below : Node → List (Node × ℕ)
      below m = kids_slots (λ i. slots_below nodes h (kid_at m i)) (m.nr_keys + 1) 0
