-- ===== src/Btree/Tree/Visit/Counts.antt =====
-- The two walks agree: the statistics count the keys for which the enumeration calls back.
use ddfs.Base.{
  ℕ, zero, suc, ◌+◌, ◌≤◌, ◌<◌, ◌≡◌, refl, ◌∙◌, ◌≢◌, inl, inr, Bool, true, false, Option, none, some,
  List, [], ◌∷◌, ◌++◌, arith, ◌==◌, ne→==, Bool-cases, bind-some, length, u64,
}
use ddfs.Btree.Node.{Node}
use ddfs.Btree.Node.Kids.{kid_at, HasPages, node_child-in}
use ddfs.Btree.Tree.{Tree}
use ddfs.Btree.Tree.Valid.{lo_of, hi_of, IsTree}
use ddfs.Btree.Tree.Visit.{
  visit_children, enum_node, Info, add_node, stats_children, node_stats, stats,
}
use ddfs.Btree.Tree.Visit.Calls.{
  own_slots, kids_slots, node_slots, slots_below, going_on, called, enum_node-called,
}

-- f i + ... + f (i + r - 1)
abbrev pub sum_from : (ℕ → ℕ) → ℕ → ℕ → ℕ
sum_from f i zero = 0
sum_from f i (suc r) = f i + sum_from f (i + 1) r

abbrev keys_at : Option Node → ℕ
keys_at none = 0
keys_at (some n) = n.nr_keys

abbrev kids_sum : Option Node → (ℕ → ℕ) → ℕ
kids_sum none below = 0
kids_sum (some n) below = sum_from (λ i. below (kid_at n i)) 0 (n.nr_keys + 1)

-- The number of keys of the tree of height `h` below block `b`.
unfoldable pub keys_below : (ℕ → Option Node) → ℕ → ℕ → ℕ
keys_below nodes zero b = keys_at (nodes b)
keys_below nodes (suc h) b = keys_at (nodes b) + kids_sum (nodes b) (keys_below nodes h)

-- A visit adds to a context; `R c k c'` says that `c'` is `c` and `k` more.
module _ {C : Type 0} (R : C → ℕ → C → Type 0) (R-zero : (c : C) → R c 0 c)
    (R-add : (a b c : C) (k l : ℕ) → R a k b → R b l c → R a (k + l) c) where
  visit_children-adds :
      (visit : ℕ → C → Option (Bool × C)) (node : Node) (f : ℕ → ℕ) (r i : ℕ)
      → HasPages node
      → i + r ≤ 2048
      → ((j : ℕ)
          → j < i + r
          → (c : C) → (c' : C) × (visit (kid_at node j) c ≡ some (false, c')) × R c (f j) c')
      → (c : C)
      → (c' : C) × (visit_children visit node r i c ≡ some (false, c')) × R c (sum_from f i r) c'
  unfolding visit_children
  visit_children-adds visit node f zero i pages room each c = (c, refl, R-zero c)
  visit_children-adds visit node f (suc r) i pages room each c =
      let (c1, e1, r1) = each i (omega arith) c in
      let (c2, e2, r2) =
        visit_children-adds visit node f r (i + 1) pages (omega arith) (λ j h. each j (omega arith))
          c1 in
      (
        c2,
        bind-some _ (node_child-in node i pages (omega arith)) (bind-some _ e1 e2),
        R-add c c1 c2 (f i) (sum_from f (i + 1) r) r1 r2,
      )

leaf_off : (n : Node) → n.leaf ≢ 0 → (n.leaf == 0) ≡ false
leaf_off n ne = ne→== n.leaf 0 ne

some_keys : (n : Node) → 0 < n.nr_keys → (n.nr_keys == 0) ≡ false
some_keys n pos = ground arith

module _ (nodes : ℕ → Option Node) where
  below-leaf : (b : ℕ) (n : Node) → nodes b ≡ some n → keys_below nodes 0 b ≡ n.nr_keys
  unfolding keys_below
  below-leaf b n e = rw e refl

  below-inner :
      (h b : ℕ) (n : Node)
      → nodes b ≡ some n
      → keys_below nodes (suc h) b
        ≡ n.nr_keys + sum_from (λ i. keys_below nodes h (kid_at n i)) 0 (n.nr_keys + 1)
  unfolding keys_below
  below-inner h b n e = rw e refl

  u64_add : (a b c : ℕ) → u64 a ≡ u64 b → u64 (a + c) ≡ u64 (b + c)
  u64_add a b c e = omega (arith, e)

  stats_leaf :
      (n : Node)
      → n.leaf ≢ 0
      → (info : Info) → stats_children (node_stats nodes 0) n info ≡ some (false, info)
  unfolding stats_children
  stats_leaf n leaf info = elim (Bool-cases (n.nr_keys == 0)) [
    | inl empty ↦ rw (stats_children, empty) refl
    | inr more ↦ rw (stats_children, more, leaf_off n leaf) refl
  ]

  stats_inner :
      (h : ℕ) (n : Node)
      → 0 < n.nr_keys
      → n.leaf ≡ 0
      → (info : Info)
      → stats_children (node_stats nodes (suc h)) n info
        ≡ visit_children (node_stats nodes (suc h)) n (n.nr_keys + 1) 0 info
  unfolding stats_children
  stats_inner h n pos leaf info = rw (stats_children, some_keys n pos, inner) refl
    where
      inner : (n.leaf == 0) ≡ true
      inner = ground arith

  node_stats-counts :
      (h b lo hi : ℕ)
      → IsTree nodes h b lo hi
      → (info : Info)
      → (info' : Info) × (node_stats nodes (suc h) b info ≡ some (false, info'))
        × (u64 info'.nr_keys ≡ u64 (info.nr_keys + keys_below nodes h b))
  unfolding node_stats
  node_stats-counts zero b lo hi (n, e, leaf, okay) info = (
    add_node n info,
    bind-some _ e (bind-some _ (stats_leaf n leaf info) refl),
    omega (arith, below-leaf b n e),
  )
  node_stats-counts (suc h) b lo hi (n, e, leaf, pos, pages, okay, sub) info =
      let (info', e', r) =
        visit_children-adds (λ (x : Info) (k : ℕ) (y : Info). u64 y.nr_keys ≡ u64 (x.nr_keys + k))
          (λ x. omega arith) (λ x y z k l p q. omega (arith, p, q)) (node_stats nodes (suc h)) n
          (λ i. keys_below nodes h (kid_at n i)) (n.nr_keys + 1) 0 pages (omega (arith, okay.small))
          (λ j l x.
            node_stats-counts h (kid_at n j) (lo_of n lo j) (hi_of n hi j) (sub j (omega arith)) x)
          info in
      (
        add_node n info',
        bind-some _ e (bind-some _ (stats_inner h n pos leaf info ∙ e') refl),
        omega (arith, r, below-inner h b n e),
      )

length-++ : (a b : List (Node × ℕ)) → length (a ++ b) ≡ length a + length b
length-++ [] b = omega arith
length-++ (x ∷ a) b = omega (arith, length-++ a b)

length-own_slots : (n : Node) (r i : ℕ) → length (own_slots n r i) ≡ r
length-own_slots n zero i = refl
length-own_slots n (suc r) i = omega (arith, length-own_slots n r (i + 1))

length-kids_slots :
    (below : ℕ → List (Node × ℕ)) (f : ℕ → ℕ) (r i : ℕ)
    → ((j : ℕ) → length (below j) ≡ f j)
    → length (kids_slots below r i) ≡ sum_from f i r
length-kids_slots below f zero i e = refl
length-kids_slots below f (suc r) i e = omega (
  arith,
  length-++ (below i) (kids_slots below r (i + 1)),
  e i,
  length-kids_slots below f r (i + 1) e,
)

length-node_slots :
    (below : Node → ℕ → List (Node × ℕ)) (f : ℕ → ℕ)
    → ((n : Node) (j : ℕ) → length (below n j) ≡ f (kid_at n j))
    → (m : Option Node)
    → length (node_slots m (λ n. kids_slots (below n) (n.nr_keys + 1) 0)) ≡ keys_at m + kids_sum m f
length-node_slots below f e none = refl
length-node_slots below f e (some n) = omega (
  arith,
  length-++ (own_slots n n.nr_keys 0) (kids_slots (below n) (n.nr_keys + 1) 0),
  length-own_slots n n.nr_keys 0,
  length-kids_slots (below n) (λ i. f (kid_at n i)) (n.nr_keys + 1) 0 (e n),
)

length-slots_below :
    (nodes : ℕ → Option Node) (h b : ℕ) → length (slots_below nodes h b) ≡ keys_below nodes h b
unfolding slots_below keys_below
length-slots_below nodes zero b = go (nodes b)
  where
    go : (m : Option Node) → length (node_slots m (λ n. [])) ≡ keys_at m
    go none = refl
    go (some n) =
        omega (arith, length-++ (own_slots n n.nr_keys 0) [], length-own_slots n n.nr_keys 0)
length-slots_below nodes (suc h) b =
    length-node_slots (λ n i. slots_below nodes h (kid_at n i)) (keys_below nodes h)
      (λ n j. length-slots_below nodes h (kid_at n j)) (nodes b)

-- On a well-formed tree that is not being released, the statistics and the enumeration with a
-- callback that never says stop both end within the height of the tree without a BUG; the
-- callback is called for each node of the tree and each index of a key in it, once, a node's own
-- keys first and then those below its children in order, and the statistics have the number of
-- these calls as the number of keys, in 64 bits.
pub stats-enum :
    {C : Type 0} (f : C → Node → ℕ → C) (ctx : C) (tree : Tree) (h lo hi : ℕ)
    → tree.releasing ≡ false
    → IsTree tree.nodes h tree.root lo hi
    → (info : Info) × (stats (suc h) tree ≡ some info)
      × (enum_node (going_on f) tree.nodes (suc h) tree.root ctx
          ≡ some (false, called f ctx (slots_below tree.nodes h tree.root)))
      × (u64 info.nr_keys ≡ u64 (length (slots_below tree.nodes h tree.root)))
unfolding stats
stats-enum f ctx tree h lo hi alive valid =
    let (info, e, r) =
      node_stats-counts tree.nodes h tree.root lo hi valid (record { nr_keys = 0; nr_nodes = 0 }) in
    (
      info,
      rw alive (bind-some _ e refl),
      enum_node-called f tree.nodes h tree.root lo hi valid ctx,
      omega (arith, r, length-slots_below tree.nodes h tree.root),
    )
