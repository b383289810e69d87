-- ===== src/Btree/Tree/Find.antt =====
-- The search from the root of core/btree.c finds exactly what the tree holds.
use ddfs.Base.{
  ℕ, zero, suc, ◌+◌, ◌-◌, ◌≤◌, ◌<◌, ◌≡◌, refl, sym, ap, ◌∙◌, ◌≢◌, ◌⊎◌, inl, inr, true, false,
  Option, none, some, arith, ltb, ◌==◌, ltb→lt, ltb→ge, ==_iff, ne→==, Bool-cases,
}
use ddfs.Btree.Node.{Key, Node, value_at, node_value, node_child}
use ddfs.Btree.Node.Kids.{kid_at, node_child-in}
use ddfs.Btree.Node.Slots.{node_value-in, entry_at, key_of, node_key-of}
use ddfs.Btree.Search.{find_key_index}
use ddfs.Btree.Search.Answers.{IsLowerBound, find_key_index-IsLowerBound}
use ddfs.Btree.Search.Sound.{Sorted}
use ddfs.Btree.Tree.{Tree, Status, at_index, node_find_key, find_key, ok, enoent}
use ddfs.Btree.Tree.Valid.{NodeOk, lo_of, hi_of, IsTree, InNode, Holds, InNode-key, Holds-within}
use mathlib.Core.Path.{subst}
use mathlib.Core.Option

-- The answer of the search: the entry of the key, or that the tree does not hold the key.
abbrev pub Answers : (ℕ → Option Node) → ℕ → ℕ → Key → Option (Node × ℕ) → Type 0
Answers nodes h b key (some (m, i)) =
    (i < m.nr_keys) × (i < 1792) × (key_of m i ≡ key) × Holds nodes h b key (value_at m i)
Answers nodes h b key none = (v : ℕ) → ¬ (Holds nodes h b key v)

-- Behind the lower bound all keys are greater, unless the key stands there.
strict_after :
    (n : Node) (key p : ℕ)
    → Sorted n
    → IsLowerBound n key p
    → (p < n.nr_keys → key_of n p ≢ key)
    → (i : ℕ) → p ≤ i
    → i < n.nr_keys
    → key < key_of n i
strict_after n key p sorted lb ne i le h = elim (Bool-cases (i == p)) [
  | inl e ↦
      let same : i ≡ p = (==_iff i p).0 e in
      let hp : p < n.nr_keys = omega arith in
      rw same (lt_of_le_ne (lb.after p (omega arith) hp) (ne hp))
  | inr e ↦ omega (arith, lb.after p (omega arith) (omega arith), sorted p i (ground arith) h)
]
  where
    lt_of_le_ne : {a b : ℕ} → a ≤ b → b ≢ a → a < b
    lt_of_le_ne h ne = omega arith

absent_at :
    (n : Node) (key p : ℕ)
    → Sorted n
    → IsLowerBound n key p
    → (p < n.nr_keys → key_of n p ≢ key)
    → (i : ℕ) → i < n.nr_keys
    → key_of n i ≢ key
absent_at n key p sorted lb ne i h e = elim (Bool-cases (ltb i p)) [
  | inl l ↦ absurd (omega (arith, lb.before i (ltb→lt i p l)))
  | inr l ↦ absurd (omega (arith, strict_after n key p sorted lb ne i (ltb→ge i p l) h))
]

-- The test at the lower bound.
at_index-here :
    (n : Node) (key p : ℕ)
    → n.nr_keys ≤ 1792
    → ((p < n.nr_keys) × (key_of n p ≡ key) × (at_index n key p ≡ some true))
      ⊎ ((p < n.nr_keys → key_of n p ≢ key) × (at_index n key p ≡ some false))
unfolding at_index
at_index-here n key p small = elim (Bool-cases (ltb p n.nr_keys)) [
  | inl l ↦
      let h : p < n.nr_keys = ltb→lt p n.nr_keys l in
      rw (l, node_key-of n p (omega arith))
        (elim (Bool-cases (key == key_of n p)) [
          | inl e ↦ rw e (inl (h, sym ((==_iff key (key_of n p)).0 e), refl))
          | inr e ↦ rw e (inr ((λ _ q. cc (e, (==_iff key (key_of n p)).1 (sym q))), refl))
        ])
  | inr l ↦ rw l (inr ((λ h. absurd (omega (arith, ltb→ge p n.nr_keys l))), refl))
]

-- A key that a node does not hold is in the child that its lower bound names, or nowhere.
module _ (nodes : ℕ → Option Node) (h b lo hi : ℕ) (key : Key) (n : Node) (at : nodes b ≡ some n)
    (okay : NodeOk n lo hi)
    (sub : (i : ℕ) → i ≤ n.nr_keys → IsTree nodes h (kid_at n i) (lo_of n lo i) (hi_of n hi i))
    (p : ℕ) (lb : IsLowerBound n key p) (ne : p < n.nr_keys → key_of n p ≢ key) where
  not_before : (i : ℕ) → i < p → key < hi_of n hi i → ⊥
  not_before i l high = omega (arith, lb.before i l, subst (λ x. key < x) skip high)
    where
      skip : hi_of n hi i ≡ key_of n i
      skip = ground (arith, lb.bound)

  not_behind : (i : ℕ) → p < i → i ≤ n.nr_keys → lo_of n lo i ≤ key → ⊥
  not_behind i l le low = omega (
    arith,
    strict_after n key p okay.sorted lb ne (i - 1) (omega arith) (omega arith),
    subst (λ x. x ≤ key) skip low,
  )
    where
      skip : lo_of n lo i ≡ key_of n (i - 1) + 1
      skip = ground arith

  only_child : (v : ℕ) → Holds nodes (suc h) b key v → Holds nodes h (kid_at n p) key v
  only_child v (m, e, w) = go (
      subst (λ x. InNode x key v ⊎ ((i : ℕ) × (i ≤ x.nr_keys) × Holds nodes h (kid_at x i) key v))
        same w)
    where
      same : m ≡ n
      same = cc

      go :
          InNode n key v ⊎ ((i : ℕ) × (i ≤ n.nr_keys) × Holds nodes h (kid_at n i) key v)
          → Holds nodes h (kid_at n p) key v
      go (inl w) = absurd (absent_at n key p okay.sorted lb ne w.0 w.1 (InNode-key n key v w))
      go (inr (i, l, d)) =
          let (low, high) =
            Holds-within nodes h (kid_at n i) (lo_of n lo i) (hi_of n hi i) key v (sub i l) d in
          elim (Bool-cases (ltb i p)) [
            | inl less ↦ absurd (not_before i (ltb→lt i p less) high)
            | inr ge ↦ elim (Bool-cases (ltb p i)) [
              | inl more ↦ absurd (not_behind i (ltb→lt p i more) l low)
              | inr le ↦
                  let e : i ≡ p = omega (arith, ltb→ge i p ge, ltb→ge p i le) in
                  subst (λ j. Holds nodes h (kid_at n j) key v) e d
            ]
          ]

entry_self : (n : Node) (i : ℕ) (key : Key) → key_of n i ≡ key → entry_at n i ≡ (key, value_at n i)
unfolding entry_at key_of
entry_self n i key e = ap (λ k. (k, value_at n i)) e

module _ (nodes : ℕ → Option Node) (key : Key) where
  -- What the search does at a node once the lower bound is known.
  step_hit :
      (depth b p : ℕ) (n : Node)
      → nodes b ≡ some n
      → (n.nr_keys == 0) ≡ false
      → find_key_index n key ≡ some p
      → at_index n key p ≡ some true
      → node_find_key nodes key (suc depth) b ≡ some (some (n, p))
  unfolding node_find_key
  step_hit depth b p n at full found here = rw (at, full, found, here) refl

  step_leaf :
      (depth b p : ℕ) (n : Node)
      → nodes b ≡ some n
      → (n.nr_keys == 0) ≡ false
      → find_key_index n key ≡ some p
      → at_index n key p ≡ some false
      → n.leaf ≢ 0
      → node_find_key nodes key (suc depth) b ≡ some none
  unfolding node_find_key
  step_leaf depth b p n at full found here leaf =
      rw (at, full, found, here, ne→== n.leaf 0 leaf) refl

  step_down :
      (depth b p : ℕ) (n : Node)
      → nodes b ≡ some n
      → (n.nr_keys == 0) ≡ false
      → find_key_index n key ≡ some p
      → at_index n key p ≡ some false
      → n.leaf ≡ 0
      → node_child n p ≡ some (kid_at n p)
      → node_find_key nodes key (suc depth) b ≡ node_find_key nodes key depth (kid_at n p)
  unfolding node_find_key
  step_down depth b p n at full found here leaf child =
      rw (at, full, found, here, (==_iff n.leaf 0).1 leaf, child) refl

  step_empty :
      (depth b : ℕ) (n : Node)
      → nodes b ≡ some n
      → (n.nr_keys == 0) ≡ true
      → node_find_key nodes key (suc depth) b ≡ some none
  unfolding node_find_key
  step_empty depth b n at empty = rw (at, empty) refl

  InNode-node :
      (b v : ℕ) (n m : Node) → nodes b ≡ some n → nodes b ≡ some m → InNode m key v → InNode n key v
  InNode-node b v n m at at' w = subst (λ x. InNode x key v) same w
    where
      same : m ≡ n
      same = cc

  lift_answer :
      (h b p : ℕ) (n : Node) (r : Option (Node × ℕ))
      → nodes b ≡ some n
      → p ≤ n.nr_keys
      → ((v : ℕ) → Holds nodes (suc h) b key v → Holds nodes h (kid_at n p) key v)
      → Answers nodes h (kid_at n p) key r
      → Answers nodes (suc h) b key r
  lift_answer h b p n none at le only a = λ v d. a v (only v d)
  lift_answer h b p n (some (m, i)) at le only (l, s, e, d) = (l, s, e, (n, at, inr (p, le, d)))

  -- The search of a well-formed tree ends within its height, without a stop, at the entry of the key
  -- exactly when the tree holds the key.
  pub node_find_key-Answers :
      (h b lo hi : ℕ)
      → IsTree nodes h b lo hi
      → (r : Option (Node × ℕ)) × (node_find_key nodes key (suc h) b ≡ some r)
        × Answers nodes h b key r
  node_find_key-Answers zero b lo hi (n, at, leaf, okay) = elim (Bool-cases (n.nr_keys == 0)) [
    | inl z ↦ (
      none,
      step_empty zero b n at z,
      λ v (m, at', w).
          absurd (omega (arith, (==_iff n.nr_keys 0).0 z, (InNode-node b v n m at at' w).1)),
    )
    | inr full ↦
        let (p, found, lb) =
          find_key_index-IsLowerBound n key okay.sorted (omega (arith, okay.small)) in
        elim (at_index-here n key p (omega (arith, okay.small))) [
          | inl (l, e, here) ↦ (
            some (n, p),
            step_hit zero b p n at full found here,
            (l, omega (arith, okay.small), e, (n, at, (p, l, entry_self n p key e))),
          )
          | inr (ne, here) ↦ (
            none,
            step_leaf zero b p n at full found here leaf,
            λ v (m, at', w).
                let w' = InNode-node b v n m at at' w in
                absent_at n key p okay.sorted lb ne w'.0 w'.1 (InNode-key n key v w'),
          )
        ]
  ]
  node_find_key-Answers (suc h) b lo hi (n, at, leaf, pos, pages, okay, sub) =
      let (p, found, lb) =
        find_key_index-IsLowerBound n key okay.sorted (omega (arith, okay.small)) in
      let full : (n.nr_keys == 0) ≡ false = ne→== n.nr_keys 0 (omega arith) in
      elim (at_index-here n key p (omega (arith, okay.small))) [
        | inl (l, e, here) ↦ (
          some (n, p),
          step_hit (suc h) b p n at full found here,
          (l, omega (arith, okay.small), e, (n, at, inl (p, l, entry_self n p key e))),
        )
        | inr (ne, here) ↦
            let (r, e, a) =
              node_find_key-Answers h (kid_at n p) (lo_of n lo p) (hi_of n hi p) (sub p lb.bound) in
            (
              r,
              step_down (suc h) b p n at full found here leaf
                    (node_child-in n p pages (omega (arith, okay.small, lb.bound)))
                  ∙ e,
              lift_answer h b p n r at lb.bound
                  (only_child nodes h b lo hi key n at okay sub p lb ne) a,
            )
      ]

-- On a well-formed tree that is not being released, the search from the root ends within the
-- height of the tree without a stop: it returns 0 with a value that the tree holds for the key,
-- or -ENOENT, in which case the tree holds no value for the key.
pub find_key_lem :
    (tree : Tree) (key : Key) (h lo hi : ℕ)
    → tree.releasing ≡ false
    → IsTree tree.nodes h tree.root lo hi
    → ((v : ℕ) × (find_key (suc h) tree key ≡ some (ok, some v))
        × Holds tree.nodes h tree.root key v)
      ⊎ ((find_key (suc h) tree key ≡ some (enoent, none))
          × ((v : ℕ) → ¬ (Holds tree.nodes h tree.root key v)))
unfolding find_key
find_key_lem tree key h lo hi live valid =
    let (r, e, a) = node_find_key-Answers tree.nodes key h tree.root lo hi valid in
    rw (live, e) (finish r a)
  where
    finish :
        (r : Option (Node × ℕ))
        → Answers tree.nodes h tree.root key r
        → ((v : ℕ) × ((elim r as (λ _. Option (Status × Option ℕ)) [
          | none ↦ some (enoent, none)
          | some (node, index) ↦ Option.map (λ v. (ok, some v)) (node_value node index)
        ])
              ≡ some (ok, some v))
            × Holds tree.nodes h tree.root key v)
          ⊎ (((elim r as (λ _. Option (Status × Option ℕ)) [
            | none ↦ some (enoent, none)
            | some (node, index) ↦ Option.map (λ v. (ok, some v)) (node_value node index)
          ])
                ≡ some (enoent, none))
              × ((v : ℕ) → ¬ (Holds tree.nodes h tree.root key v)))
    finish none a = inr (refl, a)
    finish (some (m, i)) (l, s, e, d) =
        inl (value_at m i, rw (node_value-in m i (omega arith)) refl, d)
