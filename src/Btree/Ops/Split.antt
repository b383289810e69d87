-- ===== src/Btree/Ops/Split.antt =====
-- `nkfs_btree_node_split_child`: the child's entries and children are shared out in order, and the
-- middle entry goes up between the two halves.
use ddfs.Base.{
  ℕ, ◌+◌, ◌-◌, ◌*◌, ◌≤◌, ◌<◌, ◌≡◌, refl, sym, ap, ap₂, ◌∙◌, inl, inr, not, some, ◌∷◌, ◌++◌, arith,
  ltb, ◌==◌, if◌then◌else◌, Bool-cases, tab, slice, tab-append, slice-cons, tab-resize, inserted,
  tab-inserted, bug_on, bind-some, u32,
}
use ddfs.Btree.Node.{btree_t, Node, pg_idx, pg_off, child_page_at}
use ddfs.Btree.Node.Kids.{kid_at, entries, kids, HasPages, kid_at-nr}
use ddfs.Btree.Node.Slots.{entry_at, entry_at-nr}
use ddfs.Btree.Ops.{is_full, put_child_val, put_kv, copy_kvs, copy_children, split_child}
use ddfs.Btree.Ops.Children.{
  ChildFrame, ChildFrame-refl, put_child_val-inserted, copy_children-IsChildCopied,
}
use ddfs.Btree.Ops.Moves.{KvFrame, put_kv-inserted, IsCopied, copy_kvs-IsCopied}

-- `node'`, `child'` and `fresh'` come from splitting the child at `idx` of `node`.
pub record IsSplit (node child : Node) (idx : ℕ) (fresh node' child' fresh' : Node) : Type 0 where
  pub low : entries child ≡ entries child' ++ (entry_at child 895 ∷ entries fresh')
  pub up :
      entries node'
      ≡ tab (entry_at node) idx
        ++ (entry_at child 895 ∷ slice (entry_at node) idx (node.nr_keys - idx))
  pub kids_low : child.leaf ≡ 0 → kids child ≡ kids child' ++ kids fresh'
  pub kids_up :
      kids node'
      ≡ tab (kid_at node) (idx + 1)
        ++ (fresh.block ∷ slice (kid_at node) (idx + 1) (node.nr_keys - idx))
  pub grown : node'.nr_keys ≡ node.nr_keys + 1
  pub half_low : child'.nr_keys ≡ 895
  pub half_high : fresh'.nr_keys ≡ 895
  pub leaf : fresh'.leaf ≡ child.leaf
  pub blocks :
      (node'.block ≡ node.block) × (child'.block ≡ child.block) × (fresh'.block ≡ fresh.block)

kid_at-KvFrame : {n m : Node} → KvFrame n m → (j : ℕ) → kid_at m j ≡ kid_at n j
unfolding kid_at
kid_at-KvFrame f j = ap (λ c. child_page_at (c (pg_idx 8 j)) (pg_off 8 j)) f.children

HasPages-KvFrame : {n m : Node} → KvFrame n m → HasPages n → HasPages m
HasPages-KvFrame f pages p h = ground (arith, f.children, pages p h)

module _ (child m : Node) (t : m.t ≡ 896) (pages : HasPages m) (child_pages : HasPages child) where
  -- the step that copies the upper children, which a leaf skips
  split_kids :
      (out : Node) × ((if child.leaf == 0 then copy_children m.t 0 m m.t child else some m)
        ≡ some out)
      × ChildFrame m out
      × (child.leaf ≡ 0 → (j : ℕ) → j < 896 → kid_at out j ≡ kid_at child (896 + j))
  split_kids = elim (Bool-cases (child.leaf == 0)) [
    | inl inner ↦
        let (out, e, s) =
          copy_children-IsChildCopied m.t 0 m m.t child pages child_pages (omega arith) in
        (out, rw inner e, s.frame, λ _ j h. ground (arith, s.kid j))
    | inr outer ↦ (m, rw outer refl, ChildFrame-refl m pages, λ z j h. ground (arith))
  ]

same_rest : (n i : ℕ) → n + 1 - (i + 1) ≡ n - i
same_rest n i = omega arith

entry_at-ChildFrame : {n m : Node} → ChildFrame n m → (j : ℕ) → entry_at m j ≡ entry_at n j
entry_at-ChildFrame f j = ap (λ e. e j) f.entry

module _ (node child : Node) (idx : ℕ) (fresh : Node) (t : fresh.t ≡ btree_t)
    (le : idx ≤ node.nr_keys) (room : node.nr_keys < 2 * btree_t - 1)
    (full : child.nr_keys ≡ 2 * btree_t - 1) where
  module _ (m1 : Node)
      (s1 : IsCopied (fresh.t - 1) 0 fresh.t child (record fresh { leaf = child.leaf }) m1)
      (m3 : Node) (c3 : ChildFrame (record m1 { nr_keys = m1.t - 1 }) m3)
      (k3 : child.leaf ≡ 0 → (j : ℕ) → j < 896 → kid_at m3 j ≡ kid_at child (896 + j)) (n1 : Node)
      (c4 : ChildFrame node n1)
      (k4 : (j : ℕ) → kid_at n1 j ≡ inserted (kid_at node) (node.nr_keys + 1) (idx + 1) m3.block j)
      (n2 : Node) (f5 : KvFrame n1 n2)
      (k5 : (j : ℕ)
        → entry_at n2 j
          ≡ inserted
              (entry_at n1)
              n1.nr_keys
              idx
              (entry_at (record child { nr_keys = m3.t - 1 }) (m3.t - 1))
              j) where
    t3 : m3.t ≡ 896
    t3 = omega (arith, c3.t, s1.frame.t)

    split_runs :
        copy_kvs (fresh.t - 1) 0 (record fresh { leaf = child.leaf }) fresh.t child ≡ some m1
        → (if child.leaf == 0
            then copy_children m1.t 0 (record m1 { nr_keys = m1.t - 1 }) m1.t child
            else some (record m1 { nr_keys = m1.t - 1 }))
          ≡ some m3
        → put_child_val node (idx + 1) m3.block ≡ some n1
        → put_kv n1 idx (record child { nr_keys = m3.t - 1 }) (m3.t - 1) ≡ some n2
        → split_child node child idx fresh
          ≡ some (
            record n2 { nr_keys = u32 (n2.nr_keys + 1) },
            record child { nr_keys = m3.t - 1 },
            m3,
          )
    unfolding split_child
    split_runs e1 e3 e4 e5 = bind-some _ guard1 (
        bind-some _ guard2 (bind-some _ e1 (bind-some _ e3 (bind-some _ e4 (bind-some _ e5 refl)))))
      where
        guard1 : bug_on (ltb node.nr_keys idx) ≡ some tt
        guard1 = ground (arith)

        guard2 : bug_on (not (is_full child)) ≡ some tt
        guard2 = ground (arith)

    low_eq :
        entries child
        ≡ entries (record child { nr_keys = m3.t - 1 }) ++ (entry_at child 895 ∷ entries m3)
    low_eq =
        tab-append (entry_at child) 895 896 child.nr_keys (omega arith)
        ∙ ap₂ ◌++◌ first
            (slice-cons (entry_at child) 895 895 896 refl ∙ ap (λ l. entry_at child 895 ∷ l) second)
      where
        first : tab (entry_at child) 895 ≡ entries (record child { nr_keys = m3.t - 1 })
        first = tab-resize _ _ _ _ (omega (arith, t3)) (λ j _. sym (entry_at-nr child (m3.t - 1) j))

        moved : (j : ℕ) → j < 895 → entry_at child (896 + j) ≡ entry_at m3 j
        moved j h =
            ground (arith, t, entry_at-ChildFrame c3 j, entry_at-nr m1 (m1.t - 1) j, s1.entry j)

        second : slice (entry_at child) 896 895 ≡ entries m3
        second = tab-resize _ _ _ _ (omega (arith, c3.nr_keys, s1.frame.t)) moved

    up_eq :
        entries (record n2 { nr_keys = u32 (n2.nr_keys + 1) })
        ≡ tab (entry_at node) idx
          ++ (entry_at child 895 ∷ slice (entry_at node) idx (node.nr_keys - idx))
    up_eq =
        tab-inserted (entry_at node) _ node.nr_keys idx (entry_at child 895) _ le
          (omega (arith, f5.nr_keys, c4.nr_keys))
          (λ j. ground (
            arith,
            t3,
            k5 j,
            c4.nr_keys,
            entry_at-nr n2 (u32 (n2.nr_keys + 1)) j,
            entry_at-nr child (m3.t - 1) (m3.t - 1),
            entry_at-ChildFrame c4 j,
            entry_at-ChildFrame c4 (j - 1),
          ))

    kids_low_eq :
        child.leaf ≡ 0 → kids child ≡ kids (record child { nr_keys = m3.t - 1 }) ++ kids m3
    kids_low_eq z =
        tab-append (kid_at child) 896 896 (child.nr_keys + 1) (omega arith)
        ∙ ap₂ ◌++◌
            (tab-resize _ _ _ _ (omega (arith, t3)) (λ j _. sym (kid_at-nr child (m3.t - 1) j)))
            (tab-resize _ _ _ _ (omega (arith, c3.nr_keys, s1.frame.t)) (λ j h. sym (k3 z j h)))

    kids_up_eq :
        kids (record n2 { nr_keys = u32 (n2.nr_keys + 1) })
        ≡ tab (kid_at node) (idx + 1)
          ++ (fresh.block ∷ slice (kid_at node) (idx + 1) (node.nr_keys - idx))
    kids_up_eq =
        tab-inserted (kid_at node) _ (node.nr_keys + 1) (idx + 1) fresh.block _ (omega arith)
          (omega (arith, f5.nr_keys, c4.nr_keys))
          (λ j. ground (
            arith,
            k4 j,
            kid_at-nr n2 (u32 (n2.nr_keys + 1)) j,
            kid_at-KvFrame f5 j,
            c3.block,
            s1.frame.block,
          ))
        ∙ ap (λ k. tab (kid_at node) (idx + 1) ++ (fresh.block ∷ slice (kid_at node) (idx + 1) k))
            (same_rest node.nr_keys idx)

    shares-IsSplit :
        IsSplit node child idx fresh
          (record n2 { nr_keys = u32 (n2.nr_keys + 1) })
          (record child { nr_keys = m3.t - 1 })
          m3
    shares-IsSplit = record {
      low = low_eq;
      up = up_eq;
      kids_low = kids_low_eq;
      kids_up = kids_up_eq;
      grown = omega (arith, f5.nr_keys, c4.nr_keys);
      half_low = omega (arith, t3);
      half_high = omega (arith, c3.nr_keys, s1.frame.t);
      leaf = c3.leaf ∙ s1.frame.leaf;
      blocks = (f5.block ∙ c4.block, refl, c3.block ∙ s1.frame.block);
    }

  -- Splitting a full child at an index of a node that is not full never stops at a BUG_ON: the
  -- child keeps the lower half of its entries, the new node has the upper half, the middle entry
  -- stands in the parent between them, the new block stands in the parent behind the child, an
  -- inner child's children are shared out in order, and the counts are right. All three nodes
  -- have their pages of children and the new one has the degree 896.
  pub split_child-IsSplit :
      HasPages node
      → HasPages child
      → HasPages fresh
      → (node' child' fresh' : Node) × (split_child node child idx fresh
          ≡ some (node', child', fresh'))
        × IsSplit node child idx fresh node' child' fresh'
  split_child-IsSplit pn pc pf =
      let f1 : Node = record fresh { leaf = child.leaf } in
      let (m1, e1, s1) =
        copy_kvs-IsCopied (fresh.t - 1) 0 f1 fresh.t child (omega arith) (omega arith) in
      let m2 : Node = record m1 { nr_keys = m1.t - 1 } in
      let (m3, e3, c3, k3) =
        split_kids child m2 (s1.frame.t ∙ t) (HasPages-KvFrame s1.frame pf) pc in
      let (n1, e4, c4, k4) =
        put_child_val-inserted node (idx + 1) m3.block pn (omega arith) (omega arith) in
      let (n2, e5, f5, k5) =
        put_kv-inserted n1 idx (omega (arith, c4.nr_keys)) (omega (arith, c4.nr_keys))
          (record child { nr_keys = m3.t - 1 }) (m3.t - 1) (omega (arith, c3.t, s1.frame.t)) in
      (
        record n2 { nr_keys = u32 (n2.nr_keys + 1) },
        record child { nr_keys = m3.t - 1 },
        m3,
        split_runs m1 s1 m3 c3 k3 n1 c4 k4 n2 f5 k5 e1 e3 e4 e5,
        shares-IsSplit m1 s1 m3 c3 k3 n1 c4 k4 n2 f5 k5,
      )
