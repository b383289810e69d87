-- ===== src/Btree/Tree/Delete/Leaf.antt =====
-- `nkfs_btree_node_leaf_delete_key`, and `nkfs_btree_delete_key` on a tree that is one leaf.
use ddfs.Base.{
  ℕ, suc, ◌+◌, ◌-◌, ◌≤◌, ◌<◌, ◌≡◌, refl, sym, ap, ◌∙◌, ◌⊎◌, inl, inr, Bool, false, Option, none,
  some, arith, ltb, leb, ◌==◌, if◌then◌else◌, ltb→lt, ==-refl, Bool-cases, tab-erased,
  tab-injective, bug_on, bind-some,
}
use ddfs.Btree.Node.{Key, Node}
use ddfs.Btree.Node.Slots.{entry_at, key_of, entry_at-key, entry_at-nr}
use ddfs.Btree.Ops.{delete_key_index}
use ddfs.Btree.Ops.Erase.{delete_key_index-entries}
use ddfs.Btree.Ops.Moves.{KvFrame}
use ddfs.Btree.Search.{has_key}
use ddfs.Btree.Search.Answers.{Tells, has_key-Tells}
use ddfs.Btree.Search.Sound.{Sorted}
use ddfs.Btree.Tree.{Tree, enoent, ok, eagain}
use ddfs.Btree.Tree.Delete.{leaf_delete_key, node_delete_key, delete_key}
use ddfs.Btree.Tree.Insert.{write}

-- What a deletion leaves of a leaf: the entries but the one at the key's index, in order.
pub record IsDropped (n m : Node) (key : Key) : Type 0 where
  pub index : ℕ
  pub inside : index < n.nr_keys
  pub here : key_of n index ≡ key
  pub nr_keys : m.nr_keys ≡ n.nr_keys - 1
  pub entry :
      (i : ℕ)
      → i < n.nr_keys - 1
      → entry_at m i ≡ (if ltb i index then entry_at n i else entry_at n (i + 1))
  pub leaf : m.leaf ≡ n.leaf
  pub block : m.block ≡ n.block

-- The same of the list of entries.
module _ (n : Node) (index : ℕ) (h : index < n.nr_keys) (small : n.nr_keys ≤ 1792) where
  abbrev skipped : ℕ → Key × ℕ
  skipped i = if ltb i index then entry_at n i else entry_at n (i + 1)

  delete_key_index-skips :
      (m : Node) × (delete_key_index n index ≡ some m)
      × KvFrame n m
      × ((i : ℕ) → i < n.nr_keys - 1 → entry_at m i ≡ skipped i)
  delete_key_index-skips =
      let (m, e, list, _, frame) = delete_key_index-entries n index h small in
      (
        m,
        e,
        frame,
        λ i l.
            tab-injective (entry_at m) skipped (n.nr_keys - 1)
              (list
                ∙ sym (
                    tab-erased (entry_at n) skipped n.nr_keys index (n.nr_keys - 1) h (omega arith)
                      (λ j b. refl)))
              i l,
      )

module _ (n : Node) (key : Key) (sorted : Sorted n) (small : n.nr_keys ≤ 1792)
    (leaf : (n.leaf == 0) ≡ false) where
  leaf_delete_key-at :
      (index : ℕ)
      → has_key n key ≡ some (some index)
      → index < n.nr_keys
      → key_of n index ≡ key
      → (m : Node) × (leaf_delete_key n key ≡ some m) × IsDropped n m key
  unfolding leaf_delete_key
  leaf_delete_key-at index e h at =
      let (m, d, frame, entry) = delete_key_index-skips n index h small in
      (
        record m { nr_keys = m.nr_keys - 1 },
        rw leaf (bind-some _ e (bind-some _ (guard index h) (bind-some _ d refl))),
        record {
          index = index;
          inside = h;
          here = at;
          nr_keys = ap (λ x. x - 1) frame.nr_keys;
          entry = λ i l. entry_at-nr m (m.nr_keys - 1) i ∙ entry i l;
          leaf = frame.leaf;
          block = frame.block;
        },
      )
    where
      guard : (i : ℕ) → i < n.nr_keys → bug_on (leb n.nr_keys i) ≡ some tt
      guard i h = ground arith

  -- The keys of what is left: they grow, and the deleted one is not among them.
  dropped_key :
      (m : Node) (d : IsDropped n m key) (i : ℕ)
      → i < m.nr_keys
      → key_of m i ≡ (if ltb i d.index then key_of n i else key_of n (i + 1))
  dropped_key m d i h =
      sym (entry_at-key m i)
      ∙ ap (λ e. e.0) (d.entry i (omega (arith, d.nr_keys)))
      ∙ elim (Bool-cases (ltb i d.index)) [
        | inl low ↦ rw low (entry_at-key n i)
        | inr high ↦ rw high (entry_at-key n (i + 1))
      ]

  dropped-Sorted : (m : Node) → IsDropped n m key → Sorted m
  dropped-Sorted m d i j l h = ground (
    arith,
    dropped_key m d i (omega arith),
    dropped_key m d j h,
    later (i) (j) l (omega (arith, d.nr_keys)),
    later (i + 1) (j + 1) (omega arith) (omega (arith, d.nr_keys)),
    later (i) (j + 1) (omega arith) (omega (arith, d.nr_keys)),
  )
    where
      later : (i j : ℕ) → i < j → j < n.nr_keys → key_of n i < key_of n j
      later i j l h = sorted i j l h

  dropped-absent : (m : Node) → IsDropped n m key → Tells m key none
  dropped-absent m d i h e = elim (Bool-cases (ltb i d.index)) [
    | inl low ↦
        let same : key_of m i ≡ key_of n i = dropped_key m d i h ∙ rw low refl in
        absurd (omega (arith, d.here, same, e, sorted i d.index (ltb→lt i d.index low) d.inside))
    | inr high ↦
        let same : key_of m i ≡ key_of n (i + 1) = dropped_key m d i h ∙ rw high refl in
        absurd (
          omega (
            arith,
            d.here,
            same,
            e,
            sorted d.index (i + 1) (ground arith) (omega (arith, d.nr_keys)),
          ))
  ]

started_root :
    (fuel : ℕ) (tree : Tree) (key : Key)
    → tree.releasing ≡ false
    → delete_key fuel tree key ≡ node_delete_key fuel tree tree.root key
unfolding delete_key
started_root fuel tree key alive = off tree.releasing alive
  where
    off :
        (b : Bool)
        → b ≡ false
        → (if b then some (eagain, tree) else node_delete_key fuel tree tree.root key)
          ≡ node_delete_key fuel tree tree.root key
    off b e = rw e refl

-- Deleting a key from a tree that is not being released and whose root is a leaf at its block
-- with strictly growing keys, 1792 at most, never stops: either it returns -ENOENT, the tree is
-- unchanged and the root does not hold the key, or it returns 0 and the root of the new tree is a
-- leaf that has lost the entry at the key's index, keeps the others in order, has growing keys
-- and does not hold the key.
pub delete_key-leaf :
    (fuel : ℕ) (tree : Tree) (n : Node) (key : Key)
    → tree.releasing ≡ false
    → tree.nodes tree.root ≡ some n
    → n.block ≡ tree.root
    → (n.leaf == 0) ≡ false
    → Sorted n
    → n.nr_keys ≤ 1792
    → ((delete_key (suc fuel) tree key ≡ some (enoent, tree)) × Tells n key none)
      ⊎ ((m : Node) × (delete_key (suc fuel) tree key ≡ some (ok, write tree m))
          × ((write tree m).nodes tree.root ≡ some m)
          × IsDropped n m key
          × Sorted m
          × Tells m key none)
unfolding delete_key node_delete_key write
delete_key-leaf fuel tree n key alive root at leaf sorted small =
    let (found, e, says) = has_key-Tells n key sorted small in by_found found e says
  where
    written_root : (m : Node) → m.block ≡ tree.root → (write tree m).nodes tree.root ≡ some m
    written_root m b = rw (b, ==-refl tree.root) refl

    by_found :
        (found : Option ℕ)
        → has_key n key ≡ some found
        → Tells n key found
        → ((delete_key (suc fuel) tree key ≡ some (enoent, tree)) × Tells n key none)
          ⊎ ((m : Node) × (delete_key (suc fuel) tree key ≡ some (ok, write tree m))
              × ((write tree m).nodes tree.root ≡ some m)
              × IsDropped n m key
              × Sorted m
              × Tells m key none)
    by_found none e says = inl (
      started_root (suc fuel) tree key alive ∙ bind-some _ root (bind-some _ e (rw leaf refl)),
      says,
    )
    by_found (some index) e says =
        let (m, d, dropped) = leaf_delete_key-at n key sorted small leaf index e says.0 says.1 in
        inr (
          m,
          started_root (suc fuel) tree key alive
              ∙ bind-some _ root (bind-some _ e (rw leaf (bind-some _ d refl))),
          written_root m (dropped.block ∙ at),
          dropped,
          dropped-Sorted n key sorted small leaf m dropped,
          dropped-absent n key sorted small leaf m dropped,
        )
