-- ===== src/Btree/Ops/Erase.antt =====
-- `__nkfs_btree_node_delete_key_index`: one entry leaves the node, the others close up.
use ddfs.Base.{
  ℕ, ◌+◌, ◌-◌, ◌≤◌, ◌<◌, ◌≡◌, refl, none, some, ◌++◌, arith, ltb, tab, slice, tab-erased, bug_on,
  bind-some,
}
use ddfs.Btree.Node.{Node}
use ddfs.Btree.Node.Slots.{with_key, set_node_key-in, set_node_value-in, entry_at}
use ddfs.Btree.Ops.{zero_kv, delete_key_index}
use ddfs.Btree.Ops.Moves.{with_entry, KvFrame, entry_at-with_entry, pull_kv-IsPull}

zero_kv-in : (n : Node) (i : ℕ) → i < 1792 → zero_kv n i ≡ some (with_entry n i (0, 0))
unfolding zero_kv
zero_kv-in n i h =
    bind-some _ (set_node_key-in n i 0 h) (set_node_value-in (with_key n i 0) i 0 (omega arith))

-- Deleting the entry at an index in use never stops: the first count-less-one slots then hold the
-- other entries in order, the last slot is cleared, and nothing but keys and values changes.
pub delete_key_index-entries :
    (n : Node) (index : ℕ)
    → index < n.nr_keys
    → n.nr_keys ≤ 1792
    → (m : Node) × (delete_key_index n index ≡ some m)
      × (tab (entry_at m) (n.nr_keys - 1)
          ≡ tab (entry_at n) index ++ slice (entry_at n) (index + 1) (n.nr_keys - 1 - index))
      × (entry_at m (n.nr_keys - 1) ≡ (0, 0))
      × KvFrame n m
unfolding delete_key_index
delete_key_index-entries n index h small =
    let r = n.nr_keys - (index + 1) in
    let (m, e, s) = pull_kv-IsPull r (index + 1) n (omega arith) (omega arith) in
    (
      with_entry m (index + r) (0, 0),
      bind-some _ guard (bind-some _ e (zero_kv-in m (index + r) (omega arith))),
      tab-erased (entry_at n) _ n.nr_keys index (n.nr_keys - 1) h (omega arith)
          (λ j l. ground (arith, entry_at-with_entry m (index + r) j (0, 0), s.entry j)),
      ground (arith, entry_at-with_entry m (index + r) (n.nr_keys - 1) (0, 0)),
      ground (arith, s.frame),
    )
  where
    guard : bug_on (ltb n.nr_keys 1) ≡ some tt
    guard = ground arith

-- On an empty node the function stops.
pub delete_key_index-empty :
    (n : Node) (index : ℕ) → n.nr_keys ≡ 0 → delete_key_index n index ≡ none
unfolding delete_key_index
delete_key_index-empty n index e = rw e refl
