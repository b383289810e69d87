-- ===== src/Btree/Tree.antt =====
-- A whole tree of core/btree.c: the nodes by their blocks, the search from the root and the
-- insertion. A node that is held in memory is shared by all who read its block, so the nodes are one
-- map; `none` in it is a block for which `nkfs_btree_node_read` gives NULL.
pub mod Valid
pub mod Find
pub mod Insert
pub mod Delete
pub mod Visit
pub mod Leaf
use ddfs.Base.{
  ℕ, zero, suc, Bool, false, not, Option, none, some, List, ltb, ◌==◌, if◌then◌else◌, ◌>>=◌, ◌>>◌,
}
use ddfs.Btree.Node.{Key, Node, node_key, node_value, node_child}
use ddfs.Btree.Search.{find_key_index}
use mathlib.Core.Option

-- The parts of `struct nkfs_btree` and of its allocator that the operations read or write: `free` is
-- the blocks that `nkfs_balloc_block_alloc` gives next, `releasing` the flag.
pub record Tree : Type 0 where
  pub root : ℕ
  pub nodes : ℕ → Option Node
  pub free : List ℕ
  pub releasing : Bool

-- What the calls return: 0, or the error.
pub data Status : Type 0 where
  ok eagain enoent eexist eio enomem : Status

-- i < node->nr_keys && !cmp_key(key, key of slot i)
unfoldable pub at_index : Node → Key → ℕ → Option Bool
at_index node key i =
    if ltb i node.nr_keys then (do k ← node_key node i; some (key == k)) else some false

-- `nkfs_btree_node_find_key`: the node and the index; the first argument bounds the depth.
unfoldable pub node_find_key : (ℕ → Option Node) → Key → ℕ → ℕ → Option (Option (Node × ℕ))
node_find_key nodes key zero b = none
node_find_key nodes key (suc depth) b = do
  node ← nodes b
  if node.nr_keys == 0 then some none else do
    i ← find_key_index node key
    here ← at_index node key i
    if here
        then some (some (node, i))
        else (if not (node.leaf == 0)
            then some none
            else do child ← node_child node i; node_find_key nodes key depth child)

-- `nkfs_btree_find_key`: the status and what goes through `pvalue`.
unfoldable pub find_key : ℕ → Tree → Key → Option (Status × Option ℕ)
find_key depth tree key = if tree.releasing then some (eagain, none) else do
  found ← node_find_key tree.nodes key depth tree.root
  elim found [
    | none ↦ some (enoent, none)
    | some (node, index) ↦ Option.map (λ v. (ok, some v)) (node_value node index)
  ]
