-- ===== src/Btree/Tree/Delete.antt =====
-- The deletion of core/btree.c: `nkfs_btree_delete_key` and the balancing of the children on its way
-- down. A node is shared by all who hold it, so it is named by its block and read where it is used;
-- `none` is a BUG, the use of a NULL node, or an access outside an array.
pub mod Stops
pub mod Leaf
use ddfs.Base.{
  ℕ, zero, suc, ◌+◌, ◌-◌, Bool, true, false, not, Option, none, some, ltb, leb, ◌==◌, if◌then◌else◌,
  ◌>>=◌, ◌>>◌, bug_on, u32,
}
use ddfs.Btree.Node.{Key, Node, node_key, node_value, node_child}
use ddfs.Btree.Ops.{
  copy_kv, copy_child, put_child, put_kv, delete_key_index, delete_child_index, merge, copy,
}
use ddfs.Btree.Search.{has_key, find_key_index}
use ddfs.Btree.Tree.{Tree, Status, ok, eagain, enoent}
use ddfs.Btree.Tree.Insert.{write, node_delete}

-- `nkfs_btree_node_leaf_delete_key`
unfoldable pub leaf_delete_key : Node → Key → Option Node
leaf_delete_key node key = do
  bug_on (node.leaf == 0)
  found ← has_key node key
  index ← found
  bug_on (leb node.nr_keys index)
  left ← delete_key_index node index
  some (record left { nr_keys = left.nr_keys - 1 })

-- The counts after `nkfs_btree_node_child_give_key`.
abbrev pub given : Node → Node → Node → Node × Node × Node
given node child sib = (
  node,
  record child { nr_keys = u32 (child.nr_keys + 1) },
  record sib { nr_keys = sib.nr_keys - 1 },
)

-- `nkfs_btree_node_child_give_key`: the node, the child and its sibling.
unfoldable pub child_give_key : Node → Node → ℕ → Node → Bool → Option (Node × Node × Node)
child_give_key node child child_index sib false = do
  child' ← copy_kv child child.nr_keys node child_index
  node' ← copy_kv node child_index sib 0
  child'' ← copy_child child' (child'.nr_keys + 1) sib 0
  sib' ← delete_key_index sib 0
  sib'' ← delete_child_index sib' 0
  some (given node' child'' sib'')
child_give_key node child child_index sib true = do
  child' ← put_kv child 0 node (child_index - 1)
  node' ← copy_kv node (child_index - 1) sib (sib.nr_keys - 1)
  child'' ← put_child child' 0 sib sib.nr_keys
  sib' ← delete_key_index sib (sib.nr_keys - 1)
  sib'' ← delete_child_index sib' sib'.nr_keys
  some (given node' child'' sib'')

-- What `nkfs_btree_node_child_merge` does with `dst` and the sibling `src` to its right, between which
-- the key `index` stands: the node and `dst`.
unfoldable pub join : Node → ℕ → Node → Node → Option (Node × Node)
join node index dst src = do
  key ← node_key node index
  value ← node_value node index
  dst' ← merge dst src key value
  node' ← delete_key_index node index
  node'' ← delete_child_index node' (index + 1)
  some (record node'' { nr_keys = node''.nr_keys - 1 }, dst')

-- Its end: a node without keys takes over what was merged. The block is that of the result.
unfoldable pub joined : Tree → Node → Node → ℕ → Option (ℕ × Tree)
joined tree node merged src =
    let tree = node_delete (write (write tree merged) node) src in
    elim (node.nr_keys == 0) [
      | false ↦ some (merged.block, tree)
      | true ↦ do
        node' ← copy node merged
        some (node'.block, node_delete (write tree node') merged.block)
    ]

-- `nkfs_btree_node_child_merge`
unfoldable pub child_merge : Tree → Node → Node → ℕ → Node → Bool → Option (ℕ × Tree)
child_merge tree node child child_index sib true = do
  (node', merged) ← join node (child_index - 1) sib child
  joined tree node' merged child.block
child_merge tree node child child_index sib false = do
  (node', merged) ← join node child_index child sib
  joined tree node' merged sib.block

-- A sibling, or NULL where there is none or it cannot be read.
unfoldable pub read_sib : Tree → Node → Bool → ℕ → Option (Option Node)
read_sib tree node false i = some none
read_sib tree node true i = do c ← node_child node i; some (tree.nodes c)

abbrev pub can_give : Option Node → Bool
can_give none = false
can_give (some n) = leb n.t n.nr_keys

-- The calls of `nkfs_btree_node_child_balance` that give the child a key.
unfoldable pub give : Tree → Node → Node → ℕ → Option Node → Bool → Option (ℕ × Tree)
give tree node child i none left = none
give tree node child i (some sib) left = do
  (node', child', sib') ← child_give_key node child i sib left
  some (child'.block, write (write (write tree sib') child') node')

-- `nkfs_btree_node_child_balance` for a child below its least count.
unfoldable pub refill : Tree → Node → Node → ℕ → Option (ℕ × Tree)
refill tree node child i = do
  left ← read_sib tree node (ltb 0 i) (i - 1)
  right ← read_sib tree node (ltb i node.nr_keys) (i + 1)
  elim (can_give left) [
    | true ↦ give tree node child i left true
    | false ↦ elim (can_give right) [
      | true ↦ give tree node child i right false
      | false ↦ elim left [
        | some sib ↦ child_merge tree node child i sib true
        | none ↦ (do sib ← right; child_merge tree node child i sib false)
      ]
    ]
  ]

-- `nkfs_btree_node_child_balance`: the block of the child to go on with.
unfoldable pub child_balance : Tree → Node → ℕ → Option (Option ℕ × Tree)
child_balance tree node i = do
  bug_on (not (node.leaf == 0))
  c ← node_child node i
  elim (tree.nodes c) [
    | none ↦ some (none, tree)
    | some child ↦ elim (ltb child.nr_keys child.t) [
      | false ↦ some (some c, tree)
      | true ↦ do (next, tree') ← refill tree node child i; some (some next, tree')
    ]
  ]

-- `nkfs_btree_node_find_left_most` with `last`, which goes down the last children to a last key, and
-- `nkfs_btree_node_find_right_most` without, which goes down the first children to a first key.
unfoldable pub find_most : ℕ → Bool → Tree → ℕ → Option (ℕ × ℕ × Tree)
find_most zero last tree b = none
find_most (suc fuel) last tree b = do
  node ← tree.nodes b
  bug_on (node.nr_keys == 0)
  elim (node.leaf == 0) [
    | false ↦ some (b, if last then node.nr_keys - 1 else 0, tree)
    | true ↦ do
      (next, tree') ← child_balance tree node (if last then node.nr_keys else 0)
      c ← next
      find_most fuel last tree' c
  ]

-- The key `index` of an inner node is replaced by its neighbour in the order, which is deleted next:
-- the block and the key to go on with.
unfoldable pub replace_key : ℕ → Tree → ℕ → ℕ → ℕ → Bool → Option (ℕ × Key × Tree)
replace_key fuel tree b index child last = do
  (most, most_index, tree') ← find_most fuel last tree child
  node ← tree'.nodes b
  found ← tree'.nodes most
  node' ← copy_kv node index found most_index
  key ← node_key found most_index
  some (most, key, write tree' node')

-- The key `index` of an inner node goes down between its two children, which are merged.
unfoldable pub merge_around : Tree → Node → ℕ → Node → Node → Option (ℕ × Key × Tree)
merge_around tree node index pre_child suc_child = do
  (node', merged) ← join node index pre_child suc_child
  (next, tree') ← joined tree node' merged suc_child.block
  found ← tree'.nodes next
  key ← node_key found pre_child.nr_keys
  some (next, key, tree')

-- The branch of `nkfs_btree_node_delete_key` for a key of an inner node.
unfoldable pub delete_inner : ℕ → Tree → Node → ℕ → Option (ℕ × Key × Tree)
delete_inner fuel tree node index = do
  pre_block ← node_child node index
  suc_block ← node_child node (index + 1)
  pre_child ← tree.nodes pre_block
  suc_child ← tree.nodes suc_block
  elim (leb pre_child.t pre_child.nr_keys) [
    | true ↦ replace_key fuel tree node.block index pre_block true
    | false ↦ elim (leb suc_child.t suc_child.nr_keys) [
      | true ↦ replace_key fuel tree node.block index suc_block false
      | false ↦ merge_around tree node index pre_child suc_child
    ]
  ]

-- `nkfs_btree_node_delete_key` from block `b`; the first argument bounds the rounds.
unfoldable pub node_delete_key : ℕ → Tree → ℕ → Key → Option (Status × Tree)
node_delete_key zero tree b key = none
node_delete_key (suc fuel) tree b key = do
  node ← tree.nodes b
  found ← has_key node key
  elim found [
    | some index ↦ elim (node.leaf == 0) [
      | false ↦ do left ← leaf_delete_key node key; some (ok, write tree left)
      | true ↦ do
        (next, key', tree') ← delete_inner fuel tree node index
        node_delete_key fuel tree' next key'
    ]
    | none ↦ elim (node.leaf == 0) [
      | false ↦ some (enoent, tree)
      | true ↦ do
        i ← find_key_index node key
        (next, tree') ← child_balance tree node i
        c ← next
        node_delete_key fuel tree' c key
    ]
  ]

-- `nkfs_btree_delete_key`
unfoldable pub delete_key : ℕ → Tree → Key → Option (Status × Tree)
delete_key fuel tree key =
    if tree.releasing then some (eagain, tree) else node_delete_key fuel tree tree.root key
