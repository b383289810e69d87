-- ===== src/Btree/Tree/Insert.antt =====
-- The insertion of core/btree.c: `nkfs_btree_insert_key` with the split of a full root, and the
-- descent of `nkfs_btree_node_insert_nonfull` that splits the full children on its way.
pub mod Leaf
pub mod Find
pub mod Present
use ddfs.Base.{
  ℕ, zero, suc, ◌+◌, Bool, true, false, not, Option, none, some, [], ◌∷◌, ◌==◌, if◌then◌else◌,
  ◌>>=◌, ◌>>◌, update, u32,
}
use ddfs.Btree.Node.{Key, Node, set_node_value, node_child, set_node_child, node_alloc}
use ddfs.Btree.Ops.{is_full, put_key_value, split_child, copy}
use ddfs.Btree.Search.{has_key, find_key_index}
use ddfs.Btree.Tree.{Tree, Status, ok, eagain, eexist, eio, enomem}

-- `nkfs_btree_node_write`: the block shows the node from now on. The callers here ignore its result.
unfoldable pub write : Tree → Node → Tree
write tree n = record tree { nodes = update tree.nodes n.block (some n) }

-- What `nkfs_btree_node_alloc(1)` gives: all pages there and cleared.
abbrev pub blank_node : Node
blank_node = record {
  sig1 = 0;
  t = 0;
  block = 0;
  leaf = 0;
  nr_keys = 0;
  keys = λ _ _. 0;
  values = λ _ _. 0;
  children = λ _. some (λ _. 0);
  sig2 = 0;
}

-- `nkfs_btree_node_create`: a fresh node on the next free block, or NULL.
unfoldable pub node_create : Tree → Option (Node × Tree)
node_create tree = elim tree.free [
  | [] ↦ none
  | b ∷ rest ↦
      let node = record (node_alloc blank_node true) { block = b } in
      some (node, write (record tree { free = rest }) node)
]

-- `nkfs_btree_node_delete`: the block goes back to the allocator.
unfoldable pub node_delete : Tree → ℕ → Tree
node_delete tree b = record tree { nodes = update tree.nodes b none; free = b ∷ tree.free }

-- The leaf branch: place the entry in sorted order.
unfoldable pub insert_leaf : Node → Key → ℕ → Option Node
insert_leaf node key value = do
  i ← find_key_index node key
  placed ← put_key_value node i key value
  some (record placed { nr_keys = u32 (placed.nr_keys + 1) })

-- `nkfs_btree_node_insert_nonfull` from block `b`; the first argument bounds the rounds.
unfoldable pub node_insert_nonfull : ℕ → Tree → ℕ → Key → ℕ → Bool → Option (Status × Tree)
node_insert_nonfull zero tree b key value replace = none
node_insert_nonfull (suc fuel) tree b key value replace = do
  node ← tree.nodes b
  found ← has_key node key
  elim found [
    | some i ↦
        if replace
        then (do changed ← set_node_value node i value; some (ok, write tree changed))
        else some (eexist, tree)
    | none ↦ elim (node.leaf == 0) [
      | false ↦ do placed ← insert_leaf node key value; some (ok, write tree placed)
      | true ↦ do
        i ← find_key_index node key
        c ← node_child node i
        elim (tree.nodes c) [
          | none ↦ some (eio, tree)
          | some child ↦ elim (is_full child) [
            | false ↦ node_insert_nonfull fuel tree c key value replace
            | true ↦ elim (node_create tree) [
              | none ↦ some (eio, tree)
              | some (fresh, tree') ↦ do
                (node', child', fresh') ← split_child node child i fresh
                node_insert_nonfull fuel (write (write (write tree' node') child') fresh') b key
                    value replace
            ]
          ]
        ]
    ]
  ]

-- The part of `nkfs_btree_insert_key` that makes room in a full root: its content moves to `clone`,
-- which is split below the root. The status is of the failed creation, with what it leaves behind.
unfoldable pub grow_root : Tree → Node → Option (Option Tree × Tree)
grow_root tree root = elim (node_create tree) [
  | none ↦ some (none, tree)
  | some (clone, tree1) ↦ elim (node_create tree1) [
    | none ↦ some (none, node_delete tree1 clone.block)
    | some (new2, tree2) ↦ do
      clone ← copy clone root
      top ←
          set_node_child (record (node_alloc blank_node true) { leaf = 0; nr_keys = 0 }) 0
            clone.block
      (top', clone', new2') ← split_child top clone 0 new2
      root' ← copy root top'
      some (some (write (write (write tree2 clone') new2') root'), tree2)
  ]
]

-- `nkfs_btree_insert_key`
unfoldable pub insert_key : ℕ → Tree → Key → ℕ → Bool → Option (Status × Tree)
insert_key fuel tree key value replace = if tree.releasing then some (eagain, tree) else do
  root ← tree.nodes tree.root
  if not (is_full root) then node_insert_nonfull fuel tree tree.root key value replace else do
    (grown, left) ← grow_root tree root
    elim grown [
      | none ↦ some (enomem, left)
      | some tree' ↦ node_insert_nonfull fuel tree' tree.root key value replace
    ]
