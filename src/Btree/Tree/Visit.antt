-- ===== src/Btree/Tree/Visit.antt =====
-- The walks through a whole tree of core/btree.c: `nkfs_btree_enum_tree`, which calls back for each
-- key until a call says stop, and `nkfs_btree_stats`, which counts. The first argument bounds the depth.
pub mod Calls
pub mod Counts
use ddfs.Base.{
  ℕ, zero, suc, ◌+◌, Bool, true, false, Option, none, some, ◌==◌, if◌then◌else◌, ◌>>=◌, ◌>>◌, u64,
}
use ddfs.Btree.Node.{Node, node_child}
use ddfs.Btree.Tree.{Tree}

module _ {C : Type 0} (clb : C → Node → ℕ → Bool × C) where
  -- for (i = 0; i < node->nr_keys; i++) if (clb(ctx, node, i)) return 1;
  unfoldable pub enum_keys : Node → ℕ → ℕ → C → Bool × C
  enum_keys node zero i ctx = (false, ctx)
  enum_keys node (suc r) i ctx =
      let (stop, ctx') = clb ctx node i in
      let later = enum_keys node r (i + 1) ctx' in if stop then (true, ctx') else later

-- for (i = 0; i < node->nr_keys + 1; i++): the visit of each child, until one says stop
unfoldable pub visit_children :
    {C : Type 0} → (ℕ → C → Option (Bool × C)) → Node → ℕ → ℕ → C → Option (Bool × C)
visit_children visit node zero i ctx = some (false, ctx)
visit_children visit node (suc r) i ctx = do
  c ← node_child node i
  (stop, ctx') ← visit c ctx
  let later = visit_children visit node r (i + 1) ctx'
  if stop then some (true, ctx') else later

-- What `nkfs_btree_enum_node` does after the calls for the node's own keys.
unfoldable pub after_keys :
    {C : Type 0} → (ℕ → C → Option (Bool × C)) → Node → Bool × C → Option (Bool × C)
after_keys visit node (true, ctx) = some (true, ctx)
after_keys visit node (false, ctx) = elim (node.leaf == 0) [
  | true ↦ visit_children visit node (node.nr_keys + 1) 0 ctx
  | false ↦ some (false, ctx)
]

-- `nkfs_btree_enum_node`
unfoldable pub enum_node :
    {C : Type 0} → (C → Node → ℕ → Bool × C) → (ℕ → Option Node) → ℕ → ℕ → C → Option (Bool × C)
enum_node clb nodes zero b ctx = none
enum_node clb nodes (suc depth) b ctx = do
  node ← nodes b
  elim (node.nr_keys == 0) [
    | true ↦ some (false, ctx)
    | false ↦ after_keys (enum_node clb nodes depth) node (enum_keys clb node node.nr_keys 0 ctx)
  ]

-- `struct nkfs_btree_info`
pub record Info : Type 0 where
  pub nr_keys : ℕ
  pub nr_nodes : ℕ

-- info->nr_nodes++; info->nr_keys += node->nr_keys;
abbrev pub add_node : Node → Info → Info
add_node node info = record {
  nr_keys = u64 (info.nr_keys + node.nr_keys);
  nr_nodes = u64 (info.nr_nodes + 1);
}

-- The children's part of `nkfs_btree_node_stats`.
unfoldable pub stats_children :
    (ℕ → Info → Option (Bool × Info)) → Node → Info → Option (Bool × Info)
stats_children visit node info = elim (node.nr_keys == 0) [
  | true ↦ some (false, info)
  | false ↦ elim (node.leaf == 0) [
    | true ↦ visit_children visit node (node.nr_keys + 1) 0 info
    | false ↦ some (false, info)
  ]
]

-- `nkfs_btree_node_stats`; no visit says stop.
unfoldable pub node_stats : (ℕ → Option Node) → ℕ → ℕ → Info → Option (Bool × Info)
node_stats nodes zero b info = none
node_stats nodes (suc depth) b info = do
  node ← nodes b
  (stop, info') ← stats_children (node_stats nodes depth) node info
  some (false, add_node node info')

-- `nkfs_btree_stats`
unfoldable pub stats : ℕ → Tree → Option Info
stats depth tree =
    let blank : Info = record { nr_keys = 0; nr_nodes = 0 } in
    if tree.releasing
    then some blank
    else (do (stop, info) ← node_stats tree.nodes depth tree.root blank; some info)
