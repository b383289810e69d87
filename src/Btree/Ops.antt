-- ===== src/Btree/Ops.antt =====
-- The operations of core/btree.c on one to three nodes in memory. A loop over slots recurs on the
-- rounds left; `none` is a BUG_ON or an access outside an array.
pub mod Moves
pub mod Children
pub mod Split
pub mod Merge
pub mod Erase
pub mod Pages
use ddfs.Base.{
  ℕ, zero, suc, ◌+◌, ◌-◌, ◌*◌, Bool, not, Option, none, some, ltb, leb, ◌==◌, if◌then◌else◌, ◌>>=◌,
  ◌>>◌, bug_on, update, u32,
}
use ddfs.Btree.Node.{
  btree_t, child_pages, Key, Node, node_key, set_node_key, node_value, set_node_value, node_child,
  set_node_child,
}
use ddfs.Core.Inode.Written.{filled}

-- `nkfs_btree_node_is_full`
unfoldable pub is_full : Node → Bool
is_full n = (2 * btree_t - 1) == n.nr_keys

-- `nkfs_btree_node_copy_key_value`
unfoldable pub copy_key_value : Node → ℕ → Key → ℕ → Option Node
copy_key_value dst di key value = do dst ← set_node_key dst di key; set_node_value dst di value

-- `nkfs_btree_node_copy_kv`
unfoldable pub copy_kv : Node → ℕ → Node → ℕ → Option Node
copy_kv dst di src si = do
  key ← node_key src si
  dst ← set_node_key dst di key
  value ← node_value src si
  set_node_value dst di value

-- `nkfs_btree_node_copy_child`
unfoldable pub copy_child : Node → ℕ → Node → ℕ → Option Node
copy_child dst di src si = do v ← node_child src si; set_node_child dst di v

-- for (i = lo + rounds - 1; i >= lo; i--) copy_kv(dst, i + 1, dst, i)
unfoldable pub shift_kv : ℕ → ℕ → Node → Option Node
shift_kv zero lo dst = some dst
shift_kv (suc r) lo dst = do dst ← copy_kv dst (lo + r + 1) dst (lo + r); shift_kv r lo dst

-- the same over children
pub shift_child : ℕ → ℕ → Node → Option Node
shift_child zero lo dst = some dst
shift_child (suc r) lo dst = do dst ← copy_child dst (lo + r + 1) dst (lo + r); shift_child r lo dst

-- `nkfs_btree_node_put_child_val`
pub put_child_val : Node → ℕ → ℕ → Option Node
unfolding shift_child
put_child_val dst di v = do dst ← shift_child (dst.nr_keys + 1 - di) di dst; set_node_child dst di v

-- `nkfs_btree_node_put_child`
pub put_child : Node → ℕ → Node → ℕ → Option Node
unfolding shift_child copy_child
put_child dst di src si = do
  dst ← shift_child (dst.nr_keys + 1 - di) di dst
  copy_child dst di src si

-- `nkfs_btree_node_put_key_value`
unfoldable pub put_key_value : Node → ℕ → Key → ℕ → Option Node
unfolding shift_kv copy_key_value
put_key_value dst di key value = do
  dst ← shift_kv (dst.nr_keys - di) di dst
  copy_key_value dst di key value

-- `nkfs_btree_node_put_kv`
unfoldable pub put_kv : Node → ℕ → Node → ℕ → Option Node
unfolding shift_kv copy_kv
put_kv dst di src si = do dst ← shift_kv (dst.nr_keys - di) di dst; copy_kv dst di src si

-- `nkfs_btree_node_zero_kv`
pub zero_kv : Node → ℕ → Option Node
zero_kv dst di = do dst ← set_node_key dst di 0; set_node_value dst di 0

-- for (i = 0; i < rounds; i++) copy_kv(dst, i, src, i + from), counted from `i`
pub copy_kvs : ℕ → ℕ → Node → ℕ → Node → Option Node
copy_kvs zero i dst from src = some dst
copy_kvs (suc r) i dst from src = do
  dst ← copy_kv dst i src (i + from)
  copy_kvs r (i + 1) dst from src

-- the same over children
pub copy_children : ℕ → ℕ → Node → ℕ → Node → Option Node
copy_children zero i dst from src = some dst
copy_children (suc r) i dst from src = do
  dst ← copy_child dst i src (i + from)
  copy_children r (i + 1) dst from src

-- `nkfs_btree_node_split_child`: the new parent, child and right sibling.
pub split_child : Node → Node → ℕ → Node → Option (Node × Node × Node)
unfolding is_full
split_child node child child_index fresh = do
  bug_on (ltb node.nr_keys child_index)
  bug_on (not (is_full child))
  let fresh = record fresh { leaf = child.leaf }
  fresh ← copy_kvs (fresh.t - 1) 0 fresh fresh.t child
  let fresh = record fresh { nr_keys = fresh.t - 1 }
  fresh ← (if child.leaf == 0 then copy_children fresh.t 0 fresh fresh.t child else some fresh)
  let child = record child { nr_keys = fresh.t - 1 }
  node ← put_child_val node (child_index + 1) fresh.block
  node ← put_kv node child_index child (fresh.t - 1)
  some (record node { nr_keys = u32 (node.nr_keys + 1) }, child, fresh)

-- for (i = lo; i < lo + rounds; i++) copy_kv(node, i - 1, node, i)
pub pull_kv : ℕ → ℕ → Node → Option Node
pull_kv zero i node = some node
pull_kv (suc r) i node = do node ← copy_kv node (i - 1) node i; pull_kv r (i + 1) node

-- `__nkfs_btree_node_delete_key_index`
pub delete_key_index : Node → ℕ → Option Node
delete_key_index node index = do
  bug_on (ltb node.nr_keys 1)
  moved ← pull_kv (node.nr_keys - (index + 1)) (index + 1) node
  zero_kv moved (index + (node.nr_keys - (index + 1)))

-- `node->children[i]`: an entry of the array of pages.
pub page_ptr : Node → ℕ → Option (Option (ℕ → ℕ))
page_ptr n i = do bug_on (leb child_pages i); some (n.children i)

pub set_page_ptr : Node → ℕ → Option (ℕ → ℕ) → Option Node
set_page_ptr n i p = do
  bug_on (leb child_pages i)
  some (record n { children = update n.children i p })

-- for (i = lo; i < lo + rounds; i++) node->children[i-1] = node->children[i]
pub pull_pages : ℕ → ℕ → Node → Option Node
unfolding page_ptr set_page_ptr
pull_pages zero i node = some node
pull_pages (suc r) i node = do
  p ← page_ptr node i
  node ← set_page_ptr node (i - 1) p
  pull_pages r (i + 1) node

-- `__nkfs_btree_node_delete_child_index`, which moves entries of the array of pages.
pub delete_child_index : Node → ℕ → Option Node
unfolding pull_pages set_page_ptr
delete_child_index node index = do
  moved ← pull_pages (node.nr_keys + 1 - (index + 1)) (index + 1) node
  set_page_ptr moved (index + (node.nr_keys + 1 - (index + 1))) none

-- The loop of `nkfs_btree_node_merge`: from slot `i` of `src` to slot `pos` of `dst`.
pub merge_slots : ℕ → ℕ → ℕ → Node → Node → Option Node
merge_slots zero i pos dst src = some dst
merge_slots (suc r) i pos dst src = do
  dst ← copy_kv dst pos src i
  dst ← copy_child dst pos src i
  merge_slots r (i + 1) (pos + 1) dst src

-- `nkfs_btree_node_merge`
pub merge : Node → Node → Key → ℕ → Option Node
merge dst src key value = do
  keyed ← set_node_key dst dst.nr_keys key
  filled ← set_node_value keyed dst.nr_keys value
  joined ← merge_slots src.nr_keys 0 (dst.nr_keys + 1) filled src
  out ← copy_child joined (dst.nr_keys + 1 + src.nr_keys) src src.nr_keys
  some (record out { nr_keys = u32 (dst.nr_keys + 1 + src.nr_keys) })

-- `nkfs_btree_node_copy`
pub copy : Node → Node → Option Node
copy dst src = do
  dst ← merge_slots src.nr_keys 0 0 dst src
  dst ← copy_child dst src.nr_keys src src.nr_keys
  some (record dst { nr_keys = src.nr_keys; leaf = src.leaf })
