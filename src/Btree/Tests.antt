-- ===== src/Btree/Tests.antt =====
-- The theorems on the B-tree at concrete nodes.
use ddfs.Base.{
  ℕ, ◌+◌, ◌*◌, ◌/◌, ◌^◌, ◌<◌, ◌≡◌, refl, ◌≢◌, ◌⊎◌, true, false, ◌&&◌, Option, none, some, List, [],
  ◌∷◌, ◌++◌, arith, ◌==◌, if◌then◌else◌, tab, slice, length, u64,
}
use ddfs.Btree.Disk.{Cluster, to_ondisk, by_ondisk, calc_sum, node_write, node_load}
use ddfs.Btree.Disk.Reload.{load-write, load-collision}
use ddfs.Btree.Disk.RoundTrip.{IsStored, by_ondisk-to_ondisk}
use ddfs.Btree.Node.{btree_t, btree_sig1, btree_sig2, Key, Node, node_key, node_value}
use ddfs.Btree.Node.Kids.{kid_at, entries, kids, HasPages}
use ddfs.Btree.Node.Slots.{entry_at, key_of}
use ddfs.Btree.Ops.{split_child, delete_key_index, merge}
use ddfs.Btree.Ops.Erase.{delete_key_index-entries}
use ddfs.Btree.Ops.Merge.{merge-entries}
use ddfs.Btree.Ops.Moves.{KvFrame}
use ddfs.Btree.Ops.Split.{IsSplit, split_child-IsSplit}
use ddfs.Btree.Search.{search_loop, key_probably_inside, has_key, find_key_index}
use ddfs.Btree.Search.Answers.{Tells, IsLowerBound, has_key-Tells, find_key_index-IsLowerBound}
use ddfs.Btree.Search.Sound.{Sorted}
use ddfs.Btree.Tree.{Tree, at_index, node_find_key, find_key, enoent, ok}
use ddfs.Btree.Tree.Delete.{refill, delete_key}
use ddfs.Btree.Tree.Delete.Leaf.{IsDropped, delete_key-leaf}
use ddfs.Btree.Tree.Delete.Stops.{IsWide, refill-stops}
use ddfs.Btree.Tree.Find.{find_key_lem}
use ddfs.Btree.Tree.Insert.{write, insert_leaf, insert_key}
use ddfs.Btree.Tree.Insert.Find.{insert_key-find}
use ddfs.Btree.Tree.Insert.Leaf.{IsPlaced, insert_leaf-IsPlaced}
use ddfs.Btree.Tree.Insert.Present.{PresentSays, insert_key-PresentSays}
use ddfs.Btree.Tree.Valid.{Holds, NodeOk}
use ddfs.Btree.Tree.Visit.{enum_node, Info, stats}
use ddfs.Btree.Tree.Visit.Calls.{slots_below, going_on, called}
use ddfs.Btree.Tree.Visit.Counts.{stats-enum}

-- A node with `nr` keys: slot `i` holds the key `i` and the value `i`, and no child.
abbrev sample : ℕ → ℕ → ℕ → Node
sample block leaf nr = record {
  sig1 = btree_sig1;
  t = btree_t;
  block = block;
  leaf = leaf;
  nr_keys = nr;
  keys = λ p off. p * 256 + off / 16;
  values = λ p off. p * 512 + off / 8;
  children = λ _. some (λ _. 0);
  sig2 = btree_sig2;
}

-- The same with child `i + 9` at slot `i`, and nothing in the key slots.
abbrev inner : ℕ → ℕ → Node
inner block nr = record (sample block 0 nr) {
  keys = λ _ _. 0;
  children = λ p. some (λ off. p * 512 + off / 8 + 9);
}

sample-key : (b l nr i : ℕ) → key_of (sample b l nr) i ≡ i
unfolding key_of
sample-key b l nr i = omega arith

sample-Sorted : (b l nr : ℕ) → Sorted (sample b l nr)
sample-Sorted b l nr i j l' h = omega (arith, sample-key b l nr i, sample-key b l nr j)

sample-HasPages : (b l nr : ℕ) → HasPages (sample b l nr)
sample-HasPages b l nr p h = cc

inner-HasPages : (b nr : ℕ) → HasPages (inner b nr)
inner-HasPages b nr p h = cc

zero_cluster : Cluster
zero_cluster = record { sig1 = 0; leaf = 0; nr_keys = 0; sum = 0; sig2 = 0; word = λ _. 0 }

sum_digest : List ℕ → List Key → List ℕ → List ℕ → ℕ
sum_digest a ks cs vs = 7

split_child-IsSplit_example :
    (node' child' fresh' : Node) × (split_child (sample 3 0 2) (sample 4 1 1791) 1 (sample 5 0 0)
      ≡ some (node', child', fresh'))
    × IsSplit (sample 3 0 2) (sample 4 1 1791) 1 (sample 5 0 0) node' child' fresh'
split_child-IsSplit_example =
    split_child-IsSplit (sample 3 0 2) (sample 4 1 1791) 1 (sample 5 0 0) refl (omega arith)
      (omega arith) refl (sample-HasPages 3 0 2) (sample-HasPages 4 1 1791) (sample-HasPages 5 0 0)

find_key_index-IsLowerBound_example :
    (p : ℕ) × (find_key_index (sample 3 1 40) 17 ≡ some p) × IsLowerBound (sample 3 1 40) 17 p
find_key_index-IsLowerBound_example =
    find_key_index-IsLowerBound (sample 3 1 40) 17 (sample-Sorted 3 1 40) (omega arith)

has_key-Tells_example :
    (r : Option ℕ) × (has_key (sample 3 1 40) 17 ≡ some r) × Tells (sample 3 1 40) 17 r
has_key-Tells_example = has_key-Tells (sample 3 1 40) 17 (sample-Sorted 3 1 40) (omega arith)

has_key_runs : has_key (sample 3 1 40) 17 ≡ some (some 17)
unfolding has_key key_probably_inside search_loop node_key
has_key_runs = refl

find_key_index_runs : find_key_index (sample 3 1 40) 99 ≡ some 40
unfolding find_key_index search_loop node_key
find_key_index_runs = refl

merge-entries_example :
    (m : Node) × (merge (sample 3 0 2) (inner 4 3) 50 60 ≡ some m)
    × (entries m ≡ entries (sample 3 0 2) ++ ((50, 60) ∷ entries (inner 4 3)))
    × (kids m ≡ kids (sample 3 0 2) ++ kids (inner 4 3))
    × (m.nr_keys ≡ 6)
    × (m.leaf ≡ 0)
    × (m.block ≡ 3)
    × HasPages m
merge-entries_example =
    merge-entries (sample 3 0 2) (inner 4 3) (sample-HasPages 3 0 2) (inner-HasPages 4 3) 50 60
      (omega arith)

delete_key_index-entries_example :
    (m : Node) × (delete_key_index (sample 3 1 5) 1 ≡ some m)
    × (tab (entry_at m) 4 ≡ tab (entry_at (sample 3 1 5)) 1 ++ slice (entry_at (sample 3 1 5)) 2 3)
    × (entry_at m 4 ≡ (0, 0))
    × KvFrame (sample 3 1 5) m
delete_key_index-entries_example =
    delete_key_index-entries (sample 3 1 5) 1 (omega arith) (omega arith)

by_ondisk-to_ondisk_example :
    (d : Cluster) × (to_ondisk (inner 4 1100) 12 zero_cluster ≡ some d)
    × (d.sum ≡ 12)
    × IsStored (inner 4 1100) (by_ondisk (sample 4 0 0) d)
by_ondisk-to_ondisk_example =
    by_ondisk-to_ondisk (inner 4 1100) (sample 4 0 0) 12 zero_cluster (inner-HasPages 4 1100)

-- A leaf with two entries and otherwise clear pages.
abbrev small_leaf : Node
small_leaf = record (sample 4 1 2) { keys = λ p off. if p == 0 && off == 16 then 1 else 0 }

small_leaf-no_keys : (i : ℕ) → i < 768 → key_of small_leaf (1024 + i) ≡ 0
unfolding key_of
small_leaf-no_keys i h = ground arith

small_leaf-no_kids : (i : ℕ) → i < 1536 → kid_at small_leaf i ≡ 0
unfolding kid_at
small_leaf-no_kids i h = refl

load-write_example :
    (d : Cluster) × (m : Node) × (node_write sum_digest small_leaf zero_cluster ≡ some d)
    × (node_load sum_digest (sample 4 0 0) d ≡ some m)
    × (entries m ≡ entries small_leaf)
    × (kids m ≡ kids small_leaf)
    × (m.leaf ≡ 1)
    × (m.nr_keys ≡ 2)
load-write_example =
    load-write sum_digest small_leaf (sample 4 0 0) zero_cluster (λ p h. cc) refl refl (omega arith)
      small_leaf-no_keys small_leaf-no_kids

inner-differs : key_of (inner 4 1) 1024 ≢ kid_at (inner 4 1) 0 * 2 ^ 64 + kid_at (inner 4 1) 1
unfolding key_of kid_at
inner-differs = omega arith

load-collision_example :
    (d : Cluster) × (node_write sum_digest (inner 4 1) zero_cluster ≡ some d)
    × (node_load sum_digest (sample 4 0 0) d ≢ none
        → (tab (key_of (by_ondisk (sample 4 0 0) d)) 1792 ≢ tab (key_of (inner 4 1)) 1792)
          × (calc_sum sum_digest (by_ondisk (sample 4 0 0) d) ≡ calc_sum sum_digest (inner 4 1)))
load-collision_example =
    load-collision sum_digest (inner 4 1) (sample 4 0 0) zero_cluster (inner-HasPages 4 1) refl refl
      0 (omega arith) inner-differs

-- A tree of one leaf.
abbrev leaf_tree : Tree
leaf_tree = record {
  root = 3;
  nodes = λ b. if b == 3 then some (sample 3 1 5) else none;
  free = 8 ∷ [];
  releasing = false;
}

sample-NodeOk : NodeOk (sample 3 1 5) 0 100
sample-NodeOk = record {
  small = omega arith;
  sorted = sample-Sorted 3 1 5;
  within = λ i h. omega (arith, sample-key 3 1 5 i);
}

find_key_lem_example :
    ((v : ℕ) × (find_key 1 leaf_tree 4 ≡ some (ok, some v)) × Holds leaf_tree.nodes 0 3 4 v)
    ⊎ ((find_key 1 leaf_tree 4 ≡ some (enoent, none))
        × ((v : ℕ) → ¬ (Holds leaf_tree.nodes 0 3 4 v)))
find_key_lem_example =
    find_key_lem leaf_tree 4 0 0 100 refl (sample 3 1 5, refl, (omega arith), sample-NodeOk)

find_key_runs : find_key 1 leaf_tree 4 ≡ some (ok, some 4)
unfolding find_key node_find_key find_key_index search_loop node_key node_value at_index
find_key_runs = refl

insert_leaf-IsPlaced_example :
    (m : Node) × (p : ℕ) × (insert_leaf (sample 3 1 5) 70 1 ≡ some m)
    × IsPlaced (sample 3 1 5) m 70 1 p
insert_leaf-IsPlaced_example =
    insert_leaf-IsPlaced (sample 3 1 5) 70 1 (sample-Sorted 3 1 5) (omega arith)
      (λ i h. omega (arith, sample-key 3 1 5 i))

delete_key-leaf_example :
    ((delete_key 1 leaf_tree 2 ≡ some (enoent, leaf_tree)) × Tells (sample 3 1 5) 2 none)
    ⊎ ((m : Node) × (delete_key 1 leaf_tree 2 ≡ some (ok, write leaf_tree m))
        × ((write leaf_tree m).nodes leaf_tree.root ≡ some m)
        × IsDropped (sample 3 1 5) m 2
        × Sorted m
        × Tells m 2 none)
delete_key-leaf_example =
    delete_key-leaf 0 leaf_tree (sample 3 1 5) 2 refl refl refl refl (sample-Sorted 3 1 5)
      (omega arith)

-- A tree of nodes with six keys each.
abbrev six_tree : Tree
six_tree = record leaf_tree { nodes = λ b. some (sample b 1 6) }

six_tree-IsWide : IsWide six_tree
six_tree-IsWide b n e = let same : sample b 1 6 ≡ n = inj e in rw⁻¹ same (omega arith, omega arith)
  where
    inj : {x y : Node} → some x ≡ some y → x ≡ y
    inj f = cc

refill-stops_example : refill six_tree (inner 3 6) (sample 10 1 5) 1 ≡ none
refill-stops_example =
    refill-stops six_tree (inner 3 6) (sample 10 1 5) 1 six_tree-IsWide (omega arith) (omega arith)
      (omega arith)

insert_key-find_example :
    (tree' : Tree) × (insert_key 1 leaf_tree 70 1 false ≡ some (ok, tree'))
    × (find_key 1 tree' 70 ≡ some (ok, some 1))
    × ((k w : ℕ) → Holds leaf_tree.nodes 0 3 k w → Holds tree'.nodes 0 tree'.root k w)
insert_key-find_example =
    insert_key-find 0 leaf_tree (sample 3 1 5) 70 1 false refl refl refl refl (sample-Sorted 3 1 5)
      (omega arith) (λ i h. omega (arith, sample-key 3 1 5 i))

-- A callback that keeps the blocks and the indexes it is called for.
abbrev keep_slot : List (ℕ × ℕ) → Node → ℕ → List (ℕ × ℕ)
keep_slot seen node i = seen ++ ((node.block, i) ∷ [])

stats-enum_example :
    (info : Info) × (stats 1 leaf_tree ≡ some info)
    × (enum_node (going_on keep_slot) leaf_tree.nodes 1 3 []
        ≡ some (false, called keep_slot [] (slots_below leaf_tree.nodes 0 3)))
    × (u64 info.nr_keys ≡ u64 (length (slots_below leaf_tree.nodes 0 3)))
stats-enum_example =
    stats-enum keep_slot [] leaf_tree 0 0 100 refl
      (sample 3 1 5, refl, (omega arith), sample-NodeOk)

insert_key-PresentSays_example : PresentSays 1 leaf_tree 3 50 true
insert_key-PresentSays_example =
    insert_key-PresentSays 0 leaf_tree (sample 3 1 5) 3 50 true 3 refl refl refl refl
      (sample-Sorted 3 1 5) (omega arith) (omega arith) (sample-key 3 1 5 3)
