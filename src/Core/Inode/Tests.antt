-- ===== src/Core/Inode/Tests.antt =====
-- The theorems on an inode at concrete worlds, with trees that are functions.
use ddfs.Base.{
  ℕ, ◌+◌, ◌*◌, ◌<◌, ◌≡◌, refl, sym, ap, ◌∙◌, ◌≢◌, ◌⊎◌, inl, inr, true, false, ◌&&◌, Option, none,
  some, List, [], ◌∷◌, arith, ltb, ◌==◌, if◌then◌else◌, ==_iff, ==-refl,
}
use ddfs.Btree.Node.{
  btree_t, btree_sig1, btree_sig2, Node, node_key, set_node_key, node_value, set_node_value,
}
use ddfs.Btree.Node.Slots.{entry_at, key_of}
use ddfs.Btree.Ops.{is_full, copy_key_value, shift_kv, put_key_value}
use ddfs.Btree.Search.{search_loop, key_probably_inside, has_key, find_key_index}
use ddfs.Btree.Tree.{Tree, at_index, node_find_key, find_key}
use ddfs.Btree.Tree.Insert.{write, insert_leaf, node_insert_nonfull, insert_key}
use ddfs.Btree.Tree.Leaf.{look_up, IsLeafTree, look_up-cases, look_up-held}
use ddfs.Core.Balloc.{
  Sb, Errno, Io, block_bm_bit, find_set_free_bit, alloc_loop, block_alloc, success, eio,
}
use ddfs.Core.Balloc.Position.{IsBitmap, bit_of}
use ddfs.Core.Balloc.Scan.{scan_bits, long_full, scan_longs}
use ddfs.Core.Inode.{
  Inode, InodeDisk, inode_sig1, inode_sig2, set_size, to_on_disk, parse_on_disk, World, inode_write,
  write_dirty,
}
use ddfs.Core.Inode.Allocated.{AllocatedSays}
use ddfs.Core.Inode.Allocates.{alloc_block-AllocatedSays}
use ddfs.Core.Inode.Block.{
  same_sum, BlockOut, block_write, block_read, alloc_open, alloc_sum, alloc_block,
  block_read_create,
}
use ddfs.Core.Inode.Buf.{
  BufOut, read_block_buf, grow, write_block_buf, block_buf, io_loop, io_buf, io_pages, reading,
  writing,
}
use ddfs.Core.Inode.Contract.{InUse, IsTaken}
use ddfs.Core.Inode.Created.{IsSound, CreateSays}
use ddfs.Core.Inode.Creates.{block_read_create-CreateSays}
use ddfs.Core.Inode.Grow.{IsFile}
use ddfs.Core.Inode.Image.{IsParsed, parse_on_disk-to_on_disk, parse_on_disk-IsParsed}
use ddfs.Core.Inode.Leaves.{leaf_trees, leaf_contract}
use ddfs.Core.Inode.Paged.{paged, to_write, io_pages-StreamSays}
use ddfs.Core.Inode.ReadBack.{IsBack}
use ddfs.Core.Inode.Reads.{ReadSays, read_block_buf-ReadSays}
use ddfs.Core.Inode.RoundTrip.{io_buf-round_trip}
use ddfs.Core.Inode.Stream.{StreamSays}
use ddfs.Core.Inode.Streams.{io_buf-StreamSays}
use ddfs.Core.Inode.Summed.{IsSummed}
use ddfs.Core.Inode.Waits.{read-write-waits}
use ddfs.Core.Inode.Writes.{write_block_buf-WriteSays}
use ddfs.Core.Inode.Written.{WriteSays}
use ddfs.Core.Super.Format.{IsGood}
use mathlib.Core.Path.{subst}

-- A leaf without keys at a block, and a tree that is one.
abbrev empty_leaf : ℕ → Node
empty_leaf b = record {
  sig1 = btree_sig1;
  t = btree_t;
  block = b;
  leaf = 1;
  nr_keys = 0;
  keys = λ _ _. 0;
  values = λ _ _. 0;
  children = λ _. none;
  sig2 = btree_sig2;
}

abbrev tree_of : ℕ → Node → Tree
tree_of b n = record {
  root = b;
  nodes = λ x. if x == b then some n else none;
  free = [];
  releasing = false;
}

abbrev empty_tree : ℕ → Tree
empty_tree b = tree_of b (empty_leaf b)

empty_tree-IsLeafTree : (b : ℕ) → IsLeafTree (empty_tree b)
empty_tree-IsLeafTree b = record {
  node = empty_leaf b;
  alive = refl;
  root = rw (==-refl b) refl;
  block = refl;
  leaf = refl;
  sorted = λ i j l h. absurd (omega (arith, h));
  below = λ i h. absurd (omega (arith, h));
}

look_up-empty : (b k : ℕ) → look_up (empty_tree b) k ≡ none
unfolding empty_tree-IsLeafTree
look_up-empty b k = elim (look_up-cases (empty_tree b) (empty_tree-IsLeafTree b) k) [
  | inr (e, _) ↦ e
  | inl (v, _, h) ↦ absurd (no_slot h.0 h.1)
]
  where
    no_slot : (i : ℕ) → ¬ (i < 0)
    no_slot i h = omega arith

abbrev good_disk : Io
good_disk = record { get = λ _. true; zeroed = λ _. success; sync = λ _. success }

good_disk-IsGood : IsGood good_disk
good_disk-IsGood = record { get = λ _. refl; zeroed = λ _. refl; sync = λ _. refl }

abbrev sum_up : List ℕ → ℕ
sum_up [] = 0
sum_up (x ∷ xs) = x + 31 * sum_up xs

abbrev no_sum : List ℕ → ℕ
no_sum _ = 0

-- Blocks of one page; the first eight are in use.
abbrev small_sb : Sb
small_sb = record {
  bm_block = 1;
  bm_blocks = 1;
  nr_blocks = 100;
  bsize = 4096;
  used_blocks = 8;
  bits = λ c k. c == 1 && ltb k 8;
  read_locks = λ _. 0;
  sb_unlocks = 0;
  id = record { high = 7; low = 9 };
  magic = 0;
  version = 0;
  size = 0;
  inodes_tree_block = 0;
  stopping = false;
}

small_sb-IsBitmap : IsBitmap small_sb 1
small_sb-IsBitmap = record {
  pages = refl;
  one_page = omega arith;
  word = omega arith;
  covers = omega arith;
  fits = omega arith;
}

abbrev an_inode : ℕ → Tree → Tree → Inode Tree
an_inode size bt st = record {
  sig1 = inode_sig1;
  ino = record { high = 3; low = 5 };
  block = 3;
  size = size;
  blocks_tree_block = 0;
  blocks_sum_tree_block = 0;
  blocks_tree = bt;
  blocks_sum_tree = st;
  dirty = false;
  readers = 0;
  sig2 = inode_sig2;
}

-- An inode without blocks.
abbrev empty_world : World Tree
empty_world = record {
  sb = small_sb;
  clusters = λ _ _. 0;
  images = λ b.
      if b == 3 then some (to_on_disk sum_up (an_inode 0 (empty_tree 6) (empty_tree 7))) else none;
  inode = an_inode 0 (empty_tree 6) (empty_tree 7);
}

nothing : {x : ℕ} {A : Type 0} → none ≡ some x → A
nothing e = absurd (differ e)
  where
    differ : {x : ℕ} → none ≢ some x
    differ h = cc

-- Blocks 6 and 7 are those of the trees.
tree_used : (c b : ℕ) → (c ≡ 6) ⊎ (c ≡ 7) → (b == c) ≡ true → InUse small_sb b
unfolding block_bm_bit
tree_used c b (inl e) own = ap (bit_of small_sb) ((==_iff b c).0 own ∙ e)
tree_used c b (inr e) own = ap (bit_of small_sb) ((==_iff b c).0 own ∙ e)

tree_apart : (b : ℕ) → (b == 6) ≡ true → (b == 7) ≡ false
tree_apart b own = ap (λ x. x == 7) ((==_iff b 6).0 own)

empty_world-IsFile : IsFile leaf_trees leaf_contract 1 sum_up good_disk good_disk-IsGood empty_world
unfolding leaf_contract
empty_world-IsFile = record {
  sound = record {
    mapped = record {
      bitmap = small_sb-IsBitmap;
      bt_fit = empty_tree-IsLeafTree 6;
      st_fit = empty_tree-IsLeafTree 7;
      bt_used = λ b own. tree_used 6 b (inl refl) own;
      st_used = λ b own. tree_used 7 b (inr refl) own;
      apart = tree_apart;
      data_taken = λ v b e. nothing (sym (look_up-empty 6 v) ∙ e);
      sum_taken = λ v b e. nothing (sym (look_up-empty 7 v) ∙ e);
      data_once = λ v v' b e. nothing (sym (look_up-empty 6 v) ∙ e);
      sum_once = λ v v' b e. nothing (sym (look_up-empty 7 v) ∙ e);
      data_sum = λ v s b e. nothing (sym (look_up-empty 6 v) ∙ e);
    };
    summed = λ v b _ e. nothing (sym (look_up-empty 6 v) ∙ e);
    small = λ v b e. nothing (sym (look_up-empty 6 v) ∙ e);
  };
  saved = record { placed = refl; clean = refl; imaged = refl };
}

alloc_block-AllocatedSays_example :
    (o : BlockOut Tree) × (alloc_block leaf_trees sum_up good_disk empty_world 2 ≡ some o)
    × AllocatedSays leaf_trees leaf_contract 1 sum_up good_disk good_disk-IsGood empty_world 2 o
unfolding leaf_contract
alloc_block-AllocatedSays_example =
    alloc_block-AllocatedSays leaf_trees leaf_contract 1 sum_up good_disk good_disk-IsGood
      empty_world 2 empty_world-IsFile.sound.mapped (omega arith) (look_up-empty 6 2)

block_read_create-CreateSays_example :
    (o : BlockOut Tree) × (block_read_create leaf_trees sum_up good_disk empty_world 2 ≡ some o)
    × CreateSays leaf_trees leaf_contract 1 sum_up good_disk good_disk-IsGood empty_world 2 o
unfolding leaf_contract
block_read_create-CreateSays_example =
    block_read_create-CreateSays leaf_trees leaf_contract 1 sum_up good_disk good_disk-IsGood
      empty_world 2 empty_world-IsFile.sound (omega arith) (omega arith)

abbrev letters : ℕ → ℕ
letters i = 65 + i

write_block_buf-WriteSays_example :
    (o : BufOut Tree) × (write_block_buf leaf_trees sum_up good_disk empty_world 2 5 letters 3
      ≡ some o)
    × WriteSays leaf_trees leaf_contract 1 sum_up good_disk good_disk-IsGood empty_world 2 5 letters
        3 o
unfolding leaf_contract
write_block_buf-WriteSays_example =
    write_block_buf-WriteSays leaf_trees leaf_contract 1 sum_up good_disk good_disk-IsGood
      empty_world 2 5 letters 3 empty_world-IsFile refl (omega arith) (omega arith) (omega arith)

io_buf-StreamSays_example :
    (o : BufOut Tree) × (io_buf leaf_trees sum_up good_disk empty_world 4094 (writing letters) 5
      ≡ some o)
    × StreamSays leaf_trees leaf_contract 1 sum_up good_disk good_disk-IsGood 4096 empty_world 4094
        letters 5 o
unfolding leaf_contract
io_buf-StreamSays_example =
    io_buf-StreamSays leaf_trees leaf_contract 1 sum_up good_disk good_disk-IsGood empty_world 4094
      letters 5 empty_world-IsFile refl (omega arith) (omega arith) (omega arith)

read_block_buf-ReadSays_example :
    (o : BufOut Tree) × (read_block_buf leaf_trees sum_up good_disk empty_world 0 1 3 ≡ some o)
    × ReadSays leaf_trees leaf_contract 1 sum_up good_disk good_disk-IsGood empty_world 0 1 3 o
read_block_buf-ReadSays_example =
    read_block_buf-ReadSays leaf_trees leaf_contract 1 sum_up good_disk good_disk-IsGood empty_world
      0 1 3 empty_world-IsFile.sound (omega arith) (omega arith) (omega arith)

-- What a write to the empty inode gives.
abbrev out_of : Option (BufOut Tree) → BufOut Tree
out_of (some o) = o
out_of none = record { world = empty_world; errno = eio; count = 0; eof = false; bytes = [] }

abbrev first_write : Option (BufOut Tree)
first_write = io_buf leaf_trees sum_up good_disk empty_world 1 (writing letters) 3

-- A call that gives a result gives that of `out_of`.
runs :
    {X : BufOut Tree → Type 0} (x : Option (BufOut Tree))
    → ((o : BufOut Tree) × (x ≡ some o) × X o)
    → x ≡ some (out_of x)
runs x (o, e, _) = e ∙ ap (λ y. some (out_of y)) (sym e)

first_write-runs : first_write ≡ some (out_of first_write)
unfolding leaf_contract
first_write-runs = runs first_write (
    io_buf-StreamSays leaf_trees leaf_contract 1 sum_up good_disk good_disk-IsGood empty_world 1
      letters 3 empty_world-IsFile refl (omega arith) (omega arith) (omega arith))

first_write-done : (out_of first_write).errno ≡ success
unfolding io_buf io_loop block_buf write_block_buf block_read_create block_read alloc_block
    alloc_sum alloc_open block_write grow write_dirty inode_write set_size to_on_disk block_alloc
    alloc_loop find_set_free_bit scan_longs scan_bits long_full find_key node_find_key insert_key
    is_full node_insert_nonfull has_key key_probably_inside insert_leaf find_key_index put_key_value
    write search_loop at_index set_node_key set_node_value node_key node_value copy_key_value
    shift_kv
first_write-done = refl

io_buf-round_trip_example :
    (o : BufOut Tree) × (io_buf leaf_trees sum_up good_disk (out_of first_write).world 1 reading 3
      ≡ some o)
    × IsBack leaf_trees leaf_contract 1 sum_up good_disk good_disk-IsGood
        (out_of first_write).world
        letters
        3
        o
unfolding leaf_contract
io_buf-round_trip_example =
    io_buf-round_trip leaf_trees leaf_contract 1 sum_up good_disk good_disk-IsGood empty_world 1
      letters 3 (out_of first_write) empty_world-IsFile refl (omega arith) (omega arith)
      (omega arith) (omega arith) (omega arith) first_write-runs first_write-done

-- A tree of one leaf that gives `v` for the key 0.
abbrev one_leaf_node : ℕ → ℕ → Node
one_leaf_node b v = record (empty_leaf b) { nr_keys = 1; values = λ _ _. v }

abbrev one_tree : ℕ → ℕ → Tree
one_tree b v = tree_of b (one_leaf_node b v)

one_tree-IsLeafTree : (b v : ℕ) → IsLeafTree (one_tree b v)
unfolding key_of
one_tree-IsLeafTree b v = record {
  node = one_leaf_node b v;
  alive = refl;
  root = rw (==-refl b) refl;
  block = refl;
  leaf = refl;
  sorted = λ i j l h. absurd (omega (arith, l, h));
  below = λ i h. omega arith;
}

one_here : (b v : ℕ) → look_up (one_tree b v) 0 ≡ some v
unfolding entry_at one_tree-IsLeafTree
one_here b v = look_up-held (one_tree b v) (one_tree-IsLeafTree b v) 0 v (0, omega arith, refl)

one_entry : (b v k w : ℕ) → look_up (one_tree b v) k ≡ some w → (k ≡ 0) × (w ≡ v)
unfolding entry_at one_tree-IsLeafTree
one_entry b v k w e = elim (look_up-cases (one_tree b v) (one_tree-IsLeafTree b v) k) [
  | inr (gone, _) ↦ nothing (sym gone ∙ e)
  | inl (x, found, (i, h, at)) ↦ (
    sym (ap (λ (p : ℕ × ℕ). p.0) at),
    from_some (sym e ∙ found) ∙ sym (ap (λ (p : ℕ × ℕ). p.1) at),
  )
]
  where
    from_some : {x y : ℕ} → some x ≡ some y → x ≡ y
    from_some f = cc

-- An inode of two bytes, with one block of data and one for checksums.
abbrev block_world : World Tree
block_world = record empty_world { inode = an_inode 2 (one_tree 6 4) (one_tree 7 5) }

IsTaken-block :
    (b : ℕ)
    → (b ≡ 4) ⊎ (b ≡ 5)
    → IsTaken leaf_trees leaf_contract 1 small_sb (one_tree 6 4) (one_tree 7 5) b
unfolding leaf_contract block_bm_bit
IsTaken-block b (inl e) = record {
  used = ap (bit_of small_sb) e;
  not_bt = ap (λ x. x == 6) e;
  not_st = ap (λ x. x == 7) e;
}
IsTaken-block b (inr e) = record {
  used = ap (bit_of small_sb) e;
  not_bt = ap (λ x. x == 6) e;
  not_st = ap (λ x. x == 7) e;
}

block_world-IsSound :
    IsSound leaf_trees leaf_contract 1 no_sum good_disk good_disk-IsGood block_world
unfolding leaf_contract same_sum
block_world-IsSound = record {
  mapped = record {
    bitmap = small_sb-IsBitmap;
    bt_fit = one_tree-IsLeafTree 6 4;
    st_fit = one_tree-IsLeafTree 7 5;
    bt_used = λ b own. tree_used 6 b (inl refl) own;
    st_used = λ b own. tree_used 7 b (inr refl) own;
    apart = tree_apart;
    data_taken = λ v b e. IsTaken-block b (inl (one_entry 6 4 v b e).1);
    sum_taken = λ s c e. IsTaken-block c (inr (one_entry 7 5 s c e).1);
    data_once = λ v v' b e f. (one_entry 6 4 v b e).0 ∙ sym (one_entry 6 4 v' b f).0;
    sum_once = λ v v' b e f. (one_entry 7 5 v b e).0 ∙ sym (one_entry 7 5 v' b f).0;
    data_sum = λ v s b e f. omega (arith, (one_entry 6 4 v b e).1, (one_entry 7 5 s b f).1);
  };
  summed = λ v b _ e.
      subst
        (λ x. IsSummed leaf_trees leaf_contract 1 no_sum good_disk good_disk-IsGood block_world x b)
        (sym (one_entry 6 4 v b e).0)
        (record { sum_block = 5; found = one_here 7 5; agrees = refl });
  small = λ v b e. omega (arith, (one_entry 6 4 v b e).0);
}

abbrev first_read : Option (BufOut Tree)
first_read = read_block_buf leaf_trees no_sum good_disk block_world 0 0 2

first_read-runs : first_read ≡ some (out_of first_read)
first_read-runs = runs first_read (
    read_block_buf-ReadSays leaf_trees leaf_contract 1 no_sum good_disk good_disk-IsGood block_world
      0 0 2 block_world-IsSound (omega arith) (omega arith) (omega arith))

read-write-waits_example :
    write_block_buf leaf_trees no_sum good_disk (out_of first_read).world 0 1 letters 3 ≡ none
read-write-waits_example =
    read-write-waits leaf_trees leaf_contract 1 no_sum good_disk good_disk-IsGood block_world 0 4 0
      2 (out_of first_read) 1 letters 3 block_world-IsSound (omega arith) (omega arith)
      (omega arith) (omega arith) (omega arith) (one_here 6 4) first_read-runs

abbrev an_image : InodeDisk
an_image = record {
  sig1 = inode_sig1;
  ino = record { high = 3; low = 5 };
  size = 2;
  blocks_tree_block = 6;
  blocks_sum_tree_block = 7;
  sum = 0;
  sig2 = inode_sig2;
}

abbrev read_inode : Errno × Inode Tree
read_inode = parse_on_disk no_sum (an_inode 0 (empty_tree 6) (empty_tree 7)) an_image

read_inode-runs : read_inode ≡ (success, read_inode.1)
unfolding parse_on_disk
read_inode-runs = refl

parse_on_disk-IsParsed_example :
    IsParsed no_sum (an_inode 0 (empty_tree 6) (empty_tree 7)) an_image read_inode.1
parse_on_disk-IsParsed_example =
    parse_on_disk-IsParsed no_sum (an_inode 0 (empty_tree 6) (empty_tree 7)) an_image read_inode.1
      read_inode-runs

parse_on_disk-to_on_disk_example :
    parse_on_disk no_sum
      (an_inode 0 (empty_tree 6) (empty_tree 7))
      (to_on_disk no_sum block_world.inode)
    ≡ (success, an_inode 2 (empty_tree 6) (empty_tree 7))
parse_on_disk-to_on_disk_example =
    parse_on_disk-to_on_disk no_sum (an_inode 0 (empty_tree 6) (empty_tree 7)) block_world.inode

io_pages-StreamSays_example :
    (o : BufOut Tree) × (io_pages leaf_trees sum_up good_disk
        (to_write (letters ∷ letters ∷ []))
        empty_world
        4094
        4095
        3
      ≡ some o)
    × StreamSays leaf_trees leaf_contract 1 sum_up good_disk good_disk-IsGood 4096 empty_world 4094
        (paged (letters ∷ letters ∷ []) 4095)
        3
        o
unfolding leaf_contract
io_pages-StreamSays_example =
    io_pages-StreamSays leaf_trees leaf_contract 1 sum_up good_disk good_disk-IsGood
      (letters ∷ letters ∷ []) empty_world 4094 4095 3 empty_world-IsFile refl (omega arith)
      (omega arith) (omega arith) (omega arith)
