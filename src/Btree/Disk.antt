-- ===== src/Btree/Disk.antt =====
-- A node on disk: `struct nkfs_btree_node_disk` of include/nkfs_image.h, and the conversions of
-- core/btree.c. A cluster is a row of 64-bit words, each read big-endian, which is what
-- `cpu_to_be64` and `be64_to_cpu` see; a key is two of them, the higher first.
pub mod Layout
pub mod RoundTrip
pub mod Reload
use ddfs.Base.{
  ℕ, zero, suc, ◌+◌, ◌-◌, ◌*◌, ◌/◌, ◌%◌, ◌^◌, Bool, true, false, not, ◌&&◌, ◌||◌, Option, none,
  some, List, [], ◌∷◌, ltb, leb, ◌==◌, if◌then◌else◌, tab, ◌>>=◌, ◌>>◌, bug_on,
}
use ddfs.Btree.Node.{
  key_pages, child_pages, value_pages, btree_sig1, btree_sig2, Key, Node, value_at, child_page_at,
}
use ddfs.Btree.Node.Kids.{kid_at}
use ddfs.Btree.Node.Slots.{key_of}

-- The header page's fields, in host order, and the words behind the header page.
pub record Cluster : Type 0 where
  pub sig1 : ℕ
  pub leaf : ℕ
  pub nr_keys : ℕ
  pub sum : ℕ
  pub sig2 : ℕ
  pub word : ℕ → ℕ

-- Words in a page.
abbrev pub page_words : ℕ
page_words = 512

-- Where the arrays of `struct nkfs_btree_node_disk` begin, in words. The structure declares its key
-- pages as `keys[NKFS_BTREE_VALUE_PAGES]`.
abbrev pub disk_keys : ℕ
disk_keys = page_words * 1

abbrev pub disk_children : ℕ
disk_children = page_words * (1 + value_pages)

abbrev pub disk_values : ℕ
disk_values = page_words * (1 + value_pages + child_pages)

-- Word `s` of a page of keys, of children and of values.
abbrev pub key_word : (ℕ → Key) → ℕ → ℕ
key_word page s = if s % 2 == 0 then page (16 * (s / 2)) / 2 ^ 64 else page (16 * (s / 2)) % 2 ^ 64

abbrev pub val_word : (ℕ → ℕ) → ℕ → ℕ
val_word page s = page (8 * s)

-- One page put into the cluster at word `base`.
abbrev pub copy_page : ℕ → (ℕ → ℕ) → (ℕ → ℕ) → ℕ → ℕ
copy_page base page words w =
    if leb base w && ltb w (base + page_words) then page (w - base) else words w

-- for (i = ...; i < ...; i++), a page each round
pub write_pages : ℕ → ℕ → ℕ → (ℕ → ℕ → ℕ) → (ℕ → ℕ) → ℕ → ℕ
write_pages zero i base pages words = words
write_pages (suc r) i base pages words =
    write_pages r (i + 1) base pages (copy_page (base + page_words * i) (pages i) words)

abbrev pub is_null : Option (ℕ → ℕ) → Bool
is_null none = true
is_null (some page) = false

-- A page of children that is NULL cannot be read.
abbrev pub null_page : Node → Bool
null_page n =
    is_null (n.children 0)
    || is_null (n.children 1)
    || is_null (n.children 2)
    || is_null (n.children 3)

-- `nkfs_btree_node_to_ondisk`, on a cluster whose header page holds the checksum already.
pub to_ondisk : Node → ℕ → Cluster → Option Cluster
to_ondisk n sum clu = do
  bug_on (null_page n)
  let keyed = write_pages key_pages 0 disk_keys (λ i. key_word (n.keys i)) clu.word
  let linked =
      write_pages child_pages 0 disk_children (λ i. val_word (child_page_at (n.children i))) keyed
  some (record {
    sig1 = n.sig1;
    leaf = n.leaf;
    nr_keys = n.nr_keys;
    sum = sum;
    sig2 = n.sig2;
    word = write_pages value_pages 0 disk_values (λ i. val_word (n.values i)) linked;
  })

-- `nkfs_btree_node_by_ondisk`, with the header's fields that `nkfs_btree_node_read` then takes over.
pub by_ondisk : Node → Cluster → Node
by_ondisk n clu = record n {
  sig1 = clu.sig1;
  sig2 = clu.sig2;
  leaf = clu.leaf;
  nr_keys = clu.nr_keys;
  keys = λ p off.
      clu.word (disk_keys + page_words * p + off / 8) * 2 ^ 64
      + clu.word (disk_keys + page_words * p + off / 8 + 1);
  children = λ p. some (λ off. clu.word (disk_children + page_words * p + off / 8));
  values = λ p off. clu.word (disk_values + page_words * p + off / 8);
}

-- The checksum of crt/csum.c and crt/xxhash.c, over the fields before the header's sum and the pages.
module _ (digest : List ℕ → List Key → List ℕ → List ℕ → ℕ) where
  -- `nkfs_btree_node_calc_sum`
  pub calc_sum : Node → ℕ
  calc_sum n =
      digest (n.sig1 ∷ n.leaf ∷ n.nr_keys ∷ []) (tab (key_of n) 1792) (tab (kid_at n) 2048)
        (tab (value_at n) 2048)

  -- The part of `nkfs_btree_node_write` behind its checks on the block and the tree.
  pub node_write : Node → Cluster → Option Cluster
  node_write n clu = do
    bug_on (not (n.sig1 == btree_sig1) || not (n.sig2 == btree_sig2))
    to_ondisk n (calc_sum n) clu

  -- The part of `nkfs_btree_node_read` behind the lookup of the block: `blank` is the node that
  -- `nkfs_btree_node_alloc` gave, and `none` is NULL.
  pub node_load : Node → Cluster → Option Node
  node_load blank clu =
      let node = by_ondisk blank clu in
      if not (node.sig1 == btree_sig1) || not (node.sig2 == btree_sig2)
      then none
      else (if not (calc_sum node == clu.sum) then none else some node)
