-- ===== src/Btree/Node.antt =====
-- The in-memory B-tree node of core/btree.h and the slot accessors of core/btree.c.
pub mod Slots
pub mod Kids
use ddfs.Base.{
  ℕ, ◌*◌, ◌/◌, ◌%◌, Bool, ◌&&◌, Option, none, some, leb, ◌==◌, if◌then◌else◌, ◌>>=◌, ◌>>◌, bug_on,
  update,
}

-- NKFS_BTREE_T
abbrev pub btree_t : ℕ
btree_t = 896

abbrev pub key_pages : ℕ
key_pages = 7

abbrev pub child_pages : ℕ
child_pages = 4

abbrev pub value_pages : ℕ
value_pages = 4

abbrev pub page_size : ℕ
page_size = 4096

abbrev pub btree_sig1 : ℕ
btree_sig1 = 0xCBACBADA

abbrev pub btree_sig2 : ℕ
btree_sig2 = 0x3EFFEEFE

-- Sixteen bytes, read as one big-endian number: `memcmp` orders them as numbers.
abbrev pub Key : Type 0
Key = ℕ

-- `struct nkfs_btree_node`. A page is a function from a byte offset to the item that begins there.
-- `none` among the children's pages is a NULL `struct page *`.
pub record Node : Type 0 where
  pub sig1 : ℕ
  pub t : ℕ
  pub block : ℕ
  pub leaf : ℕ
  pub nr_keys : ℕ
  pub keys : ℕ → ℕ → Key
  pub values : ℕ → ℕ → ℕ
  pub children : ℕ → Option (ℕ → ℕ)
  pub sig2 : ℕ

-- The page and the offset in it of slot `index`, for items of `size` bytes.
abbrev pub pg_idx : ℕ → ℕ → ℕ
pg_idx size index = index * size / page_size

abbrev pub pg_off : ℕ → ℕ → ℕ
pg_off size index = index * size % page_size

-- What stands at a slot, when its page is there.
abbrev pub key_at : Node → ℕ → Key
key_at n i = n.keys (pg_idx 16 i) (pg_off 16 i)

abbrev pub value_at : Node → ℕ → ℕ
value_at n i = n.values (pg_idx 8 i) (pg_off 8 i)

-- A page of children that is NULL holds no item; the map of a node has 0 there.
abbrev pub child_page_at : Option (ℕ → ℕ) → ℕ → ℕ
child_page_at none off = 0
child_page_at (some p) off = p off

abbrev pub child_at : Node → ℕ → ℕ
child_at n i = child_page_at (n.children (pg_idx 8 i)) (pg_off 8 i)

-- A write of `v` at a page and an offset.
abbrev pub poke : (ℕ → ℕ → ℕ) → ℕ → ℕ → ℕ → ℕ → ℕ → ℕ
poke f pg off v p o = if p == pg && o == off then v else f p o

-- `nkfs_btree_node_key` hands out a pointer; here a read through it and a write through it.
unfoldable pub node_key : Node → ℕ → Option Key
node_key n index = do bug_on (leb key_pages (pg_idx 16 index)); some (key_at n index)

unfoldable pub set_node_key : Node → ℕ → Key → Option Node
set_node_key n index k = do
  bug_on (leb key_pages (pg_idx 16 index))
  some (record n { keys = poke n.keys (pg_idx 16 index) (pg_off 16 index) k })

unfoldable pub node_value : Node → ℕ → Option ℕ
node_value n index = do bug_on (leb value_pages (pg_idx 8 index)); some (value_at n index)

unfoldable pub set_node_value : Node → ℕ → ℕ → Option Node
set_node_value n index v = do
  bug_on (leb value_pages (pg_idx 8 index))
  some (record n { values = poke n.values (pg_idx 8 index) (pg_off 8 index) v })

pub node_child : Node → ℕ → Option ℕ
node_child n index = do
  bug_on (leb child_pages (pg_idx 8 index))
  page ← n.children (pg_idx 8 index)
  some (page (pg_off 8 index))

pub set_node_child : Node → ℕ → ℕ → Option Node
set_node_child n index v = do
  bug_on (leb child_pages (pg_idx 8 index))
  page ← n.children (pg_idx 8 index)
  some (record n {
    children = update n.children (pg_idx 8 index) (some (update page (pg_off 8 index) v));
  })

-- `nkfs_btree_node_zero_pages`: the header is not part of the record, its fields are.
unfoldable pub zero_pages : Node → Node
zero_pages n = record n { keys = λ _ _. 0; values = λ _ _. 0; children = λ _. some (λ _. 0) }

-- `nkfs_btree_node_alloc` when memory suffices: `fresh` holds the new pages. The rest of the
-- structure is cleared first, and the pages only on request.
pub node_alloc : Node → Bool → Node
unfolding zero_pages
node_alloc fresh zeroed =
    let blank = record fresh { block = 0; leaf = 0; nr_keys = 0 } in
    record (if zeroed then zero_pages blank else blank) {
      t = btree_t;
      sig1 = btree_sig1;
      sig2 = btree_sig2;
    }
