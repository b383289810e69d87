-- ===== src/Btree/Node/Slots.antt =====
-- The slots of a node's pages: no two share an address, and a write changes its own slot alone.
use ddfs.Base.{ℕ, ◌<◌, ◌≡◌, refl, false, some, arith, leb, ◌==◌, if◌then◌else◌}
use ddfs.Btree.Node.{
  key_pages, value_pages, Key, Node, pg_idx, pg_off, key_at, value_at, poke, node_key, set_node_key,
  node_value, set_node_value,
}

-- A slot is in its pages up to the number that the pages hold.
pub node_key-in : (n : Node) (i : ℕ) → i < 1792 → node_key n i ≡ some (key_at n i)
unfolding node_key
node_key-in n i h = ground arith

pub node_value-in : (n : Node) (i : ℕ) → i < 2048 → node_value n i ≡ some (value_at n i)
unfolding node_value
node_value-in n i h = ground arith

-- What a node is after one write of a key, seen slot by slot.
abbrev pub with_key : Node → ℕ → Key → Node
with_key n i k = record n { keys = poke n.keys (pg_idx 16 i) (pg_off 16 i) k }

abbrev pub with_value : Node → ℕ → ℕ → Node
with_value n i v = record n { values = poke n.values (pg_idx 8 i) (pg_off 8 i) v }

pub set_node_key-in :
    (n : Node) (i : ℕ) (k : Key) → i < 1792 → set_node_key n i k ≡ some (with_key n i k)
unfolding set_node_key
set_node_key-in n i k h = rw (lemma) refl
  where
    lemma : leb key_pages (pg_idx 16 i) ≡ false
    lemma = ground arith

pub set_node_value-in :
    (n : Node) (i v : ℕ) → i < 2048 → set_node_value n i v ≡ some (with_value n i v)
unfolding set_node_value
set_node_value-in n i v h = rw (lemma) refl
  where
    lemma : leb value_pages (pg_idx 8 i) ≡ false
    lemma = ground arith

pub key_at-with_key :
    (n : Node) (i j : ℕ) (k : Key) → key_at (with_key n i k) j ≡ (if j == i then k else key_at n j)
key_at-with_key n i j k = ground arith

pub value_at-with_value :
    (n : Node) (i j v : ℕ) → value_at (with_value n i v) j ≡ (if j == i then v else value_at n j)
value_at-with_value n i j v = ground arith

-- The key and the value of a slot.
unfoldable pub entry_at : Node → ℕ → Key × ℕ
entry_at n i = (key_at n i, value_at n i)

-- The key of a slot.
unfoldable pub key_of : Node → ℕ → Key
key_of n i = key_at n i

pub entry_at-key : (n : Node) (i : ℕ) → (entry_at n i).0 ≡ key_of n i
unfolding entry_at key_of
entry_at-key n i = refl

pub node_key-of : (n : Node) (i : ℕ) → i < 1792 → node_key n i ≡ some (key_of n i)
unfolding key_of
node_key-of n i h = node_key-in n i h

pub entry_at-nr : (n : Node) (k j : ℕ) → entry_at (record n { nr_keys = k }) j ≡ entry_at n j
unfolding entry_at
entry_at-nr n k j = refl
