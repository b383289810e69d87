-- ===== src/Btree/Node/Kids.antt =====
-- The slots of children, for a node that has all its pages.
-- The child of a slot; 0 where the page is NULL.
use ddfs.Base.{
  ℕ, ◌+◌, ◌<◌, ◌≡◌, refl, ◌≢◌, inl, inr, false, none, some, List, arith, leb, ◌==◌, if◌then◌else◌,
  ==_iff, Bool-cases, Option-cases, tab, update,
}
use ddfs.Btree.Node.{
  child_pages, Key, Node, pg_idx, pg_off, child_page_at, child_at, node_child, set_node_child,
}
use ddfs.Btree.Node.Slots.{entry_at}

unfoldable pub kid_at : Node → ℕ → ℕ
kid_at n i = child_at n i

-- The entries in use and the children in use, in order.
abbrev pub entries : Node → List (Key × ℕ)
entries n = tab (entry_at n) n.nr_keys

abbrev pub kids : Node → List ℕ
kids n = tab (kid_at n) (n.nr_keys + 1)

-- No page of children is NULL.
abbrev pub HasPages : Node → Type 0
HasPages n = (p : ℕ) → p < child_pages → n.children p ≢ none

unfoldable pub with_child : Node → ℕ → ℕ → Node
with_child n i v = record n {
  children =
      update n.children (pg_idx 8 i)
        (some (update (child_page_at (n.children (pg_idx 8 i))) (pg_off 8 i) v));
}

pub node_child-in : (n : Node) (i : ℕ) → HasPages n → i < 2048 → node_child n i ≡ some (kid_at n i)
unfolding node_child kid_at
node_child-in n i pages h = elim (Option-cases (n.children (pg_idx 8 i))) [
  | inl gone ↦ absurd (pages (pg_idx 8 i) (omega arith) gone)
  | inr (page, e) ↦ rw (inside, e) refl
]
  where
    inside : leb child_pages (pg_idx 8 i) ≡ false
    inside = ground arith

pub set_node_child-in :
    (n : Node) (i v : ℕ) → HasPages n → i < 2048 → set_node_child n i v ≡ some (with_child n i v)
unfolding set_node_child with_child
set_node_child-in n i v pages h = elim (Option-cases (n.children (pg_idx 8 i))) [
  | inl gone ↦ absurd (pages (pg_idx 8 i) (omega arith) gone)
  | inr (page, e) ↦ rw (inside, e) refl
]
  where
    inside : leb child_pages (pg_idx 8 i) ≡ false
    inside = ground arith

pub kid_at-with_child :
    (n : Node) (i j v : ℕ) → kid_at (with_child n i v) j ≡ (if j == i then v else kid_at n j)
unfolding kid_at with_child
kid_at-with_child n i j v = elim (Bool-cases (pg_idx 8 j == pg_idx 8 i)) [
  | inl same ↦
      rw same (let e : pg_idx 8 j ≡ pg_idx 8 i = (==_iff _ _).0 same in rw (← e) (ground arith))
  | inr other ↦ rw other (ground arith)
]

pub with_child-HasPages : (n : Node) (i v : ℕ) → HasPages n → HasPages (with_child n i v)
unfolding with_child
with_child-HasPages n i v pages p h = ground (arith, pages p h)

pub kid_at-nr : (n : Node) (k j : ℕ) → kid_at (record n { nr_keys = k }) j ≡ kid_at n j
unfolding kid_at
kid_at-nr n k j = refl
