-- ===== src/Btree/Ops/Pages.antt =====
-- `__nkfs_btree_node_delete_child_index` moves entries of the array of the node's four pages of
-- children where it means to move children.
use ddfs.Base.{
  ℕ, zero, suc, ◌+◌, ◌-◌, ◌≤◌, ◌<◌, ◌≡◌, refl, inl, inr, false, Option, none, some, arith, leb,
  le→leb, Bool-cases, ◌>>=◌, bind-some, update,
}
use ddfs.Btree.Node.{Node}
use ddfs.Btree.Ops.{page_ptr, set_page_ptr, pull_pages, delete_child_index}

pull_pages-out : (r i : ℕ) (n : Node) → 0 < r → 4 < i + r → pull_pages r i n ≡ none
unfolding pull_pages page_ptr set_page_ptr
pull_pages-out zero i n pos out = absurd (omega arith)
pull_pages-out (suc r) i n pos out = elim (Bool-cases (leb 4 i)) [
  | inl far ↦ rw far refl
  | inr near ↦
      rw (near, before near)
        (pull_pages-out r (i + 1) (record n { children = update n.children (i - 1) (n.children i) })
          (ground arith) (omega arith))
]
  where
    before : leb 4 i ≡ false → leb 4 (i - 1) ≡ false
    before near = ground arith

set_page_ptr-out : (n : Node) (i : ℕ) (p : Option (ℕ → ℕ)) → 4 ≤ i → set_page_ptr n i p ≡ none
unfolding set_page_ptr
set_page_ptr-out n i p h = rw (le→leb 4 i h) refl

-- The two steps of the deletion, for any number of rounds.
pull_then_clear :
    (n : Node) (index r : ℕ)
    → 4 ≤ index + r
    → (pull_pages r (index + 1) n >>= λ m. set_page_ptr m (index + r) none) ≡ none
unfolding pull_pages
pull_then_clear n index zero big = set_page_ptr-out n (index + 0) none big
pull_then_clear n index (suc r) big =
    rw (pull_pages-out (suc r) (index + 1) n (omega arith) (omega arith)) refl

-- At a node with four keys or more, deleting any child index runs outside the array of pages.
pub delete_child_index-out :
    (n : Node) (index : ℕ) → index ≤ n.nr_keys → 4 ≤ n.nr_keys → delete_child_index n index ≡ none
unfolding delete_child_index
delete_child_index-out n index le big =
    pull_then_clear n index (n.nr_keys + 1 - (index + 1)) (omega arith)

-- What the loop leaves when it stays inside the array.
record Pulled (n m : Node) : Type 0 where
  first : m.children 0 ≡ n.children 1
  keys : m.keys ≡ n.keys
  values : m.values ≡ n.values
  nr_keys : m.nr_keys ≡ n.nr_keys

pull_pages-Pulled :
    (r : ℕ) (n : Node) → 0 < r → r < 4 → (m : Node) × (pull_pages r 1 n ≡ some m) × Pulled n m
unfolding pull_pages page_ptr set_page_ptr
pull_pages-Pulled zero n pos small = absurd (omega arith)
pull_pages-Pulled (suc zero) n pos small =
    (_, refl, record { first = refl; keys = refl; values = refl; nr_keys = refl })
pull_pages-Pulled (suc (suc zero)) n pos small =
    (_, refl, record { first = refl; keys = refl; values = refl; nr_keys = refl })
pull_pages-Pulled (suc (suc (suc zero))) n pos small =
    (_, refl, record { first = refl; keys = refl; values = refl; nr_keys = refl })
pull_pages-Pulled (suc (suc (suc (suc r)))) n pos small = absurd (omega arith)

set_page_ptr-in :
    (n : Node) (i : ℕ) (p : Option (ℕ → ℕ))
    → i < 4
    → set_page_ptr n i p ≡ some (record n { children = update n.children i p })
unfolding set_page_ptr
set_page_ptr-in n i p h = rw inside refl
  where
    inside : leb 4 i ≡ false
    inside = ground arith

-- At a node with one to three keys, deleting child index 0 replaces the first whole page of
-- children by the second, leaves a NULL page at the index of the count, and keeps keys and
-- values.
pub delete_child_index-first :
    (n : Node)
    → 0 < n.nr_keys
    → n.nr_keys < 4
    → (m : Node) × (delete_child_index n 0 ≡ some m)
      × (m.children 0 ≡ n.children 1)
      × (m.children n.nr_keys ≡ none)
      × (m.keys ≡ n.keys)
      × (m.values ≡ n.values)
unfolding delete_child_index
delete_child_index-first n pos small =
    let r = n.nr_keys + 1 - (0 + 1) in
    let (m, e, s) = pull_pages-Pulled r n (omega arith) (omega arith) in
    (
      record m { children = update m.children (0 + r) none },
      bind-some _ e (set_page_ptr-in m (0 + r) none (omega arith)),
      ground (arith, s.first),
      ground arith,
      s.keys,
      s.values,
    )
