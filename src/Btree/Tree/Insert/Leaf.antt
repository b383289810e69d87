-- ===== src/Btree/Tree/Insert/Leaf.antt =====
-- Placing a key in a leaf.
use ddfs.Base.{
  ℕ, ◌+◌, ◌-◌, ◌*◌, ◌≤◌, ◌<◌, ◌≡◌, refl, ◌∙◌, ◌≢◌, ◌⊎◌, inl, inr, ◌&&◌, none, some, ◌∷◌, ◌++◌,
  arith, ltb, leb, ◌==◌, if◌then◌else◌, ltb→lt, Bool-cases, tab, slice, inserted, tab-inserted,
  bind-some, u32,
}
use ddfs.Btree.Node.{btree_t, Key, Node}
use ddfs.Btree.Node.Kids.{entries}
use ddfs.Btree.Node.Slots.{entry_at, key_of, entry_at-key, entry_at-nr}
use ddfs.Btree.Ops.Moves.{put_key_value-inserted}
use ddfs.Btree.Search.Answers.{Tells, IsLowerBound, find_key_index-IsLowerBound}
use ddfs.Btree.Search.Sound.{Sorted}
use ddfs.Btree.Tree.Insert.{insert_leaf}
use native.Mathlib.Nat.{le_trans, le_of_eq}

-- The keys of an array of entries into which one was put.
key_of-inserted :
    (n m : Node) (nr p : ℕ) (k v : ℕ)
    → ((j : ℕ) → entry_at m j ≡ inserted (entry_at n) nr p (k, v) j)
    → (j : ℕ)
    → key_of m j
      ≡ (if j == p then k else (if ltb p j && leb j nr then key_of n (j - 1) else key_of n j))
key_of-inserted n m nr p k v eq j =
    ground (arith, eq j, entry_at-key m j, entry_at-key n j, entry_at-key n (j - 1))

-- How a leaf `m` comes from `n` by placing the key at `p`.
pub record IsPlaced (n m : Node) (key : Key) (v p : ℕ) : Type 0 where
  pub list : entries m ≡ tab (entry_at n) p ++ ((key, v) ∷ slice (entry_at n) p (n.nr_keys - p))
  pub bound : p ≤ n.nr_keys
  pub sorted : Sorted m
  pub grown : m.nr_keys ≡ n.nr_keys + 1
  pub leaf : m.leaf ≡ n.leaf
  pub block : m.block ≡ n.block
  pub origin :
      (j : ℕ)
      → j < m.nr_keys
      → (key_of m j ≡ key) ⊎ ((i : ℕ) × (i < n.nr_keys) × (key_of m j ≡ key_of n i))

module _ (n m : Node) (key p : ℕ) (sorted : Sorted n) (lb : IsLowerBound n key p)
    (absent : Tells n key none)
    (keys : (j : ℕ)
      → key_of m j ≡ (
          if j == p
          then key
          else (if ltb p j && leb j n.nr_keys then key_of n (j - 1) else key_of n j))) where
  above : (i : ℕ) → p ≤ i → i < n.nr_keys → key < key_of n i
  above i le h = lt_of_le_ne (lb.after i le h) (absent i h)
    where
      lt_of_le_ne : {a b : ℕ} → a ≤ b → b ≢ a → a < b
      lt_of_le_ne h ne = omega arith

  placed-sorted : (i j : ℕ) → i < j → j < n.nr_keys + 1 → key_of m i < key_of m j
  placed-sorted i j l h = ground (
    arith,
    keys i,
    keys j,
    lb.bound,
    lb.before i,
    above (j - 1),
    sorted i j,
    sorted i (j - 1),
    sorted (i - 1) (j - 1),
  )

  placed-key :
      (j : ℕ)
      → j < n.nr_keys + 1
      → (key_of m j ≡ key) ⊎ ((i : ℕ) × (i < n.nr_keys) × (key_of m j ≡ key_of n i))
  placed-key j h = elim (Bool-cases (j == p)) [
    | inl e ↦ inl (keys j ∙ rw e refl)
    | inr ne ↦ elim (Bool-cases (ltb p j)) [
      | inl l ↦ inr (j - 1, omega (arith, ltb→lt p j l), ground (arith, keys j))
      | inr l ↦ inr (j, ground (arith, lb.bound), ground (arith, keys j))
    ]
  ]

-- Placing a key that a node with growing keys does not hold, where the node is not full, never
-- stops: the entries are those of before with the new one put in at an index, the keys still
-- grow, the count grows by one, leaf mark and block stay, and every key of the result is the new
-- one or an old one.
pub insert_leaf-IsPlaced :
    (n : Node) (key : Key) (v : ℕ)
    → Sorted n
    → n.nr_keys < 2 * btree_t - 1
    → ((i : ℕ) → i < n.nr_keys → key_of n i ≢ key)
    → (m : Node) × (p : ℕ) × (insert_leaf n key v ≡ some m) × IsPlaced n m key v p
unfolding insert_leaf
insert_leaf-IsPlaced n key v sorted room absent =
    let (p, found, lb) = find_key_index-IsLowerBound n key sorted (omega arith) in
    let (m, e, f, eq) = put_key_value-inserted n p lb.bound (omega arith) key v in
    let m' : Node = record m { nr_keys = u32 (m.nr_keys + 1) } in
    let size : m'.nr_keys ≡ n.nr_keys + 1 = omega (arith, f.nr_keys) in
    let eq' = λ (j : ℕ). entry_at-nr m (u32 (m.nr_keys + 1)) j ∙ eq j in
    let keys = key_of-inserted n m' n.nr_keys p key v eq' in
    (
      m',
      p,
      bind-some _ found (bind-some _ e refl),
      record {
        list =
            tab-inserted (entry_at n) (entry_at m') n.nr_keys p (key, v) m'.nr_keys lb.bound size
              eq';
        bound = lb.bound;
        sorted = λ i j l h.
            placed-sorted n m' key p sorted lb absent keys i j l (le_trans h (le_of_eq size));
        grown = size;
        leaf = f.leaf;
        block = f.block;
        origin = λ j h. placed-key n m' key p sorted lb absent keys j (le_trans h (le_of_eq size));
      },
    )
