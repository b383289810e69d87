-- ===== src/Btree/Tree/Leaf.antt =====
-- A tree of core/btree.c that is one leaf, as a map: insertion and deletion change it at one key.
use ddfs.Base.{
  ℕ, zero, suc, ◌+◌, ◌-◌, ◌*◌, ◌≤◌, ◌<◌, ◌≡◌, refl, sym, ap, ◌∙◌, ◌≢◌, ◌⊎◌, inl, inr, false, Option,
  none, some, arith, ltb, ◌==◌, ltb→lt, ge→ltb, ltb→ge, ==_iff, ==-refl, Bool-cases,
}
use ddfs.Btree.Node.{btree_t, Key, Node, value_at}
use ddfs.Btree.Node.Slots.{entry_at, key_of}
use ddfs.Btree.Search.Answers.{Tells}
use ddfs.Btree.Search.Sound.{Sorted}
use ddfs.Btree.Tree.{Tree, Status, find_key, ok}
use ddfs.Btree.Tree.Delete.{delete_key}
use ddfs.Btree.Tree.Delete.Leaf.{IsDropped, delete_key-leaf}
use ddfs.Btree.Tree.Find.{find_key_lem}
use ddfs.Btree.Tree.Insert.{write, insert_key}
use ddfs.Btree.Tree.Insert.Find.{
  placed-here, placed-keeps, one_leaf, found_value, insert_key-IsPlaced,
}
use ddfs.Btree.Tree.Insert.Leaf.{IsPlaced}
use ddfs.Btree.Tree.Valid.{InNode, InNode-key}
use ddfs.Core.Inode.Mapped.{true-false}
use mathlib.Core.Path.{subst}

-- What a search gives, if it gives a value.
abbrev pub value_of : Option (Status × Option ℕ) → Option ℕ
value_of none = none
value_of (some o) = o.1

-- The value of a key.
abbrev pub look_up : Tree → Key → Option ℕ
look_up t k = value_of (find_key 1 t k)

-- The greatest count of keys of a node.
abbrev pub max_keys : ℕ
max_keys = 2 * btree_t - 1

-- A tree that is not being released and whose root is a leaf at its block, with growing keys that are
-- less than the greatest count of keys.
pub record IsLeafTree (t : Tree) : Type 0 where
  pub node : Node
  pub alive : t.releasing ≡ false
  pub root : t.nodes t.root ≡ some node
  pub block : node.block ≡ t.root
  pub leaf : (node.leaf == 0) ≡ false
  pub sorted : Sorted node
  pub below : (i : ℕ) → i < node.nr_keys → key_of node i < max_keys

-- Keys that grow are not less than their places.
above_place : (n : Node) → Sorted n → (i : ℕ) → i < n.nr_keys → i ≤ key_of n i
above_place n sorted zero h = omega arith
above_place n sorted (suc i) h =
    omega (arith, above_place n sorted i (omega arith), sorted i (suc i) (omega arith) h)

-- Keys that grow and stay below a bound leave room for those behind them.
room_behind :
    (n : Node) (bound : ℕ)
    → Sorted n
    → ((i : ℕ) → i < n.nr_keys → key_of n i < bound)
    → (d i : ℕ) → i + suc d ≡ n.nr_keys
    → key_of n i + suc d ≤ bound
room_behind n bound sorted below zero i e = omega (arith, below i (omega arith))
room_behind n bound sorted below (suc d) i e = omega (
  arith,
  room_behind n bound sorted below d (i + 1) (omega arith),
  sorted i (i + 1) (omega arith) (omega arith),
)

-- A leaf that gone a key below the bound is not full.
lacks-room :
    (n : Node) (bound k : ℕ)
    → Sorted n
    → ((i : ℕ) → i < n.nr_keys → key_of n i < bound)
    → k < bound
    → ((i : ℕ) → i < n.nr_keys → key_of n i ≢ k)
    → n.nr_keys < bound
lacks-room n bound k sorted below low gone = elim (Bool-cases (ltb n.nr_keys bound)) [
  | inl l ↦ ltb→lt n.nr_keys bound l
  | inr full ↦
      let many = ltb→ge n.nr_keys bound full in
      absurd (
        gone k (omega arith) (
          omega (
            arith,
            above_place n sorted k (omega arith),
            room_behind n bound sorted below (n.nr_keys - k - 1) k (omega arith),
          )))
]

small_leaf :
    (n : Node) (bound : ℕ)
    → Sorted n
    → ((i : ℕ) → i < n.nr_keys → key_of n i < bound)
    → n.nr_keys ≤ bound
small_leaf n bound sorted below = elim (Bool-cases (n.nr_keys == 0)) [
  | inl z ↦ omega (arith, (==_iff n.nr_keys 0).0 z)
  | inr some_keys ↦ omega (arith, room_behind n bound sorted below (n.nr_keys - 1) 0 (ground arith))
]

module _ (t : Tree) (f : IsLeafTree t) where
  pub few_keys : f.node.nr_keys ≤ max_keys
  few_keys = small_leaf f.node max_keys f.sorted f.below

  is_leaf : f.node.leaf ≢ 0
  is_leaf z = true-false ((==_iff f.node.leaf 0).1 z) f.leaf

  inj : {x y : Node} → some x ≡ some y → x ≡ y
  inj e = cc

  -- A search tells what the leaf holds.
  pub look_up-cases :
      (k : ℕ)
      → ((v : ℕ) × (look_up t k ≡ some v) × InNode f.node k v)
        ⊎ ((look_up t k ≡ none) × ((v : ℕ) → ¬ (InNode f.node k v)))
  look_up-cases k =
      elim (find_key_lem t k 0 0 (key_of f.node (f.node.nr_keys - 1) + 1) f.alive
        (one_leaf t f.node f.alive f.root is_leaf f.sorted few_keys)) [
          | inl (v, e, (n, e', h)) ↦
              inl (v, ap value_of e, subst (λ x. InNode x k v) (inj (sym e' ∙ f.root)) h)
          | inr (e, h) ↦ inr (ap value_of e, λ v w. h v (f.node, f.root, w))
        ]

  pub look_up-held : (k v : ℕ) → InNode f.node k v → look_up t k ≡ some v
  look_up-held k v h =
      ap value_of (found_value t f.node f.alive f.root is_leaf f.sorted few_keys k v h)

  pub look_up-lacks :
      (k : ℕ) → look_up t k ≡ none → (i : ℕ) → i < f.node.nr_keys → key_of f.node i ≢ k
  unfolding entry_at key_of
  look_up-lacks k e i h here = elim (look_up-cases k) [
    | inl (v, e', _) ↦ absurd (nothing (sym e ∙ e'))
    | inr (_, absent) ↦
        absent (value_at f.node i) (i, h, ap (λ (x : Key). (x, value_at f.node i)) here)
  ]
    where
      nothing : {x : ℕ} → none ≢ some x
      nothing h = cc

-- Two leaves of which each holds what the other has, but for one key.
same_elsewhere :
    (t t' : Tree) (f : IsLeafTree t) (f' : IsLeafTree t') (k : ℕ)
    → ((v : ℕ) → InNode f.node k v → InNode f'.node k v)
    → ((v : ℕ) → InNode f'.node k v → (w : ℕ) × InNode f.node k w)
    → look_up t' k ≡ look_up t k
same_elsewhere t t' f f' k there back = elim (look_up-cases t f k) [
  | inl (v, e, h) ↦ look_up-held t' f' k v (there v h) ∙ sym e
  | inr (e, absent) ↦ elim (look_up-cases t' f' k) [
    | inl (v, _, h) ↦ let (w, h') = back v h in absurd (absent w h')
    | inr (e', _) ↦ e' ∙ sym e
  ]
]

-- The key of an entry of a leaf, and its value.
in_slot : (n : Node) (i : ℕ) → i < n.nr_keys → InNode n (key_of n i) (value_at n i)
unfolding entry_at key_of
in_slot n i h = (i, h, refl)

-- A deletion keeps the entries of the other keys, and gives no new ones.
module _ (n m : Node) (key : Key) (d : IsDropped n m key) where
  dropped_keeps : (k v : ℕ) → k ≢ key → InNode n k v → InNode m k v
  dropped_keeps k v ne (i, h, e) = elim (Bool-cases (ltb i d.index)) [
    | inl low ↦
        let l = ltb→lt i d.index low in
        (
          i,
          omega (arith, l, d.inside, d.nr_keys),
          d.entry i (omega (arith, l, d.inside)) ∙ rw low e,
        )
    | inr high ↦
        let l = past i h e (ltb→ge i d.index high) in
        (
          i - 1,
          omega (arith, l, d.nr_keys),
          d.entry (i - 1) (omega (arith, l))
              ∙ rw (ge→ltb (i - 1) d.index (omega (arith, l)))
                  (ap (entry_at n) (back i (omega (arith, l))) ∙ e),
        )
  ]
    where
      back : (i : ℕ) → 0 < i → i - 1 + 1 ≡ i
      back i h = omega arith

      past : (i : ℕ) → i < n.nr_keys → entry_at n i ≡ (k, v) → d.index ≤ i → d.index < i
      past i h e le = elim (Bool-cases (i == d.index)) [
        | inl same ↦ absurd (
            ne (
              sym (InNode-key n k v (i, h, e))
              ∙ ap (key_of n) ((==_iff i d.index).0 same)
              ∙ d.here))
        | inr other ↦ ground arith
      ]

  dropped_from : (k v : ℕ) → InNode m k v → InNode n k v
  dropped_from k v (i, h, e) = elim (Bool-cases (ltb i d.index)) [
    | inl low ↦ (
      i,
      omega (arith, d.nr_keys),
      sym (sym e ∙ d.entry i (omega (arith, d.nr_keys)) ∙ rw low refl),
    )
    | inr high ↦ (
      i + 1,
      omega (arith, d.nr_keys),
      sym (sym e ∙ d.entry i (omega (arith, d.nr_keys)) ∙ rw high refl),
    )
  ]

-- The tree with another leaf for its root.
written-IsLeafTree :
    (t : Tree) (m : Node)
    → t.releasing ≡ false
    → m.block ≡ t.root
    → (m.leaf == 0) ≡ false
    → Sorted m
    → ((i : ℕ) → i < m.nr_keys → key_of m i < max_keys)
    → IsLeafTree (write t m)
unfolding write
written-IsLeafTree t m alive block leaf sorted below = record {
  node = m;
  alive = alive;
  root = rw (block, ==-refl t.root) refl;
  block = block;
  leaf = leaf;
  sorted = sorted;
  below = below;
}

-- The node at the root after that, whatever shows that the tree is one leaf.
module _ (t : Tree) (m : Node) (block : m.block ≡ t.root) (fit : IsLeafTree (write t m)) where
  written_node : fit.node ≡ m
  unfolding write
  written_node = from_some (sym fit.root ∙ rw (block, ==-refl t.root) refl)
    where
      from_some : {x y : Node} → some x ≡ some y → x ≡ y
      from_some e = cc

  into_written : (k v : ℕ) → InNode m k v → InNode fit.node k v
  into_written k v h = subst (λ x. InNode x k v) (sym written_node) h

  from_written : (k v : ℕ) → InNode fit.node k v → InNode m k v
  from_written k v h = subst (λ x. InNode x k v) written_node h

module _ (t : Tree) (f : IsLeafTree t) (key : Key) where
  -- What an operation on a leaf leaves: a leaf at the same block, which gives `v` for the key and what it
  -- gave for every other.
  pub record MapsTo (v : Option ℕ) (t' : Tree) : Type 0 where
    pub fit : IsLeafTree t'
    pub same_root : t'.root ≡ t.root
    pub here : look_up t' key ≡ v
    pub there : (k : ℕ) → k ≢ key → look_up t' k ≡ look_up t k

  placed-MapsTo :
      (m : Node) (v p : ℕ)
      → key < max_keys
      → IsPlaced f.node m key v p
      → MapsTo (some v) (write t m)
  unfolding write
  placed-MapsTo m v p low s =
      let block = s.block ∙ f.block in
      let fit =
        written-IsLeafTree t m f.alive block (ap (λ x. x == 0) s.leaf ∙ f.leaf) s.sorted
          (λ i h. from_origin i (s.origin i h)) in
      record {
        fit = fit;
        same_root = refl;
        here =
            look_up-held (write t m) fit key v
              (into_written t m block fit key v (placed-here f.node m key v p s));
        there = λ k ne.
            same_elsewhere t (write t m) f fit k
              (λ w h. into_written t m block fit k w (placed-keeps f.node m key v p s k w h))
              (λ w h.
                let h' = from_written t m block fit k w h in
                origin_of k w ne h' (s.origin h'.0 h'.1));
      }
    where
      from_origin :
          (i : ℕ)
          → (key_of m i ≡ key) ⊎ ((j : ℕ) × (j < f.node.nr_keys) × (key_of m i ≡ key_of f.node j))
          → key_of m i < max_keys
      from_origin i (inl e) = rw e low
      from_origin i (inr (j, h, e)) = rw e (f.below j h)

      origin_of :
          (k w : ℕ)
          → k ≢ key
          → (h : InNode m k w)
          → (key_of m h.0 ≡ key)
            ⊎ ((j : ℕ) × (j < f.node.nr_keys) × (key_of m h.0 ≡ key_of f.node j))
          → (x : ℕ) × InNode f.node k x
      origin_of k w ne h (inl e) = absurd (ne (sym (InNode-key m k w h) ∙ e))
      origin_of k w ne h (inr (j, l, e)) = (
        value_at f.node j,
        subst (λ y. InNode f.node y (value_at f.node j)) (sym e ∙ InNode-key m k w h)
            (in_slot f.node j l),
      )

  -- Inserting a key below the bound that the leaf look_up-lacks.
  pub insert_key-MapsTo :
      (fuel v : ℕ)
      → key < max_keys
      → look_up t key ≡ none
      → (t' : Tree) × (insert_key (suc fuel) t key v false ≡ some (ok, t')) × MapsTo (some v) t'
  insert_key-MapsTo fuel v low gone =
      let room = lacks-room f.node max_keys key f.sorted f.below low (look_up-lacks t f key gone) in
      let (m, p, run, s) =
        insert_key-IsPlaced fuel t f.node key v false f.alive f.root f.leaf f.sorted room
          (look_up-lacks t f key gone) in
      (write t m, run, placed-MapsTo m v p low s)

  -- Deleting a key that the leaf has.
  pub delete_key-MapsTo :
      (fuel v : ℕ)
      → look_up t key ≡ some v
      → (t' : Tree) × (delete_key (suc fuel) t key ≡ some (ok, t')) × MapsTo none t'
  unfolding write
  delete_key-MapsTo fuel v has =
      elim (delete_key-leaf fuel t f.node key f.alive f.root f.block f.leaf f.sorted
        (omega (arith, few_keys t f))) [
          | inl (_, absent) ↦ absurd (not_absent absent)
          | inr (m, run, root_at, d, sorted, absent) ↦
              let block = d.block ∙ f.block in
              let fit =
                written-IsLeafTree t m f.alive block (ap (λ x. x == 0) d.leaf ∙ f.leaf) sorted
                  (λ i h. below m d i h) in
              (
                write t m,
                run,
                record {
                  fit = fit;
                  same_root = refl;
                  here = gone m block fit absent;
                  there = λ k ne.
                      same_elsewhere t (write t m) f fit k
                        (λ w h.
                          into_written t m block fit k w (dropped_keeps f.node m key d k w ne h))
                        (λ w h.
                          (w, dropped_from f.node m key d k w (from_written t m block fit k w h)));
                },
              )
        ]
    where
      nothing : {x : ℕ} → none ≢ some x
      nothing h = cc

      not_absent : ¬ (Tells f.node key none)
      not_absent absent = elim (look_up-cases t f key) [
        | inl (w, _, h) ↦ absent h.0 h.1 (InNode-key f.node key w h)
        | inr (e, _) ↦ nothing (sym e ∙ has)
      ]

      below : (m : Node) → IsDropped f.node m key → (i : ℕ) → i < m.nr_keys → key_of m i < max_keys
      below m d i h =
          let h' = dropped_from f.node m key d (key_of m i) (value_at m i) (in_slot m i h) in
          rw⁻¹ (InNode-key f.node (key_of m i) (value_at m i) h') (f.below h'.0 h'.1)

      gone :
          (m : Node) (block : m.block ≡ t.root) (fit : IsLeafTree (write t m))
          → Tells m key none
          → look_up (write t m) key ≡ none
      gone m block fit absent = elim (look_up-cases (write t m) fit key) [
        | inr (e, _) ↦ e
        | inl (w, _, h) ↦
            let h' = from_written t m block fit key w h in
            absurd (absent h'.0 h'.1 (InNode-key m key w h'))
      ]
