-- ===== src/Btree/Tree/Insert/Find.antt =====
-- Insertion into a tree of one leaf, and the search after it.
use ddfs.Base.{
  ℕ, suc, ◌+◌, ◌-◌, ◌*◌, ◌≤◌, ◌<◌, ◌≡◌, refl, sym, ap, ◌∙◌, ◌≢◌, inl, inr, Bool, false, not, Option,
  none, some, arith, ltb, ◌==◌, if◌then◌else◌, ltb→lt, ltb→ge, ==_iff, ==-refl, Bool-cases,
  Compared, compare-Compared, inserted, tab-inserted, tab-injective, ◌>>=◌, bind-some, is_lt, is_eq,
  is_gt,
}
use ddfs.Btree.Node.{btree_t, Key, Node}
use ddfs.Btree.Node.Slots.{entry_at, key_of}
use ddfs.Btree.Ops.{is_full}
use ddfs.Btree.Search.Answers.{Tells, has_key-Tells}
use ddfs.Btree.Search.Sound.{Sorted}
use ddfs.Btree.Tree.{Tree, find_key, enomem, ok, eagain}
use ddfs.Btree.Tree.Find.{find_key_lem}
use ddfs.Btree.Tree.Insert.{write, node_insert_nonfull, grow_root, insert_key}
use ddfs.Btree.Tree.Insert.Leaf.{IsPlaced, insert_leaf-IsPlaced}
use ddfs.Btree.Tree.Valid.{Holds, IsTree, InNode, InNode-key}
use ddfs.Core.Registry.Links.{held}
use mathlib.Core.Path.{subst}
use Prim.Native.Nat.{Ordering, compare}

-- The entries of a leaf into which a key was placed, slot by slot.
IsPlaced-entry :
    (n m : Node) (key : Key) (v p : ℕ)
    → IsPlaced n m key v p
    → (j : ℕ) → j < m.nr_keys
    → entry_at m j ≡ inserted (entry_at n) n.nr_keys p (key, v) j
IsPlaced-entry n m key v p s j h =
    tab-injective (entry_at m) (inserted (entry_at n) n.nr_keys p (key, v)) m.nr_keys
      (s.list
        ∙ sym (
            tab-inserted (entry_at n) (inserted (entry_at n) n.nr_keys p (key, v)) n.nr_keys p
              (key, v) m.nr_keys s.bound s.grown (λ j. refl)))
      j h

pub placed-here : (n m : Node) (key : Key) (v p : ℕ) → IsPlaced n m key v p → InNode m key v
placed-here n m key v p s = (
  p,
  omega (arith, s.bound, s.grown),
  IsPlaced-entry n m key v p s p (omega (arith, s.bound, s.grown)) ∙ rw (==-refl p) refl,
)

-- What the leaf held is held still.
pub placed-keeps :
    (n m : Node) (key : Key) (v p : ℕ)
    → IsPlaced n m key v p
    → (k w : ℕ) → InNode n k w
    → InNode m k w
placed-keeps n m key v p s k w (i, h, e) = elim (Bool-cases (ltb i p)) [
  | inl low ↦ (
    i,
    omega (arith, s.grown),
    IsPlaced-entry n m key v p s i (omega (arith, s.grown)) ∙ before i (ltb→lt i p low) ∙ e,
  )
  | inr high ↦ (
    i + 1,
    omega (arith, s.grown),
    IsPlaced-entry n m key v p s (i + 1) (omega (arith, s.grown))
        ∙ behind i (ltb→ge i p high) h
        ∙ e,
  )
]
  where
    before : (i : ℕ) → i < p → inserted (entry_at n) n.nr_keys p (key, v) i ≡ entry_at n i
    before i l = ground arith

    behind :
        (i : ℕ)
        → p ≤ i
        → i < n.nr_keys
        → inserted (entry_at n) n.nr_keys p (key, v) (i + 1) ≡ entry_at n i
    behind i l h = ground arith

-- In a node whose keys grow a key has one val.
one_value : (m : Node) → Sorted m → (k v w : ℕ) → InNode m k v → InNode m k w → v ≡ w
one_value m sorted k v w (i, hi, ei) (j, hj, ej) = same (compare i j) (compare-Compared i j)
  where
    ki : key_of m i ≡ k
    ki = InNode-key m k v (i, hi, ei)

    kj : key_of m j ≡ k
    kj = InNode-key m k w (j, hj, ej)

    same : (o : Ordering) → Compared i j o → v ≡ w
    same _ (is_lt l) = absurd (omega (arith, sorted i j l hj, ki, kj))
    same _ (is_gt l) = absurd (omega (arith, sorted j i l hi, ki, kj))
    same _ (is_eq e) = ap (λ x. x.1) (sym ei ∙ ap (entry_at m) e ∙ ej)

module _ (tree : Tree) (n : Node) (key : Key) (val : ℕ) (replace : Bool) (fuel : ℕ) where
  pub started :
      tree.releasing ≡ false
      → tree.nodes tree.root ≡ some n
      → is_full n ≡ false
      → insert_key fuel tree key val replace
        ≡ node_insert_nonfull fuel tree tree.root key val replace
  unfolding insert_key
  started alive root room = off tree.releasing alive
    where
      off :
          (b : Bool)
          → b ≡ false
          → (if b then some (eagain, tree) else (do
            root ← tree.nodes tree.root
            if not (is_full root)
                then node_insert_nonfull fuel tree tree.root key val replace
                else (do
                  (grown, left) ← grow_root tree root
                  elim grown [
                    | none ↦ some (enomem, left)
                    | some tree' ↦ node_insert_nonfull fuel tree' tree.root key val replace
                  ])))
            ≡ node_insert_nonfull fuel tree tree.root key val replace
      off b e = rw e (rw root (rw room refl))

-- A tree whose root is the one leaf `m`.
module _ (tree : Tree) (m : Node) (alive : tree.releasing ≡ false)
    (root : tree.nodes tree.root ≡ some m) (leaf : m.leaf ≢ 0) (sorted : Sorted m)
    (small : m.nr_keys ≤ 2 * btree_t - 1) where
  below_last : (i : ℕ) → i < m.nr_keys → key_of m i < key_of m (m.nr_keys - 1) + 1
  below_last i h = elim (Bool-cases (i == (m.nr_keys - 1))) [
    | inl last ↦ rw ((==_iff i (m.nr_keys - 1)).0 last) (omega arith)
    | inr other ↦ omega (arith, sorted i (m.nr_keys - 1) (ground arith) (omega arith))
  ]

  pub one_leaf : IsTree tree.nodes 0 tree.root 0 (key_of m (m.nr_keys - 1) + 1)
  one_leaf = (
    m,
    root,
    leaf,
    record { small = small; sorted = sorted; within = λ i h. (omega arith, below_last i h) },
  )

  pub found_value : (key v : ℕ) → InNode m key v → find_key 1 tree key ≡ some (ok, some v)
  found_value key v here =
      elim (find_key_lem tree key 0 0 (key_of m (m.nr_keys - 1) + 1) alive one_leaf) [
        | inl (w, e, (m', e', held)) ↦
            let same : m' ≡ m = inj (sym e' ∙ root) in
            e
            ∙ ap (λ x. some (ok, some x))
                (one_value m sorted key w v (subst (λ x. InNode x key w) same held) here)
        | inr (e, not_held) ↦ absurd (not_held v (m, root, here))
      ]
    where
      inj : {x y : Node} → some x ≡ some y → x ≡ y
      inj f = cc

-- The insertion of a key that the root lacks places it there.
pub insert_key-IsPlaced :
    (fuel : ℕ) (tree : Tree) (n : Node) (key : Key) (val : ℕ) (replace : Bool)
    → tree.releasing ≡ false
    → tree.nodes tree.root ≡ some n
    → (n.leaf == 0) ≡ false
    → Sorted n
    → n.nr_keys < 2 * btree_t - 1
    → ((i : ℕ) → i < n.nr_keys → key_of n i ≢ key)
    → (m : Node) × (p : ℕ) × (insert_key (suc fuel) tree key val replace ≡ some (ok, write tree m))
      × IsPlaced n m key val p
unfolding node_insert_nonfull is_full
insert_key-IsPlaced fuel tree n key val replace alive root leaf sorted room absent =
    let (m, p, e, s) = insert_leaf-IsPlaced n key val sorted room absent in
    let (found, f, says) = has_key-Tells n key sorted (omega arith) in
    (
      m,
      p,
      started tree n key val replace (suc fuel) alive root (not_full n.nr_keys room)
          ∙ bind-some _ root
              (bind-some _ (f ∙ ap some (not_found found says)) (rw leaf (bind-some _ e refl))),
      s,
    )
  where
    not_full : (nr : ℕ) → nr < 2 * btree_t - 1 → ((2 * btree_t - 1) == nr) ≡ false
    not_full nr h = ground arith

    not_found : (found : Option ℕ) → Tells n key found → found ≡ none
    not_found none says = refl
    not_found (some i) says = absurd (absent i says.0 says.1)

-- Inserting a key into a tree that is not being released and whose root is a leaf at its block
-- that is not full, has strictly growing keys and does not hold the key, returns 0; the search
-- for the key then returns the value, and what the root held it holds still.
pub insert_key-find :
    (fuel : ℕ) (tree : Tree) (n : Node) (key : Key) (val : ℕ) (replace : Bool)
    → tree.releasing ≡ false
    → tree.nodes tree.root ≡ some n
    → n.block ≡ tree.root
    → (n.leaf == 0) ≡ false
    → Sorted n
    → n.nr_keys < 2 * btree_t - 1
    → ((i : ℕ) → i < n.nr_keys → key_of n i ≢ key)
    → (tree' : Tree) × (insert_key (suc fuel) tree key val replace ≡ some (ok, tree'))
      × (find_key 1 tree' key ≡ some (ok, some val))
      × ((k w : ℕ) → Holds tree.nodes 0 tree.root k w → Holds tree'.nodes 0 tree'.root k w)
unfolding write
insert_key-find fuel tree n key val replace alive root here leaf sorted room absent =
    let (m, p, e, s) =
      insert_key-IsPlaced fuel tree n key val replace alive root leaf sorted room absent in
    (
      write tree m,
      e,
      found_value (write tree m) m alive (root_written m (s.block ∙ here)) (still_leaf m s.leaf)
          s.sorted (omega (arith, s.grown)) key val (placed-here n m key val p s),
      λ k w held. (
        m,
        root_written m (s.block ∙ here),
        placed-keeps n m key val p s k w
            (subst (λ x. InNode x k w) (inj (sym held.1 ∙ root)) held.2),
      ),
    )
  where
    inj : {x y : Node} → some x ≡ some y → x ≡ y
    inj q = cc

    root_written : (m : Node) → m.block ≡ tree.root → (write tree m).nodes tree.root ≡ some m
    root_written m e = rw (e, ==-refl tree.root) refl

    still_leaf : (m : Node) → m.leaf ≡ n.leaf → m.leaf ≢ 0
    still_leaf m e z = ground arith
