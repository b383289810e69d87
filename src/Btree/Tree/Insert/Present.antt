-- ===== src/Btree/Tree/Insert/Present.antt =====
-- Insertion of a key that is there already, into a tree of one leaf.
use ddfs.Base.{
  ℕ, suc, ◌-◌, ◌*◌, ◌<◌, ◌≡◌, refl, sym, ap, ap₂, ◌∙◌, ◌≢◌, inl, inr, Bool, true, false, Option,
  none, some, arith, ◌==◌, if◌then◌else◌, ==_iff, ==-refl, Bool-cases, bind-some,
}
use ddfs.Btree.Node.{btree_t, Key, Node, key_at}
use ddfs.Btree.Node.Slots.{with_value, set_node_value-in, value_at-with_value, entry_at, key_of}
use ddfs.Btree.Ops.{is_full}
use ddfs.Btree.Search.{has_key}
use ddfs.Btree.Search.Answers.{Tells, has_key-Tells}
use ddfs.Btree.Search.Sound.{Sorted}
use ddfs.Btree.Tree.{Tree, find_key, ok, eexist}
use ddfs.Btree.Tree.Insert.{write, node_insert_nonfull, insert_key}
use ddfs.Btree.Tree.Insert.Find.{started, found_value}
use ddfs.Btree.Tree.Valid.{InNode, Holds, InNode-key}
use mathlib.Core.Path.{subst}

-- A node with the value of one slot replaced.
module _ (n : Node) (i v : ℕ) where
  replaced-key : (j : ℕ) → key_of (with_value n i v) j ≡ key_of n j
  unfolding key_of
  replaced-key j = refl

  replaced-entry :
      (j : ℕ) → entry_at (with_value n i v) j ≡ (if j == i then (key_of n i, v) else entry_at n j)
  unfolding entry_at key_of
  replaced-entry j = elim (Bool-cases (j == i)) [
    | inl same ↦ rw same (
        ap₂ (λ (x : Key) (y : ℕ). (x, y)) (ap (key_at n) ((==_iff j i).0 same))
          (value_at-with_value n i j v ∙ rw same refl))
    | inr other ↦
        rw other (ap (λ (y : ℕ). (key_at n j, y)) (value_at-with_value n i j v ∙ rw other refl))
  ]

  replaced-Sorted : Sorted n → Sorted (with_value n i v)
  replaced-Sorted sorted a b l h = omega (arith, replaced-key a, replaced-key b, sorted a b l h)

  replaced-keeps :
      (key k w : ℕ) → key_of n i ≡ key → k ≢ key → InNode n k w → InNode (with_value n i v) k w
  replaced-keeps key k w here ne (j, h, e) = (
    j,
    h,
    replaced-entry j ∙ elim (Bool-cases (j == i)) [
      | inl same ↦
          absurd
            (ne (sym (InNode-key n k w (j, h, e)) ∙ ap (key_of n) ((==_iff j i).0 same) ∙ here))
      | inr other ↦ rw other e
    ],
  )

-- What the insertion of a key that the root holds does: without `replace` it is refused, with it the
-- value is the new one and nothing else changes.
abbrev pub PresentSays : ℕ → Tree → Key → ℕ → Bool → Type 0
PresentSays fuel tree key v false = insert_key fuel tree key v false ≡ some (eexist, tree)
PresentSays fuel tree key v true =
    (tree' : Tree) × (insert_key fuel tree key v true ≡ some (ok, tree'))
    × (find_key 1 tree' key ≡ some (ok, some v))
    × ((k w : ℕ) → k ≢ key → Holds tree.nodes 0 tree.root k w → Holds tree'.nodes 0 tree'.root k w)

module _ (fuel : ℕ) (tree : Tree) (n : Node) (key : Key) (v : ℕ) (alive : tree.releasing ≡ false)
    (root : tree.nodes tree.root ≡ some n) (block : n.block ≡ tree.root)
    (leaf : (n.leaf == 0) ≡ false) (sorted : Sorted n) (room : n.nr_keys < 2 * btree_t - 1) where
  not_full : is_full n ≡ false
  unfolding is_full
  not_full = ground arith

  present_at :
      (replace : Bool) (i : ℕ)
      → has_key n key ≡ some (some i)
      → i < n.nr_keys
      → key_of n i ≡ key
      → PresentSays (suc fuel) tree key v replace
  unfolding node_insert_nonfull write
  present_at false i e h here =
      started tree n key v false (suc fuel) alive root not_full
      ∙ bind-some _ root (bind-some _ e refl)
  present_at true i e h here = (
    write tree (with_value n i v),
    started tree n key v true (suc fuel) alive root not_full
        ∙ bind-some _ root
            (bind-some _ e (bind-some _ (set_node_value-in n i v (omega arith)) refl)),
    found_value (write tree (with_value n i v)) (with_value n i v) alive written is_leaf
        (replaced-Sorted n i v sorted) (omega arith) key v
        (i, h, replaced-entry n i v i ∙ rw (==-refl i) (ap (λ (x : Key). (x, v)) here)),
    λ k w ne held. (
      with_value n i v,
      written,
      replaced-keeps n i v key k w here ne
          (subst (λ x. InNode x k w) (inj (sym held.1 ∙ root)) held.2),
    ),
  )
    where
      inj : {x y : Node} → some x ≡ some y → x ≡ y
      inj f = cc

      written : (write tree (with_value n i v)).nodes tree.root ≡ some (with_value n i v)
      written = rw (block, ==-refl tree.root) refl

      is_leaf : n.leaf ≢ 0
      is_leaf z = ground arith

-- Inserting a key that the root holds, into a tree that is not being released and whose root is a
-- leaf at its block that is not full and has strictly growing keys: without replace it returns
-- -EEXIST and the tree is unchanged; with replace it returns 0, the search for the key then
-- returns the new value, and every other key that the root held it holds still with its value.
pub insert_key-PresentSays :
    (fuel : ℕ) (tree : Tree) (n : Node) (key : Key) (v : ℕ) (replace : Bool) (i : ℕ)
    → tree.releasing ≡ false
    → tree.nodes tree.root ≡ some n
    → n.block ≡ tree.root
    → (n.leaf == 0) ≡ false
    → Sorted n
    → n.nr_keys < 2 * btree_t - 1
    → i < n.nr_keys
    → key_of n i ≡ key
    → PresentSays (suc fuel) tree key v replace
insert_key-PresentSays fuel tree n key v replace i alive root block leaf sorted room h here =
    let (found, e, says) = has_key-Tells n key sorted (omega arith) in by_found found e says
  where
    by_found :
        (found : Option ℕ)
        → has_key n key ≡ some found
        → Tells n key found
        → PresentSays (suc fuel) tree key v replace
    by_found none e says = absurd (says i h here)
    by_found (some j) e says =
        present_at fuel tree n key v alive root block leaf sorted room replace j e says.0 says.1
