-- ===== src/Btree/Tree/Delete/Stops.antt =====
-- The deletion at a sibling or a parent with four keys or more: it runs out of the array of pages.
use ddfs.Base.{
  ℕ, ◌+◌, ◌-◌, ◌≤◌, ◌<◌, ◌≡◌, refl, sym, ap, ◌∙◌, ◌≢◌, inl, inr, Bool, true, false, Option, none,
  some, arith, ltb, if◌then◌else◌, ltb→lt, Bool-cases, ◌>>=◌, >>=-eq-some, bind-none,
}
use ddfs.Btree.Node.{Node, node_key, node_value, node_child}
use ddfs.Btree.Ops.{
  copy_kv, copy_child, put_child, put_kv, delete_key_index, delete_child_index, merge,
}
use ddfs.Btree.Ops.Erase.{delete_key_index-entries}
use ddfs.Btree.Ops.Pages.{delete_child_index-out}
use ddfs.Btree.Tree.{Tree}
use ddfs.Btree.Tree.Delete.{child_give_key, join, child_merge, read_sib, can_give, give, refill}

same_count :
    (n m : Node) (index : ℕ)
    → index < n.nr_keys
    → n.nr_keys ≤ 1792
    → delete_key_index n index ≡ some m
    → m.nr_keys ≡ n.nr_keys
same_count n m index h small e =
    let (m', e', _, _, frame) = delete_key_index-entries n index h small in
    ap (λ x. x.nr_keys) (inj (sym e ∙ e')) ∙ frame.nr_keys
  where
    inj : {x y : Node} → some x ≡ some y → x ≡ y
    inj f = cc

-- Deleting a key and then a child.
drop_both :
    {A : Type 0} (n : Node) (index : ℕ) (child : Node → ℕ) (f : Node → Option A)
    → 4 ≤ n.nr_keys
    → n.nr_keys ≤ 1792
    → index < n.nr_keys
    → ((m : Node) → m.nr_keys ≡ n.nr_keys → child m ≤ n.nr_keys)
    → (delete_key_index n index >>= λ m. delete_child_index m (child m) >>= f) ≡ none
drop_both n index child f big small h inside =
    bind-none _ _ (λ m e. step m (same_count n m index h small e))
  where
    step : (m : Node) → m.nr_keys ≡ n.nr_keys → (delete_child_index m (child m) >>= f) ≡ none
    step m same = bind-none _ _ (λ x e. absurd (
        never x (
          sym (delete_child_index-out m (child m) (omega (arith, inside m same)) (omega arith))
          ∙ e)))
      where
        never : (x : Node) → none ≢ some x
        never x e = cc

pub child_give_key-stops :
    (node child sib : Node) (child_index : ℕ) (left : Bool)
    → 4 ≤ sib.nr_keys
    → sib.nr_keys ≤ 1792
    → child_give_key node child child_index sib left ≡ none
unfolding child_give_key
child_give_key-stops node child sib child_index false big small =
    bind-none (copy_kv child child.nr_keys node child_index) _ (λ child' _.
      bind-none (copy_kv node child_index sib 0) _ (λ node' _.
        bind-none (copy_child child' (child'.nr_keys + 1) sib 0) _
          (λ child'' _. drop_both sib 0 (λ _. 0) _ big small (omega arith) (λ m e. omega arith))))
child_give_key-stops node child sib child_index true big small =
    bind-none (put_kv child 0 node (child_index - 1)) _ (λ child' _.
      bind-none (copy_kv node (child_index - 1) sib (sib.nr_keys - 1)) _ (λ node' _.
        bind-none (put_child child' 0 sib sib.nr_keys) _ (λ child'' _.
          drop_both sib (sib.nr_keys - 1) (λ m. m.nr_keys) _ big small (omega arith)
            (λ m e. omega (arith, e)))))

join-stops :
    (node dst src : Node) (index : ℕ)
    → 4 ≤ node.nr_keys
    → node.nr_keys ≤ 1792
    → index < node.nr_keys
    → join node index dst src ≡ none
unfolding join
join-stops node dst src index big small h = bind-none (node_key node index) _ (λ key _.
    bind-none (node_value node index) _ (λ value _.
      bind-none (merge dst src key value) _
        (λ dst' _. drop_both node index (λ _. index + 1) _ big small h (λ m e. omega arith))))

pub child_merge-stops :
    (tree : Tree) (node child sib : Node) (child_index : ℕ) (left : Bool)
    → 4 ≤ node.nr_keys
    → node.nr_keys ≤ 1792
    → (if left then 0 < child_index else 0 ≤ child_index)
    → (if left then child_index ≤ node.nr_keys else child_index < node.nr_keys)
    → child_merge tree node child child_index sib left ≡ none
unfolding child_merge
child_merge-stops tree node child sib i true big small pos h =
    rw (join-stops node sib child (i - 1) big small (omega arith)) refl
child_merge-stops tree node child sib i false big small pos h =
    rw (join-stops node child sib i big small h) refl

-- Every node of the tree has four keys at least and no more than its pages hold.
abbrev pub IsWide : Tree → Type 0
IsWide tree = (b : ℕ) (n : Node) → tree.nodes b ≡ some n → (4 ≤ n.nr_keys) × (n.nr_keys ≤ 1792)

module _ (tree : Tree) (node child : Node) (i : ℕ) (wide : IsWide tree) where
  give-stops :
      (sib : Option Node) (left : Bool)
      → ((n : Node) → sib ≡ some n → (4 ≤ n.nr_keys) × (n.nr_keys ≤ 1792))
      → give tree node child i sib left ≡ none
  unfolding give
  give-stops none left h = refl
  give-stops (some n) left h =
      rw (child_give_key-stops node child n i left (h n refl).0 (h n refl).1) refl

  read_sib-wide :
      (b : Bool) (k : ℕ) (sib : Option Node) (n : Node)
      → read_sib tree node b k ≡ some sib
      → sib ≡ some n
      → (b ≡ true) × (4 ≤ n.nr_keys) × (n.nr_keys ≤ 1792)
  unfolding read_sib
  read_sib-wide false k sib n e f = absurd (cc)
  read_sib-wide true k sib n e f =
      let (c, _, g) = >>=-eq-some (node_child node k) _ e in
      let (few, many) = wide c n (inj g ∙ f) in (refl, few, many)
    where
      inj : {x y : Option Node} → some x ≡ some y → x ≡ y
      inj q = cc

  merge_left :
      4 ≤ node.nr_keys
      → node.nr_keys ≤ 1792
      → i ≤ node.nr_keys
      → ltb 0 i ≡ true
      → (sib : Node) → child_merge tree node child i sib true ≡ none
  merge_left big small at pos sib =
      child_merge-stops tree node child sib i true big small (ltb→lt 0 i pos) at

  merge_right :
      4 ≤ node.nr_keys
      → node.nr_keys ≤ 1792
      → ltb i node.nr_keys ≡ true
      → (sib : Node) → child_merge tree node child i sib false ≡ none
  merge_right big small pos sib =
      child_merge-stops tree node child sib i false big small (omega arith)
        (ltb→lt i node.nr_keys pos)

  refill_with :
      (left right : Option Node)
      → 4 ≤ node.nr_keys
      → node.nr_keys ≤ 1792
      → i ≤ node.nr_keys
      → ((n : Node) → left ≡ some n → (ltb 0 i ≡ true) × (4 ≤ n.nr_keys) × (n.nr_keys ≤ 1792))
      → ((n : Node)
          → right ≡ some n
          → (ltb i node.nr_keys ≡ true) × (4 ≤ n.nr_keys) × (n.nr_keys ≤ 1792))
      → (elim (can_give left) [
        | true ↦ give tree node child i left true
        | false ↦ elim (can_give right) [
          | true ↦ give tree node child i right false
          | false ↦ elim left [
            | some sib ↦ child_merge tree node child i sib true
            | none ↦ (do sib ← right; child_merge tree node child i sib false)
          ]
        ]
      ])
        ≡ none
  refill_with left right big small at l r = elim (Bool-cases (can_give left)) [
    | inl can ↦ rw can (give-stops left true (λ n e. ((l n e).1, (l n e).2)))
    | inr poor ↦ elim (Bool-cases (can_give right)) [
      | inl can ↦ rw (poor, can) (give-stops right false (λ n e. ((r n e).1, (r n e).2)))
      | inr poor' ↦ rw (poor, poor') (merges left right l r)
    ]
  ]
    where
      merges :
          (left right : Option Node)
          → ((n : Node) → left ≡ some n → (ltb 0 i ≡ true) × (4 ≤ n.nr_keys) × (n.nr_keys ≤ 1792))
          → ((n : Node)
              → right ≡ some n
              → (ltb i node.nr_keys ≡ true) × (4 ≤ n.nr_keys) × (n.nr_keys ≤ 1792))
          → (elim left as (λ _. Option (ℕ × Tree)) [
            | some sib ↦ child_merge tree node child i sib true
            | none ↦ (do sib ← right; child_merge tree node child i sib false)
          ])
            ≡ none
      merges (some sib) right l r = merge_left big small at (l sib refl).0 sib
      merges none none l r = refl
      merges none (some sib) l r = merge_right big small (r sib refl).0 sib

  -- In a tree all of whose nodes have four keys or more and no more than 1792, filling up the
  -- child at any index of a node with as many keys, whichever sibling gives a key or is merged,
  -- stops: it runs outside the array of pages, if no slot before it does.
  pub refill-stops :
      4 ≤ node.nr_keys → node.nr_keys ≤ 1792 → i ≤ node.nr_keys → refill tree node child i ≡ none
  unfolding refill
  refill-stops big small at = bind-none (read_sib tree node (ltb 0 i) (i - 1)) _ (λ left e.
      bind-none (read_sib tree node (ltb i node.nr_keys) (i + 1)) _ (λ right f.
        refill_with left right big small at (λ n. read_sib-wide (ltb 0 i) (i - 1) left n e)
          (λ n. read_sib-wide (ltb i node.nr_keys) (i + 1) right n f)))
