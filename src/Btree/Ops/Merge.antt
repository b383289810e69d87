-- ===== src/Btree/Ops/Merge.antt =====
-- `nkfs_btree_node_merge` and `nkfs_btree_node_copy`: what a node holds after another was added to
-- it or copied over it.
use ddfs.Base.{
  ℕ, zero, suc, ◌+◌, ◌-◌, ◌≤◌, ◌<◌, ◌≡◌, refl, ap₂, ◌∙◌, ◌&&◌, some, ◌∷◌, ◌++◌, arith, ltb, leb,
  ◌==◌, if◌then◌else◌, tab, tab-ext, tab-append, slice-cons, tab-resize, bind-some, u32,
}
use ddfs.Btree.Node.{Key, Node}
use ddfs.Btree.Node.Kids.{kid_at, entries, kids, HasPages, with_child, kid_at-with_child, kid_at-nr}
use ddfs.Btree.Node.Slots.{with_key, set_node_key-in, set_node_value-in, entry_at, entry_at-nr}
use ddfs.Btree.Ops.{merge_slots, merge, copy}
use ddfs.Btree.Ops.Children.{with_child-ChildFrame, copy_child-in}
use ddfs.Btree.Ops.Moves.{with_entry, entry_at-with_entry, copy_kv-in}

-- `m` has the fields of `n` apart from its pages, and all its pages of children.
pub record NodeFrame (n m : Node) : Type 0 where
  pub sig1 : m.sig1 ≡ n.sig1
  pub t : m.t ≡ n.t
  pub block : m.block ≡ n.block
  pub leaf : m.leaf ≡ n.leaf
  pub nr_keys : m.nr_keys ≡ n.nr_keys
  pub sig2 : m.sig2 ≡ n.sig2
  pub pages : HasPages m

-- The slots of `m` from `pos` on are those of `src` from `i` on, `r` of them.
pub record IsMerged (r i pos : ℕ) (src n m : Node) : Type 0 where
  pub frame : NodeFrame n m
  pub entry :
      (j : ℕ)
      → entry_at m j
        ≡ (if leb pos j && ltb j (pos + r) then entry_at src (i + (j - pos)) else entry_at n j)
  pub kid :
      (j : ℕ)
      → kid_at m j
        ≡ (if leb pos j && ltb j (pos + r) then kid_at src (i + (j - pos)) else kid_at n j)

pub kid_at-with_entry :
    (n : Node) (i : ℕ) (e : Key × ℕ) (j : ℕ) → kid_at (with_entry n i e) j ≡ kid_at n j
unfolding kid_at
kid_at-with_entry n i e j = refl

pub entry_at-with_child : (n : Node) (i v j : ℕ) → entry_at (with_child n i v) j ≡ entry_at n j
unfolding entry_at with_child
entry_at-with_child n i v j = refl

with_both-NodeFrame :
    (n : Node) (pos : ℕ) (e : Key × ℕ) (v : ℕ)
    → HasPages n
    → NodeFrame n (with_child (with_entry n pos e) pos v)
unfolding with_child
with_both-NodeFrame n pos e v pages = record {
  sig1 = refl;
  t = refl;
  block = refl;
  leaf = refl;
  nr_keys = refl;
  sig2 = refl;
  pages = λ p h. ground (arith, pages p h);
}

pub merge_slots-IsMerged :
    (r i pos : ℕ) (n src : Node)
    → HasPages n
    → HasPages src
    → i + r ≤ 1792
    → pos + r ≤ 1792
    → (m : Node) × (merge_slots r i pos n src ≡ some m) × IsMerged r i pos src n m
unfolding merge_slots
merge_slots-IsMerged zero i pos n src pn ps hi hp = (
  n,
  refl,
  record {
    frame = record {
      sig1 = refl;
      t = refl;
      block = refl;
      leaf = refl;
      nr_keys = refl;
      sig2 = refl;
      pages = pn;
    };
    entry = λ j. ground arith;
    kid = λ j. ground arith;
  },
)
merge_slots-IsMerged (suc r) i pos n src pn ps hi hp =
    let n1 = with_entry n pos (entry_at src i) in
    let n2 = with_child n1 pos (kid_at src i) in
    let f = with_both-NodeFrame n pos (entry_at src i) (kid_at src i) pn in
    let (m, e, s) =
      merge_slots-IsMerged r (i + 1) (pos + 1) n2 src f.pages ps (omega arith) (omega arith) in
    (
      m,
      bind-some _ (copy_kv-in n pos src i (omega arith) (omega arith))
          (bind-some _ (copy_child-in n1 pos src i pn ps (omega arith) (omega arith)) e),
      record {
        frame = record {
          sig1 = s.frame.sig1 ∙ f.sig1;
          t = s.frame.t ∙ f.t;
          block = s.frame.block ∙ f.block;
          leaf = s.frame.leaf ∙ f.leaf;
          nr_keys = s.frame.nr_keys ∙ f.nr_keys;
          sig2 = s.frame.sig2 ∙ f.sig2;
          pages = s.frame.pages;
        };
        entry = λ j. ground (
          arith,
          s.entry j,
          entry_at-with_child n1 pos (kid_at src i) j,
          entry_at-with_entry n pos j (entry_at src i),
        );
        kid = λ j. ground (
          arith,
          s.kid j,
          kid_at-with_child n1 pos j (kid_at src i),
          kid_at-with_entry n pos (entry_at src i) j,
        );
      },
    )

entry_at-leaf :
    (n : Node) (k l j : ℕ) → entry_at (record n { nr_keys = k; leaf = l }) j ≡ entry_at n j
unfolding entry_at
entry_at-leaf n k l j = refl

kid_at-leaf : (n : Node) (k l j : ℕ) → kid_at (record n { nr_keys = k; leaf = l }) j ≡ kid_at n j
unfolding kid_at
kid_at-leaf n k l j = refl

-- As lists: an array that holds `f` up to `d`, then `e`, then `g`.
merged_list :
    (f g h : ℕ → Key × ℕ) (d s : ℕ) (e : Key × ℕ) (k : ℕ)
    → k ≡ d + 1 + s
    → ((j : ℕ)
        → h j ≡ (
            if leb (d + 1) j && ltb j (d + 1 + s)
            then g (0 + (j - (d + 1)))
            else (if j == d then e else f j)))
    → tab h k ≡ tab f d ++ (e ∷ tab g s)
merged_list f g h d s e k ek eq =
    tab-append h d (suc s) k (omega arith)
    ∙ ap₂ ◌++◌ (tab-ext h f d (λ i l. ground (arith, eq i))) (
        slice-cons h d s (suc s) refl
        ∙ ap₂ ◌∷◌ here (tab-ext _ g s (λ i l. ground (arith, eq (d + 1 + i)))))
  where
    here : h d ≡ e
    here = ground (arith, eq d)

-- As lists: an array that holds `f` up to and with `d`, then `g`.
joined_list :
    (f g h : ℕ → ℕ) (d s k : ℕ)
    → k ≡ d + 1 + s
    → ((j : ℕ)
        → h j ≡ (
            if j == (d + 1 + s)
            then g s
            else (if leb (d + 1) j && ltb j (d + 1 + s) then g (0 + (j - (d + 1))) else f j)))
    → tab h (k + 1) ≡ tab f (d + 1) ++ tab g (s + 1)
joined_list f g h d s k ek eq =
    tab-append h (d + 1) (s + 1) (k + 1) (omega arith)
    ∙ ap₂ ◌++◌ (tab-ext h f (d + 1) (λ i l. ground (arith, eq i)))
        (tab-ext _ g (s + 1) (λ i l. ground (arith, eq (d + 1 + i))))

module _ (dst src : Node) (pages : HasPages dst) (src_pages : HasPages src) where
  -- Copying a node over another, with the pages of both there, never stops: the target then holds
  -- the same entries and children in order and the same leaf mark, and keeps its block and
  -- degree.
  pub copy-entries :
      src.nr_keys ≤ 1792
      → (m : Node) × (copy dst src ≡ some m)
        × (entries m ≡ entries src)
        × (kids m ≡ kids src)
        × (m.leaf ≡ src.leaf)
        × (m.block ≡ dst.block)
        × (m.t ≡ dst.t)
        × HasPages m
  unfolding copy
  copy-entries small =
      let (m1, e1, s1) =
        merge_slots-IsMerged src.nr_keys 0 0 dst src pages src_pages (omega arith) (omega arith) in
      let c = with_child-ChildFrame m1 src.nr_keys (kid_at src src.nr_keys) s1.frame.pages in
      let m2 = with_child m1 src.nr_keys (kid_at src src.nr_keys) in
      (
        record m2 { nr_keys = src.nr_keys; leaf = src.leaf },
        bind-some _ e1 (
            bind-some _
              (copy_child-in m1 src.nr_keys src src.nr_keys s1.frame.pages src_pages (omega arith)
                (omega arith))
              refl),
        tab-resize _ _ _ _ refl (λ j h. ground (
          arith,
          entry_at-leaf m2 src.nr_keys src.leaf j,
          entry_at-with_child m1 src.nr_keys (kid_at src src.nr_keys) j,
          s1.entry j,
        )),
        tab-resize _ _ _ _ refl (λ j h. ground (
          arith,
          kid_at-leaf m2 src.nr_keys src.leaf j,
          kid_at-with_child m1 src.nr_keys j (kid_at src src.nr_keys),
          s1.kid j,
        )),
        refl,
        c.block ∙ s1.frame.block,
        c.t ∙ s1.frame.t,
        c.pages,
      )

  -- Merging two nodes whose keys and the separator fit into one never stops: the first node then
  -- holds its entries, the separator and the entries of the second in this order, and the
  -- children of both in order; leaf mark and block stay.
  pub merge-entries :
      (key : Key) (v : ℕ)
      → dst.nr_keys + 1 + src.nr_keys < 1792
      → (m : Node) × (merge dst src key v ≡ some m)
        × (entries m ≡ entries dst ++ ((key, v) ∷ entries src))
        × (kids m ≡ kids dst ++ kids src)
        × (m.nr_keys ≡ dst.nr_keys + 1 + src.nr_keys)
        × (m.leaf ≡ dst.leaf)
        × (m.block ≡ dst.block)
        × HasPages m
  unfolding merge
  merge-entries key v room =
      let d = dst.nr_keys in
      let s = src.nr_keys in
      let n1 = with_entry dst d (key, v) in
      let (m1, e1, s1) =
        merge_slots-IsMerged s 0 (d + 1) n1 src pages src_pages (omega arith) (omega arith) in
      let c = with_child-ChildFrame m1 (d + 1 + s) (kid_at src s) s1.frame.pages in
      let m2 = with_child m1 (d + 1 + s) (kid_at src s) in
      let total : u32 (d + 1 + s) ≡ d + 1 + s = omega arith in
      (
        record m2 { nr_keys = u32 (d + 1 + s) },
        bind-some _ (set_node_key-in dst d key (omega arith)) (
            bind-some _ (set_node_value-in (with_key dst d key) d v (omega arith)) (
              bind-some _ e1 (
                bind-some _
                  (copy_child-in m1 (d + 1 + s) src s s1.frame.pages src_pages (omega arith)
                    (omega arith))
                  refl))),
        merged_list (entry_at dst) (entry_at src) _ d s (key, v) _ total
            (λ j. ground (
              arith,
              entry_at-nr m2 (u32 (d + 1 + s)) j,
              entry_at-with_child m1 (d + 1 + s) (kid_at src s) j,
              s1.entry j,
              entry_at-with_entry dst d j (key, v),
            )),
        joined_list (kid_at dst) (kid_at src) _ d s _ total (λ j. ground (
          arith,
          kid_at-nr m2 (u32 (d + 1 + s)) j,
          kid_at-with_child m1 (d + 1 + s) j (kid_at src s),
          s1.kid j,
          kid_at-with_entry dst d (key, v) j,
        )),
        total,
        c.leaf ∙ s1.frame.leaf,
        c.block ∙ s1.frame.block,
        c.pages,
      )
