-- ===== src/Btree/Ops/Children.antt =====
-- What the moves of child slots in core/btree.c do, for a node that has all its pages.
use ddfs.Base.{
  ℕ, zero, suc, ◌+◌, ◌-◌, ◌≤◌, ◌<◌, ◌≡◌, refl, ◌∙◌, ◌&&◌, some, arith, ltb, leb, if◌then◌else◌,
  inserted,
}
use ddfs.Btree.Node.{Node}
use ddfs.Btree.Node.Kids.{
  kid_at, HasPages, with_child, node_child-in, set_node_child-in, kid_at-with_child,
}
use ddfs.Btree.Node.Slots.{entry_at}
use ddfs.Btree.Ops.{copy_child, shift_child, put_child_val, copy_children}

-- `m` has the fields of `n` apart from the contents of its pages of children, and has those pages.
pub record ChildFrame (n m : Node) : Type 0 where
  pub sig1 : m.sig1 ≡ n.sig1
  pub t : m.t ≡ n.t
  pub block : m.block ≡ n.block
  pub leaf : m.leaf ≡ n.leaf
  pub nr_keys : m.nr_keys ≡ n.nr_keys
  pub sig2 : m.sig2 ≡ n.sig2
  pub entry : entry_at m ≡ entry_at n
  pub pages : HasPages m

pub with_child-ChildFrame : (n : Node) (i v : ℕ) → HasPages n → ChildFrame n (with_child n i v)
unfolding with_child entry_at
with_child-ChildFrame n i v pages = record {
  sig1 = refl;
  t = refl;
  block = refl;
  leaf = refl;
  nr_keys = refl;
  sig2 = refl;
  entry = refl;
  pages = λ p h. ground (arith, pages p h);
}

pub ChildFrame-trans : {n m k : Node} → ChildFrame n m → ChildFrame m k → ChildFrame n k
ChildFrame-trans a b = record {
  sig1 = b.sig1 ∙ a.sig1;
  t = b.t ∙ a.t;
  block = b.block ∙ a.block;
  leaf = b.leaf ∙ a.leaf;
  nr_keys = b.nr_keys ∙ a.nr_keys;
  sig2 = b.sig2 ∙ a.sig2;
  entry = b.entry ∙ a.entry;
  pages = b.pages;
}

pub ChildFrame-refl : (n : Node) → HasPages n → ChildFrame n n
ChildFrame-refl n h = record {
  sig1 = refl;
  t = refl;
  block = refl;
  leaf = refl;
  nr_keys = refl;
  sig2 = refl;
  entry = refl;
  pages = h;
}

pub copy_child-in :
    (dst : Node) (di : ℕ) (src : Node) (si : ℕ)
    → HasPages dst
    → HasPages src
    → di < 2048
    → si < 2048
    → copy_child dst di src si ≡ some (with_child dst di (kid_at src si))
unfolding copy_child
copy_child-in dst di src si pd ps hd hs =
    rw (node_child-in src si ps hs, set_node_child-in dst di (kid_at src si) pd hd)

module _ (dst : Node) where
  -- Children `lo` to `lo + r - 1` stand one further on in `m`.
  pub record IsChildShift (r lo : ℕ) (m : Node) : Type 0 where
    pub frame : ChildFrame dst m
    pub kid :
        (j : ℕ)
        → kid_at m j ≡ (if ltb lo j && leb j (lo + r) then kid_at dst (j - 1) else kid_at dst j)

pub shift_child-IsChildShift :
    (r lo : ℕ) (n : Node)
    → HasPages n
    → lo + r < 2048
    → (m : Node) × (shift_child r lo n ≡ some m) × IsChildShift n r lo m
unfolding shift_child
shift_child-IsChildShift zero lo n pages h =
    (n, refl, record { frame = ChildFrame-refl n pages; kid = λ j. ground arith })
shift_child-IsChildShift (suc r) lo n pages h =
    let n' = with_child n (lo + r + 1) (kid_at n (lo + r)) in
    let f = with_child-ChildFrame n (lo + r + 1) (kid_at n (lo + r)) pages in
    let (m, e, s) = shift_child-IsChildShift r lo n' f.pages (omega arith) in
    (
      m,
      rw (copy_child-in n (lo + r + 1) n (lo + r) pages pages (omega arith) (omega arith)) e,
      record {
        frame = ChildFrame-trans f s.frame;
        kid = λ j. ground (
          arith,
          s.kid j,
          kid_at-with_child n (lo + r + 1) j (kid_at n (lo + r)),
          kid_at-with_child n (lo + r + 1) (j - 1) (kid_at n (lo + r)),
        );
      },
    )

pub put_child_val-inserted :
    (n : Node) (di v : ℕ)
    → HasPages n
    → di ≤ n.nr_keys + 1
    → n.nr_keys < 2046
    → (m : Node) × (put_child_val n di v ≡ some m)
      × ChildFrame n m
      × ((j : ℕ) → kid_at m j ≡ inserted (kid_at n) (n.nr_keys + 1) di v j)
unfolding put_child_val
put_child_val-inserted n di v pages le room =
    let (m, e, s) = shift_child-IsChildShift (n.nr_keys + 1 - di) di n pages (omega arith) in
    (
      with_child m di v,
      rw (e, set_node_child-in m di v s.frame.pages (omega arith)),
      ChildFrame-trans s.frame (with_child-ChildFrame m di v s.frame.pages),
      λ j. ground (arith, s.kid j, kid_at-with_child m di j v),
    )

-- Children `i` to `i + r - 1` of `m` are those of `src` from `i + from` on.
pub record IsChildCopied (r i from : ℕ) (src n m : Node) : Type 0 where
  pub frame : ChildFrame n m
  pub kid :
      (j : ℕ)
      → kid_at m j ≡ (if leb i j && ltb j (i + r) then kid_at src (j + from) else kid_at n j)

pub copy_children-IsChildCopied :
    (r i : ℕ) (n : Node) (from : ℕ) (src : Node)
    → HasPages n
    → HasPages src
    → i + from + r ≤ 2048
    → (m : Node) × (copy_children r i n from src ≡ some m) × IsChildCopied r i from src n m
unfolding copy_children
copy_children-IsChildCopied zero i n from src pages ps h =
    (n, refl, record { frame = ChildFrame-refl n pages; kid = λ j. ground arith })
copy_children-IsChildCopied (suc r) i n from src pages ps h =
    let v = kid_at src (i + from) in
    let f = with_child-ChildFrame n i v pages in
    let (m, e, s) =
      copy_children-IsChildCopied r (i + 1) (with_child n i v) from src f.pages ps (omega arith) in
    (
      m,
      rw (copy_child-in n i src (i + from) pages ps (omega arith) (omega arith)) e,
      record {
        frame = ChildFrame-trans f s.frame;
        kid = λ j. ground (arith, s.kid j, kid_at-with_child n i j v);
      },
    )
