-- ===== src/Btree/Ops/Moves.antt =====
-- What the moves of slots in core/btree.c do, slot by slot, and that they stay inside the pages.
use ddfs.Base.{
  ℕ, zero, suc, ◌+◌, ◌-◌, ◌≤◌, ◌<◌, ◌≡◌, refl, ◌&&◌, some, arith, ltb, leb, ◌==◌, if◌then◌else◌,
  inserted,
}
use ddfs.Btree.Node.{Key, Node, key_at, value_at}
use ddfs.Btree.Node.Slots.{
  node_key-in, node_value-in, with_key, with_value, set_node_key-in, set_node_value-in,
  key_at-with_key, value_at-with_value, entry_at,
}
use ddfs.Btree.Ops.{copy_key_value, copy_kv, shift_kv, put_key_value, put_kv, copy_kvs, pull_kv}

abbrev pub with_entry : Node → ℕ → Key × ℕ → Node
with_entry n i e = with_value (with_key n i e.0) i e.1

-- `m` has the fields of `n` apart from its keys and values.
pub record KvFrame (n m : Node) : Type 0 where
  pub sig1 : m.sig1 ≡ n.sig1
  pub t : m.t ≡ n.t
  pub block : m.block ≡ n.block
  pub leaf : m.leaf ≡ n.leaf
  pub nr_keys : m.nr_keys ≡ n.nr_keys
  pub children : m.children ≡ n.children
  pub sig2 : m.sig2 ≡ n.sig2

pub entry_at-with_entry :
    (n : Node) (i j : ℕ) (e : Key × ℕ)
    → entry_at (with_entry n i e) j ≡ (if j == i then e else entry_at n j)
unfolding entry_at
entry_at-with_entry n i j e =
    ground (arith, key_at-with_key n i j e.0, value_at-with_value n i j e.1)

pub copy_kv-in :
    (dst : Node) (di : ℕ) (src : Node) (si : ℕ)
    → di < 1792
    → si < 1792
    → copy_kv dst di src si ≡ some (with_entry dst di (entry_at src si))
unfolding copy_kv entry_at
copy_kv-in dst di src si hd hs = rw (
  node_key-in src si hs,
  set_node_key-in dst di (key_at src si) hd,
  node_value-in src si (omega arith),
  set_node_value-in (with_key dst di (key_at src si)) di (value_at src si) (omega arith),
)

-- Slots `lo` to `lo + r - 1` of `n` stand one further on in `m`.
pub record IsShift (r lo : ℕ) (n m : Node) : Type 0 where
  pub frame : KvFrame n m
  pub entry :
      (j : ℕ)
      → entry_at m j ≡ (if ltb lo j && leb j (lo + r) then entry_at n (j - 1) else entry_at n j)

pub shift_kv-IsShift :
    (r lo : ℕ) (n : Node)
    → lo + r < 1792
    → (m : Node) × (shift_kv r lo n ≡ some m) × IsShift r lo n m
unfolding shift_kv
shift_kv-IsShift zero lo n h = (n, refl, record { frame = ground arith; entry = λ j. ground arith })
shift_kv-IsShift (suc r) lo n h =
    let n' = with_entry n (lo + r + 1) (entry_at n (lo + r)) in
    let (m, e, s) = shift_kv-IsShift r lo n' (omega arith) in
    (
      m,
      rw (copy_kv-in n (lo + r + 1) n (lo + r) (omega arith) (omega arith)) e,
      record {
        frame = ground (arith, s.frame);
        entry = λ j. ground (
          arith,
          s.entry j,
          entry_at-with_entry n (lo + r + 1) j (entry_at n (lo + r)),
          entry_at-with_entry n (lo + r + 1) (j - 1) (entry_at n (lo + r)),
        );
      },
    )

module _ (n : Node) (di : ℕ) (le : di ≤ n.nr_keys) (room : n.nr_keys < 1792) where
  pub put_key_value-inserted :
      (k : Key) (v : ℕ)
      → (m : Node) × (put_key_value n di k v ≡ some m)
        × KvFrame n m
        × ((j : ℕ) → entry_at m j ≡ inserted (entry_at n) n.nr_keys di (k, v) j)
  unfolding put_key_value copy_key_value
  put_key_value-inserted k v =
      let (m, e, s) = shift_kv-IsShift (n.nr_keys - di) di n (omega arith) in
      (
        with_entry m di (k, v),
        rw (
          e,
          set_node_key-in m di k (omega arith),
          set_node_value-in (with_key m di k) di v (omega arith),
        ),
        ground (arith, s.frame),
        λ j. ground (arith, s.entry j, entry_at-with_entry m di j (k, v)),
      )

  pub put_kv-inserted :
      (src : Node) (si : ℕ)
      → si < 1792
      → (m : Node) × (put_kv n di src si ≡ some m)
        × KvFrame n m
        × ((j : ℕ) → entry_at m j ≡ inserted (entry_at n) n.nr_keys di (entry_at src si) j)
  unfolding put_kv
  put_kv-inserted src si hs =
      let (m, e, s) = shift_kv-IsShift (n.nr_keys - di) di n (omega arith) in
      (
        with_entry m di (entry_at src si),
        rw (e, copy_kv-in m di src si (omega arith) hs),
        ground (arith, s.frame),
        λ j. ground (arith, s.entry j, entry_at-with_entry m di j (entry_at src si)),
      )

-- Slots from `i` on stand one further down in `m`.
pub record IsPull (r i : ℕ) (n m : Node) : Type 0 where
  pub frame : KvFrame n m
  pub entry :
      (j : ℕ)
      → entry_at m j
        ≡ (if leb i (j + 1) && ltb (j + 1) (i + r) then entry_at n (j + 1) else entry_at n j)

pub pull_kv-IsPull :
    (r i : ℕ) (n : Node)
    → 0 < i
    → i + r ≤ 1792
    → (m : Node) × (pull_kv r i n ≡ some m) × IsPull r i n m
unfolding pull_kv
pull_kv-IsPull zero i n pos h =
    (n, refl, record { frame = ground arith; entry = λ j. ground arith })
pull_kv-IsPull (suc r) i n pos h =
    let n' = with_entry n (i - 1) (entry_at n i) in
    let (m, e, s) = pull_kv-IsPull r (i + 1) n' (omega arith) (omega arith) in
    (
      m,
      rw (copy_kv-in n (i - 1) n i (omega arith) (omega arith)) e,
      record {
        frame = ground (arith, s.frame);
        entry = λ j. ground (
          arith,
          s.entry j,
          entry_at-with_entry n (i - 1) j (entry_at n i),
          entry_at-with_entry n (i - 1) (j + 1) (entry_at n i),
        );
      },
    )

-- Slots `i` to `i + r - 1` of `m` hold those of `src` from `i + from` on.
pub record IsCopied (r i from : ℕ) (src n m : Node) : Type 0 where
  pub frame : KvFrame n m
  pub entry :
      (j : ℕ)
      → entry_at m j ≡ (if leb i j && ltb j (i + r) then entry_at src (j + from) else entry_at n j)

pub copy_kvs-IsCopied :
    (r i : ℕ) (n : Node) (from : ℕ) (src : Node)
    → i + r ≤ 1792
    → i + from + r ≤ 1792
    → (m : Node) × (copy_kvs r i n from src ≡ some m) × IsCopied r i from src n m
unfolding copy_kvs
copy_kvs-IsCopied zero i n from src h h' =
    (n, refl, record { frame = ground arith; entry = λ j. ground arith })
copy_kvs-IsCopied (suc r) i n from src h h' =
    let n' = with_entry n i (entry_at src (i + from)) in
    let (m, e, s) = copy_kvs-IsCopied r (i + 1) n' from src (omega arith) (omega arith) in
    (
      m,
      rw (copy_kv-in n i src (i + from) (omega arith) (omega arith)) e,
      record {
        frame = ground (arith, s.frame);
        entry = λ j. ground (arith, s.entry j, entry_at-with_entry n i j (entry_at src (i + from)));
      },
    )
