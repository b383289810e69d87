-- ===== src/Btree/Disk/Reload.antt =====
-- `nkfs_btree_node_write` followed by `nkfs_btree_node_read` of the same block, checksum included.
use ddfs.Base.{
  ℕ, ◌+◌, ◌-◌, ◌*◌, ◌^◌, ◌≤◌, ◌<◌, ◌≡◌, refl, sym, ap, ap₂, ◌∙◌, ◌≢◌, inl, inr, false, not, ◌||◌,
  none, some, List, arith, ltb, ◌==◌, if◌then◌else◌, ltb→lt, ltb→ge, ==_iff, ==-refl, Bool-cases,
  tab, tab-ext, tab-resize, tab-injective, bug_on, bind-some,
}
use ddfs.Btree.Disk.{Cluster, by_ondisk, calc_sum, node_write, node_load}
use ddfs.Btree.Disk.RoundTrip.{IsStored, by_ondisk-to_ondisk}
use ddfs.Btree.Node.{btree_sig1, btree_sig2, Key, Node, value_at}
use ddfs.Btree.Node.Kids.{kid_at, entries, kids, HasPages}
use ddfs.Btree.Node.Slots.{entry_at, key_of}
use native.Mathlib.Nat.{le_trans}

room : (k : ℕ) → k ≤ 1024 → k + 1 ≤ 2048
room k h = omega arith

module _ (digest : List ℕ → List Key → List ℕ → List ℕ → ℕ) (n blank : Node) (clu : Cluster)
    (pages : HasPages n) (sig1 : n.sig1 ≡ btree_sig1) (sig2 : n.sig2 ≡ btree_sig2) where
  node_write-IsStored :
      (d : Cluster) × (node_write digest n clu ≡ some d)
      × (d.sum ≡ calc_sum digest n)
      × IsStored n (by_ondisk blank d)
  unfolding node_write
  node_write-IsStored =
      let (d, e, s, st) = by_ondisk-to_ondisk n blank (calc_sum digest n) clu pages in
      (d, bind-some _ guard e, s, st)
    where
      guard : bug_on (not (n.sig1 == btree_sig1) || not (n.sig2 == btree_sig2)) ≡ some tt
      guard = ground arith

  -- The signatures of what was stored pass, so the checksum decides.
  load_decides :
      (d : Cluster)
      → d.sum ≡ calc_sum digest n
      → IsStored n (by_ondisk blank d)
      → node_load digest blank d ≡ (
          if not (calc_sum digest (by_ondisk blank d) == calc_sum digest n)
          then none
          else some (by_ondisk blank d))
  unfolding node_load
  load_decides d e st = rw (signed, e) refl
    where
      signed :
          (not ((by_ondisk blank d).sig1 == btree_sig1)
            || not ((by_ondisk blank d).sig2 == btree_sig2))
          ≡ false
      signed = ground (arith, st.sig1, st.sig2)

  module _ (m : Node) (st : IsStored n m) where
    stored_entry : (i : ℕ) → i < 1024 → entry_at m i ≡ entry_at n i
    unfolding entry_at key_of
    stored_entry i h = ap₂ (λ k v. (k, v)) (st.low_key i h) (st.value i (omega arith))

    stored_keys :
        ((i : ℕ) → i < 768 → key_of n (1024 + i) ≡ 0)
        → ((i : ℕ) → i < 1536 → kid_at n i ≡ 0)
        → (i : ℕ) → i < 1792
        → key_of m i ≡ key_of n i
    stored_keys no_keys no_kids i h = elim (Bool-cases (ltb i 1024)) [
      | inl low ↦ st.low_key i (ltb→lt i 1024 low)
      | inr high ↦
          let j = i - 1024 in
          let split : i ≡ 1024 + j = omega (arith, ltb→ge i 1024 high) in
          rw split (
            st.high_key j (omega arith)
            ∙ omega (
              arith,
              no_keys j (omega arith),
              no_kids (2 * j) (omega arith),
              no_kids (2 * j + 1) (omega arith),
            ))
    ]

    same_sum :
        ((i : ℕ) → i < 768 → key_of n (1024 + i) ≡ 0)
        → ((i : ℕ) → i < 1536 → kid_at n i ≡ 0)
        → calc_sum digest m ≡ calc_sum digest n
    unfolding calc_sum
    same_sum no_keys no_kids = cc (
      st.sig1,
      st.leaf,
      st.nr_keys,
      tab-ext (key_of m) (key_of n) 1792 (stored_keys no_keys no_kids),
      tab-ext (kid_at m) (kid_at n) 2048 st.kid,
      tab-ext (value_at m) (value_at n) 2048 st.value,
    )

  -- A node with its pages and signatures, at most 1024 keys, clear key slots behind them and no
  -- child in the first 1536 slots, is written and read back: the checksum is accepted, and
  -- entries, children, leaf mark and count are the same, for every digest.
  pub load-write :
      n.nr_keys ≤ 1024
      → ((i : ℕ) → i < 768 → key_of n (1024 + i) ≡ 0)
      → ((i : ℕ) → i < 1536 → kid_at n i ≡ 0)
      → (d : Cluster) × (m : Node) × (node_write digest n clu ≡ some d)
        × (node_load digest blank d ≡ some m)
        × (entries m ≡ entries n)
        × (kids m ≡ kids n)
        × (m.leaf ≡ n.leaf)
        × (m.nr_keys ≡ n.nr_keys)
  load-write small no_keys no_kids =
      let (d, e, s, st) = node_write-IsStored in
      let m = by_ondisk blank d in
      let same : calc_sum digest m ≡ calc_sum digest n = same_sum m st no_keys no_kids in
      let fits : m.nr_keys ≤ 1024 = omega (arith, st.nr_keys) in
      (
        d,
        m,
        e,
        load_decides d s st ∙ rw (same, ==-refl (calc_sum digest n)) refl,
        tab-resize _ _ _ _ st.nr_keys (λ i h. stored_entry m st i (le_trans h fits)),
        tab-resize _ _ _ _ (ap (λ k. k + 1) st.nr_keys)
            (λ i h. st.kid i (le_trans h (room m.nr_keys fits))),
        st.leaf,
        st.nr_keys,
      )

  -- If some key slot behind the first 1024 differs from the pair of children that lies over it on
  -- disk, as at an inner node with a first child and clear slots, then after a write the read
  -- gives the node back only if two different rows of keys have the same digest.
  pub load-collision :
      (i : ℕ)
      → i < 768
      → key_of n (1024 + i) ≢ kid_at n (2 * i) * 2 ^ 64 + kid_at n (2 * i + 1)
      → (d : Cluster) × (node_write digest n clu ≡ some d)
        × (node_load digest blank d ≢ none
            → (tab (key_of (by_ondisk blank d)) 1792 ≢ tab (key_of n) 1792)
              × (calc_sum digest (by_ondisk blank d) ≡ calc_sum digest n))
  load-collision i h differs =
      let (d, e, s, st) = node_write-IsStored in
      (
        d,
        e,
        λ accepted. (
          λ same. differs (
              sym (
                tab-injective (key_of (by_ondisk blank d)) (key_of n) 1792 same (1024 + i)
                  (slot i h))
              ∙ st.high_key i h),
          accepted_sum d (load_decides d s st) accepted,
        ),
      )
    where
      slot : (j : ℕ) → j < 768 → 1024 + j < 1792
      slot j l = omega arith

      accepted_sum :
          (d : Cluster)
          → node_load digest blank d ≡ (
              if not (calc_sum digest (by_ondisk blank d) == calc_sum digest n)
              then none
              else some (by_ondisk blank d))
          → node_load digest blank d ≢ none
          → calc_sum digest (by_ondisk blank d) ≡ calc_sum digest n
      accepted_sum d decides accepted =
          elim (Bool-cases (calc_sum digest (by_ondisk blank d) == calc_sum digest n)) [
            | inl same ↦ (==_iff _ _).0 same
            | inr other ↦ absurd (accepted (decides ∙ rw other refl))
          ]
