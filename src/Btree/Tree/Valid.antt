-- ===== src/Btree/Tree/Valid.antt =====
-- When a tree of core/btree.c is well formed, and what it holds.
use ddfs.Base.{
  ℕ, zero, suc, ◌+◌, ◌-◌, ◌*◌, ◌≤◌, ◌<◌, ◌≡◌, sym, ap, ◌∙◌, ◌≢◌, ◌⊎◌, inl, inr, Option, some, arith,
  ◌==◌, if◌then◌else◌, Bool-cases,
}
use ddfs.Btree.Node.{btree_t, Key, Node}
use ddfs.Btree.Node.Kids.{kid_at, HasPages}
use ddfs.Btree.Node.Slots.{entry_at, key_of, entry_at-key}
use ddfs.Btree.Search.Sound.{Sorted}
use mathlib.Core.Path.{subst}
use native.Mathlib.Nat.{le_trans}

-- The keys of a node grow, fit its pages, and lie from `lo` on and below `hi`.
pub record NodeOk (n : Node) (lo hi : ℕ) : Type 0 where
  pub small : n.nr_keys ≤ 2 * btree_t - 1
  pub sorted : Sorted n
  pub within : (i : ℕ) → i < n.nr_keys → (lo ≤ key_of n i) × (key_of n i < hi)

-- The bounds of child `i`: the keys beside it, or those of the node itself at its ends.
abbrev pub lo_of : Node → ℕ → ℕ → ℕ
lo_of n lo i = if i == 0 then lo else key_of n (i - 1) + 1

abbrev pub hi_of : Node → ℕ → ℕ → ℕ
hi_of n hi i = if i == n.nr_keys then hi else key_of n i

-- The tree of height `h` below block `b`, with keys from `lo` on and below `hi`.
abbrev pub IsTree : (ℕ → Option Node) → ℕ → ℕ → ℕ → ℕ → Type 0
IsTree nodes zero b lo hi = (n : Node) × (nodes b ≡ some n) × (n.leaf ≢ 0) × NodeOk n lo hi
IsTree nodes (suc h) b lo hi =
    (n : Node) × (nodes b ≡ some n)
    × (n.leaf ≡ 0)
    × (0 < n.nr_keys)
    × HasPages n
    × NodeOk n lo hi
    × ((i : ℕ) → i ≤ n.nr_keys → IsTree nodes h (kid_at n i) (lo_of n lo i) (hi_of n hi i))

-- The node holds the key with the value.
abbrev pub InNode : Node → Key → ℕ → Type 0
InNode n k v = (i : ℕ) × (i < n.nr_keys) × (entry_at n i ≡ (k, v))

-- The key stands with the value somewhere in the tree.
abbrev pub Holds : (ℕ → Option Node) → ℕ → ℕ → Key → ℕ → Type 0
Holds nodes zero b k v = (n : Node) × (nodes b ≡ some n) × InNode n k v
Holds nodes (suc h) b k v =
    (n : Node) × (nodes b ≡ some n)
    × (InNode n k v ⊎ ((i : ℕ) × (i ≤ n.nr_keys) × Holds nodes h (kid_at n i) k v))

pub InNode-key : (n : Node) (k v : ℕ) (w : InNode n k v) → key_of n w.0 ≡ k
InNode-key n k v (i, h, e) = sym (entry_at-key n i) ∙ ap (λ (p : Key × ℕ). p.0) e

pub lo_of-ge : (n : Node) (lo hi i : ℕ) → NodeOk n lo hi → i ≤ n.nr_keys → lo ≤ lo_of n lo i
lo_of-ge n lo hi i okay h = elim (Bool-cases (i == 0)) [
  | inl z ↦ rw z (omega arith)
  | inr nz ↦ rw nz (omega (arith, okay.within (i - 1) (ground arith)))
]

pub hi_of-le : (n : Node) (lo hi i : ℕ) → NodeOk n lo hi → i ≤ n.nr_keys → hi_of n hi i ≤ hi
hi_of-le n lo hi i okay h = elim (Bool-cases (i == n.nr_keys)) [
  | inl z ↦ rw z (omega arith)
  | inr nz ↦ rw nz (omega (arith, okay.within i (ground arith)))
]

-- What the tree holds lies within its bounds.
pub Holds-within :
    (nodes : ℕ → Option Node) (h b lo hi k v : ℕ)
    → IsTree nodes h b lo hi
    → Holds nodes h b k v
    → (lo ≤ k) × (k < hi)
Holds-within nodes zero b lo hi k v (n, e, leaf, okay) (m, e', w) =
    let same : m ≡ n = cc in
    let w' = subst (λ x. InNode x k v) same w in rw (InNode-key n k v w') at (okay.within w'.0 w'.1)
Holds-within nodes (suc h) b lo hi k v (n, e, leaf, pos, pages, okay, sub) (m, e', w) =
    let same : m ≡ n = cc in
    below
      (subst (λ x. InNode x k v ⊎ ((i : ℕ) × (i ≤ x.nr_keys) × Holds nodes h (kid_at x i) k v)) same
        w)
      (λ i l d. Holds-within nodes h (kid_at n i) (lo_of n lo i) (hi_of n hi i) k v (sub i l) d)
  where
    below :
        InNode n k v ⊎ ((i : ℕ) × (i ≤ n.nr_keys) × Holds nodes h (kid_at n i) k v)
        → ((i : ℕ)
            → i ≤ n.nr_keys
            → Holds nodes h (kid_at n i) k v
            → (lo_of n lo i ≤ k) × (k < hi_of n hi i))
        → (lo ≤ k) × (k < hi)
    below (inl w) rec = rw (InNode-key n k v w) at (okay.within w.0 w.1)
    below (inr (i, l, d)) rec = (
      le_trans (lo_of-ge n lo hi i okay l) (rec i l d).0,
      le_trans (rec i l d).1 (hi_of-le n lo hi i okay l),
    )
