-- ===== src/Btree/Search/Sound.antt =====
-- The searches of a node against its keys in order: they end, stay inside the node, and find.
use ddfs.Base.{
  ℕ, zero, suc, ◌+◌, ◌-◌, ◌/◌, ◌≤◌, ◌<◌, ◌≡◌, refl, sym, inl, inr, Option, some, arith, ltb, ◌==◌,
  ltb→lt, ltb→ge, ==_iff, Bool-cases, Compared, compare-Compared, is_lt, is_eq, is_gt,
}
use ddfs.Btree.Node.{Key, Node}
use ddfs.Btree.Node.Slots.{key_of, node_key-of}
use ddfs.Btree.Search.{Outcome, search_loop, hit, miss}
use Prim.Native.Nat.{compare, Ordering}

-- The keys in use grow strictly.
abbrev pub Sorted : Node → Type 0
Sorted n = (i j : ℕ) → i < j → j < n.nr_keys → key_of n i < key_of n j

-- Where `key` belongs: what stands before is smaller, what stands from here on is greater.
pub record Gap (n : Node) (key : Key) (p : ℕ) : Type 0 where
  pub bound : p ≤ n.nr_keys
  pub before : (i : ℕ) → i < p → key_of n i < key
  pub after : (i : ℕ) → p ≤ i → i < n.nr_keys → key < key_of n i

pub data Ends (n : Node) (key : Key) : Outcome → Type 0 where
  at_key : {i : ℕ} → i < n.nr_keys → key_of n i ≡ key → Ends n key (hit i)
  at_gap : {p : ℕ} → Gap n key p → Ends n key (miss p)

module _ (n : Node) (key : Key) (sorted : Sorted n) (small : n.nr_keys ≤ 1792) where
  -- One round of the loop, given what the rounds after it do.
  search_round :
      (fuel start end mid : ℕ)
      → mid < n.nr_keys
      → (o : Ordering) → Compared key (key_of n mid) o
      → (key < key_of n mid
          → (out : Outcome) × (search_loop n key fuel start mid ≡ some out) × Ends n key out)
      → (key_of n mid < key
          → (out : Outcome) × (search_loop n key fuel (mid + 1) end ≡ some out) × Ends n key out)
      → (out : Outcome) × ((elim o as (λ _. Option Outcome) [
        | Ordering.eq ↦ some (hit mid)
        | Ordering.lt ↦ search_loop n key fuel start mid
        | Ordering.gt ↦ search_loop n key fuel (mid + 1) end
      ])
          ≡ some out)
        × Ends n key out
  search_round fuel start end mid h Ordering.lt (is_lt l) below above = below l
  search_round fuel start end mid h Ordering.eq (is_eq e) below above =
      (hit mid, refl, at_key h (sym e))
  search_round fuel start end mid h Ordering.gt (is_gt l) below above = above l

  before_mid :
      (mid : ℕ) → mid < n.nr_keys → key_of n mid < key → (i : ℕ) → i < mid + 1 → key_of n i < key
  before_mid mid h l i li = elim (Bool-cases (i == mid)) [
    | inl e ↦ rw ((==_iff i mid).0 e) l
    | inr ne ↦ omega (arith, sorted i mid (ground arith) h)
  ]

  after_mid : (mid : ℕ) → key < key_of n mid → (i : ℕ) → mid ≤ i → i < n.nr_keys → key < key_of n i
  after_mid mid l i li h = elim (Bool-cases (i == mid)) [
    | inl e ↦ rw ((==_iff i mid).0 e) l
    | inr ne ↦ omega (arith, sorted mid i (ground arith) h)
  ]

  -- The loop ends within `end - start` rounds, at the key or at the place where it belongs.
  pub search_loop-Ends :
      (fuel start end : ℕ)
      → end - start < fuel
      → start ≤ end
      → end ≤ n.nr_keys
      → ((i : ℕ) → i < start → key_of n i < key)
      → ((i : ℕ) → end ≤ i → i < n.nr_keys → key < key_of n i)
      → (out : Outcome) × (search_loop n key fuel start end ≡ some out) × Ends n key out
  unfolding search_loop
  search_loop-Ends zero start end h le nr lo hi = absurd (omega arith)
  search_loop-Ends (suc fuel) start end h le nr lo hi = elim (Bool-cases (ltb start end)) [
    | inl more ↦
        let l : start < end = ltb→lt start end more in
        let mid = (start + end) / 2 in
        rw (more, node_key-of n mid (omega arith))
          (search_round fuel start end mid (omega arith) (compare key (key_of n mid))
            (compare-Compared key (key_of n mid))
            (λ c.
              search_loop-Ends fuel start mid (omega arith) (omega arith) (omega arith) lo
                (after_mid mid c))
            (λ c.
              search_loop-Ends fuel (mid + 1) end (omega arith) (omega arith) nr
                (before_mid mid (omega arith) c) hi))
    | inr done ↦ rw done (
      miss end,
      refl,
      at_gap (record {
        bound = nr;
        before = λ i l. lo i (omega (arith, ltb→ge start end done));
        after = hi;
      }),
    )
  ]
