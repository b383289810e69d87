-- ===== src/Core/Balloc/Scan.antt =====
-- The loops of `nkfs_balloc_block_find_set_free_bit` over the longs of one bitmap cluster, and what
-- they find. `block` is the number of the block of the first bit of the long.
use ddfs.Base.{
  ℕ, zero, suc, ◌+◌, ◌-◌, ◌*◌, ◌≤◌, ◌<◌, ◌≡◌, refl, ap, ◌∙◌, inl, inr, Bool, true, false, not, ◌&&◌,
  Option, none, some, arith, ltb, leb, ◌==◌, if◌then◌else◌, ltb→lt, ltb→ge, leb→le, ==_iff,
  Bool-cases,
}

-- How the loop over one long ends.
pub data Long : Type 0 where
  free : ℕ → Long
  nospace : Long
  all_set : Long

module _ (bits : ℕ → Bool) (nr_blocks : ℕ) where
  -- for (bit = 0; bit < 64; bit++), counted by the rounds left; `lo` is the index of the long's first
  -- bit.
  unfoldable pub scan_bits : ℕ → ℕ → ℕ → ℕ → Long
  scan_bits zero block lo bit = all_set
  scan_bits (suc r) block lo bit =
      let later = scan_bits r block lo (bit + 1) in
      if leb nr_blocks (block + bit)
      then nospace
      else (if not (bits (lo + bit)) then free bit else later)

  -- *addr == ~0UL
  unfoldable pub long_full : ℕ → ℕ → Bool
  long_full zero lo = true
  long_full (suc r) lo = bits lo && long_full r (lo + 1)

  -- The two loops over pages and longs: `i` is the offset of the long in bytes. What is found is the
  -- offset and the bit; `none` is -ENOENT.
  unfoldable pub scan_longs : ℕ → ℕ → ℕ → Option (ℕ × ℕ)
  scan_longs zero base i = none
  scan_longs (suc r) base i =
      let later = scan_longs r base (i + 8) in
      if leb nr_blocks (base + 8 * i)
      then none
      else (if long_full 64 (8 * i) then later else elim (scan_bits 64 (base + 8 * i) (8 * i) 0) [
        | free bit ↦ some (i, bit)
        | nospace ↦ none
        | all_set ↦ later
      ])

  pub data LongSays (block lo from r : ℕ) : Long → Type 0 where
    says_free :
        {bit : ℕ}
        → from ≤ bit
        → bit < from + r
        → block + bit < nr_blocks
        → bits (lo + bit) ≡ false
        → LongSays block lo from r (free bit)
    says_nospace :
        ((k : ℕ) → from ≤ k → block + k < nr_blocks → k < from + r → bits (lo + k) ≡ true)
        → ((k : ℕ) → from + r ≤ k → nr_blocks ≤ block + k)
        → LongSays block lo from r nospace
    says_all_set :
        ((k : ℕ) → from ≤ k → k < from + r → bits (lo + k) ≡ true)
        → LongSays block lo from r all_set

  busy_from :
      (lo from k r : ℕ)
      → bits (lo + from) ≡ true
      → ((j : ℕ) → from + 1 ≤ j → j < from + 1 + r → bits (lo + j) ≡ true)
      → from ≤ k
      → k < from + suc r
      → bits (lo + k) ≡ true
  busy_from lo from k r busy later a b = elim (Bool-cases (k == from)) [
    | inl e ↦ rw ((==_iff k from).0 e) busy
    | inr e ↦ later k (ground arith) (omega arith)
  ]

  widen :
      (block lo from r : ℕ) (l : Long)
      → bits (lo + from) ≡ true
      → block + from < nr_blocks
      → LongSays block lo (from + 1) r l
      → LongSays block lo from (suc r) l
  widen block lo from r (free bit) busy here (says_free a b c d) =
      says_free (omega arith) (omega arith) c d
  widen block lo from r nospace busy here (says_nospace a b) =
      says_nospace
        (λ k c d e. elim (Bool-cases (k == from)) [
          | inl same ↦ rw ((==_iff k from).0 same) busy
          | inr other ↦ a k (ground arith) d (omega arith)
        ])
        (λ k c. b k (omega arith))
  widen block lo from r all_set busy here (says_all_set a) =
      says_all_set (λ k c d. busy_from lo from k r busy a c d)

  leb→gt : (k : ℕ) → leb nr_blocks k ≡ false → k < nr_blocks
  leb→gt k e = ground arith

  scan_bits-LongSays : (r block lo from : ℕ) → LongSays block lo from r (scan_bits r block lo from)
  unfolding scan_bits
  scan_bits-LongSays zero block lo from = says_all_set (λ k a b. absurd (omega arith))
  scan_bits-LongSays (suc r) block lo from = elim (Bool-cases (leb nr_blocks (block + from))) [
    | inl out ↦
        let past : nr_blocks ≤ block + from = leb→le nr_blocks (block + from) out in
        rw out (says_nospace (λ k a b c. absurd (omega arith)) (λ k a. omega arith))
    | inr here ↦ rw here (elim (Bool-cases (bits (lo + from))) [
      | inr clear ↦ rw clear (says_free (omega arith) (omega arith) (ground arith) clear)
      | inl busy ↦ rw busy (
          widen block lo from r (scan_bits r block lo (from + 1)) busy (leb→gt (block + from) here)
            (scan_bits-LongSays r block lo (from + 1)))
    ])
  ]

  long_full-set : (r lo : ℕ) → long_full r lo ≡ true → (k : ℕ) → lo ≤ k → k < lo + r → bits k ≡ true
  unfolding long_full
  long_full-set zero lo e k a b = absurd (omega arith)
  long_full-set (suc r) lo e k a b = elim (Bool-cases (k == lo)) [
    | inl same ↦ rw ((==_iff k lo).0 same) (and_left (bits lo) (long_full r (lo + 1)) e)
    | inr other ↦
        long_full-set r (lo + 1) (and_right (bits lo) (long_full r (lo + 1)) e) k (ground arith)
          (omega arith)
  ]
    where
      and_left : (x y : Bool) → (x && y) ≡ true → x ≡ true
      and_left true y e = refl
      and_left false y e = cc

      and_right : (x y : Bool) → (x && y) ≡ true → y ≡ true
      and_right true y e = e
      and_right false y e = cc

  -- What the scan of a cluster says: a clear bit of a block of the superblock, or that there is none
  -- among the longs that it went through.
  abbrev pub ScanSays : ℕ → ℕ → ℕ → Option (ℕ × ℕ) → Type 0
  ScanSays base i r (some (long, bit)) =
      (i ≤ long)
      × (8 * long + bit < 8 * i + 64 * r)
      × (bit < 64)
      × (base + 8 * long + bit < nr_blocks)
      × (bits (8 * long + bit) ≡ false)
  ScanSays base i r none =
      (k : ℕ) → 8 * i ≤ k → k < 8 * i + 64 * r → base + k < nr_blocks → bits k ≡ true

  later_says :
      (base i r : ℕ) (o : Option (ℕ × ℕ))
      → ((k : ℕ) → 8 * i ≤ k → k < 8 * i + 64 → bits k ≡ true)
      → ScanSays base (i + 8) r o
      → ScanSays base i (suc r) o
  later_says base i r none set says = λ k a b c. elim (Bool-cases (ltb k (8 * i + 64))) [
    | inl near ↦ set k a (ltb→lt k (8 * i + 64) near)
    | inr far ↦ says k (omega (arith, ltb→ge k (8 * i + 64) far)) (omega arith) c
  ]
  later_says base i r (some (long, bit)) set (a, b, c, d, e) = (omega arith, omega arith, c, d, e)

  here : (lo k : ℕ) → lo ≤ k → bits (lo + (k - lo)) ≡ true → bits k ≡ true
  here lo k le e = ap bits (back) ∙ e
    where
      back : k ≡ lo + (k - lo)
      back = omega arith

  long_says :
      (base i r : ℕ) (later : Option (ℕ × ℕ)) (l : Long)
      → LongSays (base + 8 * i) (8 * i) 0 64 l
      → ScanSays base (i + 8) r later
      → ScanSays base i (suc r) (elim l as (λ _. Option (ℕ × ℕ)) [
        | free bit ↦ some (i, bit)
        | nospace ↦ none
        | all_set ↦ later
      ])
  long_says base i r later (free bit) (says_free a b c d) says =
      (omega arith, omega arith, omega arith, c, d)
  long_says base i r later nospace (says_nospace a b) says = λ k x y z.
      elim (Bool-cases (ltb (k - 8 * i) 64)) [
        | inl near ↦
            here (8 * i) k x
              (a (k - 8 * i) (omega arith) (omega arith) (ltb→lt (k - 8 * i) 64 near))
        | inr far ↦ absurd (omega (arith, b (k - 8 * i) (ltb→ge (k - 8 * i) 64 far)))
      ]
  long_says base i r later all_set (says_all_set a) says =
      later_says base i r later
        (λ k x y. here (8 * i) k x (a (k - 8 * i) (omega arith) (omega arith))) says

  pub scan_longs-ScanSays : (r base i : ℕ) → ScanSays base i r (scan_longs r base i)
  unfolding scan_longs
  scan_longs-ScanSays zero base i = λ k a b c. absurd (omega arith)
  scan_longs-ScanSays (suc r) base i = elim (Bool-cases (leb nr_blocks (base + 8 * i))) [
    | inl out ↦ rw out (λ k a b c. absurd (omega (arith, leb→le nr_blocks (base + 8 * i) out)))
    | inr here ↦ rw here (elim (Bool-cases (long_full 64 (8 * i))) [
      | inl full ↦ rw full (
          later_says base i r (scan_longs r base (i + 8)) (long_full-set 64 (8 * i) full)
            (scan_longs-ScanSays r base (i + 8)))
      | inr gap ↦ rw gap (
          long_says base i r (scan_longs r base (i + 8)) (scan_bits 64 (base + 8 * i) (8 * i) 0)
            (scan_bits-LongSays 64 (base + 8 * i) (8 * i) 0) (scan_longs-ScanSays r base (i + 8)))
    ])
  ]
