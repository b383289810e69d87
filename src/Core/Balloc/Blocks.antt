-- ===== src/Core/Balloc/Blocks.antt =====
-- The bitmap as a function of the block: one write of a bit changes the bit of one block.
use ddfs.Base.{
  ℕ, ◌+◌, ◌-◌, ◌*◌, ◌/◌, ◌%◌, ◌≤◌, ◌<◌, ◌≡◌, refl, sym, ap, ◌∙◌, ◌≢◌, inl, inr, Bool, true, none,
  some, arith, leb, ◌==◌, leb→le, le→leb, ==_iff, ==-refl, Bool-cases,
}
use ddfs.Core.Balloc.{Sb, set_bit, block_bm_bit}
use ddfs.Core.Balloc.Position.{IsBitmap, bit_of, bit_of-place}
use native.Mathlib.Nat.{div-add-mod, mod-lt, mul_assoc, mul_comm, mul_left_comm, div-lt_iff_lt-mul}

-- The state with one bit written and with what else an operation changes.
abbrev pub put : Sb → ℕ → ℕ → Bool → ℕ → (ℕ → ℕ) → ℕ → Sb
put sb j k v u r n = record sb {
  bits = set_bit sb j k v;
  used_blocks = u;
  read_locks = r;
  sb_unlocks = n;
}

-- What no operation on the bitmap changes.
pub record Kept (a b : Sb) : Type 0 where
  pub nr_blocks : b.nr_blocks ≡ a.nr_blocks
  pub bm_block : b.bm_block ≡ a.bm_block
  pub bm_blocks : b.bm_blocks ≡ a.bm_blocks
  pub bsize : b.bsize ≡ a.bsize
  pub size : b.size ≡ a.size
  pub magic : b.magic ≡ a.magic
  pub version : b.version ≡ a.version
  pub id : b.id ≡ a.id
  pub inodes_tree_block : b.inodes_tree_block ≡ a.inodes_tree_block
  pub stopping : b.stopping ≡ a.stopping

pub put-Kept :
    (sb : Sb) (j k : ℕ) (v : Bool) (u : ℕ) (r : ℕ → ℕ) (n : ℕ) → Kept sb (put sb j k v u r n)
put-Kept sb j k v u r n = record {
  nr_blocks = refl;
  bm_block = refl;
  bm_blocks = refl;
  bsize = refl;
  size = refl;
  magic = refl;
  version = refl;
  id = refl;
  inodes_tree_block = refl;
  stopping = refl;
}

pub Kept-refl : (a : Sb) → Kept a a
Kept-refl a = record {
  nr_blocks = refl;
  bm_block = refl;
  bm_blocks = refl;
  bsize = refl;
  size = refl;
  magic = refl;
  version = refl;
  id = refl;
  inodes_tree_block = refl;
  stopping = refl;
}

pub Kept-trans : {a b c : Sb} → Kept a b → Kept b c → Kept a c
Kept-trans k l = record {
  nr_blocks = l.nr_blocks ∙ k.nr_blocks;
  bm_block = l.bm_block ∙ k.bm_block;
  bm_blocks = l.bm_blocks ∙ k.bm_blocks;
  bsize = l.bsize ∙ k.bsize;
  size = l.size ∙ k.size;
  magic = l.magic ∙ k.magic;
  version = l.version ∙ k.version;
  id = l.id ∙ k.id;
  inodes_tree_block = l.inodes_tree_block ∙ k.inodes_tree_block;
  stopping = l.stopping ∙ k.stopping;
}

pub Kept-IsBitmap : {a b : Sb} (m : ℕ) → Kept a b → IsBitmap a m → IsBitmap b m
Kept-IsBitmap m k g = record {
  pages = k.bsize ∙ g.pages;
  one_page = g.one_page;
  word = g.word;
  covers = rw (k.nr_blocks, k.bm_blocks) g.covers;
  fits = rw (k.bm_blocks) g.fits;
}

-- The number of the block of bit `k` of cluster `j`.
abbrev pub number : Sb → ℕ → ℕ → ℕ → ℕ
number sb m j k = 32768 * ((j - sb.bm_block) * m) + k

module _ (sb : Sb) (m : ℕ) (g : IsBitmap sb m) where
  pub block_split :
      (b : ℕ)
      → b < sb.nr_blocks
      → (q k : ℕ) × (b ≡ 32768 * (q * m) + k) × (k < 32768 * m) × (q < sb.bm_blocks)
  block_split b lt = (
    b / (32768 * m),
    b % (32768 * m),
    omega (
      arith,
      div-add-mod b (32768 * m),
      mul_assoc 32768 m (b / (32768 * m)),
      mul_comm m (b / (32768 * m)),
    ),
    mod-lt b (omega (arith, g.one_page)),
    (div-lt_iff_lt-mul (omega (arith, g.one_page))).1
        (omega (arith, g.covers, mul_left_comm sb.bm_blocks 32768 m)),
  )

  pub put-IsBitmap :
      (j k : ℕ) (v : Bool) (u : ℕ) (r : ℕ → ℕ) (n : ℕ) → IsBitmap (put sb j k v u r n) m
  put-IsBitmap j k v u r n = record {
    pages = g.pages;
    one_page = g.one_page;
    word = g.word;
    covers = g.covers;
    fits = g.fits;
  }

  pub out_of_range : (s : Sb) (b : ℕ) → s.nr_blocks ≤ b → bit_of s b ≡ none
  unfolding block_bm_bit
  out_of_range s b le = rw (bit_of, le→leb s.nr_blocks b le) refl

  -- A block's bit by the number of its cluster.
  pub bit_of-number :
      (s : Sb) (j k : ℕ)
      → IsBitmap s m
      → s.bm_block ≤ j
      → k < 32768 * m
      → number s m j k < s.nr_blocks
      → bit_of s (number s m j k) ≡ some (s.bits j k)
  bit_of-number s j k gs lo h lt =
      bit_of-place s m (j - s.bm_block) k gs h lt ∙ ap (λ x. some (s.bits x k)) (omega arith)

  set_bit_other :
      (j k q k' : ℕ) (v : Bool)
      → sb.bm_block ≤ j
      → 32768 * (q * m) + k' ≢ number sb m j k
      → set_bit sb j k v (sb.bm_block + q) k' ≡ sb.bits (sb.bm_block + q) k'
  set_bit_other j k q k' v lo ne = elim (Bool-cases (sb.bm_block + q == j)) [
    | inr far ↦ rw far refl
    | inl near ↦ elim (Bool-cases (k' == k)) [
      | inr far ↦ rw (near, far) refl
      | inl same ↦ absurd (ne (cc (ap (λ x. 32768 * (x * m)) (here near), (==_iff k' k).0 same)))
    ]
  ]
    where
      here : (sb.bm_block + q == j) ≡ true → q ≡ j - sb.bm_block
      here e = ground (arith, (==_iff (sb.bm_block + q) j).0 e)

  other_at :
      (j k other q k' : ℕ) (v : Bool) (u : ℕ) (r : ℕ → ℕ) (n : ℕ)
      → sb.bm_block ≤ j
      → other ≢ number sb m j k
      → other < sb.nr_blocks
      → other ≡ 32768 * (q * m) + k'
      → k' < 32768 * m
      → bit_of (put sb j k v u r n) other ≡ bit_of sb other
  other_at j k other q k' v u r n lo ne lt e h =
      ap (bit_of (put sb j k v u r n)) e
      ∙ bit_of-place (put sb j k v u r n) m q k' (put-IsBitmap j k v u r n) h (omega arith)
      ∙ ap some (set_bit_other j k q k' v lo (λ same. ne (e ∙ same)))
      ∙ sym (bit_of-place sb m q k' g h (omega arith))
      ∙ ap (bit_of sb) (sym e)

  pub full_at :
      (b q k : ℕ)
      → b < sb.nr_blocks
      → b ≡ 32768 * (q * m) + k
      → k < 32768 * m
      → (number sb m (sb.bm_block + q) k < sb.nr_blocks → sb.bits (sb.bm_block + q) k ≡ true)
      → bit_of sb b ≡ some true
  full_at b q k lt e h set =
      ap (bit_of sb) e
      ∙ bit_of-place sb m q k g h (omega arith)
      ∙ ap some (set (rw (ap (λ x. 32768 * (x * m) + k) (back)) (omega arith)))
    where
      back : sb.bm_block + q - sb.bm_block ≡ q
      back = omega arith

  pub put_other :
      (j k other : ℕ) (v : Bool) (u : ℕ) (r : ℕ → ℕ) (n : ℕ)
      → sb.bm_block ≤ j
      → other ≢ number sb m j k
      → bit_of (put sb j k v u r n) other ≡ bit_of sb other
  put_other j k other v u r n lo ne = elim (Bool-cases (leb sb.nr_blocks other)) [
    | inl out ↦
        out_of_range (put sb j k v u r n) other (leb→le sb.nr_blocks other out)
        ∙ sym (out_of_range sb other (leb→le sb.nr_blocks other out))
    | inr inside ↦
        let (q, k', e, h, _) = block_split other (ground arith) in
        other_at j k other q k' v u r n lo ne (ground arith) e h
  ]

  pub put_here :
      (j k : ℕ) (v : Bool) (u : ℕ) (r : ℕ → ℕ) (n : ℕ)
      → sb.bm_block ≤ j
      → k < 32768 * m
      → number sb m j k < sb.nr_blocks
      → bit_of (put sb j k v u r n) (number sb m j k) ≡ some v
  put_here j k v u r n lo h lt =
      bit_of-number (put sb j k v u r n) j k (put-IsBitmap j k v u r n) lo h lt
      ∙ rw (==-refl j, ==-refl k) refl
