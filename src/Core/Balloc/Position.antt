-- ===== src/Core/Balloc/Position.antt =====
-- Where a block's bit stands: the arithmetic of `nkfs_balloc_block_bm_bit`.
use ddfs.Base.{
  ℕ, ◌+◌, ◌-◌, ◌*◌, ◌/◌, ◌%◌, ◌^◌, ◌≤◌, ◌<◌, ◌≡◌, ap, ap₂, Bool, false, Option, none, some, arith,
  leb,
}
use ddfs.Core.Balloc.{Sb, Place, block_bm_bit, first_block}
use native.Mathlib.Nat.{
  add-mul-div_left, add-mul-mod_self_left, div-eq_of_lt, mod-eq_of_lt, mul-add, mul-le-mul_right,
  mul_assoc, mul_comm, mul_left_comm,
}

-- A bitmap whose clusters are `m` pages each, and which has a bit for every block.
pub record IsBitmap (sb : Sb) (m : ℕ) : Type 0 where
  pub pages : sb.bsize ≡ 4096 * m
  pub one_page : 0 < m
  pub word : 4096 * m < 2 ^ 32
  pub covers : sb.nr_blocks ≤ 32768 * (sb.bm_blocks * m)
  pub fits : 32768 * (sb.bm_blocks * m) < 2 ^ 64

-- The place that belongs to bit `k` of the cluster `q` behind the first one of the bitmap.
abbrev pub place : Sb → ℕ → ℕ → Place
place sb q k = record { cluster = sb.bm_block + q; long_off = 8 * (k / 64); bit = k % 64 }

cluster_of : (m q k : ℕ) → 0 < m → k < 32768 * m → (32768 * (q * m) + k) / 64 * 8 / (4096 * m) ≡ q
cluster_of m q k pos h =
    rw (split, add-mul-div_left (8 * (k / 64)) q few, div-eq_of_lt near) (omega arith)
  where
    few : 0 < 4096 * m
    few = omega arith

    near : 8 * (k / 64) < 4096 * m
    near = omega arith

    split : (32768 * (q * m) + k) / 64 * 8 ≡ 8 * (k / 64) + 4096 * m * q
    split = omega (arith, mul_assoc 4096 m q, mul_comm q m)

offset_of :
    (m q k : ℕ) → 0 < m → k < 32768 * m → (32768 * (q * m) + k) / 64 * 8 % (4096 * m) ≡ 8 * (k / 64)
offset_of m q k pos h =
    rw (split, add-mul-mod_self_left (8 * (k / 64)) (4096 * m) q) (mod-eq_of_lt near)
  where
    near : 8 * (k / 64) < 4096 * m
    near = omega arith

    split : (32768 * (q * m) + k) / 64 * 8 ≡ 8 * (k / 64) + 4096 * m * q
    split = omega (arith, mul_assoc 4096 m q, mul_comm q m)

pub block_bm_bit-place :
    (sb : Sb) (m q k : ℕ)
    → IsBitmap sb m
    → k < 32768 * m
    → 32768 * (q * m) + k < sb.nr_blocks
    → block_bm_bit sb (32768 * (q * m) + k) ≡ some (place sb q k)
unfolding block_bm_bit
block_bm_bit-place sb m q k g h lt =
    rw (inside, g.pages, cluster_of m q k g.one_page h, offset_of m q k g.one_page h)
      (ap₂ (λ x y. some (record { cluster = sb.bm_block + q; long_off = x; bit = y }))
        (mod-eq_of_lt (omega (arith, g.word))) (omega arith))
  where
    inside : leb sb.nr_blocks (32768 * (q * m) + k) ≡ false
    inside = ground arith

-- What the bitmap says of a block, at the place that the code computes.
abbrev pub bit_of : Sb → ℕ → Option Bool
bit_of sb block = elim (block_bm_bit sb block) [
  | none ↦ none
  | some p ↦ some (sb.bits p.cluster (8 * p.long_off + p.bit))
]

pub bit_of-place :
    (sb : Sb) (m q k : ℕ)
    → IsBitmap sb m
    → k < 32768 * m
    → 32768 * (q * m) + k < sb.nr_blocks
    → bit_of sb (32768 * (q * m) + k) ≡ some (sb.bits (sb.bm_block + q) k)
bit_of-place sb m q k g h lt =
    rw (bit_of, block_bm_bit-place sb m q k g h lt)
      (ap (λ x. some (sb.bits (sb.bm_block + q) x)) whole)
  where
    whole : 8 * (8 * (k / 64)) + k % 64 ≡ k
    whole = omega arith

succ_times : (q m : ℕ) → (q + 1) * m ≡ q * m + m
succ_times q m = rw (mul_comm (q + 1) m, mul-add m q 1, mul_comm m q) (omega arith)

eights : (q m : ℕ) → 8 * q * (4096 * m) ≡ 32768 * (q * m)
eights q m = rw (mul_left_comm (8 * q) 4096 m, mul_assoc 8 q m) (omega arith)

pub first_block-product :
    (sb : Sb) (m i : ℕ)
    → IsBitmap sb m
    → sb.bm_block ≤ i
    → i < sb.bm_block + sb.bm_blocks
    → (first_block sb i ≡ 32768 * ((i - sb.bm_block) * m))
      × (32768 * ((i - sb.bm_block) * m) + 32768 * m ≤ 32768 * (sb.bm_blocks * m))
first_block-product sb m i g lo hi = (rw (product) (mod-eq_of_lt (omega (arith, room))), room)
  where
    room : 32768 * ((i - sb.bm_block) * m) + 32768 * m ≤ 32768 * (sb.bm_blocks * m)
    room = omega (arith, mul-le-mul_right m next, succ_times (i - sb.bm_block) m)
      where
        next : i - sb.bm_block + 1 ≤ sb.bm_blocks
        next = omega arith

    product : 8 * (i - sb.bm_block) * sb.bsize ≡ 32768 * ((i - sb.bm_block) * m)
    product = rw (g.pages) (eights (i - sb.bm_block) m)
