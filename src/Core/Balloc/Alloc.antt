-- ===== src/Core/Balloc/Alloc.antt =====
-- What `nkfs_balloc_block_alloc` promises on a bitmap that has a bit for every block, as long as
-- clusters can be read and written back.
use ddfs.Base.{
  ℕ, zero, suc, ◌+◌, ◌-◌, ◌*◌, ◌/◌, ◌%◌, ◌≤◌, ◌<◌, ◌≡◌, refl, ap, ◌∙◌, ◌≢◌, inl, inr, true, false,
  not, Option, none, some, arith, ◌==◌, if◌then◌else◌, ==_iff, Bool-cases, bug_on, bind-some, u64,
}
use ddfs.Core.Balloc.{
  Sb, Errno, Io, is_ok, Out, first_block, find_set_free_bit, alloc_loop, block_alloc, success,
  enospc,
}
use ddfs.Core.Balloc.Blocks.{
  put, Kept, put-Kept, number, block_split, bit_of-number, full_at, put_other, put_here,
}
use ddfs.Core.Balloc.Position.{IsBitmap, bit_of, first_block-product}
use ddfs.Core.Balloc.Scan.{scan_longs, ScanSays, scan_longs-ScanSays}
use native.Mathlib.Nat.{mod-eq_of_lt}
use mathlib.Core.Path.{subst}

-- The read locks with one more on cluster `j`.
abbrev pub locked : Sb → ℕ → ℕ → ℕ
locked sb j c = if c == j then sb.read_locks c + 1 else sb.read_locks c

-- The state after bit `k` of cluster `j` is taken.
abbrev pub take : Sb → ℕ → ℕ → Sb
take sb j k = put sb j k true (u64 (sb.used_blocks + 1)) (locked sb j) sb.sb_unlocks

module _ (io : Io) (sb : Sb) (m : ℕ) (g : IsBitmap sb m) where
  data FindSays (i : ℕ) : Out (Option (ℕ × ℕ)) → Type 0 where
    find_hit :
        (long bit : ℕ)
        → 8 * long + bit < 32768 * m
        → number sb m i (8 * long + bit) < sb.nr_blocks
        → sb.bits i (8 * long + bit) ≡ false
        → FindSays i (record { after = take sb i (8 * long + bit); value = some (long, bit) })
    find_none :
        ((k : ℕ) → k < 32768 * m → number sb m i k < sb.nr_blocks → sb.bits i k ≡ true)
        → FindSays i (record { after = sb; value = none })

  find_says :
      (i : ℕ) (o : Option (ℕ × ℕ))
      → io.sync i ≡ success
      → ScanSays (sb.bits i) sb.nr_blocks (32768 * ((i - sb.bm_block) * m)) 0 (512 * m) o
      → FindSays i (elim o as (λ _. Out (Option (ℕ × ℕ))) [
        | none ↦ record { after = sb; value = none }
        | some (long, bit) ↦ record {
          after = take sb i (8 * long + bit);
          value = if is_ok (io.sync i) then some (long, bit) else none;
        }
      ])
  find_says i none synced says = find_none (λ k a b. says k (omega arith) (omega arith) b)
  find_says i (some (long, bit)) synced (a, b, c, d, e) =
      rw synced (find_hit long bit (omega (arith, b)) (omega (arith, d)) e)

  scan_says :
      (i r base : ℕ)
      → r ≡ 512 * m
      → base ≡ 32768 * ((i - sb.bm_block) * m)
      → ScanSays
          (sb.bits i)
          sb.nr_blocks
          (32768 * ((i - sb.bm_block) * m))
          0
          (512 * m)
          (scan_longs (sb.bits i) sb.nr_blocks r base 0)
  scan_says i r base er eb =
      rw (er, eb)
        (scan_longs-ScanSays (sb.bits i) sb.nr_blocks (512 * m) (32768 * ((i - sb.bm_block) * m)) 0)

  bug_off : (x : ℕ) → x ≡ 0 → bug_on (not (x == 0)) ≡ some tt
  bug_off x e = rw e refl

  find_set_free_bit-FindSays :
      (i : ℕ)
      → io.sync i ≡ success
      → sb.bm_block ≤ i
      → i < sb.bm_block + sb.bm_blocks
      → (o : Out (Option (ℕ × ℕ))) × (find_set_free_bit io sb i ≡ some o) × FindSays i o
  unfolding find_set_free_bit
  find_set_free_bit-FindSays i synced lo hi = (
    _,
    bind-some _ aligned refl,
    find_says i (scan_longs (sb.bits i) sb.nr_blocks (sb.bsize / 4096 * 512) (first_block sb i) 0)
        synced
        (scan_says i (sb.bsize / 4096 * 512) (first_block sb i) pages_longs
          (first_block-product sb m i g lo hi).0),
  )
    where
      aligned : bug_on (not (sb.bsize % 4096 == 0)) ≡ some tt
      aligned = rw (g.pages) (bug_off (4096 * m % 4096) (omega arith))

      pages_longs : sb.bsize / 4096 * 512 ≡ 512 * m
      pages_longs = rw (g.pages) (omega arith)

  pub data LoopSays (i r : ℕ) : Out (Errno × ℕ) → Type 0 where
    loop_hit :
        (j k : ℕ)
        → i ≤ j
        → j < i + r
        → k < 32768 * m
        → number sb m j k < sb.nr_blocks
        → sb.bits j k ≡ false
        → LoopSays i r (record { after = take sb j k; value = (success, number sb m j k) })
    loop_full :
        ((j k : ℕ)
          → i ≤ j
          → j < i + r
          → k < 32768 * m
          → number sb m j k < sb.nr_blocks
          → sb.bits j k ≡ true)
        → LoopSays i r (record { after = sb; value = (enospc, 0) })

  wider :
      (i r : ℕ) (o : Out (Errno × ℕ))
      → ((k : ℕ) → k < 32768 * m → number sb m i k < sb.nr_blocks → sb.bits i k ≡ true)
      → LoopSays (i + 1) r o
      → LoopSays i (suc r) o
  wider i r _ set (loop_hit j k a b c d e) = loop_hit j k (omega arith) (omega arith) c d e
  wider i r _ set (loop_full h) = loop_full (λ j k a b c d. elim (Bool-cases (j == i)) [
    | inl same ↦
        rw ((==_iff j i).0 same)
          (set k c (subst (λ x. number sb m x k < sb.nr_blocks) ((==_iff j i).0 same) d))
    | inr other ↦ h j k (ground arith) (omega arith) c d
  ])

  -- A step of the loop on what the cluster says.
  loop_step :
      (i r : ℕ) (o : Out (Option (ℕ × ℕ))) (next : Sb → Option (Out (Errno × ℕ)))
      → sb.bm_block ≤ i
      → i < sb.bm_block + sb.bm_blocks
      → FindSays i o
      → ((out : Out (Errno × ℕ)) × (next sb ≡ some out) × LoopSays (i + 1) r out)
      → (out : Out (Errno × ℕ)) × ((elim o.value as (λ _. Option (Out (Errno × ℕ))) [
        | some (long, bit) ↦
            some (record {
              after = o.after;
              value = (success, u64 (first_block sb i + 8 * long + bit));
            })
        | none ↦ next o.after
      ])
          ≡ some out)
        × LoopSays i (suc r) out
  loop_step i r _ next lo hi (find_none set) (out, e, says) = (out, e, wider i r out set says)
  loop_step i r _ next lo hi (find_hit long bit a b c) later = (
    _,
    ap (λ x. some (record { after = take sb i (8 * long + bit); value = (success, x) })) number_u64,
    loop_hit i (8 * long + bit) (omega arith) (omega arith) a b c,
  )
    where
      number_u64 : u64 (first_block sb i + 8 * long + bit) ≡ number sb m i (8 * long + bit)
      number_u64 = rw ((first_block-product sb m i g lo hi).0) (
          mod-eq_of_lt (omega (arith, g.fits, (first_block-product sb m i g lo hi).1))
          ∙ omega arith)

  alloc_loop-LoopSays :
      ((c : ℕ) → io.get c ≡ true)
      → ((c : ℕ) → io.sync c ≡ success)
      → (r i : ℕ) → sb.bm_block ≤ i
      → i + r ≡ sb.bm_block + sb.bm_blocks
      → (o : Out (Errno × ℕ)) × (alloc_loop io i r sb ≡ some o) × LoopSays i r o
  unfolding alloc_loop
  alloc_loop-LoopSays there synced zero i lo all =
      (_, refl, loop_full (λ j k a b c d. absurd (omega arith)))
  alloc_loop-LoopSays there synced (suc r) i lo all =
      let (o, e, says) = find_set_free_bit-FindSays i (synced i) lo (omega arith) in
      let (out, f, done) =
        loop_step i r o (alloc_loop io (i + 1) r) lo (omega arith) says
          (alloc_loop-LoopSays there synced r (i + 1) (omega arith) (omega arith)) in
      (out, rw (there i) (bind-some _ e f), done)

-- What an allocation is for a caller: either a block below the count is taken that was free, and no
-- other block's bit changes, or every block is in use.
pub data IsAlloc (sb : Sb) : Out (Errno × ℕ) → Type 0 where
  alloc_taken :
      {after : Sb} {block : ℕ}
      → block < sb.nr_blocks
      → bit_of sb block ≡ some false
      → bit_of after block ≡ some true
      → ((other : ℕ) → other ≢ block → bit_of after other ≡ bit_of sb other)
      → after.used_blocks ≡ u64 (sb.used_blocks + 1)
      → Kept sb after
      → IsAlloc sb (record { after = after; value = (success, block) })
  alloc_full :
      ((block : ℕ) → block < sb.nr_blocks → bit_of sb block ≡ some true)
      → IsAlloc sb (record { after = sb; value = (enospc, 0) })

module _ (sb : Sb) (m : ℕ) (g : IsBitmap sb m) where
  -- The state of the loop's end, said of blocks.
  LoopSays-IsAlloc :
      (io : Io) (o : Out (Errno × ℕ)) → LoopSays io sb m g sb.bm_block sb.bm_blocks o → IsAlloc sb o
  LoopSays-IsAlloc io _ (loop_hit j k lo hi h lt clear) =
      alloc_taken lt (bit_of-number sb m g sb j k g lo h lt ∙ ap some clear)
        (put_here sb m g j k true (u64 (sb.used_blocks + 1)) (locked sb j) sb.sb_unlocks lo h lt)
        (λ other ne.
          put_other sb m g j k other true (u64 (sb.used_blocks + 1)) (locked sb j) sb.sb_unlocks lo
            ne)
        refl (put-Kept sb j k true (u64 (sb.used_blocks + 1)) (locked sb j) sb.sb_unlocks)
  LoopSays-IsAlloc io _ (loop_full set) = alloc_full (λ b lt.
      let (q, k, e, h, r) = block_split sb m g b lt in
      full_at sb m g b q k lt e h (set (sb.bm_block + q) k (omega arith) (omega arith) h))

-- On a bitmap with a bit for every block, whose clusters are whole pages and can all be read and
-- written back, an allocation never stops: either it returns a block below the count whose bit
-- was clear and is set now, with every other block's bit as before, the geometry kept and one
-- more block counted, or it returns -ENOSPC, the superblock is unchanged and every block is in
-- use.
pub block_alloc-IsAlloc :
    (io : Io) (sb : Sb) (m : ℕ)
    → IsBitmap sb m
    → ((c : ℕ) → io.get c ≡ true)
    → ((c : ℕ) → io.sync c ≡ success)
    → (o : Out (Errno × ℕ)) × (block_alloc io sb ≡ some o) × IsAlloc sb o
unfolding block_alloc
block_alloc-IsAlloc io sb m g there synced =
    let (o, e, says) =
      alloc_loop-LoopSays io sb m g there synced sb.bm_blocks sb.bm_block (omega arith) refl in
    (o, e, LoopSays-IsAlloc sb m g io o says)
