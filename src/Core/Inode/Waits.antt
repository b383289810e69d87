-- ===== src/Core/Inode/Waits.antt =====
-- `nkfs_inode_read_block_buf` keeps a read lock, for which the next write waits.
use ddfs.Base.{
  ℕ, ◌+◌, ◌*◌, ◌^◌, ◌≤◌, ◌<◌, ◌≡◌, refl, sym, ap, ◌∙◌, ◌≢◌, false, none, some, List, arith, ltb,
  ge→ltb, ne→==, u64,
}
use ddfs.Core.Balloc.{Io, success}
use ddfs.Core.Inode.{Trees, World}
use ddfs.Core.Inode.Block.{block_write, block_read_create}
use ddfs.Core.Inode.Buf.{BufOut, lock_read, read_block_buf, grow, write_block_buf}
use ddfs.Core.Inode.Contract.{Contract}
use ddfs.Core.Inode.Created.{IsSound, block_of, block_read-found, block_check_sum-passes}
use ddfs.Core.Inode.ReadBack.{locked-IsSound}
use ddfs.Core.Inode.Reads.{
  ReadSays, read_block_buf-ReadSays, read_past, read_end, read_hole, read_bytes,
}
use ddfs.Core.Inode.Summed.{IsSummed}
use ddfs.Core.Registry.Links.{held}
use ddfs.Core.Super.Format.{IsGood}

module _ {T : Type 0} (trees : Trees T) (contract : Contract trees) (m : ℕ) (digest : List ℕ → ℕ)
    (io : Io) (good : IsGood io) where
  create_runs :
      (w : World T) (v b : ℕ)
      → trees.find w.inode.blocks_tree v ≡ some b
      → (s : IsSummed trees contract m digest io good w v b)
      → block_read_create trees digest io w v
        ≡ some (record {
          world = w;
          errno = success;
          ib = block_of trees contract m digest io good w v b s.sum_block;
        })
  unfolding block_read_create
  create_runs w v b e s =
      rw
        (
          block_read-found trees contract m digest io good w v b e s,
          block_check_sum-passes trees contract m digest io good w v b s,
        )
        refl

  grow_waits :
      (w : World T) (data_end len : ℕ)
      → 0 < w.inode.readers
      → grow trees digest io w data_end len ≡ none
  unfolding grow
  grow_waits w data_end len held = rw (ne→== w.inode.readers 0 (λ e. omega arith)) refl

  write_waits :
      (w : World T) (v b off : ℕ) (buf : ℕ → ℕ) (len : ℕ)
      → 0 < w.inode.readers
      → off + len ≤ w.sb.bsize
      → v * w.sb.bsize + w.sb.bsize < 2 ^ 64
      → trees.find w.inode.blocks_tree v ≡ some b
      → IsSummed trees contract m digest io good w v b
      → write_block_buf trees digest io w v off buf len ≡ none
  unfolding write_block_buf block_write
  write_waits w v b off buf len held inside fits has s =
      rw (no_bug, create_runs w v b has s, good.sync b, good.sync s.sum_block)
        (grow_waits _ _ len held)
    where
      no_bug : ltb w.sb.bsize (u64 (off + len)) ≡ false
      no_bug = rw whole (ge→ltb w.sb.bsize (off + len) inside)
        where
          whole : u64 (off + len) ≡ off + len
          whole = omega (arith, inside, fits)

  -- On a disk without errors, once a read of a sound inode has begun below the size in a block
  -- that the inode has, a write to that block by the same inode never returns: it waits for the
  -- read lock that the read has kept. The size and the block end below 2^64, both transfers stay
  -- within the block, and the trees meet a contract.
  pub read-write-waits :
      (w : World T) (v b off len : ℕ) (o : BufOut T) (off' : ℕ) (buf : ℕ → ℕ) (len' : ℕ)
      → IsSound trees contract m digest io good w
      → w.inode.size < 2 ^ 64
      → off + len ≤ w.sb.bsize
      → off' + len' ≤ w.sb.bsize
      → v * w.sb.bsize + w.sb.bsize < 2 ^ 64
      → v * w.sb.bsize + off < w.inode.size
      → trees.find w.inode.blocks_tree v ≡ some b
      → read_block_buf trees digest io w v off len ≡ some o
      → write_block_buf trees digest io o.world v off' buf len' ≡ none
  read-write-waits w v b off len o off' buf len' f short inside inside' fits low has run =
      let (o1, run1, says) =
        read_block_buf-ReadSays trees contract m digest io good w v off len f short inside fits in
      ap (λ x. write_block_buf trees digest io x v off' buf len')
        (from_some (sym run ∙ run1) ∙ locked o1 says)
      ∙ write_waits (lock_read w) v b off' buf len' (omega arith) inside' fits has (
          (locked-IsSound trees contract m digest io good w (w.inode.readers + 1) f).summed v b
            nothing has)
    where
      from_some : {x y : BufOut T} → some x ≡ some y → x.world ≡ y.world
      from_some e = cc

      nothing : {x : ℕ} → none ≢ some x
      nothing h = cc

      locked :
          (r : BufOut T)
          → ReadSays trees contract m digest io good w v off len r
          → r.world ≡ lock_read w
      locked _ (read_past over) = absurd (omega arith)
      locked _ (read_end at_end) = absurd (omega arith)
      locked _ (read_hole lt gone) = absurd (nothing (sym gone ∙ has))
      locked _ (read_bytes g n eof lt count ends bytes) = refl
