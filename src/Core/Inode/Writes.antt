-- ===== src/Core/Inode/Writes.antt =====
-- `nkfs_inode_write_block_buf` on a disk without errors.
use ddfs.Base.{
  ℕ, ◌+◌, ◌*◌, ◌^◌, ◌≤◌, ◌<◌, ◌≡◌, refl, sym, ap, ◌∙◌, ◌≢◌, inl, inr, false, none, some, List, [],
  arith, ltb, if◌then◌else◌, ge→ltb, Option-cases, bind-some, u64,
}
use ddfs.Core.Balloc.{Io, success}
use ddfs.Core.Inode.{Trees, World}
use ddfs.Core.Inode.Block.{InodeBlock, BlockOut, block_read_create}
use ddfs.Core.Inode.Buf.{BufOut, write_block_buf}
use ddfs.Core.Inode.Contract.{Contract}
use ddfs.Core.Inode.Created.{
  IsKin, IsKin-clusters, byte_at, byte_at-none, byte_at-same, IsSound, IsOpen, CreateSays, created,
  not_created,
}
use ddfs.Core.Inode.Creates.{block_read_create-CreateSays}
use ddfs.Core.Inode.Grow.{IsKin-IsSaved, IsFile, IsGrown, grow-IsGrown}
use ddfs.Core.Inode.Written.{
  IsWritten, WriteSays, stored, stored_runs, stored-IsSound, stored-within, stored-around,
  stored-beside, wrote, not_written,
}
use ddfs.Core.Super.Format.{IsGood}
use native.Mathlib.Nat.{mul-le-mul_left}

module _ {T : Type 0} (trees : Trees T) (contract : Contract trees) (m : ℕ) (digest : List ℕ → ℕ)
    (io : Io) (good : IsGood io) where
  -- Blocks of a page or more that end below 2^64 have numbers that stay small.
  pub small_block :
      (bsize v : ℕ) → bsize ≡ 4096 * m → 0 < m → v * bsize + bsize < 2 ^ 64 → v < 2 ^ 61
  small_block bsize v e pos h = omega (arith, h, wide)
    where
      page : 4096 ≤ bsize
      page = omega arith

      wide : v * 4096 ≤ v * bsize
      wide = mul-le-mul_left v page

  byte_at-mapped :
      (w : World T) (v i x : ℕ)
      → byte_at trees w v i ≡ some x
      → (b : ℕ) × (trees.find w.inode.blocks_tree v ≡ some b)
  byte_at-mapped w v i x e = elim (Option-cases (trees.find w.inode.blocks_tree v)) [
    | inr has ↦ has
    | inl gone ↦ absurd (nothing (sym (byte_at-none trees w v i gone) ∙ e))
  ]
    where
      nothing : none ≢ some x
      nothing h = cc

  module _ (w : World T) (v off : ℕ) (buf : ℕ → ℕ) (len : ℕ)
      (f : IsFile trees contract m digest io good w) (free : w.inode.readers ≡ 0)
      (inside : off + len ≤ w.sb.bsize) (fits : v * w.sb.bsize + w.sb.bsize < 2 ^ 64) where
    no_bug : ltb w.sb.bsize (u64 (off + len)) ≡ false
    no_bug = rw whole (ge→ltb w.sb.bsize (off + len) inside)
      where
        whole : u64 (off + len) ≡ off + len
        whole = omega (arith, inside, fits)

    data_end : u64 (u64 (u64 (v * w.sb.bsize) + off) + len) ≡ v * w.sb.bsize + off + len
    data_end = omega (arith, inside, fits)

    grown-IsWritten :
        (w1 w' : World T) (ib : InodeBlock)
        → IsKin w w1
        → (g : IsSound trees contract m digest io good w1)
        → (a : IsOpen trees contract m digest io good w1 v ib)
        → ((k i : ℕ) → k ≢ v → byte_at trees w1 k i ≡ byte_at trees w k i)
        → ((b i : ℕ)
            → trees.find w.inode.blocks_tree v ≡ some b
            → byte_at trees w1 v i ≡ byte_at trees w v i)
        → IsFile trees contract m digest io good w'
        → IsGrown trees contract m digest io good
            (stored trees contract m digest io good w v off buf len w1 ib g a)
            w'
            (v * w.sb.bsize + off + len)
        → IsWritten trees contract m digest io good w v off buf len w'
    grown-IsWritten w1 w' ib k g a others own file grown = record {
      file = file;
      bsize = ap (λ s. s.bsize) grown.sb ∙ k.kept.bsize;
      readers = grown.readers ∙ k.readers;
      size =
          grown.size
          ∙ ap (λ s. if ltb s (v * w.sb.bsize + off + len) then v * w.sb.bsize + off + len else s)
              k.size;
      within = λ i h.
          as_stored v (off + i)
          ∙ stored-within trees contract m digest io good w v off buf len w1 ib g a i h;
      around = λ i x h e.
          let (b, has) = byte_at-mapped w v i x e in
          as_stored v i
          ∙ stored-around trees contract m digest io good w v off buf len w1 ib g a i h
          ∙ own b i has
          ∙ e;
      beside = λ c i ne.
          as_stored c i
          ∙ stored-beside trees contract m digest io good w v off buf len w1 ib g a c i ne
          ∙ others c i ne;
    }
      where
        as_stored :
            (c i : ℕ)
            → byte_at trees w' c i
              ≡ byte_at trees (stored trees contract m digest io good w v off buf len w1 ib g a) c i
        as_stored c i =
            byte_at-same trees (stored trees contract m digest io good w v off buf len w1 ib g a) w'
              c (ap (λ t. trees.find t c) grown.tree) (λ b j _. ap (λ x. x b j) grown.clusters) i

    on_create :
        (r : BlockOut T)
        → block_read_create trees digest io w v ≡ some r
        → CreateSays trees contract m digest io good w v r
        → (o : BufOut T) × (write_block_buf trees digest io w v off buf len ≡ some o)
          × WriteSays trees contract m digest io good w v off buf len o
    unfolding write_block_buf
    on_create _ run (not_created {w' = w1} {e} k g same bad) = (
      record { world = w1; errno = e; count = 0; eof = false; bytes = [] },
      rw no_bug (bind-some _ run (rw bad refl)),
      not_written (record { sound = g; saved = IsKin-IsSaved k f.saved }) k same bad,
    )
    on_create _ run (created {w' = w1} {ib} k g a others own) =
        let st = stored trees contract m digest io good w v off buf len w1 ib g a in
        let kin = IsKin-clusters k st.clusters in
        let (w', grows, file, grown) =
          grow-IsGrown trees contract m digest io good st (v * w.sb.bsize + off + len) len
            (record {
              sound = stored-IsSound trees contract m digest io good w v off buf len w1 ib g a;
              saved = IsKin-IsSaved kin f.saved;
            })
            (k.readers ∙ free) in
        (
          record { world = w'; errno = success; count = len; eof = false; bytes = [] },
          rw no_bug (
              bind-some _ run (
                rw (stored_runs trees contract m digest io good w v off buf len w1 ib g a, data_end)
                  grows)),
          wrote (grown-IsWritten w1 w' ib k g a others own file grown),
        )

  -- On a disk without errors, for a sound and saved inode on which no read lock is held, and
  -- bytes within one block that ends below 2^64, the write never stops. Either it returns 0 and
  -- all bytes are written: they are read in place, every other byte that the inode has is as
  -- before, and the size is the old one or the end of what was written, whichever is greater. Or
  -- it returns an error, and no byte and no size is changed. The inode is sound and saved again.
  -- The trees meet a contract, and the block is below its limit of blocks in a tree.
  pub write_block_buf-WriteSays :
      (w : World T) (v off : ℕ) (buf : ℕ → ℕ) (len : ℕ)
      → IsFile trees contract m digest io good w
      → w.inode.readers ≡ 0
      → off + len ≤ w.sb.bsize
      → v * w.sb.bsize + w.sb.bsize < 2 ^ 64
      → v < contract.limit
      → (o : BufOut T) × (write_block_buf trees digest io w v off buf len ≡ some o)
        × WriteSays trees contract m digest io good w v off buf len o
  write_block_buf-WriteSays w v off buf len f free inside fits low =
      let (r, run, says) =
        block_read_create-CreateSays trees contract m digest io good w v f.sound
          (small_block w.sb.bsize v f.sound.mapped.bitmap.pages f.sound.mapped.bitmap.one_page fits)
          low in
      on_create w v off buf len f free inside fits r run says
