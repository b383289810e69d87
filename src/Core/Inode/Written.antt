-- ===== src/Core/Inode/Written.antt =====
-- What `nkfs_inode_write_block_buf` does to the bytes of an inode.
use ddfs.Base.{
  ℕ, ◌+◌, ◌-◌, ◌*◌, ◌≤◌, ◌<◌, ◌≡◌, refl, sym, ap, ◌∙◌, ◌≢◌, ◌⊎◌, inl, inr, Bool, true, false, ◌&&◌,
  none, some, List, [], arith, ltb, leb, ◌==◌, if◌then◌else◌, ne→==, ==-refl,
}
use ddfs.Core.Balloc.{Errno, Io, is_ok, success}
use ddfs.Core.Inode.{Trees, World}
use ddfs.Core.Inode.Block.{InodeBlock, sum_place, block_write}
use ddfs.Core.Inode.Buf.{BufOut, put_bytes}
use ddfs.Core.Inode.Contract.{Contract}
use ddfs.Core.Inode.Created.{IsKin, byte_at, byte_at-some, byte_at-same, IsSound, IsOpen}
use ddfs.Core.Inode.Grow.{IsFile}
use ddfs.Core.Inode.Summed.{
  SummedBut, IsSummed-move, written, written-runs, written-other, not_sum, written-SummedBut,
}
use ddfs.Core.Super.Format.{IsGood}

-- The bytes of a cluster after a write.
put_bytes-in :
    (clusters : ℕ → ℕ → ℕ) (b off : ℕ) (buf : ℕ → ℕ) (len i : ℕ)
    → i < len
    → put_bytes clusters b off buf len b (off + i) ≡ buf i
put_bytes-in clusters b off buf len i h = rw (==-refl b, inside, back) refl
  where
    inside : (leb off (off + i) && ltb (off + i) (off + len)) ≡ true
    inside = ground arith

    back : off + i - off ≡ i
    back = omega arith

put_bytes-out :
    (clusters : ℕ → ℕ → ℕ) (b off : ℕ) (buf : ℕ → ℕ) (len x k : ℕ)
    → (x ≢ b) ⊎ ((k < off) ⊎ (off + len ≤ k))
    → put_bytes clusters b off buf len x k ≡ clusters x k
put_bytes-out clusters b off buf len x k (inl ne) = rw (ne→== x b ne) refl
put_bytes-out clusters b off buf len x k (inr out) =
    aside (x == b) (leb off k && ltb k (off + len)) outside
  where
    outside : (leb off k && ltb k (off + len)) ≡ false
    outside = ground (arith, out)

    aside :
        (p q : Bool) → q ≡ false → (if p && q then buf (k - off) else clusters x k) ≡ clusters x k
    aside true q e = rw e refl
    aside false q e = refl

module _ {T : Type 0} (trees : Trees T) (contract : Contract trees) (m : ℕ) (digest : List ℕ → ℕ)
    (io : Io) (good : IsGood io) where
  abbrev File : World T → Type 0
  File w = IsFile trees contract m digest io good w

  -- A write of `len` bytes at `off` of block `v`, as a reader sees it.
  pub record IsWritten (w : World T) (v off : ℕ) (buf : ℕ → ℕ) (len : ℕ) (w' : World T)
      : Type 0 where
    pub file : File w'
    pub bsize : w'.sb.bsize ≡ w.sb.bsize
    pub readers : w'.inode.readers ≡ w.inode.readers
    pub size : w'.inode.size ≡ (
        if ltb w.inode.size (v * w.sb.bsize + off + len)
        then v * w.sb.bsize + off + len
        else w.inode.size)
    pub within : (i : ℕ) → i < len → byte_at trees w' v (off + i) ≡ some (buf i)
    pub around :
        (i x : ℕ)
        → (i < off) ⊎ (off + len ≤ i)
        → byte_at trees w v i ≡ some x
        → byte_at trees w' v i ≡ some x
    pub beside : (k i : ℕ) → k ≢ v → byte_at trees w' k i ≡ byte_at trees w k i

  -- Either the bytes are written, or the call has failed and no byte that the inode has is changed.
  pub data WriteSays (w : World T) (v off : ℕ) (buf : ℕ → ℕ) (len : ℕ) : BufOut T → Type 0 where
    wrote :
        {w' : World T}
        → IsWritten w v off buf len w'
        → WriteSays w v off buf len
            (record { world = w'; errno = success; count = len; eof = false; bytes = [] })
    not_written :
        {w' : World T} {e : Errno}
        → File w'
        → IsKin w w'
        → ((k i : ℕ) → byte_at trees w' k i ≡ byte_at trees w k i)
        → is_ok e ≡ false
        → WriteSays w v off buf len
            (record { world = w'; errno = e; count = 0; eof = false; bytes = [] })

  -- The block of `v` is filled, and then written with its checksum.
  module _ (w : World T) (v off : ℕ) (buf : ℕ → ℕ) (len : ℕ) (w1 : World T) (ib : InodeBlock)
      (f : IsSound trees contract m digest io good w1)
      (a : IsOpen trees contract m digest io good w1 v ib) where
    abbrev pub filled : World T
    filled = record w1 { clusters = put_bytes w1.clusters ib.block off buf len }

    filled-SummedBut : SummedBut trees contract m digest io good filled (some v)
    filled-SummedBut k b ne e =
        let s = f.summed k b nothing e in
        IsSummed-move trees contract m digest io good w1 filled k b refl s s.found
          (λ i. put_bytes-out w1.clusters ib.block off buf len b i (inl (apart b e)))
          (λ i _.
            put_bytes-out w1.clusters ib.block off buf len s.sum_block
              ((sum_place w1.sb.bsize k).1 + i)
              (inl (λ x.
                f.mapped.data_sum v (sum_place w1.sb.bsize k).0 ib.block a.here
                  (s.found ∙ ap some x))))
      where
        nothing : {x : ℕ} → none ≢ some x
        nothing h = cc

        apart : (c : ℕ) → trees.find w1.inode.blocks_tree k ≡ some c → c ≢ ib.block
        apart c has x = ne (ap some (f.mapped.data_once v k ib.block a.here (has ∙ ap some x)))

    abbrev pub stored : World T
    stored =
        written trees contract m digest io good filled v ib f.mapped f.small a.here a.there a.off

    pub stored_runs : block_write trees digest io filled ib ≡ (stored, success)
    stored_runs =
        written-runs trees contract m digest io good filled v ib f.mapped f.small a.here a.there
          a.off

    pub stored-IsSound : IsSound trees contract m digest io good stored
    stored-IsSound = record {
      mapped = f.mapped;
      summed =
          written-SummedBut trees contract m digest io good filled v ib f.mapped f.small a.here
            a.there a.off filled-SummedBut;
      small = f.small;
    }

    -- The bytes of a block of data that is stored.
    stored_byte :
        (k b i : ℕ)
        → trees.find w1.inode.blocks_tree k ≡ some b
        → stored.clusters b i ≡ filled.clusters b i
    stored_byte k b i e =
        written-other trees contract m digest io good filled v ib f.mapped f.small a.here a.there
          a.off b i
          (not_sum trees contract m digest io good filled v ib f.mapped f.small a.here a.there a.off
            k b e)

    pub stored-within : (i : ℕ) → i < len → byte_at trees stored v (off + i) ≡ some (buf i)
    stored-within i h =
        byte_at-some trees stored v ib.block (off + i) a.here
        ∙ ap some (
            stored_byte v ib.block (off + i) a.here
            ∙ put_bytes-in w1.clusters ib.block off buf len i h)

    pub stored-around :
        (i : ℕ) → (i < off) ⊎ (off + len ≤ i) → byte_at trees stored v i ≡ byte_at trees w1 v i
    stored-around i h =
        byte_at-some trees stored v ib.block i a.here
        ∙ ap some (
            stored_byte v ib.block i a.here
            ∙ put_bytes-out w1.clusters ib.block off buf len ib.block i (inr h))
        ∙ sym (byte_at-some trees w1 v ib.block i a.here)

    pub stored-beside : (k i : ℕ) → k ≢ v → byte_at trees stored k i ≡ byte_at trees w1 k i
    stored-beside k i ne =
        byte_at-same trees w1 stored k refl
          (λ b j e.
            stored_byte k b j e
            ∙ put_bytes-out w1.clusters ib.block off buf len b j
                (inl (λ x. ne (sym (f.mapped.data_once v k ib.block a.here (e ∙ ap some x))))))
          i
