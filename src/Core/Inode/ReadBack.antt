-- ===== src/Core/Inode/ReadBack.antt =====
-- `nkfs_inode_io_buf` reading bytes that the file has.
use ddfs.Base.{
  ℕ, ◌+◌, ◌-◌, ◌*◌, ◌^◌, ◌≤◌, ◌<◌, ◌≡◌, refl, sym, ap, ap₂, ◌∙◌, ◌≢◌, Bool, true, false, none, some,
  List, [], ◌++◌, arith, leb, if◌then◌else◌, leb→le, tab, tab-zero, tab-ext, tab-append, u32,
}
use ddfs.Core.Balloc.{Io, success}
use ddfs.Core.Inode.{Trees, World}
use ddfs.Core.Inode.Buf.{BufOut, lock_read, read_block_buf}
use ddfs.Core.Inode.Contract.{Contract}
use ddfs.Core.Inode.Created.{byte_at, byte_at-none, IsSound}
use ddfs.Core.Inode.Reads.{
  ReadSays, read_block_buf-ReadSays, read_past, read_end, read_hole, read_bytes,
}
use ddfs.Core.Inode.Summed.{IsSummed-move}
use ddfs.Core.Super.Format.{IsGood}

module _ {T : Type 0} (trees : Trees T) (contract : Contract trees) (m : ℕ) (digest : List ℕ → ℕ)
    (io : Io) (good : IsGood io) where
  pub locked-IsSound :
      (w : World T) (n : ℕ)
      → IsSound trees contract m digest io good w
      → IsSound trees contract m digest io good
          (record w { inode = record w.inode { readers = n } })
  locked-IsSound w n f = record {
    mapped = f.mapped;
    summed = λ v b ne e.
        let s = f.summed v b ne e in
        IsSummed-move trees contract m digest io good w
          (record w { inode = record w.inode { readers = n } }) v b refl s s.found (λ k. refl)
          (λ i _. refl);
    small = f.small;
  }

  from_some : {x y : ℕ} → some x ≡ some y → x ≡ y
  from_some e = cc

  -- A read of bytes that the file has, all below its size, gives them.
  exact :
      (w : World T) (v off len : ℕ) (buf : ℕ → ℕ) (o : BufOut T)
      → 0 < len
      → v * w.sb.bsize + off + len ≤ w.inode.size
      → ((i : ℕ) → i < len → byte_at trees w v (off + i) ≡ some (buf i))
      → ReadSays trees contract m digest io good w v off len o
      → o ≡ record {
        world = lock_read w;
        errno = success;
        count = len;
        eof = leb w.inode.size (v * w.sb.bsize + off + len);
        bytes = tab buf len;
      }
  exact w v off len buf _ some_len room has (read_past over) = absurd (omega arith)
  exact w v off len buf _ some_len room has (read_end at_end) = absurd (omega arith)
  exact w v off len buf _ some_len room has (read_hole lt gone) =
      absurd (nothing (sym (byte_at-none trees w v (off + 0) gone) ∙ has 0 some_len))
    where
      nothing : none ≢ some (buf 0)
      nothing h = cc
  exact w v off len buf _ some_len room has (read_bytes g n eof lt count ends bytes) =
      ap₂ (λ x y. record { world = lock_read w; errno = success; count = x; eof = eof; bytes = y })
        all (ap (tab g) all ∙ same)
      ∙ ap
          (λ y. record {
            world = lock_read w;
            errno = success;
            count = len;
            eof = y;
            bytes = tab buf len;
          })
          ends
    where
      either :
          (b : Bool)
          → leb w.inode.size (v * w.sb.bsize + off + len) ≡ b
          → n ≡ (if b then w.inode.size - (v * w.sb.bsize + off) else len)
          → n ≡ len
      either true e f = omega (arith, leb→le w.inode.size (v * w.sb.bsize + off + len) e)
      either false e f = f

      all : n ≡ len
      all = either (leb w.inode.size (v * w.sb.bsize + off + len)) refl count

      same : tab g len ≡ tab buf len
      same = tab-ext g buf len (λ i h. from_some (sym (bytes i (rw all h)) ∙ has i h))

  pub read_exact :
      (w : World T) (v off len : ℕ) (buf : ℕ → ℕ)
      → IsSound trees contract m digest io good w
      → w.inode.size < 2 ^ 64
      → off + len ≤ w.sb.bsize
      → v * w.sb.bsize + w.sb.bsize < 2 ^ 64
      → 0 < len
      → v * w.sb.bsize + off + len ≤ w.inode.size
      → ((i : ℕ) → i < len → byte_at trees w v (off + i) ≡ some (buf i))
      → read_block_buf trees digest io w v off len
        ≡ some (record {
          world = lock_read w;
          errno = success;
          count = len;
          eof = leb w.inode.size (v * w.sb.bsize + off + len);
          bytes = tab buf len;
        })
  read_exact w v off len buf f small inside fits some_len room has =
      let (o, run, says) =
        read_block_buf-ReadSays trees contract m digest io good w v off len f small inside fits in
      run ∙ ap some (exact w v off len buf o some_len room has says)

  -- What a read of `n` bytes gives: the bytes, with nothing changed but the count of read locks, which has grown.
  pub record IsBack (w : World T) (buf : ℕ → ℕ) (n : ℕ) (o : BufOut T) : Type 0 where
    pub ok_errno : o.errno ≡ success
    pub whole : o.count ≡ n
    pub same_bytes : o.bytes ≡ tab buf n
    pub only_locks :
        o.world ≡ record w { inode = record w.inode { readers = o.world.inode.readers } }
    pub keeps_locks : w.inode.readers ≤ o.world.inode.readers
    pub more_locks : 0 < n → w.inode.readers < o.world.inode.readers

  pub IsBack-nothing :
      (w : World T) (buf : ℕ → ℕ) (n : ℕ)
      → n ≡ 0
      → IsBack w buf n (record { world = w; errno = success; count = 0; eof = false; bytes = [] })
  IsBack-nothing w buf n e = record {
    ok_errno = refl;
    whole = sym e;
    same_bytes = sym (ap (tab buf) e ∙ tab-zero buf);
    only_locks = refl;
    keeps_locks = omega arith;
    more_locks = λ h. absurd (omega arith);
  }

  -- The rounds that come after one that has read `a` bytes.
  pub IsBack-more :
      (w : World T) (buf : ℕ → ℕ) (a n : ℕ) (r : BufOut T)
      → 0 < a
      → a ≤ n
      → n < 2 ^ 32
      → IsBack (lock_read w) (λ i. buf (a + i)) (n - a) r
      → IsBack w buf n (record r { count = u32 (a + r.count); bytes = tab buf a ++ r.bytes })
  IsBack-more w buf a n r some_a le small b = record {
    ok_errno = b.ok_errno;
    whole = ap (λ x. u32 (a + x)) b.whole ∙ (omega arith);
    same_bytes =
        ap (λ x. tab buf a ++ x) b.same_bytes ∙ sym (tab-append buf a (n - a) n (omega arith));
    only_locks = b.only_locks;
    keeps_locks = omega (arith, b.keeps_locks);
    more_locks = λ _. omega (arith, b.keeps_locks);
  }
