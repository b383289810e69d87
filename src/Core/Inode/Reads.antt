-- ===== src/Core/Inode/Reads.antt =====
-- `nkfs_inode_read_block_buf` on a disk without errors.
use ddfs.Base.{
  ℕ, ◌+◌, ◌-◌, ◌*◌, ◌^◌, ◌≤◌, ◌<◌, ◌≡◌, refl, ap, ◌≢◌, inl, inr, Bool, true, false, none, some,
  List, [], arith, ltb, leb, ◌==◌, if◌then◌else◌, ltb→lt, ge→ltb, leb→le, ==_iff, ne→==, Bool-cases,
  Option-cases, tab, u32, u64, sub64,
}
use ddfs.Core.Balloc.{Io, success, enoent, erange}
use ddfs.Core.Inode.{Trees, World}
use ddfs.Core.Inode.Buf.{BufOut, lock_read, read_block_buf}
use ddfs.Core.Inode.Contract.{Contract}
use ddfs.Core.Inode.Created.{
  byte_at, byte_at-some, IsSound, block_read-found, block_check_sum-passes, block_read-missing,
}
use ddfs.Core.Inode.Summed.{IsSummed}
use ddfs.Core.Super.Format.{IsGood}

module _ {T : Type 0} (trees : Trees T) (contract : Contract trees) (m : ℕ) (digest : List ℕ → ℕ)
    (io : Io) (good : IsGood io) where
  -- The four answers of a read of `len` bytes at `off` of block `v`.
  pub data ReadSays (w : World T) (v off len : ℕ) : BufOut T → Type 0 where
    read_past :
        w.inode.size < v * w.sb.bsize + off
        → ReadSays w v off len
            (record { world = w; errno = erange; count = 0; eof = false; bytes = [] })
    read_end :
        v * w.sb.bsize + off ≡ w.inode.size
        → ReadSays w v off len
            (record { world = w; errno = success; count = 0; eof = true; bytes = [] })
    read_hole :
        v * w.sb.bsize + off < w.inode.size
        → trees.find w.inode.blocks_tree v ≡ none
        → ReadSays w v off len
            (record { world = lock_read w; errno = enoent; count = 0; eof = false; bytes = [] })
    read_bytes :
        (g : ℕ → ℕ) (n : ℕ) (eof : Bool)
        → v * w.sb.bsize + off < w.inode.size
        → n ≡ (
            if leb w.inode.size (v * w.sb.bsize + off + len)
            then w.inode.size - (v * w.sb.bsize + off)
            else len)
        → eof ≡ leb w.inode.size (v * w.sb.bsize + off + len)
        → ((i : ℕ) → i < n → byte_at trees w v (off + i) ≡ some (g i))
        → ReadSays w v off len
            (record { world = lock_read w; errno = success; count = n; eof = eof; bytes = tab g n })

  module _ (w : World T) (v off len : ℕ) (f : IsSound trees contract m digest io good w)
      (small : w.inode.size < 2 ^ 64) (inside : off + len ≤ w.sb.bsize)
      (fits : v * w.sb.bsize + w.sb.bsize < 2 ^ 64) where
    abbrev start : ℕ
    start = v * w.sb.bsize + off

    start_whole : u64 (u64 (v * w.sb.bsize) + off) ≡ v * w.sb.bsize + off
    start_whole = omega (arith, inside, fits)

    end_whole : u64 (v * w.sb.bsize + off + len) ≡ v * w.sb.bsize + off + len
    end_whole = omega (arith, inside, fits)

    no_bug : ltb w.sb.bsize (u64 (off + len)) ≡ false
    no_bug = rw whole (ge→ltb w.sb.bsize (off + len) inside)
      where
        whole : u64 (off + len) ≡ off + len
        whole = omega (arith, inside, fits)

    left :
        start < w.inode.size
        → (b : Bool) → leb w.inode.size (start + len) ≡ b
        → (if b then u32 (sub64 w.inode.size start) else len)
          ≡ (if b then w.inode.size - start else len)
    left lt true e = omega (
      arith,
      leb→le w.inode.size (start + len) e,
      inside,
      small,
      f.mapped.bitmap.pages,
      f.mapped.bitmap.word,
    )
    left lt false e = refl

    abbrev length_read : ℕ
    length_read = if leb w.inode.size (start + len) then w.inode.size - start else len

    abbrev Answer : Type 0
    Answer =
        (o : BufOut T) × (read_block_buf trees digest io w v off len ≡ some o)
        × ReadSays w v off len o

    on_past : ltb w.inode.size start ≡ true → Answer
    unfolding read_block_buf
    on_past e = (_, rw (no_bug, start_whole, e) refl, read_past (ltb→lt w.inode.size start e))

    on_end : ltb w.inode.size start ≡ false → (start == w.inode.size) ≡ true → Answer
    unfolding read_block_buf
    on_end e h =
        (_, rw (no_bug, start_whole, e, h) refl, read_end ((==_iff start w.inode.size).0 h))

    on_hole : start < w.inode.size → trees.find w.inode.blocks_tree v ≡ none → Answer
    unfolding read_block_buf
    on_hole lt gone = (
      _,
      rw
          (
            no_bug,
            start_whole,
            ge→ltb w.inode.size start (omega arith),
            ne→== start w.inode.size (λ e. omega arith),
            block_read-missing trees contract m digest io good w v gone,
          )
          refl,
      read_hole lt gone,
    )

    on_bytes :
        start < w.inode.size
        → (b : ℕ) → trees.find w.inode.blocks_tree v ≡ some b
        → IsSummed trees contract m digest io good w v b
        → Answer
    unfolding read_block_buf
    on_bytes lt b has s = (
      record {
        world = lock_read w;
        errno = success;
        count = length_read;
        eof = leb w.inode.size (start + len);
        bytes = tab (λ i. w.clusters b (off + i)) length_read;
      },
      rw
          (
            no_bug,
            start_whole,
            ge→ltb w.inode.size start (omega arith),
            ne→== start w.inode.size (λ e. omega arith),
            block_read-found trees contract m digest io good w v b has s,
            block_check_sum-passes trees contract m digest io good w v b s,
            end_whole,
          )
          (ap
            (λ n. some (record {
              world = lock_read w;
              errno = success;
              count = n;
              eof = leb w.inode.size (start + len);
              bytes = tab (λ i. w.clusters b (off + i)) n;
            }))
            (left lt (leb w.inode.size (start + len)) refl)),
      read_bytes (λ i. w.clusters b (off + i)) length_read (leb w.inode.size (start + len)) lt refl
          refl (λ i _. byte_at-some trees w v b (off + i) has),
    )

  -- On a disk without errors, for a sound inode with a size below 2^64, and bytes within one
  -- block that ends below 2^64, the read never stops: from behind the size it returns -ERANGE;
  -- from the size on it returns 0 and the end; from a block that the inode does not have -ENOENT;
  -- else 0 and the bytes of the file, up to its size, and the end if they reach it. In the last
  -- two cases one read lock more is held after the call. The trees meet a contract.
  pub read_block_buf-ReadSays :
      (w : World T) (v off len : ℕ)
      → IsSound trees contract m digest io good w
      → w.inode.size < 2 ^ 64
      → off + len ≤ w.sb.bsize
      → v * w.sb.bsize + w.sb.bsize < 2 ^ 64
      → (o : BufOut T) × (read_block_buf trees digest io w v off len ≡ some o)
        × ReadSays w v off len o
  read_block_buf-ReadSays w v off len f small inside fits =
      elim (Bool-cases (ltb w.inode.size (v * w.sb.bsize + off))) [
        | inl over ↦ on_past w v off len f small inside fits over
        | inr low ↦ elim (Bool-cases (v * w.sb.bsize + off == w.inode.size)) [
          | inl at_end ↦ on_end w v off len f small inside fits low at_end
          | inr apart ↦ elim (Option-cases (trees.find w.inode.blocks_tree v)) [
            | inl gone ↦ on_hole w v off len f small inside fits (below low apart) gone
            | inr (b, has) ↦
                on_bytes w v off len f small inside fits (below low apart) b has
                  (f.summed v b nothing has)
          ]
        ]
      ]
    where
      below :
          ltb w.inode.size (v * w.sb.bsize + off) ≡ false
          → (v * w.sb.bsize + off == w.inode.size) ≡ false
          → v * w.sb.bsize + off < w.inode.size
      below a b = ground (arith, a, b)

      nothing : {x : ℕ} → none ≢ some x
      nothing h = cc
