-- ===== src/Core/Inode/Block.antt =====
-- The blocks of an inode: nkfs_inode_block_alloc, _read, _read_create, _write, _check_sum and _erase.
use ddfs.Base.{
  ℕ, zero, suc, ◌+◌, ◌-◌, ◌*◌, ◌/◌, ◌%◌, ◌^◌, Bool, true, false, not, ◌&&◌, Option, none, some,
  List, ltb, leb, ◌==◌, if◌then◌else◌, tab, inserted, ◌>>=◌, u32, u64,
}
use ddfs.Core.Balloc.{Sb, Errno, Io, is_ok, block_free, block_alloc, success, eio, einval, enoent}
use ddfs.Core.Inode.{Trees, World}

-- `struct inode_block`, less its clusters.
pub record InodeBlock : Type 0 where
  pub vblock : ℕ
  pub block : ℕ
  pub vsum_block : ℕ
  pub sum_block : ℕ
  pub sum_off : ℕ

abbrev pub no_block : InodeBlock
no_block = record { vblock = 0; block = 0; vsum_block = 0; sum_block = 0; sum_off = 0 }

-- `nkfs_inode_block_to_sum_block`; a checksum has 8 bytes.
abbrev pub sum_place : ℕ → ℕ → ℕ × ℕ
sum_place bsize vblock = (u64 (vblock * 8) / bsize, u32 (u64 (vblock * 8) % bsize))

-- Byte `i` of a checksum in memory.
abbrev pub sum_byte : ℕ → ℕ → ℕ
sum_byte v i = v / 256 ^ i % 256

-- The clusters with a checksum written at an offset of one of them.
abbrev pub put_sum : (ℕ → ℕ → ℕ) → ℕ → ℕ → ℕ → ℕ → ℕ → ℕ
put_sum clusters c off v x k =
    if x == c && (leb off k && ltb k (off + 8)) then sum_byte v (k - off) else clusters x k

-- memcmp of a checksum with the first `n` bytes at an offset: whether they are the same.
unfoldable pub same_sum : (ℕ → ℕ) → ℕ → ℕ → ℕ → Bool
same_sum c off v zero = true
same_sum c off v (suc n) = same_sum c off v n && c (off + n) == sum_byte v n

-- `nkfs_inode_block_open_clus`
abbrev pub open_clus : Io → InodeBlock → Errno
open_clus io ib = if io.get ib.block && io.get ib.sum_block then success else eio

-- An `inode_block` and the world behind a call, with what it returns.
pub record BlockOut (T : Type 0) : Type 0 where
  pub world : World T
  pub errno : Errno
  pub ib : InodeBlock

module _ {T : Type 0} (trees : Trees T) (digest : List ℕ → ℕ) (io : Io) where
  -- `dio_clu_sum` of a cluster
  abbrev pub clu_sum : World T → ℕ → ℕ
  clu_sum w b = digest (tab (w.clusters b) w.sb.bsize)

  -- `nkfs_inode_block_write`
  unfoldable pub block_write : World T → InodeBlock → World T × Errno
  block_write w ib = (
    record w { clusters = put_sum w.clusters ib.sum_block ib.sum_off (clu_sum w ib.block) },
    if is_ok (io.sync ib.block) then io.sync ib.sum_block else io.sync ib.block,
  )

  -- `nkfs_inode_block_check_sum`
  unfoldable pub block_check_sum : World T → InodeBlock → Errno
  block_check_sum w ib =
      if same_sum (w.clusters ib.sum_block) ib.sum_off (clu_sum w ib.block) 8
      then success
      else einval

  -- `nkfs_inode_block_read`
  unfoldable pub block_read : World T → ℕ → Errno × InodeBlock
  block_read w vblock =
      let (vsum_block, sum_off) = sum_place w.sb.bsize vblock in
      elim (trees.find w.inode.blocks_tree vblock) [
        | none ↦ (enoent, no_block)
        | some block ↦ elim (trees.find w.inode.blocks_sum_tree vsum_block) [
          | none ↦ (enoent, no_block)
          | some sum_block ↦
              let ib : InodeBlock = record {
                vblock = vblock;
                block = block;
                vsum_block = vsum_block;
                sum_block = sum_block;
                sum_off = sum_off;
              } in
              if is_ok (open_clus io ib) then (success, ib) else (open_clus io ib, no_block)
        ]
      ]

  abbrev with_tree : World T → Sb → T → World T
  with_tree w sb t = record w { sb = sb; inode = record w.inode { blocks_tree = t } }

  abbrev with_sum_tree : World T → Sb → T → World T
  with_sum_tree w sb t = record w { sb = sb; inode = record w.inode { blocks_sum_tree = t } }

  -- The label `fail` of `nkfs_inode_block_alloc`.
  unfoldable pub alloc_undo : World T → InodeBlock → Bool → Bool → Errno → Option (BlockOut T)
  alloc_undo w ib allocated inserted e = do
    d ←
        if inserted
        then (do
          o ← trees.delete w.sb w.inode.blocks_sum_tree ib.vsum_block
          some (with_sum_tree w o.after o.value.1))
        else some w
    s ←
        if allocated
        then (do o ← block_free io d.sb ib.sum_block; some (record d { sb = o.after }))
        else some d
    f ← block_free io s.sb ib.block
    some (record { world = record s { sb = f.after }; errno = e; ib = no_block })

  -- `nkfs_inode_block_alloc` once both blocks are there.
  unfoldable pub alloc_open : World T → InodeBlock → Bool → Option (BlockOut T)
  alloc_open w ib fresh =
      if is_ok (open_clus io ib)
      then (do
        o ← trees.insert w.sb w.inode.blocks_tree ib.vblock ib.block
        let w' = with_tree w o.after o.value.1 in
            if is_ok o.value.0
            then some (record { world = w'; errno = success; ib = ib })
            else alloc_undo w' ib fresh fresh o.value.0)
      else alloc_undo w ib fresh fresh (open_clus io ib)

  -- `nkfs_inode_block_alloc` where the tree of checksums has no block yet for the checksum.
  unfoldable pub alloc_sum : World T → InodeBlock → Option (BlockOut T)
  alloc_sum w ib = do
    a ← block_alloc io w.sb
    let got = record ib { sum_block = a.value.1 } in
        if not (is_ok a.value.0)
        then alloc_undo (record w { sb = a.after }) ib false false a.value.0
        else (do
          o ← trees.insert a.after w.inode.blocks_sum_tree ib.vsum_block a.value.1
          let w' = with_sum_tree w o.after o.value.1 in
              if is_ok o.value.0
              then alloc_open w' got true
              else alloc_undo w' got true false o.value.0)

  -- `nkfs_inode_block_alloc`
  unfoldable pub alloc_block : World T → ℕ → Option (BlockOut T)
  alloc_block w vblock =
      let (vsum_block, sum_off) = sum_place w.sb.bsize vblock in
      do
        a ← block_alloc io w.sb
        let w' = record w { sb = a.after } in
            let ib : InodeBlock = record {
              vblock = vblock;
              block = a.value.1;
              vsum_block = vsum_block;
              sum_block = 0;
              sum_off = sum_off;
            } in
            if not (is_ok a.value.0)
            then some (record { world = w'; errno = a.value.0; ib = no_block })
            else elim (trees.find w.inode.blocks_sum_tree vsum_block) [
              | some s ↦ alloc_open w' (record ib { sum_block = s }) false
              | none ↦ alloc_sum w' ib
            ]

  -- `nkfs_inode_block_erase`
  unfoldable pub block_erase : World T → InodeBlock → Option (World T)
  block_erase w ib = do
    d ← trees.delete w.sb w.inode.blocks_tree ib.vblock
    f ← block_free io d.after ib.block
    some (with_tree w f.after d.value.1)

  -- `nkfs_inode_block_read_create`
  unfoldable pub block_read_create : World T → ℕ → Option (BlockOut T)
  block_read_create w vblock =
      let (e, ib) = block_read w vblock in
      let c = block_check_sum w ib in
      if is_ok e
      then some (record { world = w; errno = c; ib = if is_ok c then ib else no_block })
      else (do
        a ← alloc_block w vblock
        let (w', e') = block_write a.world a.ib in
            if not (is_ok a.errno)
            then some (record { world = a.world; errno = a.errno; ib = no_block })
            else (if is_ok e' then some (record { world = w'; errno = success; ib = a.ib }) else (do
              w'' ← block_erase w' a.ib
              some (record { world = w''; errno = e'; ib = no_block }))))
