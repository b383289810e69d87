-- ===== src/Core/Balloc.antt =====
-- core/balloc.c: the bitmap of a superblock's blocks. The bits of a bitmap cluster are a function of
-- the bit's index in it; `test_bit_le` and its kin address them so on a little-endian machine.
pub mod Scan
pub mod Position
pub mod Blocks
pub mod Alloc
pub mod Free
pub mod Returned
mod Tests
use ddfs.Base.{
  ℕ, zero, suc, ◌+◌, ◌-◌, ◌*◌, ◌/◌, ◌%◌, Bool, true, false, not, ◌&&◌, Option, none, some, leb,
  ◌==◌, if◌then◌else◌, ◌>>=◌, ◌>>◌, bug_on, u32, u64, sub64,
}
use ddfs.Core.Balloc.Scan.{scan_longs}
use ddfs.Crt.ObjId.{ObjId}

-- `struct nkfs_sb` of core/super.h, less its links, locks and reference counts; a cluster of the disk has `bsize` bytes. `read_locks` counts, for each cluster, the
-- read locks that are held, `sb_unlocks` the calls of up_write on the lock of the superblock that have
-- no down_write before them.
pub record Sb : Type 0 where
  pub bm_block : ℕ
  pub bm_blocks : ℕ
  pub nr_blocks : ℕ
  pub bsize : ℕ
  pub used_blocks : ℕ
  pub bits : ℕ → ℕ → Bool
  pub read_locks : ℕ → ℕ
  pub sb_unlocks : ℕ
  pub id : ObjId
  pub magic : ℕ
  pub version : ℕ
  pub size : ℕ
  pub inodes_tree_block : ℕ
  pub stopping : Bool

-- What the functions return: 0 or the error.
pub data Errno : Type 0 where
  success eio einval enospc enomem enoent erange : Errno

-- core/dio.c, as far as it can fail: whether `dio_clu_get` finds the cluster, and what `dio_clu_zero`
-- and `dio_clu_sync` return for it.
pub record Io : Type 0 where
  pub get : ℕ → Bool
  pub zeroed : ℕ → Errno
  pub sync : ℕ → Errno

abbrev pub is_ok : Errno → Bool
is_ok success = true
is_ok _ = false

-- The bit `bit` of cluster `clu` with the value `v`.
abbrev pub set_bit : Sb → ℕ → ℕ → Bool → ℕ → ℕ → Bool
set_bit sb clu bit v c k = if c == clu && k == bit then v else sb.bits c k

-- What a function leaves behind and returns; `none` around it is a BUG_ON.
pub record Out {ℓ} (A : Type ℓ) : Type ℓ where
  pub after : Sb
  pub value : A

-- nkfs_balloc_bm_clear. A cluster that cannot be cleared stays as it was.
-- The clusters from `i` on, `r` of them
unfoldable pub clear_loop : Io → ℕ → ℕ → Sb → Out Errno
clear_loop io i zero sb = record { after = record sb { used_blocks = 0 }; value = success }
clear_loop io i (suc r) sb =
    let cleared = record sb { bits = λ c k. if c == i then false else sb.bits c k } in
    let later = clear_loop io (i + 1) r cleared in
    if not (io.get i)
    then record { after = sb; value = eio }
    else (if not (is_ok (io.zeroed i))
        then record { after = sb; value = io.zeroed i }
        else (if not (is_ok (io.sync i))
            then record { after = cleared; value = io.sync i }
            else later))

unfoldable pub bm_clear : Io → Sb → Out Errno
bm_clear io sb = clear_loop io sb.bm_block sb.bm_blocks sb

-- The place of a block's bit: its cluster, the offset of its long in it, the bit of the long.
-- `nkfs_mod` returns the 32 low bits, which hold the offset as clusters are smaller than 4 GB.
pub record Place : Type 0 where
  pub cluster : ℕ
  pub long_off : ℕ
  pub bit : ℕ

unfoldable pub block_bm_bit : Sb → ℕ → Option Place
block_bm_bit sb block =
    let long_num = block / 64 in
    if leb sb.nr_blocks block
    then none
    else some (record {
      cluster = sb.bm_block + long_num * 8 / sb.bsize;
      long_off = u32 (long_num * 8 % sb.bsize);
      bit = u32 (block % 64);
    })

-- up_write(&sb->rw_lock)
abbrev pub up_write : Sb → Sb
up_write sb = record sb { sb_unlocks = sb.sb_unlocks + 1 }

-- nkfs_balloc_block_mark, once the place is known. The read lock of the cluster is taken and given
-- back on every path that goes on.
unfoldable pub mark_place : Io → Sb → Place → Bool → Option (Out Errno)
mark_place io sb p in_use =
    let k = 8 * p.long_off + p.bit in
    let old = sb.bits p.cluster k in
    let marked = up_write (record sb {
      bits = set_bit sb p.cluster k in_use;
      used_blocks = if in_use then u64 (sb.used_blocks + 1) else sub64 sb.used_blocks 1;
    }) in
    if not (io.get p.cluster) then some (record { after = up_write sb; value = eio }) else (do
      bug_on (if in_use then old else not old)
      some (record { after = marked; value = io.sync p.cluster }))

unfoldable pub block_mark : Io → Sb → ℕ → Bool → Option (Out Errno)
block_mark io sb block in_use = elim (block_bm_bit sb block) [
  | none ↦ some (record { after = sb; value = einval })
  | some p ↦ mark_place io sb p in_use
]

unfoldable pub block_free : Io → Sb → ℕ → Option (Out Errno)
block_free io sb block = block_mark io sb block false

-- The number of the block of a cluster's first bit: 8*(bm_block - sb->bm_block)*sb->bsize
abbrev pub first_block : Sb → ℕ → ℕ
first_block sb i = u64 (8 * (i - sb.bm_block) * sb.bsize)

-- nkfs_balloc_block_find_set_free_bit. The long's offset and the bit, or `none` for an error. The
-- read lock is given back only where there is no bit.
unfoldable pub find_set_free_bit : Io → Sb → ℕ → Option (Out (Option (ℕ × ℕ)))
find_set_free_bit io sb i =
    let found = scan_longs (sb.bits i) sb.nr_blocks (sb.bsize / 4096 * 512) (first_block sb i) 0 in
    do
      bug_on (not (sb.bsize % 4096 == 0))
      some (elim found [
        | none ↦ record { after = sb; value = none }
        | some (long, bit) ↦ record {
          after = record sb {
            bits = set_bit sb i (8 * long + bit) true;
            used_blocks = u64 (sb.used_blocks + 1);
            read_locks = λ c. if c == i then sb.read_locks c + 1 else sb.read_locks c;
          };
          value = if is_ok (io.sync i) then some (long, bit) else none;
        }
      ])

-- nkfs_balloc_block_alloc, the clusters from `i` on, `r` of them, with the block that is found.
unfoldable pub alloc_loop : Io → ℕ → ℕ → Sb → Option (Out (Errno × ℕ))
alloc_loop io i zero sb = some (record { after = sb; value = (enospc, 0) })
alloc_loop io i (suc r) sb =
    if not (io.get i) then some (record { after = sb; value = (eio, 0) }) else (do
      o ← find_set_free_bit io sb i
      elim o.value [
        | some (long, bit) ↦
            some (record {
              after = o.after;
              value = (success, u64 (first_block sb i + 8 * long + bit));
            })
        | none ↦ alloc_loop io (i + 1) r o.after
      ])

unfoldable pub block_alloc : Io → Sb → Option (Out (Errno × ℕ))
block_alloc io sb = alloc_loop io sb.bm_block sb.bm_blocks sb
