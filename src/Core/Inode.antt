-- ===== src/Core/Inode.antt =====
-- core/inode.c: an inode, its image on disk, and its blocks of data with their checksums.
pub mod Contract
pub mod Mapped
pub mod Grown
pub mod Block
pub mod Undo
pub mod Allocated
pub mod Allocates
pub mod Sums
pub mod Summed
pub mod Created
pub mod Creates
pub mod Buf
pub mod Grow
pub mod Written
pub mod Writes
pub mod Position
pub mod Stream
pub mod Streams
pub mod Reads
pub mod ReadBack
pub mod RoundTrip
pub mod Waits
pub mod Paged
pub mod Image
pub mod Leaves
mod Tests
use ddfs.Base.{
  ℕ, Bool, true, false, not, ◌||◌, Option, some, List, [], ◌∷◌, ◌==◌, if◌then◌else◌, ◌>>=◌, ◌>>◌,
  bug_on,
}
use ddfs.Core.Balloc.{Sb, Errno, Io, is_ok, Out, success, eio, einval}
use ddfs.Crt.ObjId.{ObjId}

-- `struct nkfs_inode` of core/inode.h, less its links and its reference count, with the trees it opens, which are of the type `T`. `readers` counts the read locks that are held on `rw_sem`.
pub record Inode (T : Type 0) : Type 0 where
  pub sig1 : ℕ
  pub ino : ObjId
  pub block : ℕ
  pub size : ℕ
  pub blocks_tree_block : ℕ
  pub blocks_sum_tree_block : ℕ
  pub blocks_tree : T
  pub blocks_sum_tree : T
  pub dirty : Bool
  pub readers : ℕ
  pub sig2 : ℕ

-- `struct nkfs_inode_disk` of include/nkfs_image.h, its numbers in host order.
pub record InodeDisk : Type 0 where
  pub sig1 : ℕ
  pub ino : ObjId
  pub size : ℕ
  pub blocks_tree_block : ℕ
  pub blocks_sum_tree_block : ℕ
  pub sum : ℕ
  pub sig2 : ℕ

abbrev pub inode_sig1 : ℕ
inode_sig1 = 0xCBDACBDA

abbrev pub inode_sig2 : ℕ
inode_sig2 = 0xBEDABEDA

-- The bytes that `nkfs_inode_on_disk_sum` reads, as the fields that stand before the checksum.
abbrev pub disk_words : InodeDisk → List ℕ
disk_words d =
    d.sig1 ∷ d.ino.high ∷ d.ino.low ∷ d.size ∷ d.blocks_tree_block ∷ d.blocks_sum_tree_block ∷ []

-- `nkfs_inode_set_size`
unfoldable pub set_size : {T : Type 0} → Inode T → ℕ → Inode T
set_size inode size =
    if inode.size == size then inode else record inode { size = size; dirty = true }

-- `nkfs_inode_to_on_disk`
unfoldable pub to_on_disk : {T : Type 0} → (List ℕ → ℕ) → Inode T → InodeDisk
to_on_disk digest inode =
    let d : InodeDisk = record {
      sig1 = inode_sig1;
      ino = inode.ino;
      size = inode.size;
      blocks_tree_block = inode.blocks_tree_block;
      blocks_sum_tree_block = inode.blocks_sum_tree_block;
      sum = 0;
      sig2 = inode_sig2;
    } in
    record d { sum = digest (disk_words d) }

-- `nkfs_inode_parse_on_disk`
unfoldable pub parse_on_disk : {T : Type 0} → (List ℕ → ℕ) → Inode T → InodeDisk → Errno × Inode T
parse_on_disk digest inode d =
    if not (d.sig1 == inode_sig1) || not (d.sig2 == inode_sig2)
    then (einval, inode)
    else (if not (d.sum == digest (disk_words d)) then (einval, inode) else (
      success,
      record inode {
        sig1 = d.sig1;
        ino = d.ino;
        size = d.size;
        blocks_tree_block = d.blocks_tree_block;
        blocks_sum_tree_block = d.blocks_sum_tree_block;
        sig2 = d.sig2;
      },
    ))

-- The trees of an inode as it uses them: core/btree.c with keys that are numbers of blocks. A search
-- gives the value or -ENOENT; an insertion is without replacing; `none` around a result is a stop.
pub record Trees (T : Type 0) : Type 0 where
  pub find : T → ℕ → Option ℕ
  pub insert : Sb → T → ℕ → ℕ → Option (Out (Errno × T))
  pub delete : Sb → T → ℕ → Option (Out (Errno × T))

-- What an operation on an inode can change: the superblock, the bytes of the clusters, the images of
-- inodes by their blocks, and the inode.
pub record World (T : Type 0) : Type 0 where
  pub sb : Sb
  pub clusters : ℕ → ℕ → ℕ
  pub images : ℕ → Option InodeDisk
  pub inode : Inode T

-- `nkfs_inode_write`, where memory is granted. `none` is the BUG_ON on an inode without a block.
unfoldable pub inode_write : {T : Type 0} → (List ℕ → ℕ) → Io → World T → Option (World T × Errno)
inode_write digest io w = do
  bug_on (w.inode.block == 0)
  some (
      if not (io.get w.inode.block) then (w, eio) else (
        record w {
          images = λ b. if b == w.inode.block then some (to_on_disk digest w.inode) else w.images b;
        },
        io.sync w.inode.block,
      ))

-- `nkfs_inode_write_dirty`
unfoldable pub write_dirty : {T : Type 0} → (List ℕ → ℕ) → Io → World T → Option (World T × Errno)
write_dirty digest io w = if not w.inode.dirty then some (w, success) else (do
  (w', e) ← inode_write digest io w
  some (if is_ok e then (record w' { inode = record w'.inode { dirty = false } }, e) else (w', e)))
