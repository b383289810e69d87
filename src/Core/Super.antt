-- ===== src/Core/Super.antt =====
-- core/super.c: the header of an image, its geometry, formatting and loading. A header is its fields in
-- host order, which is what `cpu_to_be32`, `cpu_to_be64` and their inverses see of it.
pub mod Geometry
pub mod Format
pub mod Fresh
pub mod Load
pub mod Reload
mod Tests
use ddfs.Base.{
  ℕ, zero, suc, ◌+◌, ◌*◌, ◌/◌, ◌%◌, Bool, true, false, not, ◌&&◌, ◌||◌, Option, none, some, List,
  [], ◌∷◌, ltb, leb, ◌==◌, if◌then◌else◌, ◌>>=◌, ◌>>◌, bug_on, u32, u64, sub64,
}
use ddfs.Core.Balloc.{
  Sb, Errno, Io, is_ok, Out, bm_clear, block_mark, block_free, block_alloc, success, eio, einval,
  enomem,
}
use ddfs.Crt.ObjId.{ObjId}

-- `struct nkfs_image_header` of include/nkfs_image.h
pub record ImageHeader : Type 0 where
  pub magic : ℕ
  pub version : ℕ
  pub id : ObjId
  pub size : ℕ
  pub bm_block : ℕ
  pub bm_blocks : ℕ
  pub inodes_tree_block : ℕ
  pub used_blocks : ℕ
  pub bsize : ℕ
  pub sum : ℕ
  pub sig : ℕ

abbrev pub image_magic : ℕ
image_magic = 0x3EFFBDAE

abbrev pub image_sig : ℕ
image_sig = 0xBEDABEDA

abbrev pub image_ver_1 : ℕ
image_ver_1 = 1

abbrev pub image_bm_block : ℕ
image_bm_block = 1

-- `nkfs_div_round_up` of core/helpers.h
unfoldable pub div_round_up : ℕ → ℕ → ℕ
div_round_up x y = sub64 (u64 (x + y)) 1 / y

-- What `memset` leaves of a superblock, over a disk whose bitmap has the bits `disk`.
abbrev pub blank_sb : (ℕ → ℕ → Bool) → Sb
blank_sb disk = record {
  bm_block = 0;
  bm_blocks = 0;
  nr_blocks = 0;
  bsize = 0;
  used_blocks = 0;
  bits = disk;
  read_locks = λ _. 0;
  sb_unlocks = 0;
  id = record { high = 0; low = 0 };
  magic = 0;
  version = 0;
  size = 0;
  inodes_tree_block = 0;
  stopping = false;
}

-- `nkfs_sb_gen_header`; `gen` is what `nkfs_obj_id_gen` gives. `none` is a division by zero.
unfoldable pub gen_header : Option ObjId → Sb → ℕ → ℕ → Option (Errno × Sb)
gen_header gen sb size bsize =
    let bm_blocks = div_round_up (div_round_up (size / bsize) 8) bsize in
    if bsize == 0
    then none
    else (if not (u32 (size % bsize) == 0) || leb size bsize
        then some (einval, sb)
        else (if leb size (u64 ((image_bm_block + bm_blocks) * bsize))
            then some (einval, sb)
            else elim gen [
              | none ↦ some (eio, sb)
              | some id ↦ some (
                success,
                record sb {
                  id = id;
                  magic = image_magic;
                  version = image_ver_1;
                  size = size;
                  bsize = bsize;
                  bm_block = image_bm_block;
                  bm_blocks = bm_blocks;
                },
              )
            ]))

-- The bytes that `nkfs_image_header_sum` reads, as the fields that stand before the checksum.
abbrev pub header_words : ImageHeader → List ℕ
header_words h =
    h.magic ∷ h.version ∷ h.id.high ∷ h.id.low ∷ h.size ∷ h.bm_block ∷ h.bm_blocks
    ∷ h.inodes_tree_block ∷ h.used_blocks ∷ h.bsize ∷ []

module _ (digest : List ℕ → ℕ) where
  -- `nkfs_sb_parse_header`
  unfoldable pub parse_header : Sb → ImageHeader → Errno × Sb
  parse_header sb h =
      if not (h.sig == image_sig)
      then (einval, sb)
      else (if not (h.sum == digest (header_words h)) then (einval, sb) else (
        success,
        record sb {
          magic = h.magic;
          version = h.version;
          size = h.size;
          bsize = h.bsize;
          bm_block = h.bm_block;
          bm_blocks = h.bm_blocks;
          inodes_tree_block = h.inodes_tree_block;
          used_blocks = h.used_blocks;
          id = h.id;
        },
      ))

  -- `nkfs_sb_fill_header`
  unfoldable pub fill_header : Sb → ImageHeader
  fill_header sb =
      let h : ImageHeader = record {
        magic = sb.magic;
        version = sb.version;
        id = sb.id;
        size = sb.size;
        bm_block = sb.bm_block;
        bm_blocks = sb.bm_blocks;
        inodes_tree_block = sb.inodes_tree_block;
        used_blocks = sb.used_blocks;
        bsize = sb.bsize;
        sum = 0;
        sig = image_sig;
      } in
      record h { sum = digest (header_words h) }

-- `nkfs_sb_check`. `none` cannot be, as the size of a block is tested before the division.
unfoldable pub sb_check : Sb → Errno
sb_check sb =
    if not (sb.magic == image_magic)
    then einval
    else (if not (sb.version == image_ver_1)
        then einval
        else (if sb.size == 0
              || (sb.bsize == 0 || (leb sb.size sb.bsize || not (u32 (sb.size % sb.bsize) == 0)))
            then einval
            else (if not (sb.bm_block == image_bm_block)
                then einval
                else (if leb sb.size (u64 (sb.bm_blocks + image_bm_block))
                    then einval
                    else success))))

-- What the functions read of `struct nkfs_dev`: the size of the device, that of its blocks, and the bits
-- that its clusters hold.
pub record Dev : Type 0 where
  pub dev_size : ℕ
  pub dev_bsize : ℕ
  pub disk : ℕ → ℕ → Bool

-- The end of `nkfs_sb_create`, after the header is made or read.
unfoldable pub checked_sb : Errno × Sb → Errno × Sb
checked_sb (e, sb) =
    let c = sb_check sb in
    if not (is_ok e)
    then (e, sb)
    else (if not (is_ok c)
        then (c, sb)
        else (success, record sb { nr_blocks = sb.size / sb.bsize }))

-- `nkfs_sb_create` without a header, where memory is granted.
unfoldable pub sb_create_new : Dev → Option ObjId → Option (Errno × Sb)
sb_create_new dev gen = do
  made ← gen_header gen (blank_sb dev.disk) dev.dev_size dev.dev_bsize
  some (checked_sb made)

-- `nkfs_sb_create` with a header.
unfoldable pub sb_create_read : (List ℕ → ℕ) → Dev → ImageHeader → Errno × Sb
sb_create_read digest dev h = checked_sb (parse_header digest (blank_sb dev.disk) h)

-- for (i = 0; i < bm_block + bm_blocks; i++) nkfs_balloc_block_mark(sb, i, 1)
unfoldable pub mark_loop : Io → ℕ → ℕ → Sb → Option (Out Errno)
mark_loop io i zero sb = some (record { after = sb; value = success })
mark_loop io i (suc r) sb = do
  o ← block_mark io sb i true
  elim (is_ok o.value) [ false ↦ some o | true ↦ mark_loop io (i + 1) r o.after ]

-- sizeof(struct nkfs_btree_node_disk): the page of the header, and four each of keys, children and values
abbrev pub node_size : ℕ
node_size = 13 * 4096

-- The BUG_ONs of `nkfs_btree_node_read` and `nkfs_btree_node_write` on the superblock and the block.
abbrev pub node_guard : Sb → ℕ → Option (Unit {0})
node_guard sb b = do bug_on (ltb sb.bsize node_size); bug_on (b == 0 || leb sb.nr_blocks b)

-- `nkfs_btree_create(sb, 0)`, where memory is granted: the block of the root, or an error. A root that
-- cannot be written gives its block back.
unfoldable pub new_root : Io → Sb → Option (Out (Option ℕ))
new_root io sb = do
  o ← block_alloc io sb
  elim (is_ok o.value.0) [
    | false ↦ some (record { after = o.after; value = none })
    | true ↦ do
      node_guard o.after o.value.1
      elim (io.get o.value.1 && is_ok (io.sync o.value.1)) [
        | true ↦ some (record { after = o.after; value = some o.value.1 })
        | false ↦ do
          f ← block_free io o.after o.value.1
          some (record { after = f.after; value = none })
      ]
  ]

-- `nkfs_btree_create`, where memory is granted: a new root for the block 0, else the one that is read.
-- `root_there` says for which blocks the read finds a node.
unfoldable pub btree_create : Io → (ℕ → Bool) → Sb → ℕ → Option (Out (Option ℕ))
btree_create io root_there sb b = elim (b == 0) [
  | true ↦ new_root io sb
  | false ↦ do
    node_guard sb b
    some (record { after = sb; value = if root_there b then some b else none })
]

-- What is on the disk after a call: the header of block 0, if it was written.
pub record Formatted : Type 0 where
  pub errno : Errno
  pub sb : Sb
  pub header : Option ImageHeader

abbrev failed : Errno → Sb → Formatted
failed e sb = record { errno = e; sb = sb; header = none }

-- The end of `nkfs_sb_format`: the header goes to block 0.
unfoldable pub put_header : (List ℕ → ℕ) → Io → Sb → Formatted
put_header digest io sb = record {
  errno = io.sync 0;
  sb = sb;
  header = some (fill_header digest sb);
}

-- `nkfs_sb_format`, where memory is granted.
unfoldable pub sb_format : (List ℕ → ℕ) → Io → Dev → Option ObjId → Option Formatted
sb_format digest io dev gen = elim (io.get 0) [
  | false ↦ some (failed eio (blank_sb dev.disk))
  | true ↦ do
    (e, sb) ← sb_create_new dev gen
    elim (is_ok e) [
      | false ↦ some (failed e sb)
      | true ↦
          let cleared = bm_clear io sb in
          elim (is_ok cleared.value) [
            | false ↦ some (failed cleared.value cleared.after)
            | true ↦ do
              marked ←
                  mark_loop io 0 (u64 (cleared.after.bm_block + cleared.after.bm_blocks))
                    cleared.after
              elim (is_ok marked.value) [
                | false ↦ some (failed marked.value marked.after)
                | true ↦ do
                  root ← new_root io marked.after
                  elim root.value [
                    | none ↦ some (failed enomem root.after)
                    | some b ↦
                        some (put_header digest io (record root.after { inodes_tree_block = b }))
                  ]
              ]
          ]
    ]
]

-- What `nkfs_sb_load` makes of the tree of inodes.
abbrev pub with_root : Out (Option ℕ) → Errno × Sb
with_root o = (elim o.value [ none ↦ einval | some _ ↦ success ], o.after)

-- `nkfs_sb_load`, where memory is granted and `header` is what the read of block 0 gives. `none` is a
-- BUG_ON of the tree.
unfoldable pub sb_load :
    (List ℕ → ℕ) → Io → (ℕ → Bool) → Dev → Option ImageHeader → Option (Errno × Sb)
sb_load digest io root_there dev none = some (eio, blank_sb dev.disk)
sb_load digest io root_there dev (some h) =
    let (e, sb) = sb_create_read digest dev h in
    if not (io.get 0)
    then some (eio, blank_sb dev.disk)
    else (if not (is_ok e)
        then some (e, sb)
        else (if ltb dev.dev_size sb.size
            then some (einval, sb)
            else (if leb sb.nr_blocks sb.inodes_tree_block then some (einval, sb) else (do
              o ← btree_create io root_there sb sb.inodes_tree_block
              some (with_root o)))))
