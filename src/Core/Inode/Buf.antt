-- ===== src/Core/Inode/Buf.antt =====
-- Reading and writing the bytes of an inode: nkfs_inode_read_block_buf, _write_block_buf, _io_buf and _io_pages.
use ddfs.Base.{
  ℕ, zero, suc, ◌+◌, ◌-◌, ◌*◌, ◌/◌, ◌%◌, Bool, true, false, not, ◌&&◌, ◌||◌, Option, none, some,
  List, [], ◌∷◌, ◌++◌, ltb, leb, ◌==◌, if◌then◌else◌, tab, ◌>>=◌, ◌>>◌, bug_on, u32, u64, sub64,
}
use ddfs.Core.Balloc.{Errno, Io, is_ok, success, einval, erange}
use ddfs.Core.Inode.{set_size, Trees, World, write_dirty}
use ddfs.Core.Inode.Block.{block_write, block_check_sum, block_read, block_read_create}

-- What a call leaves and returns: the error, the count of bytes, whether the end was met, and the bytes that were read.
pub record BufOut (T : Type 0) : Type 0 where
  pub world : World T
  pub errno : Errno
  pub count : ℕ
  pub eof : Bool
  pub bytes : List ℕ

-- The bytes of a buffer to write, or none to read.
pub data Transfer : Type 0 where
  reading : Transfer
  writing : (ℕ → ℕ) → Transfer

-- The transfer from byte `n` of the buffer on.
abbrev pub advance : ℕ → Transfer → Transfer
advance n reading = reading
advance n (writing buf) = writing (λ i. buf (n + i))

-- The clusters with `len` bytes written at an offset of one.
abbrev pub put_bytes : (ℕ → ℕ → ℕ) → ℕ → ℕ → (ℕ → ℕ) → ℕ → ℕ → ℕ → ℕ
put_bytes clusters b off buf len x k =
    if x == b && (leb off k && ltb k (off + len)) then buf (k - off) else clusters x k

-- down_read(&inode->rw_sem)
abbrev pub lock_read : {T : Type 0} → World T → World T
lock_read w = record w { inode = record w.inode { readers = w.inode.readers + 1 } }

-- down_write(&inode->rw_sem): `none` is a wait for a reader that never leaves.
abbrev lock_write : {T : Type 0} → World T → Option (Unit {0})
lock_write w = bug_on (not (w.inode.readers == 0))

module _ {T : Type 0} (trees : Trees T) (digest : List ℕ → ℕ) (io : Io) where
  -- `nkfs_inode_read_block_buf`. The read lock that is taken first is given back only if the offset is not below the size.
  unfoldable pub read_block_buf : World T → ℕ → ℕ → ℕ → Option (BufOut T)
  read_block_buf w vblock off len =
      let data_off = u64 (u64 (vblock * w.sb.bsize) + off) in
      let w' = lock_read w in
      let (e, ib) = block_read trees digest io w vblock in
      let c = block_check_sum trees digest io w ib in
      let eof = leb w.inode.size (u64 (data_off + len)) in
      let llen = if eof then u32 (sub64 w.inode.size data_off) else len in
      do
        bug_on (ltb w.sb.bsize (u64 (off + len)))
        some (
            if ltb w.inode.size data_off
            then record { world = w; errno = erange; count = 0; eof = false; bytes = [] }
            else (if data_off == w.inode.size
                then record { world = w; errno = success; count = 0; eof = true; bytes = [] }
                else (if not (is_ok e)
                    then record { world = w'; errno = e; count = 0; eof = false; bytes = [] }
                    else (if not (is_ok c)
                        then record { world = w'; errno = c; count = 0; eof = false; bytes = [] }
                        else record {
                          world = w';
                          errno = success;
                          count = llen;
                          eof = eof;
                          bytes = tab (λ i. w.clusters ib.block (off + i)) llen;
                        }))))

  -- The end of `nkfs_inode_write_block_buf`: the size grows up to the end of what was written.
  unfoldable pub grow : World T → ℕ → ℕ → Option (BufOut T)
  grow w data_end len = do
    lock_write w
    (w', e) ←
        if ltb w.inode.size data_end
        then write_dirty digest io (record w { inode = set_size w.inode data_end })
        else some (w, success)
    some (record {
      world = w';
      errno = e;
      count = if is_ok e then len else 0;
      eof = false;
      bytes = [];
    })

  -- `nkfs_inode_write_block_buf`
  unfoldable pub write_block_buf : World T → ℕ → ℕ → (ℕ → ℕ) → ℕ → Option (BufOut T)
  write_block_buf w vblock off buf len = do
    bug_on (ltb w.sb.bsize (u64 (off + len)))
    r ← block_read_create trees digest io w vblock
    let with_buf = record r.world {
      clusters = put_bytes r.world.clusters r.ib.block off buf len;
    } in
        let (w', e) = block_write trees digest io with_buf r.ib in
        if not (is_ok r.errno)
        then some (record { world = r.world; errno = r.errno; count = 0; eof = false; bytes = [] })
        else (if not (is_ok e)
            then some (record { world = w'; errno = e; count = 0; eof = false; bytes = [] })
            else grow w' (u64 (u64 (u64 (vblock * w.sb.bsize) + off) + len)) len)

  unfoldable pub block_buf : World T → ℕ → ℕ → Transfer → ℕ → Option (BufOut T)
  block_buf w vblock off reading len = read_block_buf w vblock off len
  block_buf w vblock off (writing buf) len = write_block_buf w vblock off buf len

  -- The loop of `nkfs_inode_io_buf` with `res` bytes left; each round leaves fewer.
  unfoldable pub io_loop : ℕ → World T → ℕ → ℕ → Transfer → ℕ → Option (BufOut T)
  io_loop zero w vblock loff buf res = none
  io_loop (suc fuel) w vblock loff buf res =
      let llen = if ltb w.sb.bsize (u32 (res + loff)) then w.sb.bsize - loff else res in
      if res == 0
      then some (record { world = w; errno = success; count = 0; eof = false; bytes = [] })
      else (do
        o ← block_buf w vblock loff buf llen
        if not (is_ok o.errno) || o.eof then some o else (do
          bug_on (not (llen == o.count))
          r ← io_loop fuel o.world (vblock + 1) 0 (advance llen buf) (res - llen)
          some (record r { count = u32 (o.count + r.count); bytes = o.bytes ++ r.bytes })))

  -- `nkfs_inode_io_buf`
  unfoldable pub io_buf : World T → ℕ → Transfer → ℕ → Option (BufOut T)
  io_buf w off buf len = io_loop (len + 1) w (off / w.sb.bsize) (u32 (off % w.sb.bsize)) buf len

  -- `nkfs_inode_io_pages` on the pages from one on, each with the bytes it has to write or none.
  unfoldable pub io_pages : List Transfer → World T → ℕ → ℕ → ℕ → Option (BufOut T)
  io_pages [] w off in_page len = some (record {
    world = w;
    errno = if len == 0 then success else einval;
    count = 0;
    eof = false;
    bytes = [];
  })
  io_pages (page ∷ pages) w off in_page len =
      let llen = if ltb 4096 (u32 (len + in_page)) then 4096 - in_page else len in
      if len == 0
      then some (record { world = w; errno = success; count = 0; eof = false; bytes = [] })
      else (do
        o ← io_buf w off (advance in_page page) llen
        if not (is_ok o.errno) || o.eof then some o else (do
          bug_on (not (o.count == llen))
          r ← io_pages pages o.world (u64 (off + llen)) 0 (len - llen)
          some (record r { count = u32 (o.count + r.count); bytes = o.bytes ++ r.bytes })))
