-- ===== src/Core/Inode/RoundTrip.antt =====
-- `nkfs_inode_io_buf` writing, and then reading the same bytes.
use ddfs.Base.{
  ℕ, zero, suc, ◌+◌, ◌-◌, ◌*◌, ◌/◌, ◌%◌, ◌^◌, ◌≤◌, ◌<◌, ◌≡◌, refl, sym, ap, ◌∙◌, ◌⊎◌, inl, inr,
  Bool, true, false, not, ◌||◌, Option, some, List, [], ◌++◌, arith, ltb, leb, ◌==◌, if◌then◌else◌,
  ltb→lt, ltb→ge, ==_iff, ==-refl, Bool-cases, tab, ◌>>=◌, ◌>>◌, bug_on, bind-some, u32,
}
use ddfs.Core.Balloc.{Io, is_ok, success}
use ddfs.Core.Inode.{Trees, World}
use ddfs.Core.Inode.Buf.{
  BufOut, lock_read, read_block_buf, block_buf, io_loop, io_buf, reading, writing,
}
use ddfs.Core.Inode.Contract.{Contract}
use ddfs.Core.Inode.Created.{byte_at, IsSound}
use ddfs.Core.Inode.Grow.{IsFile}
use ddfs.Core.Inode.Mapped.{true-false}
use ddfs.Core.Inode.Position.{byte_in, byte_in-at, split_position}
use ddfs.Core.Inode.ReadBack.{locked-IsSound, read_exact, IsBack, IsBack-nothing, IsBack-more}
use ddfs.Core.Inode.Stream.{StreamSays, all_written, part_written}
use ddfs.Core.Inode.Streams.{next_row, loop_done, io_buf-StreamSays}
use ddfs.Core.Super.Format.{IsGood}
use mathlib.Core.Path.{subst}

module _ {T : Type 0} (trees : Trees T) (contract : Contract trees) (m : ℕ) (digest : List ℕ → ℕ)
    (io : Io) (good : IsGood io) where
  -- How the loop goes on after a round of reading.
  abbrev after_read : ℕ → BufOut T → ℕ → ℕ → ℕ → Option (BufOut T)
  after_read fuel o v llen res = if not (is_ok o.errno) || o.eof then some o else (do
    bug_on (not (llen == o.count))
    r ← io_loop trees digest io fuel o.world (v + 1) 0 reading (res - llen)
    some (record r { count = u32 (o.count + r.count); bytes = o.bytes ++ r.bytes }))

  one_read :
      (fuel : ℕ) (w : World T) (v loff llen res : ℕ) (o r : BufOut T)
      → (res == 0) ≡ false
      → (if ltb w.sb.bsize (u32 (res + loff)) then w.sb.bsize - loff else res) ≡ llen
      → read_block_buf trees digest io w v loff llen ≡ some o
      → after_read fuel o v llen res ≡ some r
      → io_loop trees digest io (suc fuel) w v loff reading res ≡ some r
  unfolding io_loop block_buf
  one_read fuel w v loff llen res o r some_left size run next =
      rw (some_left, size) (bind-some _ run next)

  abbrev Back : World T → (ℕ → ℕ) → ℕ → BufOut T → Type 0
  Back w buf n o = IsBack trees contract m digest io good w buf n o

  abbrev round : World T → (ℕ → ℕ) → ℕ → Bool → BufOut T
  round w buf llen eof = record {
    world = lock_read w;
    errno = success;
    count = llen;
    eof = eof;
    bytes = tab buf llen;
  }

  -- The round is not the last, and the others read the rest.
  read_on :
      (fuel : ℕ) (w : World T) (v : ℕ) (buf : ℕ → ℕ) (llen res : ℕ)
      → 0 < llen
      → llen ≤ res
      → res < 2 ^ 32
      → ((r : BufOut T) × (io_loop trees digest io fuel (lock_read w) (v + 1) 0 reading (res - llen)
            ≡ some r)
          × Back (lock_read w) (λ i. buf (llen + i)) (res - llen) r)
      → (r : BufOut T) × (after_read fuel (round w buf llen false) v llen res ≡ some r)
        × Back w buf res r
  read_on fuel w v buf llen res some_len le small (r, run, b) =
      let no_bug : bug_on (not (llen == llen)) ≡ some tt = rw (==-refl llen) refl in
      (
        _,
        bind-some _ no_bug (bind-some _ run refl),
        IsBack-more trees contract m digest io good w buf llen res r some_len le small b,
      )

  -- The round is the last: it meets the end of the file, or nothing is left.
  read_last :
      (fuel : ℕ) (w : World T) (v : ℕ) (buf : ℕ → ℕ) (res : ℕ) (eof : Bool)
      → 0 < fuel
      → 0 < res
      → res < 2 ^ 32
      → (r : BufOut T) × (after_read fuel (round w buf res eof) v res res ≡ some r)
        × Back w buf res r
  read_last fuel w v buf res true some_fuel some_len small = (
    round w buf res true,
    refl,
    record {
      ok_errno = refl;
      whole = refl;
      same_bytes = refl;
      only_locks = refl;
      keeps_locks = omega arith;
      more_locks = λ _. omega arith;
    },
  )
  read_last fuel w v buf res false some_fuel some_len small =
      read_on fuel w v buf res res some_len (omega arith) small (
        _,
        loop_done trees contract m digest io good fuel (lock_read w) (v + 1) 0 reading (res - res)
            some_fuel (omega arith),
        IsBack-nothing trees contract m digest io good (lock_read w) (λ i. buf (res + i))
            (res - res) (omega arith),
      )

  module _ (bsize : ℕ) (w : World T) (v loff : ℕ) (buf : ℕ → ℕ) (res : ℕ)
      (has : (i : ℕ) → i < res → byte_in trees bsize w (v * bsize + loff + i) ≡ some (buf i)) where
    -- The bytes in this block.
    here :
        (llen : ℕ)
        → llen ≤ res
        → loff + llen ≤ bsize
        → (i : ℕ) → i < llen
        → byte_at trees w v (loff + i) ≡ some (buf i)
    here llen le inside i h =
        sym (byte_in-at trees bsize w v (loff + i) (omega arith))
        ∙ ap (byte_in trees bsize w) (omega arith)
        ∙ has i (omega arith)

    -- The bytes in the blocks behind it.
    behind :
        loff < bsize
        → bsize < res + loff
        → (i : ℕ) → i < res - (bsize - loff)
        → byte_in trees bsize w ((v + 1) * bsize + 0 + i) ≡ some (buf (bsize - loff + i))
    behind low over i h =
        ap (byte_in trees bsize w) (ap (λ x. x + i) (next_row v bsize) ∙ omega arith)
        ∙ has (bsize - loff + i) (omega arith)

  io_loop-IsBack :
      (fuel bsize : ℕ) (w : World T) (v loff : ℕ) (buf : ℕ → ℕ) (res : ℕ)
      → res < fuel
      → w.sb.bsize ≡ bsize
      → IsSound trees contract m digest io good w
      → w.inode.size < 2 ^ 64
      → loff < bsize
      → res + bsize < 2 ^ 32
      → v * bsize + loff + res + bsize < 2 ^ 64
      → v * bsize + loff + res ≤ w.inode.size
      → ((i : ℕ) → i < res → byte_in trees bsize w (v * bsize + loff + i) ≡ some (buf i))
      → (o : BufOut T) × (io_loop trees digest io fuel w v loff reading res ≡ some o)
        × Back w buf res o
  io_loop-IsBack zero bsize w v loff buf res few e f short low small fits room has =
      absurd (omega arith)
  io_loop-IsBack (suc fuel) bsize w v loff buf res few e f short low small fits room has =
      elim (Bool-cases (res == 0)) [
        | inl none_left ↦
            let empty = (==_iff res 0).0 none_left in
            (
              record { world = w; errno = success; count = 0; eof = false; bytes = [] },
              loop_done trees contract m digest io good (suc fuel) w v loff reading res
                  (omega arith) empty,
              IsBack-nothing trees contract m digest io good w buf res empty,
            )
        | inr some_left ↦ elim (Bool-cases (ltb bsize (res + loff))) [
          | inl over ↦
              let more = ltb→lt bsize (res + loff) over in
              let run =
                read_exact trees contract m digest io good w v loff (bsize - loff) buf f short
                  (rw e (omega arith)) (rw e (omega (arith, fits))) (omega arith)
                  (rw e (omega (arith, more)))
                  (here bsize w v loff buf res has (bsize - loff) (omega (arith, more))
                    (omega arith)) in
              let later =
                io_loop-IsBack fuel bsize (lock_read w) (v + 1) 0 (λ i. buf (bsize - loff + i))
                  (res - (bsize - loff)) (omega (arith, more)) e
                  (locked-IsSound trees contract m digest io good w (w.inode.readers + 1) f) short
                  (omega arith) (omega arith) (omega (arith, next_row v bsize, fits, more))
                  (omega (arith, next_row v bsize, room, more))
                  (behind bsize w v loff buf res has low more) in
              let (r, run', b) =
                read_on fuel w v buf (bsize - loff) res (omega arith) (omega (arith, more))
                  (omega arith) later in
              (
                r,
                one_read fuel w v loff (bsize - loff) res (round w buf (bsize - loff) false) r
                    some_left (rw (e, whole, over) refl)
                    (run ∙ ap (λ x. some (round w buf (bsize - loff) x)) (rw e (not_end more)))
                    run',
                b,
              )
          | inr inside ↦
              let fit = ltb→ge bsize (res + loff) inside in
              let run =
                read_exact trees contract m digest io good w v loff res buf f short
                  (rw e (omega (arith, fit))) (rw e (omega (arith, fits))) (pos some_left)
                  (rw e (omega arith))
                  (here bsize w v loff buf res has res (omega arith) (omega (arith, fit))) in
              let (r, run', b) =
                read_last fuel w v buf res (leb w.inode.size (v * w.sb.bsize + loff + res))
                  (omega (arith, pos some_left)) (pos some_left) (omega arith) in
              (
                r,
                one_read fuel w v loff res res
                    (round w buf res (leb w.inode.size (v * w.sb.bsize + loff + res))) r some_left
                    (rw (e, whole, inside) refl) run run',
                b,
              )
        ]
      ]
    where
      pos : (res == 0) ≡ false → 0 < res
      pos h = ground arith

      whole : u32 (res + loff) ≡ res + loff
      whole = omega arith

      not_end : bsize < res + loff → leb w.inode.size (v * bsize + loff + (bsize - loff)) ≡ false
      not_end h = ground (arith, room)

  pub io_buf-IsBack :
      (w : World T) (off : ℕ) (buf : ℕ → ℕ) (len : ℕ)
      → IsSound trees contract m digest io good w
      → w.inode.size < 2 ^ 64
      → len + w.sb.bsize < 2 ^ 32
      → off + len + w.sb.bsize < 2 ^ 64
      → off + len ≤ w.inode.size
      → ((i : ℕ) → i < len → byte_in trees w.sb.bsize w (off + i) ≡ some (buf i))
      → (o : BufOut T) × (io_buf trees digest io w off reading len ≡ some o) × Back w buf len o
  unfolding io_buf
  io_buf-IsBack w off buf len f short small fits room has =
      let (split, low) = split_position w.sb.bsize off pos in
      let (o, run, b) =
        io_loop-IsBack (len + 1) w.sb.bsize w (off / w.sb.bsize) (off % w.sb.bsize) buf len
          (omega arith) refl f short low small (omega (arith, split, fits))
          (omega (arith, split, room))
          (λ i h. ap (λ x. byte_in trees w.sb.bsize w (x + i)) (sym split) ∙ has i h) in
      (
        o,
        ap (λ x. io_loop trees digest io (len + 1) w (off / w.sb.bsize) x reading len) (whole low)
            ∙ run,
        b,
      )
    where
      pos : 0 < w.sb.bsize
      pos = rw (f.mapped.bitmap.pages) (omega (arith, f.mapped.bitmap.one_page))

      whole : {x : ℕ} → x < w.sb.bsize → u32 x ≡ x
      whole h = omega (arith, small)

  read_after :
      (w : World T) (off : ℕ) (buf : ℕ → ℕ) (len : ℕ) (o : BufOut T)
      → w.inode.size < 2 ^ 64
      → 0 < len
      → len + w.sb.bsize < 2 ^ 32
      → off + len + w.sb.bsize < 2 ^ 64
      → o.errno ≡ success
      → StreamSays trees contract m digest io good w.sb.bsize w off buf len o
      → (o' : BufOut T) × (io_buf trees digest io o.world off reading len ≡ some o')
        × Back o.world buf len o'
  read_after w off buf len _ short some_len small fits ok (part_written a count le g bad) =
      absurd (true-false (ap is_ok ok) bad)
  read_after w off buf len _ short some_len small fits ok (all_written {w'} g) =
      io_buf-IsBack w' off buf len g.file.sound (bound g.bounded) (rw (g.same_bsize) small)
        (rw (g.same_bsize) fits) (g.reaches some_len)
        (λ i h. ap (λ x. byte_in trees x w' (off + i)) g.same_bsize ∙ g.within i h)
    where
      bound : (w'.inode.size ≡ w.inode.size) ⊎ (w'.inode.size ≤ off + len) → w'.inode.size < 2 ^ 64
      bound (inl e) = rw e short
      bound (inr h) = omega (arith, fits)

  -- After a write that has returned 0, of one byte at least, from a size below 2^64 and under the
  -- conditions for a write, a read of the same length from the same offset never stops and ends
  -- within its rounds: it returns 0, the count and the bytes that were written, and changes
  -- nothing but the count of read locks. The trees meet a contract, and the blocks are below its
  -- limit of blocks in a tree.
  pub io_buf-round_trip :
      (w : World T) (off : ℕ) (buf : ℕ → ℕ) (len : ℕ) (o : BufOut T)
      → IsFile trees contract m digest io good w
      → w.inode.readers ≡ 0
      → w.inode.size < 2 ^ 64
      → 0 < len
      → len + w.sb.bsize < 2 ^ 32
      → off + len + w.sb.bsize < 2 ^ 64
      → off + len ≤ contract.limit * w.sb.bsize
      → io_buf trees digest io w off (writing buf) len ≡ some o
      → o.errno ≡ success
      → (o' : BufOut T) × (io_buf trees digest io o.world off reading len ≡ some o')
        × IsBack trees contract m digest io good o.world buf len o'
  io_buf-round_trip w off buf len o f free short some_len small fits deep run ok =
      let (o1, run1, says) =
        io_buf-StreamSays trees contract m digest io good w off buf len f free small fits deep in
      read_after w off buf len o short some_len small fits ok (
        subst (StreamSays trees contract m digest io good w.sb.bsize w off buf len)
          (from_some (sym run1 ∙ run)) says)
    where
      from_some : {x y : BufOut T} → some x ≡ some y → x ≡ y
      from_some e = cc
