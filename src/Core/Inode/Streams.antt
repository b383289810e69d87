-- ===== src/Core/Inode/Streams.antt =====
-- The loop of `nkfs_inode_io_buf` writing.
use ddfs.Base.{
  ℕ, zero, suc, ◌+◌, ◌-◌, ◌*◌, ◌/◌, ◌%◌, ◌^◌, ◌≤◌, ◌<◌, ◌≡◌, refl, sym, ap, ◌∙◌, inl, inr, false,
  not, ◌||◌, Option, some, List, [], ◌++◌, arith, ltb, ◌==◌, if◌then◌else◌, ltb→lt, ltb→ge, ==_iff,
  ==-refl, Bool-cases, ◌>>=◌, ◌>>◌, bug_on, bind-some, u32,
}
use ddfs.Core.Balloc.{Io, is_ok, success}
use ddfs.Core.Inode.{Trees, World}
use ddfs.Core.Inode.Buf.{BufOut, Transfer, write_block_buf, block_buf, io_loop, io_buf, writing}
use ddfs.Core.Inode.Contract.{Contract}
use ddfs.Core.Inode.Created.{IsKin, byte_at}
use ddfs.Core.Inode.Grow.{IsFile}
use ddfs.Core.Inode.Position.{split_position, IsFilled, IsFilled-nothing, IsFilled-then}
use ddfs.Core.Inode.Stream.{written-IsFilled, StreamSays, all_written, part_written}
use ddfs.Core.Inode.Writes.{write_block_buf-WriteSays}
use ddfs.Core.Inode.Written.{WriteSays, wrote, not_written}
use ddfs.Core.Super.Format.{IsGood}
use mathlib.Core.Path.{subst}
use native.Mathlib.Nat.{mul_comm, mul-add, mul-one, mul-le-mul_left}

pub next_row : (v bsize : ℕ) → (v + 1) * bsize + 0 ≡ v * bsize + bsize
next_row v bsize =
    omega (arith, mul_comm (v + 1) bsize, mul-add bsize v 1, mul_comm v bsize, mul-one bsize)

-- A row that starts before the end of `limit` rows is one of them.
row_below : (v limit bsize : ℕ) → v * bsize < limit * bsize → v < limit
row_below v limit bsize h = elim (Bool-cases (ltb v limit)) [
  | inl low ↦ ltb→lt v limit low
  | inr high ↦ absurd (
      omega (
        arith,
        h,
        mul-le-mul_left bsize (ltb→ge v limit high),
        mul_comm v bsize,
        mul_comm limit bsize,
      ))
]

module _ {T : Type 0} (trees : Trees T) (contract : Contract trees) (m : ℕ) (digest : List ℕ → ℕ)
    (io : Io) (good : IsGood io) where
  abbrev Says : ℕ → World T → ℕ → (ℕ → ℕ) → ℕ → BufOut T → Type 0
  Says bsize w p buf n o = StreamSays trees contract m digest io good bsize w p buf n o

  -- A round that fails has written nothing.
  kin-IsFilled :
      (bsize : ℕ) (w w' : World T) (p : ℕ) (buf : ℕ → ℕ)
      → w.sb.bsize ≡ bsize
      → IsFile trees contract m digest io good w'
      → IsKin w w'
      → ((k i : ℕ) → byte_at trees w' k i ≡ byte_at trees w k i)
      → IsFilled trees contract m digest io good bsize w p buf 0 w'
  kin-IsFilled bsize w w' p buf e f k same = record {
    file = f;
    same_bsize = k.kept.bsize ∙ e;
    readers = k.readers;
    grows = rw (k.size) (omega arith);
    reaches = λ h. absurd (omega arith);
    bounded = inl k.size;
    within = λ i h. absurd (omega arith);
    around = λ q x _ has. same (q / bsize) (q % bsize) ∙ has;
  }

  -- The rounds that come after one which has written `a` bytes.
  pub later :
      (bsize : ℕ) (w w1 : World T) (p : ℕ) (buf : ℕ → ℕ) (a n : ℕ) (o : BufOut T)
      → a ≤ n
      → n < 2 ^ 32
      → IsFilled trees contract m digest io good bsize w p buf a w1
      → Says bsize w1 (p + a) (λ i. buf (a + i)) (n - a) o
      → Says bsize w p buf n (record o { count = u32 (a + o.count); bytes = o.bytes })
  later bsize w w1 p buf a n _ le small f (all_written {w'} g) =
      subst (Says bsize w p buf n)
        (ap (λ c. record { world = w'; errno = success; count = c; eof = false; bytes = [] }) whole)
        (all_written (
          subst (λ x. IsFilled trees contract m digest io good bsize w p buf x w') (omega arith)
            (IsFilled-then trees contract m digest io good bsize w w1 w' p buf a (n - a) f g)))
    where
      whole : n ≡ u32 (a + (n - a))
      whole = omega arith
  later bsize w w1 p buf a n _ le small f (part_written {w'} b count h g bad) =
      part_written (a + b) (u32 (a + count)) (omega arith)
        (IsFilled-then trees contract m digest io good bsize w w1 w' p buf a b f g) bad

  -- How the loop goes on after a round.
  abbrev after_round : ℕ → BufOut T → ℕ → (ℕ → ℕ) → ℕ → ℕ → Option (BufOut T)
  after_round fuel o v buf llen res = if not (is_ok o.errno) || o.eof then some o else (do
    bug_on (not (llen == o.count))
    r ← io_loop trees digest io fuel o.world (v + 1) 0 (writing (λ i. buf (llen + i))) (res - llen)
    some (record r { count = u32 (o.count + r.count); bytes = o.bytes ++ r.bytes }))

  go_on :
      (fuel bsize : ℕ) (w : World T) (v loff : ℕ) (buf : ℕ → ℕ) (llen res : ℕ) (o : BufOut T)
      → w.sb.bsize ≡ bsize
      → 0 < llen
      → llen ≤ res
      → res < 2 ^ 32
      → loff + llen ≤ bsize
      → WriteSays trees contract m digest io good w v loff buf llen o
      → ((w1 : World T)
          → IsFilled trees contract m digest io good bsize w (v * bsize + loff) buf llen w1
          → (r : BufOut T) × (io_loop trees digest io fuel w1
                (v + 1)
                0
                (writing (λ i. buf (llen + i)))
                (res - llen)
              ≡ some r)
            × Says bsize w1 (v * bsize + loff + llen) (λ i. buf (llen + i)) (res - llen) r)
      → (r : BufOut T) × (after_round fuel o v buf llen res ≡ some r)
        × Says bsize w (v * bsize + loff) buf res r
  go_on fuel bsize w v loff buf llen res _ e some_len le small inside
        (not_written {w'} f k same bad) rest =
      (
        _,
        rw bad refl,
        part_written 0 0 (omega arith) (kin-IsFilled bsize w w' (v * bsize + loff) buf e f k same)
            bad,
      )
  go_on fuel bsize w v loff buf llen res _ e some_len le small inside (wrote {w'} says) rest =
      let filled =
        written-IsFilled trees contract m digest io good bsize w w' v loff buf llen e (omega arith)
          some_len inside says in
      let (r, run, s) = rest w' filled in
      let no_bug : bug_on (not (llen == llen)) ≡ some tt = rw (==-refl llen) refl in
      (
        _,
        bind-some _ no_bug (bind-some _ run refl),
        later bsize w w' (v * bsize + loff) buf llen res r le small filled s,
      )

  -- One round of the loop, with `llen` bytes.
  one_round :
      (fuel bsize : ℕ) (w : World T) (v loff : ℕ) (buf : ℕ → ℕ) (llen res : ℕ) (o r : BufOut T)
      → (res == 0) ≡ false
      → (if ltb w.sb.bsize (u32 (res + loff)) then w.sb.bsize - loff else res) ≡ llen
      → write_block_buf trees digest io w v loff buf llen ≡ some o
      → after_round fuel o v buf llen res ≡ some r
      → io_loop trees digest io (suc fuel) w v loff (writing buf) res ≡ some r
  unfolding io_loop block_buf
  one_round fuel bsize w v loff buf llen res o r some_left size run next =
      rw (some_left, size) (bind-some _ run next)

  pub loop_done :
      (fuel : ℕ) (w : World T) (v loff : ℕ) (buf : Transfer) (res : ℕ)
      → 0 < fuel
      → res ≡ 0
      → io_loop trees digest io fuel w v loff buf res
        ≡ some (record { world = w; errno = success; count = 0; eof = false; bytes = [] })
  unfolding io_loop
  loop_done zero w v loff buf res h e = absurd (omega arith)
  loop_done (suc fuel) w v loff buf res h e = rw e refl

  -- The last round leaves nothing to do.
  last_round :
      (fuel bsize : ℕ) (w : World T) (p v : ℕ) (buf : ℕ → ℕ) (res : ℕ)
      → 0 < fuel
      → res ≡ 0
      → w.sb.bsize ≡ bsize
      → IsFile trees contract m digest io good w
      → (r : BufOut T) × (io_loop trees digest io fuel w v 0 (writing buf) res ≡ some r)
        × Says bsize w p buf res r
  last_round fuel bsize w p v buf res h e size f = (
    record { world = w; errno = success; count = 0; eof = false; bytes = [] },
    loop_done fuel w v 0 (writing buf) res h e,
    subst
        (λ x.
          Says bsize w p buf x
            (record { world = w; errno = success; count = 0; eof = false; bytes = [] }))
        (sym e)
        (all_written (IsFilled-nothing trees contract m digest io good bsize w p buf f size)),
  )

  -- A round that ends with its block leads to the start of the next one.
  from_row :
      {X : BufOut T → Type 0} (bsize : ℕ) (w1 : World T) (v loff : ℕ) (buf : ℕ → ℕ) (n : ℕ)
      → loff < bsize
      → ((r : BufOut T) × X r × Says bsize w1 ((v + 1) * bsize + 0) buf n r)
      → (r : BufOut T) × X r × Says bsize w1 (v * bsize + loff + (bsize - loff)) buf n r
  from_row bsize w1 v loff buf n low (r, run, s) =
      (r, run, subst (λ x. Says bsize w1 x buf n r) (next_row v bsize ∙ turn) s)
    where
      turn : v * bsize + bsize ≡ v * bsize + loff + (bsize - loff)
      turn = omega arith

  pub io_loop-StreamSays :
      (fuel bsize : ℕ) (w : World T) (v loff : ℕ) (buf : ℕ → ℕ) (res : ℕ)
      → res < fuel
      → w.sb.bsize ≡ bsize
      → IsFile trees contract m digest io good w
      → w.inode.readers ≡ 0
      → loff < bsize
      → res + bsize < 2 ^ 32
      → v * bsize + loff + res + bsize < 2 ^ 64
      → v * bsize + loff + res ≤ contract.limit * bsize
      → (o : BufOut T) × (io_loop trees digest io fuel w v loff (writing buf) res ≡ some o)
        × Says bsize w (v * bsize + loff) buf res o
  unfolding io_loop block_buf
  io_loop-StreamSays zero bsize w v loff buf res few e f free low small fits deep =
      absurd (omega arith)
  io_loop-StreamSays (suc fuel) bsize w v loff buf res few e f free low small fits deep =
      elim (Bool-cases (res == 0)) [
        | inl none_left ↦ (
          record { world = w; errno = success; count = 0; eof = false; bytes = [] },
          rw none_left refl,
          subst
              (λ x.
                Says bsize w (v * bsize + loff) buf x
                  (record { world = w; errno = success; count = 0; eof = false; bytes = [] }))
              (sym ((==_iff res 0).0 none_left))
              (all_written (
                IsFilled-nothing trees contract m digest io good bsize w (v * bsize + loff) buf f
                  e)),
        )
        | inr some_left ↦ elim (Bool-cases (ltb bsize (res + loff))) [
          | inl over ↦
              let (o, run, says) =
                write_block_buf-WriteSays trees contract m digest io good w v loff buf
                  (bsize - loff) f free (rw e (omega arith)) (rw e (omega (arith, fits)))
                  (row_below v contract.limit bsize (omega (arith, deep, pos some_left))) in
              let (r, run', s) =
                go_on fuel bsize w v loff buf (bsize - loff) res o e (omega arith)
                  (omega (arith, ltb→lt bsize (res + loff) over)) (omega arith) (omega arith) says
                  (λ w1 done.
                    from_row bsize w1 v loff (λ i. buf (bsize - loff + i)) (res - (bsize - loff))
                      low
                      (io_loop-StreamSays fuel bsize w1 (v + 1) 0 (λ i. buf (bsize - loff + i))
                        (res - (bsize - loff)) (omega (arith, ltb→lt bsize (res + loff) over))
                        done.same_bsize done.file (done.readers ∙ free) (omega arith) (omega arith)
                        (omega (arith, next_row v bsize, fits, ltb→lt bsize (res + loff) over))
                        (omega (arith, next_row v bsize, deep, ltb→lt bsize (res + loff) over)))) in
              (
                r,
                one_round fuel bsize w v loff buf (bsize - loff) res o r some_left
                    (rw (e, whole, over) refl) run run',
                s,
              )
          | inr inside ↦
              let (o, run, says) =
                write_block_buf-WriteSays trees contract m digest io good w v loff buf res f free
                  (rw e (omega (arith, ltb→ge bsize (res + loff) inside)))
                  (rw e (omega (arith, fits)))
                  (row_below v contract.limit bsize (omega (arith, deep, pos some_left))) in
              let (r, run', s) =
                go_on fuel bsize w v loff buf res res o e (pos some_left) (omega arith)
                  (omega arith) (omega (arith, ltb→ge bsize (res + loff) inside)) says
                  (λ w1 done.
                    last_round fuel bsize w1 (v * bsize + loff + res) (v + 1) (λ i. buf (res + i))
                      (res - res) (omega (arith, pos some_left)) (omega arith) done.same_bsize
                      done.file) in
              (
                r,
                one_round fuel bsize w v loff buf res res o r some_left (rw (e, whole, inside) refl)
                    run run',
                s,
              )
        ]
      ]
    where
      pos : (res == 0) ≡ false → 0 < res
      pos h = ground arith

      whole : u32 (res + loff) ≡ res + loff
      whole = omega arith

  -- On a disk without errors, for a sound and saved inode without read locks, a write that is
  -- less than 2^32 minus a block long and ends a block before 2^64 or earlier never stops and
  -- ends within its rounds. If it returns 0, it has written all bytes: they are read at their
  -- positions, every other byte that the file has is as before, and the size is grown up to their
  -- end and no further. If it returns an error, the same holds of a first part of the bytes. The
  -- inode is sound and saved again. The trees meet a contract, and the blocks written are below
  -- its limit of blocks in a tree.
  pub io_buf-StreamSays :
      (w : World T) (off : ℕ) (buf : ℕ → ℕ) (len : ℕ)
      → IsFile trees contract m digest io good w
      → w.inode.readers ≡ 0
      → len + w.sb.bsize < 2 ^ 32
      → off + len + w.sb.bsize < 2 ^ 64
      → off + len ≤ contract.limit * w.sb.bsize
      → (o : BufOut T) × (io_buf trees digest io w off (writing buf) len ≡ some o)
        × StreamSays trees contract m digest io good w.sb.bsize w off buf len o
  unfolding io_buf
  io_buf-StreamSays w off buf len f free small fits deep =
      let (split, low) = split_position w.sb.bsize off pos in
      let (o, run, says) =
        io_loop-StreamSays (len + 1) w.sb.bsize w (off / w.sb.bsize) (off % w.sb.bsize) buf len
          (omega arith) refl f free low small (omega (arith, split, fits))
          (omega (arith, split, deep)) in
      (
        o,
        ap (λ x. io_loop trees digest io (len + 1) w (off / w.sb.bsize) x (writing buf) len)
              (whole low)
            ∙ run,
        subst (λ x. Says w.sb.bsize w x buf len o) (sym split) says,
      )
    where
      pos : 0 < w.sb.bsize
      pos = rw (f.sound.mapped.bitmap.pages) (omega (arith, f.sound.mapped.bitmap.one_page))

      whole : {x : ℕ} → x < w.sb.bsize → u32 x ≡ x
      whole h = omega (arith, small)
