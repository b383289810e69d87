-- ===== src/Core/Inode/Paged.antt =====
-- `nkfs_inode_io_pages` writing: the bytes of pages one after the other.
use ddfs.Base.{
  ℕ, ◌+◌, ◌-◌, ◌*◌, ◌^◌, ◌≤◌, ◌<◌, ◌≡◌, refl, sym, ap, ◌∙◌, inl, inr, false, not, ◌||◌, Option,
  some, List, [], ◌∷◌, ◌++◌, map, arith, ltb, ◌==◌, if◌then◌else◌, ltb→lt, lt→ltb, ge→ltb, ltb→ge,
  ==_iff, ==-refl, Bool-cases, ◌>>=◌, ◌>>◌, bug_on, bind-some, u32, u64,
}
use ddfs.Core.Balloc.{Io, is_ok, success, einval}
use ddfs.Core.Inode.{Trees, World}
use ddfs.Core.Inode.Buf.{BufOut, Transfer, io_buf, io_pages, writing}
use ddfs.Core.Inode.Contract.{Contract}
use ddfs.Core.Inode.Grow.{IsFile}
use ddfs.Core.Inode.Position.{IsFilled, IsFilled-nothing}
use ddfs.Core.Inode.Stream.{StreamSays, all_written, part_written}
use ddfs.Core.Inode.Streams.{later, io_buf-StreamSays}
use ddfs.Core.Super.Format.{IsGood}
use native.Mathlib.Nat.{mod-eq_of_lt}
use mathlib.Core.Path.{subst}

-- The bytes of pages from an offset in the first one on.
pub paged : List (ℕ → ℕ) → ℕ → ℕ → ℕ
paged [] in_page i = 0
paged (page ∷ pages) in_page i =
    let rest = paged pages 0 (i - (4096 - in_page)) in
    if ltb (in_page + i) 4096 then page (in_page + i) else rest

-- Pages to write.
abbrev pub to_write : List (ℕ → ℕ) → List Transfer
to_write pages = map writing pages

module _ {T : Type 0} (trees : Trees T) (contract : Contract trees) (m : ℕ) (digest : List ℕ → ℕ)
    (io : Io) (good : IsGood io) where
  IsFilled-ext :
      (bsize : ℕ) (w w' : World T) (p : ℕ) (f g : ℕ → ℕ) (n : ℕ)
      → ((i : ℕ) → i < n → f i ≡ g i)
      → IsFilled trees contract m digest io good bsize w p f n w'
      → IsFilled trees contract m digest io good bsize w p g n w'
  IsFilled-ext bsize w w' p f g n same r = record {
    file = r.file;
    same_bsize = r.same_bsize;
    readers = r.readers;
    grows = r.grows;
    reaches = r.reaches;
    bounded = r.bounded;
    within = λ i h. r.within i h ∙ ap some (same i h);
    around = r.around;
  }

  -- How the loop goes on after a page.
  abbrev after_page : List (ℕ → ℕ) → BufOut T → ℕ → ℕ → ℕ → Option (BufOut T)
  after_page pages o off llen len = if not (is_ok o.errno) || o.eof then some o else (do
    bug_on (not (o.count == llen))
    r ← io_pages trees digest io (to_write pages) o.world (u64 (off + llen)) 0 (len - llen)
    some (record r { count = u32 (o.count + r.count); bytes = o.bytes ++ r.bytes }))

  one_page :
      (page : ℕ → ℕ) (pages : List (ℕ → ℕ)) (w : World T) (off in_page len llen : ℕ)
      (o r : BufOut T)
      → (len == 0) ≡ false
      → (if ltb 4096 (u32 (len + in_page)) then 4096 - in_page else len) ≡ llen
      → io_buf trees digest io w off (writing (λ i. page (in_page + i))) llen ≡ some o
      → after_page pages o off llen len ≡ some r
      → io_pages trees digest io (to_write (page ∷ pages)) w off in_page len ≡ some r
  unfolding io_pages
  one_page page pages w off in_page len llen o r some_left size run next =
      rw (some_left, size) (bind-some _ run next)

  next_page :
      (page : ℕ → ℕ) (pages : List (ℕ → ℕ)) (bsize : ℕ) (w : World T) (off in_page len llen : ℕ)
      (o : BufOut T)
      → llen ≤ len
      → in_page + llen ≤ 4096
      → len < 2 ^ 32
      → StreamSays trees contract m digest io good bsize w off (λ i. page (in_page + i)) llen o
      → ((w1 : World T)
          → IsFilled trees contract m digest io good bsize w off
              (paged (page ∷ pages) in_page)
              llen
              w1
          → (r : BufOut T) × (io_pages trees digest io
                (to_write pages)
                w1
                (u64 (off + llen))
                0
                (len - llen)
              ≡ some r)
            × StreamSays trees contract m digest io good bsize w1
                (off + llen)
                (λ i. paged (page ∷ pages) in_page (llen + i))
                (len - llen)
                r)
      → (r : BufOut T) × (after_page pages o off llen len ≡ some r)
        × StreamSays trees contract m digest io good bsize w off
            (paged (page ∷ pages) in_page)
            len
            r
  unfolding paged
  next_page page pages bsize w off in_page len llen _ le inside small
        (part_written {w'} {e} a count h f bad) rest =
      (
        _,
        rw bad refl,
        part_written a count (omega arith)
            (IsFilled-ext bsize w w' off (λ i. page (in_page + i)) (paged (page ∷ pages) in_page) a
              (λ i l. sym (rw (lt→ltb (in_page + i) 4096 (omega arith)) refl)) f)
            bad,
      )
  next_page page pages bsize w off in_page len llen _ le inside small (all_written {w'} f) rest =
      let g =
        IsFilled-ext bsize w w' off (λ i. page (in_page + i)) (paged (page ∷ pages) in_page) llen
          (λ i l. sym (rw (lt→ltb (in_page + i) 4096 (omega arith)) refl)) f in
      let (r, run, s) = rest w' g in
      let no_bug : bug_on (not (llen == llen)) ≡ some tt = rw (==-refl llen) refl in
      (
        _,
        bind-some _ no_bug (bind-some _ run refl),
        later trees contract m digest io good bsize w w' off (paged (page ∷ pages) in_page) llen len
            r le small g s,
      )

  StreamSays-ext :
      (bsize : ℕ) (w : World T) (p : ℕ) (f g : ℕ → ℕ) (n : ℕ) (o : BufOut T)
      → ((i : ℕ) → i < n → f i ≡ g i)
      → StreamSays trees contract m digest io good bsize w p f n o
      → StreamSays trees contract m digest io good bsize w p g n o
  StreamSays-ext bsize w p f g n _ same (all_written {w'} r) =
      all_written (IsFilled-ext bsize w w' p f g n same r)
  StreamSays-ext bsize w p f g n _ same (part_written {w'} a count h r bad) =
      part_written a count h (IsFilled-ext bsize w w' p f g a (λ i l. same i (omega arith)) r) bad

  -- What a page writes.
  page_written :
      (bsize : ℕ) (w : World T) (off : ℕ) (buf : ℕ → ℕ) (len : ℕ)
      → w.sb.bsize ≡ bsize
      → IsFile trees contract m digest io good w
      → w.inode.readers ≡ 0
      → len + bsize < 2 ^ 32
      → off + len + bsize < 2 ^ 64
      → off + len ≤ contract.limit * bsize
      → (o : BufOut T) × (io_buf trees digest io w off (writing buf) len ≡ some o)
        × StreamSays trees contract m digest io good bsize w off buf len o
  page_written bsize w off buf len e f free small fits deep =
      subst
        (λ x.
          (o : BufOut T) × (io_buf trees digest io w off (writing buf) len ≡ some o)
          × StreamSays trees contract m digest io good x w off buf len o)
        e
        (io_buf-StreamSays trees contract m digest io good w off buf len f free (rw e small)
          (rw e fits) (rw e deep))

  io_pages-empty :
      (w : World T) (pages : List Transfer) (off in_page len : ℕ)
      → len ≡ 0
      → io_pages trees digest io pages w off in_page len
        ≡ some (record { world = w; errno = success; count = 0; eof = false; bytes = [] })
  unfolding io_pages
  io_pages-empty w [] off in_page len e = rw e refl
  io_pages-empty w (page ∷ pages) off in_page len e = rw e refl

  -- The pages behind the first one.
  pages_behind :
      (page : ℕ → ℕ) (pages : List (ℕ → ℕ)) (bsize : ℕ) (w1 : World T) (off in_page llen len : ℕ)
      → llen ≡ 4096 - in_page
      → in_page < 4096
      → off + llen < 2 ^ 64
      → ((r : BufOut T) × (io_pages trees digest io (to_write pages) w1 (off + llen) 0 (len - llen)
            ≡ some r)
          × StreamSays trees contract m digest io good bsize w1
              (off + llen)
              (paged pages 0)
              (len - llen)
              r)
      → (r : BufOut T) × (io_pages trees digest io
            (to_write pages)
            w1
            (u64 (off + llen))
            0
            (len - llen)
          ≡ some r)
        × StreamSays trees contract m digest io good bsize w1
            (off + llen)
            (λ i. paged (page ∷ pages) in_page (llen + i))
            (len - llen)
            r
  unfolding paged
  pages_behind page pages bsize w1 off in_page llen len e low fits (r, run, s) = (
    r,
    ap (λ x. io_pages trees digest io (to_write pages) w1 x 0 (len - llen)) (mod-eq_of_lt fits)
        ∙ run,
    StreamSays-ext bsize w1 (off + llen) (paged pages 0)
        (λ i. paged (page ∷ pages) in_page (llen + i)) (len - llen) r
        (λ i h. sym (rw (ge→ltb (in_page + (llen + i)) 4096 (omega arith), back i) refl)) s,
  )
    where
      back : (i : ℕ) → llen + i - (4096 - in_page) ≡ i
      back i = omega arith

  nothing_left :
      (pages : List Transfer) (buf : ℕ → ℕ) (bsize : ℕ) (w1 : World T) (off p n llen : ℕ)
      → n ≡ 0
      → w1.sb.bsize ≡ bsize
      → IsFile trees contract m digest io good w1
      → (r : BufOut T) × (io_pages trees digest io pages w1 off 0 n ≡ some r)
        × StreamSays trees contract m digest io good bsize w1 p (λ i. buf (llen + i)) n r
  nothing_left pages buf bsize w1 off p n llen empty e f = (
    _,
    io_pages-empty w1 pages off 0 n empty,
    subst
        (λ x.
          StreamSays trees contract m digest io good bsize w1 p (λ i. buf (llen + i)) x
            (record { world = w1; errno = success; count = 0; eof = false; bytes = [] }))
        (sym empty)
        (all_written
          (IsFilled-nothing trees contract m digest io good bsize w1 p (λ i. buf (llen + i)) f e)),
  )

  io_pages_on :
      (pages : List (ℕ → ℕ)) (bsize : ℕ) (w : World T) (off in_page len : ℕ)
      → w.sb.bsize ≡ bsize
      → IsFile trees contract m digest io good w
      → w.inode.readers ≡ 0
      → in_page < 4096
      → len + bsize + 4096 < 2 ^ 32
      → off + len + bsize < 2 ^ 64
      → off + len ≤ contract.limit * bsize
      → (o : BufOut T) × (io_pages trees digest io (to_write pages) w off in_page len ≡ some o)
        × StreamSays trees contract m digest io good bsize w off (paged pages in_page) len o
  unfolding io_pages
  io_pages_on [] bsize w off in_page len e f free low small fits deep =
      elim (Bool-cases (len == 0)) [
        | inl empty ↦ (
          _,
          io_pages-empty w [] off in_page len ((==_iff len 0).0 empty),
          subst
              (λ x.
                StreamSays trees contract m digest io good bsize w off (paged [] in_page) x
                  (record { world = w; errno = success; count = 0; eof = false; bytes = [] }))
              (sym ((==_iff len 0).0 empty))
              (all_written (
                IsFilled-nothing trees contract m digest io good bsize w off (paged [] in_page) f
                  e)),
        )
        | inr left ↦ (
          record { world = w; errno = einval; count = 0; eof = false; bytes = [] },
          rw left refl,
          part_written 0 0 (omega arith)
              (IsFilled-nothing trees contract m digest io good bsize w off (paged [] in_page) f e)
              refl,
        )
      ]
  io_pages_on (page ∷ pages) bsize w off in_page len e f free low small fits deep =
      elim (Bool-cases (len == 0)) [
        | inl empty ↦ (
          _,
          io_pages-empty w (to_write (page ∷ pages)) off in_page len ((==_iff len 0).0 empty),
          subst
              (λ x.
                StreamSays trees contract m digest io good bsize w off
                  (paged (page ∷ pages) in_page) x
                  (record { world = w; errno = success; count = 0; eof = false; bytes = [] }))
              (sym ((==_iff len 0).0 empty))
              (all_written (
                IsFilled-nothing trees contract m digest io good bsize w off
                  (paged (page ∷ pages) in_page) f e)),
        )
        | inr left ↦ elim (Bool-cases (ltb 4096 (len + in_page))) [
          | inl over ↦
              let more = ltb→lt 4096 (len + in_page) over in
              let (o, run, says) =
                page_written bsize w off (λ i. page (in_page + i)) (4096 - in_page) e f free
                  (omega (arith, more)) (omega (arith, more)) (omega (arith, deep, more)) in
              let (r, run', s) =
                next_page page pages bsize w off in_page len (4096 - in_page) o
                  (omega (arith, more)) (omega arith) (omega arith) says
                  (λ w1 g.
                    pages_behind page pages bsize w1 off in_page (4096 - in_page) len refl low
                      (omega (arith, fits, more))
                      (io_pages_on pages bsize w1 (off + (4096 - in_page)) 0
                        (len - (4096 - in_page)) g.same_bsize g.file (g.readers ∙ free)
                        (omega arith) (omega arith) (omega (arith, more))
                        (omega (arith, deep, more)))) in
              (
                r,
                one_page page pages w off in_page len (4096 - in_page) o r left
                    (rw (whole, over) refl) run run',
                s,
              )
          | inr inside ↦
              let fit = ltb→ge 4096 (len + in_page) inside in
              let (o, run, says) =
                page_written bsize w off (λ i. page (in_page + i)) len e f free (omega arith) fits
                  deep in
              let (r, run', s) =
                next_page page pages bsize w off in_page len len o (omega arith)
                  (omega (arith, fit)) (omega arith) says
                  (λ w1 g.
                    nothing_left (to_write pages) (paged (page ∷ pages) in_page) bsize w1
                      (u64 (off + len)) (off + len) (len - len) len (omega arith) g.same_bsize
                      g.file) in
              (
                r,
                one_page page pages w off in_page len len o r left (rw (whole, inside) refl) run
                    run',
                s,
              )
        ]
      ]
    where
      whole : u32 (len + in_page) ≡ len + in_page
      whole = omega arith

  -- Under the conditions of a write of bytes, and with a page less below 2^32, a write of pages
  -- from an offset in the first one on never stops: it returns 0 and all bytes of the pages are
  -- written one after the other, every other byte that the file has as before; or it returns an
  -- error, as with too few pages, and a first part of the bytes is written. The inode is sound
  -- and saved again. The trees meet a contract, and the blocks written are below its limit of
  -- blocks in a tree.
  pub io_pages-StreamSays :
      (pages : List (ℕ → ℕ)) (w : World T) (off in_page len : ℕ)
      → IsFile trees contract m digest io good w
      → w.inode.readers ≡ 0
      → in_page < 4096
      → len + w.sb.bsize + 4096 < 2 ^ 32
      → off + len + w.sb.bsize < 2 ^ 64
      → off + len ≤ contract.limit * w.sb.bsize
      → (o : BufOut T) × (io_pages trees digest io (to_write pages) w off in_page len ≡ some o)
        × StreamSays trees contract m digest io good w.sb.bsize w off (paged pages in_page) len o
  io_pages-StreamSays pages w off in_page len f free low small fits deep =
      io_pages_on pages w.sb.bsize w off in_page len refl f free low small fits deep
