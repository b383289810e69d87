-- ===== src/Core/Net.antt =====
-- core/net.c: a connection of the server: what it reads and writes, one function at a time.
pub mod Requests
pub mod Sends
pub mod Data
pub mod Memory
pub mod Requested
pub mod GetObj
pub mod PutObj
pub mod Replies
mod Tests
use ddfs.Base.{
  ℕ, ◌+◌, ◌-◌, Bool, not, Option, none, some, List, [], ◌∷◌, ◌++◌, ltb, ◌==◌, if◌then◌else◌, tab,
  ◌>>=◌, ◌>>◌, update, get_elem?,
}
use ddfs.Core.Pages.{Heap, Pages, Code, pages_create, pages_release, pages_dsum, done, inval, nomem}
use ddfs.Crt.NetPkt.{NetPkt, err_io, err_nomem, err_inval, net_pkt_check, net_pkt_sign}
use ddfs.Crt.ObjId.{ObjId}

-- What the server asks the socket to send: a packet, or the first bytes of a page.
pub data Sent : Type 0 where
  sent_pkt : NetPkt → Sent
  sent_page : ℕ → ℕ → Sent

-- A connection and what its thread changes: the connection's error, the number of reads from its socket,
-- what was written to it, the last first, the allocated memory, the bytes in the pages, and the superblocks.
pub record World (D : Type 0) : Type 0 where
  pub err : ℕ
  pub reads : ℕ
  pub sent : List Sent
  pub heap : Heap
  pub mem : ℕ → ℕ → ℕ
  pub store : D

-- The kernel: its sockets, which give an error, the bytes that were moved and, for the read with a
-- number, what it read; its memory; and the checksum.
pub record Kernel : Type 0 where
  pub read_pkt : ℕ → ℕ × ℕ × NetPkt
  pub read_page : ℕ → ℕ → ℕ × ℕ × (ℕ → ℕ)
  pub write : List Sent → ℕ × ℕ
  pub granted : ℕ → Bool
  pub array : Heap → Bool
  pub pkt_given : Heap → Bool
  pub digest : List ℕ → ℕ

-- The memory and the superblocks after an operation on objects, with what it gives.
pub record Served (D A : Type 0) : Type 0 where
  pub heap : Heap
  pub store : D
  pub value : A

-- The operations on the objects of the superblocks, `nkfs_sb_list_get_obj` and the others, and the
-- handlers of packets of neighbours. Each may stop, and may allocate and free.
pub record Handlers (D : Type 0) : Type 0 where
  pub get_obj :
      ObjId → ℕ → ℕ → List ℕ → (ℕ → ℕ → ℕ) → Heap → D → Option (Served D (ℕ × ℕ × (ℕ → ℕ → ℕ)))
  pub put_obj : ObjId → ℕ → ℕ → List ℕ → (ℕ → ℕ → ℕ) → Heap → D → Option (Served D ℕ)
  pub create_obj : Heap → D → Option (Served D (ℕ × ObjId))
  pub delete_obj : ObjId → Heap → D → Option (Served D ℕ)
  pub query_obj : ObjId → Heap → D → Option (Served D (ℕ × ℕ × List ℕ))
  pub handshake : NetPkt → NetPkt → World D → Option (ℕ × World D)
  pub heartbeat : NetPkt → NetPkt → World D → Option (ℕ × World D)

-- sizeof(struct nkfs_net_pkt)
abbrev pub pkt_size : ℕ
pkt_size = 232

abbrev pub code : Code → ℕ
code done = 0
code inval = err_inval
code nomem = err_nomem

-- What a receiving function gives: an error or what was read.
pub data Got (A : Type 0) : Type 0 where
  failed : ℕ → Got A
  got : A → Got A

-- `nkfs_con_fail`
unfoldable pub con_fail : {D : Type 0} → World D → ℕ → World D
con_fail w err = if w.err == 0 then record w { err = err } else w

-- `nkfs_con_recv`
unfoldable pub con_recv : {D A : Type 0} → (ℕ → ℕ × ℕ × A) → ℕ → World D → Got A × World D
con_recv ksock_read nob w =
    if not (w.err == 0)
    then (failed w.err, w)
    else (let (err, read, bytes) = ksock_read w.reads in
        let w' = record w { reads = w.reads + 1 } in
        if not (err == 0)
        then (failed err, con_fail w' err)
        else (if not (nob == read) then (failed err_io, con_fail w' err_io) else (got bytes, w')))

-- A page after a read into its start
abbrev pub page_after_read : Got (ℕ → ℕ) → ℕ → (ℕ → ℕ) → ℕ → ℕ
page_after_read (failed err) llen old = old
page_after_read (got bytes) llen old = λ i. if ltb i llen then bytes i else old i

-- The bytes of the parts of pages that `nkfs_pages_dsum` reads.
abbrev pub gathered : List ℕ → (ℕ → ℕ → ℕ) → List (ℕ × ℕ) → List ℕ
gathered pages mem [] = []
gathered pages mem ((i, n) ∷ parts) =
    (elim (get_elem? pages i) [ none ↦ [] | some page ↦ tab (mem page) n ])
    ++ gathered pages mem parts

-- `nkfs_pages_release`
abbrev pub con_release : {D : Type 0} → Pages → World D → World D
con_release pages w = record w { heap = pages_release pages w.heap }

module _ {D : Type 0} (k : Kernel) where
  -- `nkfs_con_send`
  unfoldable pub con_send : Sent → ℕ → World D → ℕ × World D
  con_send what nob w =
      if not (w.err == 0)
      then (w.err, w)
      else (let w' = record w { sent = what ∷ w.sent } in
          let (err, moved) = k.write w'.sent in
          if not (err == 0)
          then (err, con_fail w' err)
          else (if not (nob == moved) then (err_io, con_fail w' err_io) else (0, w')))

  -- `nkfs_con_send_pkt`
  unfoldable pub con_send_pkt : NetPkt → World D → ℕ × World D
  con_send_pkt pkt w = con_send (sent_pkt (net_pkt_sign k.digest pkt)) pkt_size w

  -- `nkfs_con_send_reply`
  unfoldable pub con_send_reply : NetPkt → ℕ → World D → ℕ × World D
  con_send_reply reply err w = con_send_pkt (record reply { err = err }) w

  -- `nkfs_con_recv_pkt`
  unfoldable pub con_recv_pkt : World D → Got NetPkt × World D
  con_recv_pkt w =
      let (r, w') = con_recv k.read_pkt pkt_size w in
      elim r [
        | failed err ↦ (failed err, w')
        | got pkt ↦
            let err = net_pkt_check k.digest pkt in
            if not (err == 0) then (failed err, con_fail w' err_inval) else (got pkt, w')
      ]

  -- The loop of `nkfs_con_recv_pages` on the pages that are left; `none` is its BUG_ON.
  unfoldable pub recv_loop : List ℕ → ℕ → World D → Option (ℕ × World D)
  recv_loop [] read w = if read == 0 then some (0, w) else none
  recv_loop (page ∷ pages) read w =
      let llen = if ltb 4096 read then 4096 else read in
      let (r, w') = con_recv (λ n. k.read_page n llen) llen w in
      let rest =
        recv_loop pages (read - llen)
          (record w' { mem = update w'.mem page (page_after_read r llen (w'.mem page)) }) in
      if read == 0
      then some (0, w)
      else elim r [ failed err ↦ some (err, con_fail w' err) | got _ ↦ rest ]

  -- `nkfs_pages_dsum` with the checksum it gives
  abbrev pub con_dsum : Pages → ℕ → World D → Option (ℕ × ℕ)
  con_dsum pages len w = do
    parts ← pages_dsum pages len
    some (code parts.0, k.digest (gathered pages.pages w.mem parts.1))

  -- `nkfs_pages_create`
  abbrev pub con_pages : ℕ → World D → Code × Option Pages × World D
  con_pages len w =
      let (err, pages, heap) = pages_create k.granted (k.array w.heap) len w.heap in
      (err, pages, record w { heap = heap })
