-- ===== src/Core/Net/Requests.antt =====
-- core/net.c: the requests on a connection, their replies, and the choice between them.
use ddfs.Base.{
  ℕ, zero, suc, ◌-◌, true, false, not, ◌||◌, Option, none, some, List, [], ◌∷◌, ltb, ◌==◌,
  if◌then◌else◌, ◌>>=◌,
}
use ddfs.Core.Net.{
  World, Kernel, Handlers, code, con_fail, con_release, con_send, con_send_reply, con_recv_pkt,
  recv_loop, con_dsum, con_pages, sent_page, failed, got,
}
use ddfs.Core.Pages.{Pages}
use ddfs.Crt.NetPkt.{NetPkt, max_dsize, err_nomem, err_inval, net_pkt_zero, net_pkt_check_dsum}

module _ {D : Type 0} (k : Kernel) where
  -- The end of `nkfs_con_recv_pages`: the checksum that was computed, with an error or none, is compared.
  unfoldable pub recv_checked : NetPkt → Pages → World D → ℕ × ℕ → ℕ × Option Pages × World D
  recv_checked pkt pages w (err, dsum) =
      let err' = if not (err == 0) then err else net_pkt_check_dsum pkt dsum in
      if not (err' == 0) then (err', none, con_release pages w) else (0, some pages, w)

  -- `nkfs_con_recv_pages` after its loop
  unfoldable pub recv_done : NetPkt → Pages → ℕ × World D → Option (ℕ × Option Pages × World D)
  recv_done pkt pages (err, w) =
      if not (err == 0)
      then some (err, none, con_release pages w)
      else (do sum ← con_dsum k pages pkt.dsize w; some (recv_checked pkt pages w sum))

  -- `nkfs_con_recv_pages`: the error, the pages unless there is one. The `none` of the result is a BUG_ON.
  unfoldable pub recv_pages : NetPkt → World D → Option (ℕ × Option Pages × World D)
  recv_pages pkt w =
      if pkt.dsize == 0 || ltb max_dsize pkt.dsize
      then some (err_inval, none, w)
      else (let (err, given, w1) = con_pages k pkt.dsize w in
          elim given [
            | none ↦ some (code err, none, w1)
            | some pages ↦ do
              arrived ← recv_loop k pages.pages pkt.dsize w1
              recv_done pkt pages arrived
          ])

  -- The loop of `nkfs_con_send_pages` on the pages that are left
  unfoldable pub send_loop : List ℕ → ℕ → World D → Option (ℕ × World D)
  send_loop [] len w = if len == 0 then some (0, w) else none
  send_loop (page ∷ pages) len w =
      let ilen = if ltb 4096 len then 4096 else len in
      let (err, w') = con_send k (sent_page page ilen) ilen w in
      let rest = send_loop pages (len - ilen) w' in
      if len == 0
      then some (0, w)
      else (if not (err == 0) then some (err, con_fail w' err) else rest)

  -- `nkfs_con_send_pages`
  unfoldable pub send_pages : Pages → ℕ → World D → Option (ℕ × World D)
  send_pages pages len w =
      if ltb pages.len len then some (err_inval, w) else send_loop pages.pages len w

  -- A reply with an error, after which the pages are given back, in `nkfs_con_get_obj`
  unfoldable pub get_failed : NetPkt → Pages → ℕ → World D → ℕ × World D
  get_failed reply pages err w = (err, con_release pages (con_send_reply k reply err w).1)

  -- `nkfs_con_get_obj` from the reply on
  unfoldable pub get_reply : NetPkt → Pages → ℕ → World D → Option (ℕ × World D)
  get_reply reply pages read w =
      let (err, w1) = con_send_reply k reply 0 w in
      do
        out ← (if not (err == 0) || read == 0 then some (err, w1) else send_pages pages read w1)
        some (out.0, con_release pages out.1)

  -- `nkfs_con_get_obj` after its read, which has an error, the number of bytes and the world it left
  unfoldable pub get_read : NetPkt → Pages → ℕ × ℕ × World D → Option (ℕ × World D)
  get_read reply pages (err, read, w) =
      if not (err == 0) then some (get_failed reply pages err w) else (do
        sum ← (if read == 0 then some (0, reply.dsum) else con_dsum k pages read w)
        elim (sum.0 == 0) [
          | false ↦ some (get_failed reply pages sum.0 w)
          | true ↦ get_reply (record reply { dsum = sum.1; dsize = read }) pages read w
        ])

module _ {D : Type 0} (k : Kernel) (h : Handlers D) where
  -- The read of `nkfs_con_get_obj`
  abbrev pub read_obj : NetPkt → Pages → World D → Option (ℕ × ℕ × World D)
  read_obj pkt pages w = do
    o ← h.get_obj pkt.obj_id pkt.off pkt.dsize pages.pages w.mem w.heap w.store
    let (err, read, mem) = o.value
    some (err, read, record w { heap = o.heap; mem = mem; store = o.store })

  -- `nkfs_con_get_obj`
  unfoldable pub con_get_obj : NetPkt → NetPkt → World D → Option (ℕ × World D)
  con_get_obj pkt reply w =
      if pkt.dsize == 0 || ltb max_dsize pkt.dsize
      then some (err_inval, w)
      else (let (err, given, w1) = con_pages k pkt.dsize w in
          elim given [
            | none ↦ some (code err, (con_send_reply k reply (code err) w1).1)
            | some pages ↦ do read ← read_obj pkt pages w1; get_read k reply pages read
          ])

  -- `nkfs_con_put_obj`
  unfoldable pub con_put_obj : NetPkt → NetPkt → World D → Option (ℕ × World D)
  con_put_obj pkt reply w = do
    arrived ← recv_pages k pkt w
    let (err, given, w1) = arrived
    elim given [
      | none ↦
          if w1.err == 0
          then (let (_, w2) = con_send_reply k reply err w1 in some (err, w2))
          else some (err, w1)
      | some pages ↦ do
        o ← h.put_obj pkt.obj_id pkt.off pkt.dsize pages.pages w1.mem w1.heap w1.store
        let (err3, w2) =
            con_send_reply k reply o.value (record w1 { heap = o.heap; store = o.store })
        some (err3, con_release pages w2)
    ]

  -- `nkfs_con_create_obj`
  unfoldable pub con_create_obj : NetPkt → World D → Option (ℕ × World D)
  con_create_obj reply w = do
    o ← h.create_obj w.heap w.store
    let (err, obj_id) = o.value
    some (
        con_send_reply k (record reply { obj_id = obj_id }) err
          (record w { heap = o.heap; store = o.store }))

  -- `nkfs_con_delete_obj`
  unfoldable pub con_delete_obj : NetPkt → NetPkt → World D → Option (ℕ × World D)
  con_delete_obj pkt reply w = do
    o ← h.delete_obj pkt.obj_id w.heap w.store
    some (con_send_reply k reply o.value (record w { heap = o.heap; store = o.store }))

  -- `nkfs_con_query_obj`; the information lies where a request has what follows its object's id.
  unfoldable pub con_query_obj : NetPkt → NetPkt → World D → Option (ℕ × World D)
  con_query_obj pkt reply w = do
    o ← h.query_obj pkt.obj_id w.heap w.store
    let (err, off, rest) = o.value
    some (
        con_send_reply k (record reply { off = off; rest = rest }) err
          (record w { heap = o.heap; store = o.store }))

  -- The `switch` of `nkfs_con_process_pkt` on the type of the packet
  unfoldable pub handle : NetPkt → NetPkt → World D → Option (ℕ × World D)
  handle pkt reply w =
      if pkt.type == 1
      then some (con_send_reply k reply 0 w)
      else (if pkt.type == 2
          then con_get_obj pkt reply w
          else (if pkt.type == 3
              then con_put_obj pkt reply w
              else (if pkt.type == 4
                  then con_delete_obj pkt reply w
                  else (if pkt.type == 5
                      then con_query_obj pkt reply w
                      else (if pkt.type == 6
                          then con_create_obj reply w
                          else (if pkt.type == 7
                              then h.handshake pkt reply w
                              else (if pkt.type == 8
                                  then h.heartbeat pkt reply w
                                  else some (con_send_reply k reply err_inval w))))))))

  -- `nkfs_con_process_pkt`
  unfoldable pub process_pkt : NetPkt → World D → Option (ℕ × World D)
  process_pkt pkt w =
      if not (k.pkt_given w.heap)
      then some (err_nomem, con_fail w err_nomem)
      else handle pkt net_pkt_zero w

  -- The loop of `nkfs_con_thread_routine`, for a number of rounds before the thread is stopped
  unfoldable pub serve : ℕ → World D → Option (World D)
  serve zero w = some w
  serve (suc rounds) w =
      let (r, w1) = con_recv_pkt k w in
      let round : Option (World D) = elim r [
        | failed _ ↦ some w1
        | got pkt ↦ do handled ← process_pkt pkt w1; serve rounds handled.1
      ] in
      if not (w.err == 0)
      then some w
      else (if not (k.pkt_given w.heap) then some (con_fail w err_nomem) else round)
