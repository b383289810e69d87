-- ===== src/Core/Net/Replies.antt =====
-- `nkfs_con_process_pkt` and `nkfs_con_recv_pkt`: what a connection does with a packet.
use ddfs.Base.{
  ℕ, ◌≤◌, ◌≡◌, refl, sym, ◌∙◌, ◌≢◌, ◌⊎◌, inl, inr, false, not, Option, some, arith, ◌==◌,
  if◌then◌else◌, ==_iff, ne→==, Bool-cases, bind-some,
}
use ddfs.Core.Inode.Mapped.{true-false}
use ddfs.Core.Net.{
  World, Kernel, Handlers, pkt_size, Got, con_fail, con_send_reply, con_recv_pkt, failed, got,
}
use ddfs.Core.Net.Data.{SameHeap}
use ddfs.Core.Net.Memory.{HandlersEnd}
use ddfs.Core.Net.PutObj.{con_put_obj-Handled, con_get_obj-Handled}
use ddfs.Core.Net.Requested.{Handled, con_send_reply-Handled}
use ddfs.Core.Net.Requests.{con_create_obj, con_delete_obj, con_query_obj, handle, process_pkt}
use ddfs.Core.Net.Sends.{
  con_fail-heap, con_fail-sent, con_fail-err, Quiet, RecvSays, con_recv-RecvSays, recv_got,
  recv_failed,
}
use ddfs.Core.Pages.{Heap}
use ddfs.Crt.NetPkt.{NetPkt, max_dsize, err_nomem, err_inval, net_pkt_check, net_pkt_zero}
use ddfs.Crt.NetPkt.Accept.{Facts, net_pkt_check-accepts}
use mathlib.Core.Path.{subst}

module _ {D : Type 0} (k : Kernel) where
  weaken :
      (silence silence' : World D → Type 0) (w o : World D)
      → (silence o → silence' o)
      → Handled k.digest silence w o
      → Handled k.digest silence' w o
  weaken silence silence' w o f h = record {
    heap = h.heap;
    answer = elim h.answer [ inl (same, s) ↦ inl (same, f s) | inr a ↦ inr a ];
  }

  -- When no reply is sent: the connection has failed, or it was a request for no bytes.
  abbrev pub Silence : NetPkt → World D → Type 0
  Silence pkt w = (w.err ≢ 0) ⊎ ((pkt.type ≡ 2) × (pkt.dsize ≡ 0))

  module _ (h : Handlers D) (ends : HandlersEnd h) (pkt : NetPkt) (w : World D) (up : w.err ≡ 0)
      (unused : (n : ℕ) → w.heap.next ≤ n → w.heap.live n ≡ false) where
    -- An operation on the superblocks, and a reply.
    replies :
        (reply : NetPkt) (e : ℕ) (heap : Heap) (store : D)
        → SameHeap w.heap heap
        → reply.dsize ≡ 0
        → Handled k.digest
            (Silence pkt)
            w
            (con_send_reply k reply e (record w { heap = heap; store = store })).1
    replies reply e heap store kept empty =
        con_send_reply-Handled k (Silence pkt) reply e w (record w { heap = heap; store = store })
          kept refl up empty

    alone : SameHeap w.heap w.heap
    alone = record { live = λ n. refl; arrays = refl }

    abbrev HandledTo : Option (ℕ × World D) → Type 0
    HandledTo result = (o : ℕ × World D) × (result ≡ some o) × Handled k.digest (Silence pkt) w o.1

    delete-Handled : HandledTo (con_delete_obj k h pkt net_pkt_zero w)
    unfolding con_delete_obj
    delete-Handled =
        let (s, run, kept) = ends.delete_obj pkt.obj_id w.heap w.store in
        (_, bind-some _ run refl, replies net_pkt_zero s.value s.heap s.store kept refl)

    query-Handled : HandledTo (con_query_obj k h pkt net_pkt_zero w)
    unfolding con_query_obj
    query-Handled =
        let (s, run, kept) = ends.query_obj pkt.obj_id w.heap w.store in
        let (err, off, rest) = s.value in
        (
          _,
          bind-some _ run refl,
          replies (record net_pkt_zero { off = off; rest = rest }) err s.heap s.store kept refl,
        )

    create-Handled : HandledTo (con_create_obj k h net_pkt_zero w)
    unfolding con_create_obj
    create-Handled =
        let (s, run, kept) = ends.create_obj w.heap w.store in
        let (err, obj_id) = s.value in
        (
          _,
          bind-some _ run refl,
          replies (record net_pkt_zero { obj_id = obj_id }) err s.heap s.store kept refl,
        )

    handle-Handled :
        net_pkt_check k.digest pkt ≡ 0
        → pkt.type ≢ 7
        → pkt.type ≢ 8
        → HandledTo (handle k h pkt net_pkt_zero w)
    unfolding handle
    handle-Handled ok not7 not8 = elim (Bool-cases (pkt.type == 1)) [
      | inl t ↦ (
        con_send_reply k net_pkt_zero 0 w,
        rw t refl,
        replies net_pkt_zero 0 w.heap w.store alone refl,
      )
      | inr n1 ↦ elim (Bool-cases (pkt.type == 2)) [
        | inl t ↦
            let (o, e, s) = con_get_obj-Handled k pkt w up unused small h ends net_pkt_zero refl in
            (o, rw (n1, t) e, weaken _ _ w o.1 (λ z. inr ((==_iff pkt.type 2).0 t, z)) s)
        | inr n2 ↦ elim (Bool-cases (pkt.type == 3)) [
          | inl t ↦
              let (o, e, s) =
                con_put_obj-Handled k pkt w up unused small h ends net_pkt_zero refl in
              (o, rw (n1, n2, t) e, weaken _ _ w o.1 (λ z. inl z) s)
          | inr n3 ↦ elim (Bool-cases (pkt.type == 4)) [
            | inl t ↦ let (o, e, s) = delete-Handled in (o, rw (n1, n2, n3, t) e, s)
            | inr n4 ↦ elim (Bool-cases (pkt.type == 5)) [
              | inl t ↦ let (o, e, s) = query-Handled in (o, rw (n1, n2, n3, n4, t) e, s)
              | inr n5 ↦ elim (Bool-cases (pkt.type == 6)) [
                | inl t ↦ let (o, e, s) = create-Handled in (o, rw (n1, n2, n3, n4, n5, t) e, s)
                | inr n6 ↦ (
                  con_send_reply k net_pkt_zero err_inval w,
                  rw (n1, n2, n3, n4, n5, n6, ne→== pkt.type 7 not7, ne→== pkt.type 8 not8) refl,
                  replies net_pkt_zero err_inval w.heap w.store alone refl,
                )
              ]
            ]
          ]
        ]
      ]
    ]
      where
        small : pkt.dsize ≤ max_dsize
        small = (net_pkt_check-accepts k.digest pkt ok).0

    -- For a packet that passed its check, on a connection that has not failed, where no page with
    -- a number yet to come is allocated and the operations on objects of the superblocks all end
    -- with the pages and arrays allocated that were, the handling of a request for an object
    -- never stops, and the same pages and arrays are allocated after it as before. One packet is
    -- sent, which passes the check and is followed by pages of as many bytes as it says, unless
    -- the connection has failed then; or nothing is sent, and the connection has failed or the
    -- request was to get no bytes. Packets between neighbours are left out.
    pub process_pkt-Handled :
        net_pkt_check k.digest pkt ≡ 0
        → pkt.type ≢ 7
        → pkt.type ≢ 8
        → HandledTo (process_pkt k h pkt w)
    unfolding process_pkt
    process_pkt-Handled ok not7 not8 = elim (Bool-cases (k.pkt_given w.heap)) [
      | inl given ↦ let (o, e, s) = handle-Handled ok not7 not8 in (o, rw given e, s)
      | inr refused ↦ (
        (err_nomem, con_fail w err_nomem),
        rw refused refl,
        record {
          heap =
              subst (SameHeap w.heap) (sym (con_fail-heap w err_nomem))
                (record { live = λ n. refl; arrays = refl });
          answer = inl (
            con_fail-sent w err_nomem,
            inl (λ e. omega (arith, sym (con_fail-err w err_nomem up) ∙ e)),
          );
        },
      )
    ]

  -- What the receive of a packet gives.
  pub data PktSays (w : World D) : Got NetPkt × World D → Type 0 where
    pkt_got : {p : NetPkt} {w' : World D} → Quiet w w' → Facts k.digest p → PktSays w (got p, w')
    pkt_failed :
        {e : ℕ} {w' : World D}
        → e ≢ 0
        → w'.err ≢ 0
        → w'.sent ≡ w.sent
        → w'.heap ≡ w.heap
        → PktSays w (failed e, w')

  -- On a connection that has not failed, receiving a packet either gives one whose data is not
  -- longer than allowed, with both signatures and the checksum of what stands before it, and the
  -- connection has not failed; or it gives an error, and the connection has failed. In both cases
  -- nothing is sent, and the memory is as before.
  pub con_recv_pkt-PktSays : (w : World D) → w.err ≡ 0 → PktSays w (con_recv_pkt k w)
  unfolding con_recv_pkt
  con_recv_pkt-PktSays w up = go _ (con_recv-RecvSays k k.read_pkt pkt_size w up)
    where
      go :
          (r : Got NetPkt × World D)
          → RecvSays w r
          → PktSays w (elim r.0 [
            | failed err ↦ (failed err, r.1)
            | got p ↦
                if not (net_pkt_check k.digest p == 0)
                then (failed (net_pkt_check k.digest p), con_fail r.1 err_inval)
                else (got p, r.1)
          ])
      go (failed e, w') (recv_failed bad same sent heap) =
          pkt_failed bad (λ z. bad (sym same ∙ z)) sent heap
      go (got p, w') (recv_got q) = elim (Bool-cases (net_pkt_check k.digest p == 0)) [
        | inl ok ↦ rw ok (
            pkt_got q
              (net_pkt_check-accepts k.digest p ((==_iff (net_pkt_check k.digest p) 0).0 ok)))
        | inr bad ↦ rw bad (
            pkt_failed (λ z. true-false ((==_iff (net_pkt_check k.digest p) 0).1 z) bad)
              (λ z. omega (arith, sym (con_fail-err w' err_inval (q.err ∙ up)) ∙ z))
              (con_fail-sent w' err_inval ∙ q.sent) (con_fail-heap w' err_inval ∙ q.heap))
      ]
