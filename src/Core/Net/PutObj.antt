-- ===== src/Core/Net/PutObj.antt =====
-- `nkfs_con_get_obj` and `nkfs_con_put_obj` from their first tests on.
use ddfs.Base.{
  ℕ, ◌≤◌, ◌≡◌, refl, sym, ◌∙◌, ◌≢◌, ◌⊎◌, inl, inr, false, not, ◌||◌, Option, none, some, arith, ltb,
  ◌==◌, if◌then◌else◌, ge→ltb, ==_iff, Bool-cases, ◌>>=◌, bind-some,
}
use ddfs.Core.Inode.Mapped.{true-false}
use ddfs.Core.Net.{World, Kernel, Handlers, code, con_release, con_send_reply, recv_loop, con_pages}
use ddfs.Core.Net.Data.{SameHeap, recv_loop-ReceiveSays}
use ddfs.Core.Net.GetObj.{con_release-Answered, get_read-Handled}
use ddfs.Core.Net.Memory.{HandlersEnd, SameHeap-trans, pages_release-SameHeap}
use ddfs.Core.Net.Requested.{
  PagesSays, Handled, con_pages-PagesSays, con_dsum-runs, con_send_reply-Answered,
  con_send_reply-heap, con_send_reply-Handled, no_pages, some_pages,
}
use ddfs.Core.Net.Requests.{
  recv_checked, recv_done, recv_pages, get_read, read_obj, con_get_obj, con_put_obj,
}
use ddfs.Core.Pages.{Pages, Code, page_count, pages_release}
use ddfs.Crt.NetPkt.{NetPkt, max_dsize, err_inval, net_pkt_check_dsum}
use mathlib.Core.Path.{subst}

-- A request whose size asks for pages.
size_cases : (n : ℕ) → n ≤ max_dsize → ((n ≡ 0) ⊎ (((n == 0) || ltb max_dsize n) ≡ false))
size_cases n h = elim (Bool-cases (n == 0)) [
  | inl z ↦ inl ((==_iff n 0).0 z)
  | inr z ↦ inr (rw (z, ge→ltb max_dsize n h) refl)
]

-- What `nkfs_con_recv_pages` gives.
pub data PagesReceived {D : Type 0} (size : ℕ) (w0 : World D)
    : ℕ × Option Pages × World D → Type 0 where
  not_received :
      {e : ℕ} {w : World D}
      → SameHeap w0.heap w.heap
      → w.sent ≡ w0.sent
      → PagesReceived size w0 (e, none, w)
  received :
      {p : Pages} {w : World D}
      → w.err ≡ 0
      → w.sent ≡ w0.sent
      → SameHeap w0.heap (pages_release p w.heap)
      → PagesReceived size w0 (0, some p, w)

module _ {D : Type 0} (k : Kernel) (pkt : NetPkt) (w0 : World D) (up : w0.err ≡ 0)
    (unused : (n : ℕ) → w0.heap.next ≤ n → w0.heap.live n ≡ false)
    (small : pkt.dsize ≤ max_dsize) where
  recv_checked-PagesReceived :
      (p : Pages) (w : World D) (x : ℕ × ℕ)
      → w.err ≡ 0
      → w.sent ≡ w0.sent
      → SameHeap w0.heap (pages_release p w.heap)
      → PagesReceived pkt.dsize w0 (recv_checked k pkt p w x)
  unfolding recv_checked
  recv_checked-PagesReceived p w (err, dsum) z same heap =
      elim (Bool-cases ((if not (err == 0) then err else net_pkt_check_dsum pkt dsum) == 0)) [
        | inl good ↦ rw good (received z same heap)
        | inr bad ↦ rw bad (not_received heap same)
      ]

  pub recv_done-PagesReceived :
      (p : Pages) (r : ℕ × World D)
      → p.nr_pages ≡ page_count p.len
      → r.0 ≡ r.1.err
      → r.1.sent ≡ w0.sent
      → SameHeap w0.heap (pages_release p r.1.heap)
      → (o : ℕ × Option Pages × World D) × (recv_done k pkt p r ≡ some o)
        × PagesReceived pkt.dsize w0 o
  unfolding recv_done
  recv_done-PagesReceived p (err, w) nr same_err same heap = elim (Bool-cases (err == 0)) [
    | inr bad ↦ ((err, none, con_release p w), rw bad refl, not_received heap same)
    | inl good ↦
        let (x, e, _) = con_dsum-runs k p pkt.dsize w nr in
        (
          recv_checked k pkt p w x,
          rw good (bind-some _ e refl),
          recv_checked-PagesReceived p w x (sym same_err ∙ (==_iff err 0).0 good) same heap,
        )
  ]

  pub recv_pages-PagesReceived :
      (o : ℕ × Option Pages × World D) × (recv_pages k pkt w0 ≡ some o)
      × PagesReceived pkt.dsize w0 o
  unfolding recv_pages
  recv_pages-PagesReceived = elim (size_cases pkt.dsize small) [
    | inl z ↦ (
      (err_inval, none, w0),
      rw ((==_iff pkt.dsize 0).1 z) refl,
      not_received (record { live = λ n. refl; arrays = refl }) refl,
    )
    | inr some_size ↦
        let (o, e, h) = go (con_pages k pkt.dsize w0) (con_pages-PagesSays k pkt.dsize w0 unused) in
        (o, rw some_size e, h)
  ]
    where
      go :
          (c : Code × Option Pages × World D)
          → PagesSays pkt.dsize w0 c
          → (o : ℕ × Option Pages × World D) × ((elim c.1 [
            | none ↦ some (code c.0, none, c.2)
            | some pages ↦ do r ← recv_loop k pages.pages pkt.dsize c.2; recv_done k pkt pages r
          ])
              ≡ some o)
            × PagesReceived pkt.dsize w0 o
      go (c, none, w) (no_pages heap same err) = (_, refl, not_received heap same)
      go (c, some p, w) (some_pages len_is nr room heap same err) =
          let (r, e, s) = recv_loop-ReceiveSays k p.pages pkt.dsize w (err ∙ up) room in
          let (o, e', h) =
            recv_done-PagesReceived p r nr s.err (s.sent ∙ same)
              (subst (λ x. SameHeap w0.heap (pages_release p x)) (sym s.heap) heap) in
          (o, bind-some _ e e', h)

  module _ (h : Handlers D) (ends : HandlersEnd h) (reply : NetPkt) (empty : reply.dsize ≡ 0) where
    pub con_put_obj-Handled :
        (o : ℕ × World D) × (con_put_obj k h pkt reply w0 ≡ some o)
        × Handled k.digest (λ w. w.err ≢ 0) w0 o.1
    unfolding con_put_obj
    con_put_obj-Handled =
        let (r, e, s) = recv_pages-PagesReceived in
        let (o, e', h') = go r s in (o, bind-some _ e e', h')
      where
        go :
            (r : ℕ × Option Pages × World D)
            → PagesReceived pkt.dsize w0 r
            → (o : ℕ × World D) × ((elim r.1 [
              | none ↦
                  if r.2.err == 0
                  then some (r.0, (con_send_reply k reply r.0 r.2).1)
                  else some (r.0, r.2)
              | some pages ↦ do
                o ← h.put_obj pkt.obj_id pkt.off pkt.dsize pages.pages r.2.mem r.2.heap r.2.store
                let (err3, w2) =
                    con_send_reply k reply o.value (record r.2 { heap = o.heap; store = o.store })
                some (err3, con_release pages w2)
            ])
                ≡ some o)
              × Handled k.digest (λ w. w.err ≢ 0) w0 o.1
        go (err, none, w) (not_received heap same) = elim (Bool-cases (w.err == 0)) [
          | inl fine ↦ (
            (err, (con_send_reply k reply err w).1),
            rw fine refl,
            con_send_reply-Handled k _ reply err w0 w heap same ((==_iff w.err 0).0 fine) empty,
          )
          | inr bad ↦ (
            (err, w),
            rw bad refl,
            record { heap = heap; answer = inl (same, λ e. true-false ((==_iff w.err 0).1 e) bad) },
          )
        ]
        go (_, some p, w) (received z same heap) =
            let (s, run, kept) =
              ends.put_obj pkt.obj_id pkt.off pkt.dsize p.pages w.mem w.heap w.store in
            let w' : World D = record w { heap = s.heap; store = s.store } in
            (
              (
                (con_send_reply k reply s.value w').0,
                con_release p (con_send_reply k reply s.value w').1,
              ),
              bind-some _ run refl,
              record {
                heap =
                    subst (λ x. SameHeap w0.heap (pages_release p x))
                      (sym (con_send_reply-heap k reply s.value w' z (omega (arith, empty))))
                      (SameHeap-trans _ _ _ heap (pages_release-SameHeap p w.heap s.heap kept));
                answer = inr (
                    con_release-Answered k w0 p _
                      (con_send_reply-Answered k reply s.value w0 w' same z empty));
              },
            )

    pub con_get_obj-Handled :
        (o : ℕ × World D) × (con_get_obj k h pkt reply w0 ≡ some o)
        × Handled k.digest (λ _. pkt.dsize ≡ 0) w0 o.1
    unfolding con_get_obj
    con_get_obj-Handled = elim (size_cases pkt.dsize small) [
      | inl z ↦ (
        (err_inval, w0),
        rw ((==_iff pkt.dsize 0).1 z) refl,
        record { heap = record { live = λ n. refl; arrays = refl }; answer = inl (refl, z) },
      )
      | inr some_size ↦
          let (o, e, h') =
            go (con_pages k pkt.dsize w0) (con_pages-PagesSays k pkt.dsize w0 unused) in
          (o, rw some_size e, h')
    ]
      where
        go :
            (c : Code × Option Pages × World D)
            → PagesSays pkt.dsize w0 c
            → (o : ℕ × World D) × ((elim c.1 [
              | none ↦ some (code c.0, (con_send_reply k reply (code c.0) c.2).1)
              | some pages ↦ do read ← read_obj k h pkt pages c.2; get_read k reply pages read
            ])
                ≡ some o)
              × Handled k.digest (λ _. pkt.dsize ≡ 0) w0 o.1
        go (c, none, w) (no_pages heap same err) =
            (_, refl, con_send_reply-Handled k _ reply (code c) w0 w heap same (err ∙ up) empty)
        go (c, some p, w) (some_pages len_is nr room heap same err) =
            let (s, run, kept) =
              ends.get_obj pkt.obj_id pkt.off pkt.dsize p.pages w.mem w.heap w.store in
            let (o, e', h') =
              get_read-Handled k w0 _ reply p s.value.0 s.value.1
                (record w { heap = s.heap; mem = s.value.2; store = s.store })
                (record {
                  heap = SameHeap-trans _ _ _ heap (pages_release-SameHeap p w.heap s.heap kept);
                  sent = same;
                  err = err ∙ up;
                  pages = nr;
                  room = omega (arith, len_is, room);
                  short = omega (arith, len_is, small);
                })
                empty in
            (o, bind-some _ (bind-some _ run refl) e', h')
