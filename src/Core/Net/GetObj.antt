-- ===== src/Core/Net/GetObj.antt =====
-- `nkfs_con_get_obj`: the reply to a request for bytes of an object, and the bytes after it.
use ddfs.Base.{
  ℕ, ◌*◌, ◌≤◌, ◌≡◌, refl, sym, ap, ◌∙◌, ◌⊎◌, inl, inr, false, not, ◌||◌, some, ◌∷◌, arith, ◌==◌,
  if◌then◌else◌, ge→ltb, ==_iff, Bool-cases, bind-some, length,
}
use ddfs.Core.Inode.Mapped.{true-false}
use ddfs.Core.Net.{World, Kernel, con_release, sent_pkt}
use ddfs.Core.Net.Data.{SameHeap, send_loop-LoopSays}
use ddfs.Core.Net.Requested.{
  Answered, Handled, con_dsum-runs, con_send_reply-Answered, con_send_reply-heap,
}
use ddfs.Core.Net.Requests.{send_pages, get_failed, get_reply, get_read}
use ddfs.Core.Net.Sends.{Follows, ReplySays, con_send_reply-ReplySays, no_page}
use ddfs.Core.Pages.{Heap, Pages, page_count, pages_release}
use ddfs.Crt.NetPkt.{NetPkt, max_dsize}
use mathlib.Core.Path.{subst}

module _ {D : Type 0} (k : Kernel) (w0 : World D) where
  abbrev AnswersFrom : World D → Type 0
  AnswersFrom o = Answered k.digest w0 o

  -- Giving pages back does not change an answer.
  pub con_release-Answered :
      (p : Pages) (o : World D) → AnswersFrom o → AnswersFrom (con_release p o)
  con_release-Answered p o a = record {
    reply = a.reply;
    accepted = a.accepted;
    bytes = a.bytes;
    follows = a.follows;
    sized = a.sized;
  }

  -- The world between the creation of pages and their release.
  pub record Holds (p : Pages) (w : World D) : Type 0 where
    pub heap : SameHeap w0.heap (pages_release p w.heap)
    pub sent : w.sent ≡ w0.sent
    pub err : w.err ≡ 0
    pub pages : p.nr_pages ≡ page_count p.len
    pub room : p.len ≤ 4096 * length p.pages
    pub short : p.len ≤ max_dsize

  released_heap :
      (p : Pages) (w : World D) (h : Heap)
      → Holds p w
      → h ≡ w.heap
      → SameHeap w0.heap (pages_release p h)
  released_heap p w h holds e = subst (λ x. SameHeap w0.heap (pages_release p x)) (sym e) holds.heap

  get_failed-Handled :
      (silence : World D → Type 0) (reply : NetPkt) (p : Pages) (e : ℕ) (w : World D)
      → Holds p w
      → reply.dsize ≡ 0
      → Handled k.digest silence w0 (get_failed k reply p e w).1
  unfolding get_failed
  get_failed-Handled silence reply p e w holds empty = record {
    heap =
        released_heap p w _ holds
          (con_send_reply-heap k reply e w holds.err (omega (arith, empty)));
    answer = inr (
        con_release-Answered p _
          (con_send_reply-Answered k reply e w0 w holds.sent holds.err empty));
  }

  -- The bytes after a reply that was sent.
  after_reply :
      (reply : NetPkt) (p : Pages) (w : World D) (r : ℕ × World D)
      → Holds p w
      → (reply.dsize ≡ 0) ⊎ (reply.dsize ≤ p.len)
      → ReplySays k.digest reply.dsize w r
      → (o : ℕ × World D) × ((if not (r.0 == 0) || reply.dsize == 0
            then some (r.0, r.1)
            else send_pages k p reply.dsize r.1)
          ≡ some o)
        × (o.1.heap ≡ w.heap)
        × AnswersFrom o.1
  unfolding send_pages
  after_reply reply p w (err, w1) holds fits s = elim (Bool-cases (err == 0)) [
    | inr bad ↦ (
      (err, w1),
      rw bad refl,
      s.said.heap,
      only (λ e. absurd (true-false ((==_iff err 0).1 (s.said.err ∙ e)) bad)),
    )
    | inl good ↦ elim (Bool-cases (reply.dsize == 0)) [
      | inl empty ↦ (
        (err, w1),
        rw (good, empty) refl,
        s.said.heap,
        only (λ _. sym (s.sized ∙ (==_iff reply.dsize 0).0 empty)),
      )
      | inr more ↦
          let small = within fits more in
          let (o, e, t) =
            send_loop-LoopSays k p.pages reply.dsize w1 (sym s.said.err ∙ (==_iff err 0).0 good)
              (omega (arith, small, holds.room)) in
          (
            o,
            rw (good, more, ge→ltb p.len reply.dsize small) e,
            t.heap ∙ s.said.heap,
            record {
              reply = s.packet;
              accepted = s.accepted;
              bytes = t.bytes;
              follows =
                  subst (λ x. Follows t.bytes x o.1.sent)
                    (s.said.sent ∙ ap (λ x. sent_pkt s.packet ∷ x) holds.sent) t.follows;
              sized = λ x. t.all x ∙ sym s.sized;
            },
          )
    ]
  ]
    where
      only : (w1.err ≡ 0 → 0 ≡ s.packet.dsize) → AnswersFrom w1
      only sized = record {
        reply = s.packet;
        accepted = s.accepted;
        bytes = 0;
        follows =
            subst (λ x. Follows 0 (sent_pkt s.packet ∷ w0.sent) x)
              (sym (s.said.sent ∙ ap (λ x. sent_pkt s.packet ∷ x) holds.sent)) no_page;
        sized = sized;
      }

      within :
          (reply.dsize ≡ 0) ⊎ (reply.dsize ≤ p.len)
          → (reply.dsize == 0) ≡ false
          → reply.dsize ≤ p.len
      within (inl z) more = absurd (true-false ((==_iff reply.dsize 0).1 z) more)
      within (inr h) more = h

  get_reply-Handled :
      (silence : World D → Type 0) (reply : NetPkt) (p : Pages) (w : World D)
      → Holds p w
      → (reply.dsize ≡ 0) ⊎ (reply.dsize ≤ p.len)
      → (o : ℕ × World D) × (get_reply k reply p reply.dsize w ≡ some o)
        × Handled k.digest silence w0 o.1
  unfolding get_reply
  get_reply-Handled silence reply p w holds fits =
      let s = con_send_reply-ReplySays k reply 0 w holds.err (short fits) in
      let (o, e, heap, a) = after_reply reply p w _ holds fits s in
      (
        (o.0, con_release p o.1),
        bind-some _ e refl,
        record { heap = released_heap p w _ holds heap; answer = inr (con_release-Answered p _ a) },
      )
    where
      short : (reply.dsize ≡ 0) ⊎ (reply.dsize ≤ p.len) → reply.dsize ≤ max_dsize
      short (inl z) = omega (arith, z)
      short (inr h) = omega (arith, h, holds.short)

  pub get_read-Handled :
      (silence : World D → Type 0) (reply : NetPkt) (p : Pages) (err read : ℕ) (w : World D)
      → Holds p w
      → reply.dsize ≡ 0
      → (o : ℕ × World D) × (get_read k reply p (err, read, w) ≡ some o)
        × Handled k.digest silence w0 o.1
  unfolding get_read
  get_read-Handled silence reply p err read w holds empty = elim (Bool-cases (err == 0)) [
    | inr bad ↦ (
      get_failed k reply p err w,
      rw bad refl,
      get_failed-Handled silence reply p err w holds empty,
    )
    | inl good ↦ elim (Bool-cases (read == 0)) [
      | inl none_read ↦
          let (o, e, h) =
            get_reply-Handled silence (record reply { dsize = read }) p w holds
              (inl ((==_iff read 0).0 none_read)) in
          (o, rw (good, none_read) e, h)
      | inr some_read ↦
          let (x, e, fits) = con_dsum-runs k p read w holds.pages in
          elim (Bool-cases (x.0 == 0)) [
            | inr bad ↦ (
              get_failed k reply p x.0 w,
              rw (good, some_read) (bind-some _ e (rw bad refl)),
              get_failed-Handled silence reply p x.0 w holds empty,
            )
            | inl fine ↦
                let (o, e', h) =
                  get_reply-Handled silence (record reply { dsum = x.1; dsize = read }) p w holds
                    (inr (fits ((==_iff x.0 0).0 fine))) in
                (o, rw (good, some_read) (bind-some _ e (rw fine e')), h)
          ]
    ]
  ]
