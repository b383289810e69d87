-- ===== src/Core/Net/Requested.antt =====
-- How the server handles a request for pages of an object, and one that brings them.
use ddfs.Base.{
  ℕ, ◌*◌, ◌≤◌, ◌≡◌, refl, sym, ap, ◌∙◌, ◌⊎◌, inl, inr, true, false, Option, none, some, List, [],
  ◌∷◌, arith, ltb, Bool-cases, bind-some, length,
}
use ddfs.Core.Net.{World, Kernel, con_send_reply, con_dsum, con_pages, sent_pkt}
use ddfs.Core.Net.Data.{SameHeap}
use ddfs.Core.Net.Sends.{Follows, con_send_reply-ReplySays, no_page}
use ddfs.Core.Pages.{Heap, Pages, Code, page_count, pages_release, pages_dsum, done, inval}
use ddfs.Core.Pages.Create.{
  CreateSays, pages_create-CreateSays, create_inval, create_nomem, create_done,
}
use ddfs.Core.Pages.Sum.{pages_dsum-IsChunks}
use ddfs.Crt.NetPkt.{NetPkt, max_dsize, net_pkt_check}
use mathlib.Core.Path.{subst}

-- What a request for pages gives, with no page kept allocated.
pub data PagesSays {D : Type 0} (len : ℕ) (w : World D)
    : Code × Option Pages × World D → Type 0 where
  no_pages :
      {c : Code} {w' : World D}
      → SameHeap w.heap w'.heap
      → w'.sent ≡ w.sent
      → w'.err ≡ w.err
      → PagesSays len w (c, none, w')
  some_pages :
      {p : Pages} {w' : World D}
      → p.len ≡ len
      → p.nr_pages ≡ page_count p.len
      → len ≤ 4096 * length p.pages
      → SameHeap w.heap (pages_release p w'.heap)
      → w'.sent ≡ w.sent
      → w'.err ≡ w.err
      → PagesSays len w (done, some p, w')

room_of : (len n nr : ℕ) → n ≡ nr → nr ≡ page_count len → len ≤ 4096 * n
unfolding page_count
room_of len n nr e e' = ground arith

dsum_refused : (p : Pages) (len : ℕ) → ltb p.len len ≡ true → pages_dsum p len ≡ some (inval, [])
unfolding pages_dsum
dsum_refused p len more = rw more refl

-- A reply that a client can read: an accepted packet, and after it in pages as many bytes as it says, unless
-- the connection has failed.
pub record Answered {D : Type 0} (digest : List ℕ → ℕ) (w o : World D) : Type 0 where
  pub reply : NetPkt
  pub accepted : net_pkt_check digest reply ≡ 0
  pub bytes : ℕ
  pub follows : Follows bytes (sent_pkt reply ∷ w.sent) o.sent
  pub sized : o.err ≡ 0 → bytes ≡ reply.dsize

-- A request that is handled: no page is kept, and there is one reply, or none where `silence` holds.
pub record Handled {D : Type 0} (digest : List ℕ → ℕ) (silence : World D → Type 0) (w o : World D)
    : Type 0 where
  pub heap : SameHeap w.heap o.heap
  pub answer : ((o.sent ≡ w.sent) × silence o) ⊎ Answered digest w o

module _ {D : Type 0} (k : Kernel) where
  pub con_pages-PagesSays :
      (len : ℕ) (w : World D)
      → ((n : ℕ) → w.heap.next ≤ n → w.heap.live n ≡ false)
      → PagesSays len w (con_pages k len w)
  con_pages-PagesSays len w unused =
      go _ (pages_create-CreateSays k.granted (k.array w.heap) len w.heap unused)
    where
      go :
          (c : Code × Option Pages × Heap)
          → CreateSays w.heap len c
          → PagesSays len w (c.0, c.1, record w { heap = c.2 })
      go _ (create_inval e) = no_pages (record { live = λ n. refl; arrays = refl }) refl refl
      go _ (create_nomem live arrays) = no_pages (record { live = live; arrays = arrays }) refl refl
      go _ (create_done len_is nr count taken others live arrays) =
          some_pages len_is (nr ∙ ap page_count (sym len_is)) (room_of len _ _ count nr)
            (record { live = live; arrays = arrays }) refl refl

  -- A checksum of pages is made, with an error if they are fewer than that.
  pub con_dsum-runs :
      (p : Pages) (len : ℕ) (w : World D)
      → p.nr_pages ≡ page_count p.len
      → (x : ℕ × ℕ) × (con_dsum k p len w ≡ some x) × (x.0 ≡ 0 → len ≤ p.len)
  con_dsum-runs p len w nr = elim (Bool-cases (ltb p.len len)) [
    | inl more ↦ (_, bind-some _ (dsum_refused p len more) refl, λ e. absurd (omega (arith, e)))
    | inr fits ↦
        let (parts, e, _) = pages_dsum-IsChunks p len nr (ground arith) in
        (_, bind-some _ e refl, λ _. ground arith)
  ]

  -- A reply alone, after a world with the same packets.
  pub con_send_reply-Answered :
      (reply : NetPkt) (e : ℕ) (w w1 : World D)
      → w1.sent ≡ w.sent
      → w1.err ≡ 0
      → reply.dsize ≡ 0
      → Answered k.digest w (con_send_reply k reply e w1).1
  con_send_reply-Answered reply e w w1 same z empty =
      let s = con_send_reply-ReplySays k reply e w1 z (omega (arith, empty)) in
      record {
        reply = s.packet;
        accepted = s.accepted;
        bytes = 0;
        follows =
            subst (λ x. Follows 0 (sent_pkt s.packet ∷ w.sent) x)
              (sym (s.said.sent ∙ ap (λ x. sent_pkt s.packet ∷ x) same)) no_page;
        sized = λ _. sym (s.sized ∙ empty);
      }

  pub con_send_reply-heap :
      (reply : NetPkt) (e : ℕ) (w : World D)
      → w.err ≡ 0
      → reply.dsize ≤ max_dsize
      → (con_send_reply k reply e w).1.heap ≡ w.heap
  con_send_reply-heap reply e w z h = (con_send_reply-ReplySays k reply e w z h).said.heap

  -- What a reply that stands alone makes of a request.
  pub con_send_reply-Handled :
      (silence : World D → Type 0) (reply : NetPkt) (e : ℕ) (w w1 : World D)
      → SameHeap w.heap w1.heap
      → w1.sent ≡ w.sent
      → w1.err ≡ 0
      → reply.dsize ≡ 0
      → Handled k.digest silence w (con_send_reply k reply e w1).1
  con_send_reply-Handled silence reply e w w1 heap same z empty = record {
    heap =
        subst (SameHeap w.heap) (sym (con_send_reply-heap reply e w1 z (omega (arith, empty))))
          heap;
    answer = inr (con_send_reply-Answered reply e w w1 same z empty);
  }
