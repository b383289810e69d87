-- ===== src/Core/Net/Data.antt =====
-- The pages of data that a connection receives and sends.
use ddfs.Base.{
  ℕ, suc, ◌+◌, ◌-◌, ◌*◌, ◌≤◌, ◌≡◌, refl, sym, ap, ◌∙◌, inl, inr, not, Option, some, List, [], ◌∷◌,
  arith, ltb, ◌==◌, if◌then◌else◌, ==_iff, Bool-cases, update, length,
}
use ddfs.Core.Inode.Mapped.{true-false}
use ddfs.Core.Net.{
  World, Kernel, Got, con_fail, con_recv, page_after_read, con_send, recv_loop, sent_page, failed,
  got,
}
use ddfs.Core.Net.Requests.{send_loop}
use ddfs.Core.Net.Sends.{
  Follows, SendSays, LoopSays, con_fail-heap, con_fail-sent, con_fail-again, RecvSays,
  con_send-SendSays, con_recv-RecvSays, no_page, then_page, recv_got, recv_failed,
}
use ddfs.Core.Pages.{Heap}
use mathlib.Core.Path.{subst}

-- What the loop that receives leaves.
pub record ReceiveSays {D : Type 0} (w : World D) (o : ℕ × World D) : Type 0 where
  pub sent : o.1.sent ≡ w.sent
  pub heap : o.1.heap ≡ w.heap
  pub err : o.0 ≡ o.1.err

-- The same pages and arrays are allocated.
pub record SameHeap (before after : Heap) : Type 0 where
  pub live : (n : ℕ) → after.live n ≡ before.live n
  pub arrays : after.arrays ≡ before.arrays

abbrev chunk : ℕ → ℕ
chunk read = if ltb 4096 read then 4096 else read

page_step : (len n : ℕ) → len ≤ 4096 * suc n → len - chunk len ≤ 4096 * n
page_step len n h = ground arith

page_rest : (len m : ℕ) → m ≡ len - chunk len → chunk len + m ≡ len
page_rest len m e = ground arith

module _ {D : Type 0} (k : Kernel) where
  pub recv_loop-ReceiveSays :
      (pages : List ℕ) (read : ℕ) (w : World D)
      → w.err ≡ 0
      → read ≤ 4096 * length pages
      → (o : ℕ × World D) × (recv_loop k pages read w ≡ some o) × ReceiveSays w o
  unfolding recv_loop
  recv_loop-ReceiveSays [] read w z room = (
    (0, w),
    rw ((==_iff read 0).1 (omega arith)) refl,
    record { sent = refl; heap = refl; err = sym z },
  )
  recv_loop-ReceiveSays (page ∷ pages) read w z room = elim (Bool-cases (read == 0)) [
    | inl empty ↦ ((0, w), rw empty refl, record { sent = refl; heap = refl; err = sym z })
    | inr more ↦
        let (o, e, s) =
          go (con_recv (λ n. k.read_page n (chunk read)) (chunk read) w)
            (con_recv-RecvSays k _ _ w z)
            (λ x e.
              recv_loop-ReceiveSays pages (read - chunk read) x e
                (page_step read (length pages) room)) in
        (o, rw more e, s)
  ]
    where
      step : Got (ℕ → ℕ) × World D → Option (ℕ × World D)
      step (r, w') =
          let rest = recv_loop k pages (read - chunk read) (record w' {
            mem = update w'.mem page (page_after_read r (chunk read) (w'.mem page));
          }) in
          elim r [ failed err ↦ some (err, con_fail w' err) | got _ ↦ rest ]

      go :
          (r : Got (ℕ → ℕ) × World D)
          → RecvSays w r
          → ((x : World D)
              → x.err ≡ 0
              → (o : ℕ × World D) × (recv_loop k pages (read - chunk read) x ≡ some o)
                × ReceiveSays x o)
          → (o : ℕ × World D) × (step r ≡ some o) × ReceiveSays w o
      go (failed err, w') (recv_failed bad same sent heap) again = (
        (err, con_fail w' err),
        refl,
        record {
          sent = con_fail-sent w' err ∙ sent;
          heap = con_fail-heap w' err ∙ heap;
          err = sym (ap (λ x. x.err) (con_fail-again w' err (sym same) bad) ∙ same);
        },
      )
      go (got b, w') (recv_got q) again =
          let (o, e, s) =
            again
              (record w' {
                mem = update w'.mem page (page_after_read (got b) (chunk read) (w'.mem page));
              })
              (q.err ∙ z) in
          (o, e, record { sent = s.sent ∙ q.sent; heap = s.heap ∙ q.heap; err = s.err })

  pub send_loop-LoopSays :
      (pages : List ℕ) (len : ℕ) (w : World D)
      → w.err ≡ 0
      → len ≤ 4096 * length pages
      → (o : ℕ × World D) × (send_loop k pages len w ≡ some o) × LoopSays len w o
  unfolding send_loop
  send_loop-LoopSays [] len w z room = (
    (0, w),
    rw ((==_iff len 0).1 (omega arith)) refl,
    record { bytes = 0; follows = no_page; all = λ _. omega arith; heap = refl; err = sym z },
  )
  send_loop-LoopSays (page ∷ pages) len w z room = elim (Bool-cases (len == 0)) [
    | inl empty ↦ (
      (0, w),
      rw empty refl,
      record {
        bytes = 0;
        follows = no_page;
        all = λ _. sym ((==_iff len 0).0 empty);
        heap = refl;
        err = sym z;
      },
    )
    | inr more ↦
        let (o, e, s) =
          go (con_send k (sent_page page (chunk len)) (chunk len) w) (con_send-SendSays k _ _ w z)
            (λ x e.
              send_loop-LoopSays pages (len - chunk len) x e (page_step len (length pages) room)) in
        (o, rw more e, s)
  ]
    where
      go :
          (r : ℕ × World D)
          → SendSays (sent_page page (chunk len)) w r
          → ((x : World D)
              → x.err ≡ 0
              → (o : ℕ × World D) × (send_loop k pages (len - chunk len) x ≡ some o)
                × LoopSays (len - chunk len) x o)
          → (o : ℕ × World D) × ((if not (r.0 == 0)
                then some (r.0, con_fail r.1 r.0)
                else send_loop k pages (len - chunk len) r.1)
              ≡ some o)
            × LoopSays len w o
      go (err, w') s again = elim (Bool-cases (err == 0)) [
        | inr bad ↦
            let same = con_fail-again w' err s.err (λ e. true-false ((==_iff err 0).1 e) bad) in
            (
              (err, con_fail w' err),
              rw bad refl,
              record {
                bytes = chunk len + 0;
                follows =
                    subst (λ x. Follows (chunk len + 0) w.sent x)
                      (sym (con_fail-sent w' err ∙ s.sent)) (then_page page (chunk len) no_page);
                all = λ e.
                    absurd
                      (true-false ((==_iff err 0).1 (s.err ∙ sym (ap (λ x. x.err) same) ∙ e)) bad);
                heap = con_fail-heap w' err ∙ s.heap;
                err = s.err ∙ sym (ap (λ x. x.err) same);
              },
            )
        | inl good ↦
            let (o, e, t) = again w' (sym s.err ∙ (==_iff err 0).0 good) in
            (
              o,
              rw good e,
              record {
                bytes = chunk len + t.bytes;
                follows =
                    then_page page (chunk len)
                      (subst (λ x. Follows t.bytes x o.1.sent) s.sent t.follows);
                all = λ x. page_rest len t.bytes (t.all x);
                heap = t.heap ∙ s.heap;
                err = t.err;
              },
            )
      ]
