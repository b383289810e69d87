-- ===== src/Core/Net/Sends.antt =====
-- What the functions of a connection that send and receive leave behind.
use ddfs.Base.{
  ℕ, ◌+◌, ◌≤◌, ◌≡◌, refl, sym, ◌∙◌, ◌≢◌, inl, inr, true, List, ◌∷◌, arith, ◌==◌, ==_iff, ne→==,
  Bool-cases,
}
use ddfs.Core.Inode.Mapped.{true-false}
use ddfs.Core.Net.{
  World, Sent, Kernel, pkt_size, Got, con_fail, con_recv, con_send, con_send_pkt, con_send_reply,
  sent_pkt, sent_page, failed, got,
}
use ddfs.Crt.NetPkt.{NetPkt, max_dsize, err_io, net_pkt_check, net_pkt_sign}
use ddfs.Crt.NetPkt.Accept.{net_pkt_sign-dsize, net_pkt_sign-check}

-- Pages that are sent after one another, `n` bytes in all, and the packet of a reply before them.
pub data Follows : ℕ → List Sent → List Sent → Type 0 where
  no_page : {s : List Sent} → Follows 0 s s
  then_page :
      {n : ℕ} {s s' : List Sent} (p m : ℕ) → Follows n (sent_page p m ∷ s) s' → Follows (m + n) s s'

-- What a send leaves: the item is the last one sent, the memory is as before, and what the function
-- returns is the error of the connection.
pub record SendSays {D : Type 0} (what : Sent) (w : World D) (o : ℕ × World D) : Type 0 where
  pub sent : o.1.sent ≡ what ∷ w.sent
  pub heap : o.1.heap ≡ w.heap
  pub err : o.0 ≡ o.1.err

-- A reply that is sent is accepted by the check of packets.
pub record ReplySays {D : Type 0} (digest : List ℕ → ℕ) (size : ℕ) (w : World D) (o : ℕ × World D)
    : Type 0 where
  pub packet : NetPkt
  pub accepted : net_pkt_check digest packet ≡ 0
  pub sized : packet.dsize ≡ size
  pub said : SendSays (sent_pkt packet) w o

-- What a loop leaves that moves `len` bytes of pages.
pub record LoopSays {D : Type 0} (len : ℕ) (w : World D) (o : ℕ × World D) : Type 0 where
  pub bytes : ℕ
  pub follows : Follows bytes w.sent o.1.sent
  pub all : o.1.err ≡ 0 → bytes ≡ len
  pub heap : o.1.heap ≡ w.heap
  pub err : o.0 ≡ o.1.err

pub con_fail-heap : {D : Type 0} (w : World D) (e : ℕ) → (con_fail w e).heap ≡ w.heap
unfolding con_fail
con_fail-heap w e = elim (Bool-cases (w.err == 0)) [ inl z ↦ rw z refl | inr z ↦ rw z refl ]

pub con_fail-sent : {D : Type 0} (w : World D) (e : ℕ) → (con_fail w e).sent ≡ w.sent
unfolding con_fail
con_fail-sent w e = elim (Bool-cases (w.err == 0)) [ inl z ↦ rw z refl | inr z ↦ rw z refl ]

pub con_fail-err : {D : Type 0} (w : World D) (e : ℕ) → w.err ≡ 0 → (con_fail w e).err ≡ e
unfolding con_fail
con_fail-err w e z = rw ((==_iff w.err 0).1 z) refl

-- A failure that is reported again changes nothing.
pub con_fail-again : {D : Type 0} (w : World D) (e : ℕ) → e ≡ w.err → e ≢ 0 → con_fail w e ≡ w
unfolding con_fail
con_fail-again w e same bad = rw (ne→== w.err 0 (λ z. bad (same ∙ z))) refl

-- What is written to the socket, before the answer.
abbrev sending : {D : Type 0} → Sent → World D → World D
sending what w = record w { sent = what ∷ w.sent }

abbrev reading_on : {D : Type 0} → World D → World D
reading_on w = record w { reads = w.reads + 1 }

-- A world that differs in nothing but what was read.
pub record Quiet {D : Type 0} (w w' : World D) : Type 0 where
  pub sent : w'.sent ≡ w.sent
  pub heap : w'.heap ≡ w.heap
  pub err : w'.err ≡ w.err

-- What a receive leaves.
pub data RecvSays {D A : Type 0} (w : World D) : Got A × World D → Type 0 where
  recv_got : {a : A} {w' : World D} → Quiet w w' → RecvSays w (got a, w')
  recv_failed :
      {e : ℕ} {w' : World D}
      → e ≢ 0
      → w'.err ≡ e
      → w'.sent ≡ w.sent
      → w'.heap ≡ w.heap
      → RecvSays w (failed e, w')

module _ {D : Type 0} (k : Kernel) where
  pub con_send-SendSays :
      (what : Sent) (nob : ℕ) (w : World D) → w.err ≡ 0 → SendSays what w (con_send k what nob w)
  unfolding con_send
  con_send-SendSays what nob w z =
      rw ((==_iff w.err 0).1 z) (elim (Bool-cases ((k.write (what ∷ w.sent)).0 == 0)) [
        | inr bad ↦ rw bad (failing (k.write (what ∷ w.sent)).0)
        | inl good ↦ rw good (elim (Bool-cases (nob == (k.write (what ∷ w.sent)).1)) [
          | inr short ↦ rw short (failing err_io)
          | inl full ↦ rw full (record { sent = refl; heap = refl; err = sym z })
        ])
      ])
    where
      failing : (x : ℕ) → SendSays what w (x, con_fail (sending what w) x)
      failing x = record {
        sent = con_fail-sent (sending what w) x;
        heap = con_fail-heap (sending what w) x;
        err = sym (con_fail-err (sending what w) x z);
      }

  -- A signed packet is accepted.
  pub con_send_reply-ReplySays :
      (reply : NetPkt) (e : ℕ) (w : World D)
      → w.err ≡ 0
      → reply.dsize ≤ max_dsize
      → ReplySays k.digest reply.dsize w (con_send_reply k reply e w)
  unfolding con_send_reply con_send_pkt
  con_send_reply-ReplySays reply e w z h = record {
    packet = net_pkt_sign k.digest (record reply { err = e });
    accepted = net_pkt_sign-check k.digest (record reply { err = e }) h;
    sized = net_pkt_sign-dsize k.digest (record reply { err = e });
    said = con_send-SendSays _ pkt_size w z;
  }

  pub con_recv-RecvSays :
      {A : Type 0} (ksock_read : ℕ → ℕ × ℕ × A) (nob : ℕ) (w : World D)
      → w.err ≡ 0
      → RecvSays w (con_recv ksock_read nob w)
  unfolding con_recv
  con_recv-RecvSays ksock_read nob w z =
      rw ((==_iff w.err 0).1 z) (elim (Bool-cases ((ksock_read w.reads).0 == 0)) [
        | inr bad ↦ rw bad (failing (ksock_read w.reads).0 (λ e. true-false (bad_of e) bad))
        | inl good ↦ rw good (elim (Bool-cases (nob == (ksock_read w.reads).1)) [
          | inr short ↦ rw short (failing err_io (λ e. omega (arith, e)))
          | inl full ↦ rw full (recv_got (record { sent = refl; heap = refl; err = refl }))
        ])
      ])
    where
      bad_of : (ksock_read w.reads).0 ≡ 0 → ((ksock_read w.reads).0 == 0) ≡ true
      bad_of e = (==_iff (ksock_read w.reads).0 0).1 e

      failing :
          {A : Type 0} (x : ℕ) → x ≢ 0 → RecvSays {A = A} w (failed x, con_fail (reading_on w) x)
      failing x bad =
          recv_failed bad (con_fail-err (reading_on w) x z) (con_fail-sent (reading_on w) x)
            (con_fail-heap (reading_on w) x)
