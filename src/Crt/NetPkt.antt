-- ===== src/Crt/NetPkt.antt =====
-- crt/net_pkt.c: the packets of include/nkfs_net.h, their signing and their checking.
pub mod Accept
use ddfs.Base.{ℕ, ◌*◌, not, ◌&&◌, ◌||◌, List, [], ◌∷◌, ◌++◌, ltb, ◌==◌, if◌then◌else◌}
use ddfs.Crt.ObjId.{ObjId}

-- `struct nkfs_net_pkt`, with its union as the requests on objects see it: the id of an object, the next
-- eight bytes as a number, and the bytes after these. `err` is the number of the error that the code
-- keeps negated.
pub record NetPkt : Type 0 where
  pub sign1 : ℕ
  pub type : ℕ
  pub dsize : ℕ
  pub err : ℕ
  pub obj_id : ObjId
  pub off : ℕ
  pub rest : List ℕ
  pub dsum : ℕ
  pub sum : ℕ
  pub sign2 : ℕ

abbrev pub net_sign1 : ℕ
net_sign1 = 0xBEDABEDA

abbrev pub net_sign2 : ℕ
net_sign2 = 0xCBADCBAD

-- NKFS_NET_PKT_MAX_DSIZE
abbrev pub max_dsize : ℕ
max_dsize = 512 * 1024

abbrev pub err_io : ℕ
err_io = 5

abbrev pub err_nomem : ℕ
err_nomem = 12

abbrev pub err_inval : ℕ
err_inval = 22

-- What stands before the checksum in a packet, in order.
abbrev pub pkt_words : NetPkt → List ℕ
pkt_words p =
    p.sign1
    ∷ p.type
    ∷ p.dsize
    ∷ p.err
    ∷ p.obj_id.high
    ∷ p.obj_id.low
    ∷ p.off
    ∷ (p.rest ++ (p.dsum ∷ []))

-- `net_pkt_sum`
unfoldable pub net_pkt_sum : (List ℕ → ℕ) → NetPkt → ℕ
net_pkt_sum digest p = digest (pkt_words p)

-- `net_pkt_check`
unfoldable pub net_pkt_check : (List ℕ → ℕ) → NetPkt → ℕ
net_pkt_check digest p =
    if not (p.dsize == 0) && ltb max_dsize p.dsize
    then err_inval
    else (if not (p.sign1 == net_sign1) || not (p.sign2 == net_sign2)
        then err_inval
        else (if not (p.sum == net_pkt_sum digest p) then err_inval else 0))

-- `net_pkt_sign`
unfoldable pub net_pkt_sign : (List ℕ → ℕ) → NetPkt → NetPkt
net_pkt_sign digest p =
    let signed = record p { sign1 = net_sign1; sign2 = net_sign2 } in
    record signed { sum = net_pkt_sum digest signed }

-- `net_pkt_zero`, and what `net_pkt_alloc` gives; the bytes after the end of `rest` are zero.
abbrev pub net_pkt_zero : NetPkt
net_pkt_zero = record {
  sign1 = 0;
  type = 0;
  dsize = 0;
  err = 0;
  obj_id = record { high = 0; low = 0 };
  off = 0;
  rest = [];
  dsum = 0;
  sum = 0;
  sign2 = 0;
}

-- `net_pkt_check_dsum`
unfoldable pub net_pkt_check_dsum : NetPkt → ℕ → ℕ
net_pkt_check_dsum p dsum = if not (p.dsum == dsum) then err_inval else 0
