-- ===== src/Crt/NetPkt/Accept.antt =====
-- Which packets `net_pkt_check` accepts.
use ddfs.Base.{
  ℕ, ◌≤◌, ◌≡◌, refl, inl, inr, Bool, true, false, not, ◌&&◌, ◌||◌, List, arith, ltb, ◌==◌,
  if◌then◌else◌, ge→ltb, ==_iff, ==-refl, Bool-cases,
}
use ddfs.Crt.NetPkt.{
  NetPkt, net_sign1, net_sign2, max_dsize, err_inval, pkt_words, net_pkt_sum, net_pkt_check,
  net_pkt_sign,
}

module _ (digest : List ℕ → ℕ) where
  pub net_pkt_sign-dsize : (p : NetPkt) → (net_pkt_sign digest p).dsize ≡ p.dsize
  unfolding net_pkt_sign
  net_pkt_sign-dsize p = refl

  -- A packet that is signed is accepted by the check if its data is not longer than allowed.
  pub net_pkt_sign-check :
      (p : NetPkt) → p.dsize ≤ max_dsize → net_pkt_check digest (net_pkt_sign digest p) ≡ 0
  unfolding net_pkt_sign net_pkt_check net_pkt_sum
  net_pkt_sign-check p h = elim (Bool-cases (p.dsize == 0)) [
    | inl z ↦
        rw (z, ==-refl (digest (pkt_words (record p { sign1 = net_sign1; sign2 = net_sign2 }))))
          refl
    | inr z ↦
        rw
          (
            z,
            ge→ltb max_dsize p.dsize h,
            ==-refl (digest (pkt_words (record p { sign1 = net_sign1; sign2 = net_sign2 }))),
          )
          refl
  ]

  abbrev pub Facts : NetPkt → Type 0
  Facts p =
      (p.dsize ≤ max_dsize)
      × (p.sign1 ≡ net_sign1)
      × (p.sign2 ≡ net_sign2)
      × (p.sum ≡ net_pkt_sum digest p)

  -- What an accepted packet has: data that is not longer than allowed, both signatures, and the checksum
  -- of what stands before it.
  pub net_pkt_check-accepts : (p : NetPkt) → net_pkt_check digest p ≡ 0 → Facts p
  unfolding net_pkt_check
  net_pkt_check-accepts p e =
      go (p.dsize == 0) (ltb max_dsize p.dsize) (p.sign1 == net_sign1) (p.sign2 == net_sign2)
        (p.sum == net_pkt_sum digest p) refl refl refl refl refl e
    where
      go :
          (a b c d f : Bool)
          → (p.dsize == 0) ≡ a
          → ltb max_dsize p.dsize ≡ b
          → (p.sign1 == net_sign1) ≡ c
          → (p.sign2 == net_sign2) ≡ d
          → (p.sum == net_pkt_sum digest p) ≡ f
          → (if not a && b
              then err_inval
              else (if not c || not d then err_inval else (if not f then err_inval else 0)))
            ≡ 0
          → Facts p
      go false true c d f ea eb ec ed ef h = absurd (omega (arith, h))
      go true b false d f ea eb ec ed ef h = absurd (omega (arith, h))
      go true b true false f ea eb ec ed ef h = absurd (omega (arith, h))
      go true b true true false ea eb ec ed ef h = absurd (omega (arith, h))
      go false false false d f ea eb ec ed ef h = absurd (omega (arith, h))
      go false false true false f ea eb ec ed ef h = absurd (omega (arith, h))
      go false false true true false ea eb ec ed ef h = absurd (omega (arith, h))
      go true b true true true ea eb ec ed ef h = (
        omega (arith, (==_iff p.dsize 0).0 ea),
        (==_iff p.sign1 net_sign1).0 ec,
        (==_iff p.sign2 net_sign2).0 ed,
        (==_iff p.sum (net_pkt_sum digest p)).0 ef,
      )
      go false false true true true ea eb ec ed ef h = (
        ground arith,
        (==_iff p.sign1 net_sign1).0 ec,
        (==_iff p.sign2 net_sign2).0 ed,
        (==_iff p.sum (net_pkt_sum digest p)).0 ef,
      )
