-- ===== src/Crt/ObjId/Distance.antt =====
-- The distance of two object ids as 128-bit numbers.
use ddfs.Base.{
  ℕ, ◌+◌, ◌-◌, ◌*◌, ◌^◌, ◌≤◌, ◌<◌, ◌≡◌, refl, ◌∙◌, ◌⊎◌, inl, inr, true, false, some, arith, ltb,
  leb, ◌==◌, Bool-cases,
}
use ddfs.Crt.ObjId.{ObjId, obj_id_cmp, obj_id_minus, obj_id_dist, plus, minus, zero_sign}
use mathlib.Core.Path.{subst}

abbrev pub value : ObjId → ℕ
value id = id.high * 2 ^ 64 + id.low

-- Both words fit 64 bits.
pub record IsId (id : ObjId) : Type 0 where
  pub high : id.high < 2 ^ 64
  pub low : id.low < 2 ^ 64

-- The comparison of two ids of 64-bit words is 1, -1 or 0 as the 128-bit number of the first is
-- greater, smaller, or the ids are equal.
pub obj_id_cmp-value :
    (a b : ObjId)
    → IsId a
    → IsId b
    → ((obj_id_cmp a b ≡ plus) × (value b < value a))
      ⊎ ((obj_id_cmp a b ≡ minus) × (value a < value b))
      ⊎ ((obj_id_cmp a b ≡ zero_sign) × (a ≡ b))
unfolding obj_id_cmp
obj_id_cmp-value a b va vb = ground arith

-- The subtraction of a number that is not greater.
minus-value :
    (a b : ObjId)
    → IsId a
    → IsId b
    → value b ≤ value a
    → (d : ObjId) × (obj_id_minus a b ≡ some d) × IsId d × (value d ≡ value a - value b)
unfolding obj_id_minus
minus-value a b va vb h = elim (Bool-cases (ltb b.high a.high)) [
  | inl more ↦ rw more (elim (Bool-cases (leb b.low a.low)) [
    | inl plain ↦ rw plain (_, refl, ground arith, ground arith)
    | inr borrow ↦ rw borrow (_, refl, ground arith, ground arith)
  ])
  | inr rest ↦ rw (rest, same rest, low rest) (_, refl, ground arith, ground (arith, same rest))
]
  where
    same : ltb b.high a.high ≡ false → (a.high == b.high) ≡ true
    same rest = ground arith

    low : ltb b.high a.high ≡ false → ltb a.low b.low ≡ false
    low rest = ground arith

cmp_of_lt :
    (a b : ObjId)
    → IsId a
    → IsId b
    → value a < value b
    → (obj_id_cmp a b ≡ minus) × (obj_id_cmp b a ≡ plus)
unfolding obj_id_cmp
cmp_of_lt a b va vb h = (ground arith, ground arith)

dist_of_minus : (a b : ObjId) → obj_id_cmp a b ≡ minus → obj_id_dist a b ≡ obj_id_minus b a
unfolding obj_id_dist
dist_of_minus a b m = rw (m, obj_id_dist) refl

dist_of_plus : (a b : ObjId) → obj_id_cmp a b ≡ plus → obj_id_dist a b ≡ obj_id_minus a b
unfolding obj_id_dist
dist_of_plus a b m = rw (m, obj_id_dist) refl

dist_of_zero : (a b : ObjId) → obj_id_cmp a b ≡ zero_sign → obj_id_dist a b ≡ obj_id_minus a b
unfolding obj_id_dist
dist_of_zero a b m = rw (m, obj_id_dist) refl

dist_of_lt :
    (a b : ObjId)
    → IsId a
    → IsId b
    → value a < value b
    → (d : ObjId) × (obj_id_dist a b ≡ some d)
      × (obj_id_dist b a ≡ some d)
      × IsId d
      × (value d ≡ (value a - value b) + (value b - value a))
dist_of_lt a b va vb h =
    let (d, e, vd, ed) = minus-value b a vb va (omega arith) in
    let (m, p) = cmp_of_lt a b va vb h in
    (d, dist_of_minus a b m ∙ e, dist_of_plus b a p ∙ e, vd, omega arith)

-- The distance of two ids of 64-bit words never stops at a BUG, is the same in both orders, has
-- 64-bit words, and its 128-bit number is the absolute difference of the two numbers.
pub obj_id_dist-value :
    (a b : ObjId)
    → IsId a
    → IsId b
    → (d : ObjId) × (obj_id_dist a b ≡ some d)
      × (obj_id_dist b a ≡ some d)
      × IsId d
      × (value d ≡ (value a - value b) + (value b - value a))
obj_id_dist-value a b va vb = elim (obj_id_cmp-value a b va vb) [
  | inl (c, l) ↦ let (d, e, e', vd, ed) = dist_of_lt b a vb va l in (d, e', e, vd, omega arith)
  | inr (inl (c, l)) ↦ dist_of_lt a b va vb l
  | inr (inr (c, same)) ↦
      let (d, e, vd, ed) = minus-value b b vb vb (omega arith) in
      let c' : obj_id_cmp b b ≡ zero_sign = subst (λ x. obj_id_cmp x b ≡ zero_sign) same c in
      rw same (d, dist_of_zero b b c' ∙ e, dist_of_zero b b c' ∙ e, vd, omega arith)
]
