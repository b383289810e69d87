-- ===== src/Core/Super/Format.antt =====
-- Formatting a device: the superblock that comes out, and the blocks that are in use in it.
use ddfs.Base.{
  ℕ, zero, suc, ◌+◌, ◌^◌, ◌≤◌, ◌<◌, ◌≡◌, refl, sym, ap, ◌∙◌, ◌≢◌, inl, inr, Bool, true, false, ◌&&◌,
  some, arith, ltb, leb, ◌==◌, if◌then◌else◌, lt→ltb, ge→ltb, ==_iff, Bool-cases, bind-some,
}
use ddfs.Core.Balloc.{Sb, Errno, Io, Out, clear_loop, bm_clear, success}
use ddfs.Core.Balloc.Blocks.{Kept, Kept-refl, Kept-trans, Kept-IsBitmap, block_split}
use ddfs.Core.Balloc.Free.{IsMarked, block_mark-IsMarked, marked}
use ddfs.Core.Balloc.Position.{IsBitmap, bit_of, bit_of-place}
use ddfs.Core.Super.{mark_loop}
use mathlib.Core.Path.{subst}
use native.Mathlib.Nat.{mod-eq_of_lt}

-- A disk on which every call succeeds.
pub record IsGood (io : Io) : Type 0 where
  pub get : (c : ℕ) → io.get c ≡ true
  pub zeroed : (c : ℕ) → io.zeroed c ≡ success
  pub sync : (c : ℕ) → io.sync c ≡ success

abbrev cleared_bits : ℕ → ℕ → Sb → ℕ → ℕ → Bool
cleared_bits i r sb c k = if leb i c && ltb c (i + r) then false else sb.bits c k

clear_loop-good :
    (io : Io) (r i : ℕ) (sb : Sb)
    → IsGood io
    → (f : ℕ → ℕ → Bool) × (clear_loop io i r sb
        ≡ record { after = record sb { used_blocks = 0; bits = f }; value = success })
      × ((c k : ℕ) → f c k ≡ cleared_bits i r sb c k)
unfolding clear_loop
clear_loop-good io zero i sb good = (sb.bits, refl, λ c k. nothing c k (sb.bits c k))
  where
    nothing : (c k : ℕ) (x : Bool) → x ≡ (if leb i c && ltb c (i + 0) then false else x)
    nothing c k x = ground arith
clear_loop-good io (suc r) i sb good =
    let (f, e, h) =
      clear_loop-good io r (i + 1)
        (record sb { bits = λ c k. if c == i then false else sb.bits c k }) good in
    (f, rw (good.get i, good.zeroed i, good.sync i) e, λ c k. h c k ∙ later c k (sb.bits c k))
  where
    later :
        (c k : ℕ) (x : Bool)
        → (if leb (i + 1) c && ltb c (i + 1 + r) then false else (if c == i then false else x))
          ≡ (if leb i c && ltb c (i + suc r) then false else x)
    later c k x = ground arith

-- The blocks below `i` are in use and no others.
abbrev pub UsedBelow : Sb → ℕ → Type 0
UsedBelow sb i = (b : ℕ) → b < sb.nr_blocks → bit_of sb b ≡ some (ltb b i)

pub used_fits : (sb : Sb) (m : ℕ) → IsBitmap sb m → sb.nr_blocks < 2 ^ 64
used_fits sb m g = omega (arith, g.covers, g.fits)

-- One round of the loop, on what marking says.
one_more :
    (sb : Sb) (m i : ℕ) (o : Out Errno)
    → IsBitmap sb m
    → i < sb.nr_blocks
    → UsedBelow sb i
    → sb.used_blocks ≡ i
    → IsMarked sb i true o
    → (sb' : Sb) × (o ≡ record { after = sb'; value = success })
      × Kept sb sb'
      × UsedBelow sb' (i + 1)
      × (sb'.used_blocks ≡ i + 1)
one_more sb m i _ g lt below counted (marked {after} here others used locks unlocks kept) = (
  after,
  refl,
  kept,
  λ b h. at b (subst (λ x. b < x) kept.nr_blocks h),
  used ∙ rw counted (mod-eq_of_lt (omega (arith, used_fits sb m g))),
)
  where
    ne : {x : Bool} → x ≡ false → x ≢ true
    ne e f = cc

    same : (b : ℕ) → (b == i) ≡ false → ltb b i ≡ ltb b (i + 1)
    same b e = ground (arith, e)

    at : (b : ℕ) → b < sb.nr_blocks → bit_of after b ≡ some (ltb b (i + 1))
    at b h = elim (Bool-cases (b == i)) [
      | inl e ↦
          ap (bit_of after) ((==_iff b i).0 e)
          ∙ here
          ∙ ap some (sym (lt→ltb b (i + 1) (omega (arith, (==_iff b i).0 e))))
      | inr e ↦ others b (λ f. ne e ((==_iff b i).1 f)) ∙ below b h ∙ ap some (same b e)
    ]

mark_loop-marks :
    (io : Io) (m : ℕ) (r i : ℕ) (sb : Sb)
    → IsGood io
    → IsBitmap sb m
    → i + r ≤ sb.nr_blocks
    → UsedBelow sb i
    → sb.used_blocks ≡ i
    → (sb' : Sb) × (mark_loop io i r sb ≡ some (record { after = sb'; value = success }))
      × Kept sb sb'
      × UsedBelow sb' (i + r)
      × (sb'.used_blocks ≡ i + r)
unfolding mark_loop
mark_loop-marks io m zero i sb good g room below counted =
    (sb, refl, Kept-refl sb, subst (UsedBelow sb) plus_zero below, counted ∙ plus_zero)
  where
    plus_zero : i ≡ i + 0
    plus_zero = omega arith
mark_loop-marks io m (suc r) i sb good g room below counted =
    let (o, e, says) =
      block_mark-IsMarked io sb m i true g good.get good.sync (omega arith)
        (below i (omega arith) ∙ ap some (ge→ltb i i (omega arith))) in
    let (s, f, k, b, c) = one_more sb m i o g (omega arith) below counted says in
    let (s', f', k', b', c') =
      mark_loop-marks io m r (i + 1) s good (Kept-IsBitmap m k g) (rw (k.nr_blocks) (omega arith)) b
        c in
    (s', bind-some _ (e ∙ ap some f) f', Kept-trans k k', subst (UsedBelow s') step b', c' ∙ step)
  where
    step : i + 1 + r ≡ i + suc r
    step = omega arith

-- The loop from block 0 on.
pub mark_loop-low :
    (io : Io) (m r : ℕ) (sb : Sb)
    → IsGood io
    → IsBitmap sb m
    → r ≤ sb.nr_blocks
    → UsedBelow sb 0
    → sb.used_blocks ≡ 0
    → (sb' : Sb) × (mark_loop io 0 r sb ≡ some (record { after = sb'; value = success }))
      × Kept sb sb'
      × UsedBelow sb' r
      × (sb'.used_blocks ≡ r)
mark_loop-low io m r sb good g room below counted =
    let (s, e, k, b, c) = mark_loop-marks io m r 0 sb good g (omega arith) below counted in
    (s, e, k, subst (UsedBelow s) plus_zero b, c ∙ plus_zero)
  where
    plus_zero : 0 + r ≡ r
    plus_zero = omega arith

abbrev cleared : Sb → (ℕ → ℕ → Bool) → Sb
cleared sb f = record sb { used_blocks = 0; bits = f }

cleared-Kept : (sb : Sb) (f : ℕ → ℕ → Bool) → Kept sb (cleared sb f)
cleared-Kept sb f = record {
  nr_blocks = refl;
  bm_block = refl;
  bm_blocks = refl;
  bsize = refl;
  size = refl;
  magic = refl;
  version = refl;
  id = refl;
  inodes_tree_block = refl;
  stopping = refl;
}

-- Clearing the bitmap leaves every block free.
pub bm_clear-frees :
    (io : Io) (sb : Sb) (m : ℕ)
    → IsGood io
    → IsBitmap sb m
    → (sb' : Sb) × (bm_clear io sb ≡ record { after = sb'; value = success })
      × Kept sb sb'
      × UsedBelow sb' 0
      × (sb'.used_blocks ≡ 0)
unfolding bm_clear
bm_clear-frees io sb m good g =
    let (f, e, h) = clear_loop-good io sb.bm_blocks sb.bm_block sb good in
    let k = cleared-Kept sb f in
    (cleared sb f, e, k, λ b lt. free f h (Kept-IsBitmap m k g) b lt, refl)
  where
    inside :
        (q : ℕ) (x : Bool)
        → q < sb.bm_blocks
        → (if leb sb.bm_block (sb.bm_block + q)
              && ltb (sb.bm_block + q) (sb.bm_block + sb.bm_blocks)
            then false
            else x)
          ≡ false
    inside q x h = ground arith

    free :
        (f : ℕ → ℕ → Bool)
        → ((c k : ℕ) → f c k ≡ cleared_bits sb.bm_block sb.bm_blocks sb c k)
        → IsBitmap (cleared sb f) m
        → (b : ℕ) → b < sb.nr_blocks
        → bit_of (cleared sb f) b ≡ some (ltb b 0)
    free f h g' b lt =
        let (q, k, e, low, few) = block_split sb m g b lt in
        ap (bit_of (cleared sb f)) e
        ∙ bit_of-place (cleared sb f) m q k g' low (subst (λ x. x < sb.nr_blocks) e lt)
        ∙ ap some (
            h (sb.bm_block + q) k
            ∙ inside q (sb.bits (sb.bm_block + q) k) few
            ∙ sym (ge→ltb b 0 (omega arith)))
