-- ===== src/Core/Balloc/Returned.antt =====
-- An allocation followed by the release of the block.
use ddfs.Base.{
  ℕ, ◌+◌, ◌<◌, ◌≡◌, sym, ap, ◌∙◌, ◌≢◌, inl, inr, true, false, Option, some, arith, ◌==◌, ==_iff,
  Bool-cases, u64, sub64,
}
use ddfs.Core.Balloc.{Sb, Errno, Io, Out, block_free, block_alloc, success}
use ddfs.Core.Balloc.Alloc.{IsAlloc, block_alloc-IsAlloc, alloc_taken, alloc_full}
use ddfs.Core.Balloc.Blocks.{Kept-IsBitmap}
use ddfs.Core.Balloc.Free.{IsMarked, block_mark-IsMarked, in_range, marked}
use ddfs.Core.Balloc.Position.{IsBitmap, bit_of}
use mathlib.Core.Path.{subst}

-- Allocating a block and freeing it again.
pub data IsReturned (sb : Sb) : Option (Out Errno) → Type 0 where
  returned :
      {after : Sb}
      → ((block : ℕ) → bit_of after block ≡ bit_of sb block)
      → after.used_blocks ≡ sub64 (u64 (sb.used_blocks + 1)) 1
      → IsReturned sb (some (record { after = after; value = success }))

module _ (io : Io) (sb : Sb) (m : ℕ) (g : IsBitmap sb m) where
  same_bits :
      (after last : Sb) (b c : ℕ)
      → bit_of sb b ≡ some false
      → ((other : ℕ) → other ≢ b → bit_of after other ≡ bit_of sb other)
      → bit_of last b ≡ some false
      → ((other : ℕ) → other ≢ b → bit_of last other ≡ bit_of after other)
      → bit_of last c ≡ bit_of sb c
  same_bits after last b c clear keeps cleared keeps' = elim (Bool-cases (c == b)) [
    | inl same ↦
        ap (bit_of last) ((==_iff c b).0 same)
        ∙ cleared
        ∙ sym clear
        ∙ ap (bit_of sb) (sym ((==_iff c b).0 same))
    | inr other ↦ keeps' c (differs other) ∙ keeps c (differs other)
  ]
    where
      differs : (c == b) ≡ false → c ≢ b
      differs f e = ground arith

  return_marked :
      (mid : Sb) (b : ℕ) (o : Out Errno)
      → bit_of sb b ≡ some false
      → ((other : ℕ) → other ≢ b → bit_of mid other ≡ bit_of sb other)
      → mid.used_blocks ≡ u64 (sb.used_blocks + 1)
      → IsMarked mid b false o
      → IsReturned sb (some o)
  return_marked mid b _ clear keeps counted (marked {after} cleared keeps' count _ _ _) =
      returned (λ c. same_bits mid after b c clear keeps cleared keeps')
        (count ∙ ap (λ x. sub64 x 1) counted)

  return_alloc :
      ((c : ℕ) → io.get c ≡ true)
      → ((c : ℕ) → io.sync c ≡ success)
      → (o : Out (Errno × ℕ)) (b : ℕ) → IsAlloc sb o
      → o.value ≡ (success, b)
      → IsReturned sb (block_free io o.after b)
  unfolding block_free
  return_alloc there synced _ b (alloc_full h) e = absurd (cc)
  return_alloc there synced _ b (alloc_taken {after} {block} lt clear set keeps counted keep) e =
      let (o, f, says) =
        block_mark-IsMarked io after m b false (Kept-IsBitmap m keep g) there synced (lt_after)
          (ap (bit_of after) (sym same) ∙ set) in
      subst (IsReturned sb) (sym f) (
        return_marked after b o (ap (bit_of sb) (sym same) ∙ clear)
          (λ c ne. keeps c (λ q. ne (q ∙ same))) counted says)
    where
      same : block ≡ b
      same = ap (λ p. p.1) e

      lt_after : b < after.nr_blocks
      lt_after =
          in_range after m (Kept-IsBitmap m keep g) b true (ap (bit_of after) (sym same) ∙ set)

-- A block that an allocation has returned on such a bitmap and disk is freed with 0, and every
-- block's bit is as before the allocation; the count of used blocks goes up by one and down by
-- one in 64 bits.
pub free-alloc :
    (io : Io) (sb : Sb) (m : ℕ) (o : Out (Errno × ℕ)) (block : ℕ)
    → IsBitmap sb m
    → ((c : ℕ) → io.get c ≡ true)
    → ((c : ℕ) → io.sync c ≡ success)
    → block_alloc io sb ≡ some o
    → o.value ≡ (success, block)
    → IsReturned sb (block_free io o.after block)
free-alloc io sb m o block g there synced e v =
    let (o', e', says) = block_alloc-IsAlloc io sb m g there synced in
    return_alloc io sb m g there synced o block (subst (IsAlloc sb) (inj (sym e' ∙ e)) says) v
  where
    inj : {x y : Out (Errno × ℕ)} → some x ≡ some y → x ≡ y
    inj f = cc
