-- ===== src/Core/Inode/Allocates.antt =====
-- `nkfs_inode_block_alloc` from its first allocation on.
use ddfs.Base.{
  ℕ, ◌*◌, ◌≤◌, ◌<◌, ◌≡◌, refl, sym, ap, ◌∙◌, ◌≢◌, inl, inr, true, false, none, some, List, arith,
  if◌then◌else◌, Bool-cases, Option-cases, bind-some, u64,
}
use ddfs.Core.Balloc.{Sb, Errno, Io, is_ok, Out, block_alloc, enospc}
use ddfs.Core.Balloc.Blocks.{Kept, Kept-refl, Kept-trans}
use ddfs.Core.Inode.{Trees, World}
use ddfs.Core.Inode.Allocated.{
  AllocatedSays, alloc_open-OpenSays, from_open, from_undo, old_sums, at_both, not_allocated,
}
use ddfs.Core.Inode.Block.{
  InodeBlock, sum_place, BlockOut, alloc_undo, alloc_open, alloc_sum, alloc_block,
}
use ddfs.Core.Inode.Contract.{Contract, IsMapped, IsSpare}
use ddfs.Core.Inode.Grown.{Inserted, insert-Inserted}
use ddfs.Core.Inode.Mapped.{flip, flip-IsSpare, AllocSays, block_alloc-AllocSays, got, no_space}
use ddfs.Core.Inode.Undo.{IsSame, moved_to, moved_to-IsSame, WorldMapped, undo_block, undo_both}
use ddfs.Core.Super.Format.{IsGood}
use native.Mathlib.Nat.{div-le_of_le-mul, mul-le-mul_left, mul_comm}

module _ {T : Type 0} (trees : Trees T) (contract : Contract trees) (m : ℕ) (digest : List ℕ → ℕ)
    (io : Io) (good : IsGood io) where
  abbrev Says : World T → ℕ → BlockOut T → Type 0
  Says w v o = AllocatedSays trees contract m digest io good w v o

  abbrev with_sb : World T → Sb → World T
  with_sb w sb = moved_to w sb w.inode.blocks_tree w.inode.blocks_sum_tree

  module _ (w : World T) (v b off : ℕ) (vs : ℕ) (place : sum_place w.sb.bsize v ≡ (vs, off))
      (low : v < contract.limit) (sum_low : vs < contract.limit) where
    abbrev ib_of : ℕ → InodeBlock
    ib_of c = record { vblock = v; block = b; vsum_block = vs; sum_block = c; sum_off = off }

    vs_of : vs ≡ (sum_place w.sb.bsize v).0
    vs_of = sym (ap (λ x. x.0) place)

    off_of : off ≡ (sum_place w.sb.bsize v).1
    off_of = sym (ap (λ x. x.1) place)

    -- The tree of checksums has taken the block `c`, or refused it.
    sum-Inserted :
        (sb sb2 : Sb) (c : ℕ) (o : Out (Errno × T))
        → IsSame w (with_sb w sb2)
        → IsMapped trees contract m sb2 w.inode.blocks_tree w.inode.blocks_sum_tree
        → IsSpare trees contract m sb2 w.inode.blocks_tree w.inode.blocks_sum_tree b
        → b ≢ c
        → trees.find w.inode.blocks_tree v ≡ none
        → trees.find w.inode.blocks_sum_tree vs ≡ none
        → Inserted trees contract m sb2 w.inode.blocks_sum_tree w.inode.blocks_tree vs c o
        → (r : BlockOut T) × ((if is_ok o.value.0
              then alloc_open trees digest io
                  (moved_to w o.after w.inode.blocks_tree o.value.1)
                  (ib_of c)
                  true
              else alloc_undo trees digest io
                  (moved_to w o.after w.inode.blocks_tree o.value.1)
                  (ib_of c)
                  true
                  false
                  o.value.0)
            ≡ some r)
          × Says w v r
    sum-Inserted sb sb2 c o same g s ne unmapped no_sum ins =
        let w2 = moved_to w o.after w.inode.blocks_tree o.value.1 in
        let same2 =
          moved_to-IsSame w o.after w.inode.blocks_tree o.value.1 (Kept-trans same.kept ins.kept) in
        let g2 = flip trees contract m ins.mapped in
        let s2 = flip-IsSpare trees contract m (ins.spare b ne (flip-IsSpare trees contract m s)) in
        elim (Bool-cases (is_ok o.value.0)) [
          | inl ok ↦
              let has = ins.here ∙ ap (λ x. if x then some c else none) ok in
              let (r, run, says) =
                alloc_open-OpenSays trees contract m digest io good w2 (ib_of c) true g2 s2 low
                  unmapped has in
              (
                r,
                rw ok run,
                from_open trees contract m digest io good w w2 v (ib_of c) true r same2 refl vs_of
                    off_of refl has
                    (old_sums trees contract m digest io good w o.after o.value.1 vs c no_sum
                      ins.there)
                    (λ t back.
                      at_both trees contract m digest io good w o.after o.value.1 vs c no_sum
                        ins.there t back.0 back.1)
                    says,
              )
          | inr bad ↦
              let (r, run, u) =
                undo_both trees contract m digest io good w2 (ib_of c) o.value.0 g2 s2
                  (flip-IsSpare trees contract m (ins.back bad)) ne in
              (
                r,
                rw bad run,
                from_undo trees contract m digest io good w w2 v (ib_of c) o.value.0 r same2 refl
                    (at_both trees contract m digest io good w o.after o.value.1 vs c no_sum
                      ins.there o.value.1 (ins.here ∙ ap (λ x. if x then some c else none) bad)
                      (λ s f. refl))
                    bad u,
              )
        ]

    sum_got :
        (sb : Sb) (a : Out (Errno × ℕ))
        → Kept w.sb sb
        → IsMapped trees contract m sb w.inode.blocks_tree w.inode.blocks_sum_tree
        → IsSpare trees contract m sb w.inode.blocks_tree w.inode.blocks_sum_tree b
        → trees.find w.inode.blocks_tree v ≡ none
        → trees.find w.inode.blocks_sum_tree vs ≡ none
        → block_alloc io sb ≡ some a
        → AllocSays trees contract m sb w.inode.blocks_tree w.inode.blocks_sum_tree a
        → (r : BlockOut T) × (alloc_sum trees digest io (with_sb w sb) (ib_of 0) ≡ some r)
          × Says w v r
    unfolding alloc_sum
    sum_got sb _ k g s unmapped no_sum run no_space =
        let (r, run', u) =
          undo_block trees contract m digest io good (with_sb w sb) (ib_of 0) enospc g s in
        (
          r,
          bind-some _ run run',
          from_undo trees contract m digest io good w (with_sb w sb) v (ib_of 0) enospc r
              (moved_to-IsSame w sb w.inode.blocks_tree w.inode.blocks_sum_tree k) refl (λ s. refl)
              refl u,
        )
    sum_got sb _ k g s unmapped no_sum run (got {after} {b = c} k2 g2 s2 rest) =
        let (o, run', ins) =
          insert-Inserted trees contract m (flip trees contract m g2) vs c
            (flip-IsSpare trees contract m s2) sum_low no_sum in
        let (r, run'', says) =
          sum-Inserted sb after c o
            (moved_to-IsSame w after w.inode.blocks_tree w.inode.blocks_sum_tree (Kept-trans k k2))
            g2 (rest b s).0 (rest b s).1 unmapped no_sum ins in
        (r, bind-some _ run (bind-some _ run' run''), says)

  -- What is done once the first block is there.
  module _ (w : World T) (v : ℕ) (low : v < contract.limit) where
    abbrev vs : ℕ
    vs = (sum_place w.sb.bsize v).0

    abbrev off : ℕ
    off = (sum_place w.sb.bsize v).1

    -- A checksum's block has no greater number than the block itself.
    sum_below : WorldMapped trees contract m digest io good w → vs < contract.limit
    sum_below g = under vs (div-le_of_le-mul w.sb.bsize within)
      where
        under : (x : ℕ) → x ≤ v → x < contract.limit
        under x h = omega arith

        wide : 8 ≤ w.sb.bsize
        wide = omega (arith, g.bitmap.pages, g.bitmap.one_page)

        within : u64 (v * 8) ≤ w.sb.bsize * v
        within = omega (arith, mul-le-mul_left v wide, mul_comm v w.sb.bsize)

    first_got :
        (a : Out (Errno × ℕ))
        → trees.find w.inode.blocks_tree v ≡ none
        → block_alloc io w.sb ≡ some a
        → AllocSays trees contract m w.sb w.inode.blocks_tree w.inode.blocks_sum_tree a
        → WorldMapped trees contract m digest io good w
        → (r : BlockOut T) × (alloc_block trees digest io w v ≡ some r) × Says w v r
    unfolding alloc_block
    first_got _ unmapped run no_space g = (
      _,
      bind-some _ run refl,
      not_allocated
          (moved_to-IsSame w w.sb w.inode.blocks_tree w.inode.blocks_sum_tree (Kept-refl w.sb)) g
          (λ k. refl) (λ s. refl) refl,
    )
    first_got _ unmapped run (got {after} {b} k g s rest) whole =
        elim (Option-cases (trees.find w.inode.blocks_sum_tree vs)) [
          | inl no_sum ↦
              let (a2, run2, says2) = block_alloc-AllocSays trees contract m io good g in
              let (r, run', says) =
                sum_got w v b off vs refl low (sum_below whole) after a2 k g s unmapped no_sum run2
                  says2 in
              (r, bind-some _ run (rw no_sum run'), says)
          | inr (c, has) ↦
              let w1 = with_sb w after in
              let (r, run', says) =
                alloc_open-OpenSays trees contract m digest io good w1
                  (ib_of w v b off vs refl low (sum_below whole) c) false g s low unmapped has in
              (
                r,
                bind-some _ run (rw has run'),
                from_open trees contract m digest io good w w1 v
                    (ib_of w v b off vs refl low (sum_below whole) c) false r
                    (moved_to-IsSame w after w.inode.blocks_tree w.inode.blocks_sum_tree k) refl
                    refl refl refl has (λ s x e. e) (λ t back. back) says,
              )
        ]

  -- On a disk without errors and an inode whose blocks each stand for one thing, the allocation
  -- of a block that the inode does not have never stops. Either it returns 0, the block is mapped
  -- with a place for its checksum, and everything else is mapped as before; or it returns an
  -- error and both trees map what they did. In both cases each block stands for one thing again,
  -- and no byte of a cluster is changed. The trees meet a contract, and the block is below its
  -- limit of blocks in a tree.
  pub alloc_block-AllocatedSays :
      (w : World T) (v : ℕ)
      → WorldMapped trees contract m digest io good w
      → v < contract.limit
      → trees.find w.inode.blocks_tree v ≡ none
      → (o : BlockOut T) × (alloc_block trees digest io w v ≡ some o)
        × AllocatedSays trees contract m digest io good w v o
  alloc_block-AllocatedSays w v g low unmapped =
      let (a, run, says) = block_alloc-AllocSays trees contract m io good g in
      first_got w v low a unmapped run says g
