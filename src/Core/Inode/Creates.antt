-- ===== src/Core/Inode/Creates.antt =====
-- `nkfs_inode_block_read_create` where the block is new.
use ddfs.Base.{
  ℕ, ◌+◌, ◌^◌, ◌<◌, ◌≡◌, refl, sym, ap, ◌∙◌, ◌≢◌, inl, inr, false, none, some, List, ◌==◌, ==_iff,
  Bool-cases, Option-cases, bind-some,
}
use ddfs.Core.Balloc.{Errno, Io, is_ok, success}
use ddfs.Core.Inode.{Trees, World}
use ddfs.Core.Inode.Allocated.{AllocatedSays, allocated, not_allocated}
use ddfs.Core.Inode.Allocates.{alloc_block-AllocatedSays}
use ddfs.Core.Inode.Block.{
  InodeBlock, no_block, sum_place, BlockOut, block_write, alloc_block, block_read_create,
}
use ddfs.Core.Inode.Contract.{Contract}
use ddfs.Core.Inode.Created.{
  IsSame-IsKin, byte_at-same, IsSound, CreateSays, block_read-missing, create_found, created,
  not_created,
}
use ddfs.Core.Inode.Mapped.{true-false}
use ddfs.Core.Inode.Summed.{
  IsSummed, SummedBut, Small, IsSummed-move, written, written-runs, written-other, not_sum,
  written-SummedBut,
}
use ddfs.Core.Inode.Undo.{IsSame, WorldMapped}
use ddfs.Core.Super.Format.{IsGood}
use mathlib.Core.Path.{subst}

module _ {T : Type 0} (trees : Trees T) (contract : Contract trees) (m : ℕ) (digest : List ℕ → ℕ)
    (io : Io) (good : IsGood io) where
  abbrev Sound : World T → Type 0
  Sound w = IsSound trees contract m digest io good w

  -- The blocks that were sound are so in a world with the same bytes and the same checksums.
  keeps_IsSummed :
      (w w1 : World T) (k b : ℕ)
      → IsSame w w1
      → ((s c : ℕ)
          → trees.find w.inode.blocks_sum_tree s ≡ some c
          → trees.find w1.inode.blocks_sum_tree s ≡ some c)
      → IsSummed trees contract m digest io good w k b
      → IsSummed trees contract m digest io good w1 k b
  keeps_IsSummed w w1 k b same olds s =
      IsSummed-move trees contract m digest io good w w1 k b same.kept.bsize s
        (olds (sum_place w.sb.bsize k).0 s.sum_block s.found) (λ i. ap (λ c. c b i) same.clusters)
        (λ i _. ap (λ c. c s.sum_block ((sum_place w.sb.bsize k).1 + i)) same.clusters)

  nothing : {x : ℕ} → none ≢ some x
  nothing e = cc

  module _ (w : World T) (v : ℕ) (f : Sound w) (small : v < 2 ^ 61)
      (unmapped : trees.find w.inode.blocks_tree v ≡ none) where
    not_created_says :
        (w1 : World T) (e : Errno)
        → IsSame w w1
        → WorldMapped trees contract m digest io good w1
        → ((k : ℕ) → trees.find w1.inode.blocks_tree k ≡ trees.find w.inode.blocks_tree k)
        → ((s : ℕ) → trees.find w1.inode.blocks_sum_tree s ≡ trees.find w.inode.blocks_sum_tree s)
        → is_ok e ≡ false
        → CreateSays trees contract m digest io good w v
            (record { world = w1; errno = e; ib = no_block })
    not_created_says w1 e same g bt st bad =
        not_created (IsSame-IsKin same w1.clusters)
          (record {
            mapped = g;
            summed = λ k b _ has.
                keeps_IsSummed w w1 k b same (λ s c x. st s ∙ x)
                  (f.summed k b nothing (sym (bt k) ∙ has));
            small = λ k b has. f.small k b (sym (bt k) ∙ has);
          })
          (λ k i. byte_at-same trees w w1 k (bt k) (λ b j _. ap (λ c. c b j) same.clusters) i) bad

    module _ (w1 : World T) (ib : InodeBlock) (same : IsSame w w1)
        (g : WorldMapped trees contract m digest io good w1)
        (here : trees.find w1.inode.blocks_tree v ≡ some ib.block)
        (others : (k : ℕ)
          → k ≢ v
          → trees.find w1.inode.blocks_tree k ≡ trees.find w.inode.blocks_tree k)
        (there : trees.find w1.inode.blocks_sum_tree (sum_place w.sb.bsize v).0 ≡ some ib.sum_block)
        (off : ib.sum_off ≡ (sum_place w.sb.bsize v).1)
        (olds : (s c : ℕ)
          → trees.find w.inode.blocks_sum_tree s ≡ some c
          → trees.find w1.inode.blocks_sum_tree s ≡ some c) where
      small1 : Small trees contract m digest io good w1
      small1 k b e = elim (Bool-cases (k == v)) [
        | inl near ↦ subst (λ x. x < 2 ^ 61) (sym ((==_iff k v).0 near)) small
        | inr far ↦ f.small k b (sym (others k (λ x. true-false ((==_iff k v).1 x) far)) ∙ e)
      ]

      there1 : trees.find w1.inode.blocks_sum_tree (sum_place w1.sb.bsize v).0 ≡ some ib.sum_block
      there1 =
          ap (λ x. trees.find w1.inode.blocks_sum_tree (sum_place x v).0) same.kept.bsize ∙ there

      off1 : ib.sum_off ≡ (sum_place w1.sb.bsize v).1
      off1 = off ∙ ap (λ x. (sum_place x v).1) (sym same.kept.bsize)

      but1 : SummedBut trees contract m digest io good w1 (some v)
      but1 k b ne e =
          let apart : k ≢ v = λ x. ne (ap some (sym x)) in
          keeps_IsSummed w w1 k b same olds (f.summed k b nothing (sym (others k apart) ∙ e))

      abbrev w2 : World T
      w2 = written trees contract m digest io good w1 v ib g small1 here there1 off1

      created_runs : block_write trees digest io w1 ib ≡ (w2, success)
      created_runs = written-runs trees contract m digest io good w1 v ib g small1 here there1 off1

      created_says :
          CreateSays trees contract m digest io good w v
            (record { world = w2; errno = success; ib = ib })
      created_says =
          created (IsSame-IsKin same w2.clusters)
            (record {
              mapped = g;
              summed =
                  written-SummedBut trees contract m digest io good w1 v ib g small1 here there1
                    off1 but1;
              small = small1;
            })
            (record { here = here; there = there1; off = off1 })
            (λ k i ne.
              byte_at-same trees w w2 k (others k ne)
                (λ b j has.
                  written-other trees contract m digest io good w1 v ib g small1 here there1 off1 b
                    j
                    (not_sum trees contract m digest io good w1 v ib g small1 here there1 off1 k b
                      (others k ne ∙ has))
                  ∙ ap (λ c. c b j) same.clusters)
                i)
            (λ b i has. absurd (nothing (sym unmapped ∙ has)))

    create_new :
        (o : BlockOut T)
        → alloc_block trees digest io w v ≡ some o
        → AllocatedSays trees contract m digest io good w v o
        → (r : BlockOut T) × (block_read_create trees digest io w v ≡ some r)
          × CreateSays trees contract m digest io good w v r
    unfolding block_read_create
    create_new _ run (not_allocated {w' = w1} {e} same g bt st bad) = (
      record { world = w1; errno = e; ib = no_block },
      rw (block_read-missing trees contract m digest io good w v unmapped)
          (bind-some _ run (rw bad refl)),
      not_created_says w1 e same g bt st bad,
    )
    create_new _ run (allocated {w' = w1} {ib} same g ev evs off here others there olds) = (
      record { world = w2 w1 ib same g here others there off olds; errno = success; ib = ib },
      rw (block_read-missing trees contract m digest io good w v unmapped)
          (bind-some _ run (rw (created_runs w1 ib same g here others there off olds) refl)),
      created_says w1 ib same g here others there off olds,
    )

  -- On a disk without errors and a sound inode, the read of a block that creates it if need be never stops: it returns 0 with the block at hand, every byte that was mapped as before; or it returns an error and no byte has changed. The inode is sound again.
  pub block_read_create-CreateSays :
      (w : World T) (v : ℕ)
      → Sound w
      → v < 2 ^ 61
      → v < contract.limit
      → (o : BlockOut T) × (block_read_create trees digest io w v ≡ some o)
        × CreateSays trees contract m digest io good w v o
  block_read_create-CreateSays w v f small low =
      elim (Option-cases (trees.find w.inode.blocks_tree v)) [
        | inr (b, has) ↦ create_found trees contract m digest io good w v b f has
        | inl unmapped ↦
            let (o, run, says) =
              alloc_block-AllocatedSays trees contract m digest io good w v f.mapped low unmapped in
            create_new w v f small unmapped o run says
      ]
