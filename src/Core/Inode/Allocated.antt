-- ===== src/Core/Inode/Allocated.antt =====
-- What `nkfs_inode_block_alloc` does on a disk without errors, whether it succeeds or not.
use ddfs.Base.{
  ℕ, ◌<◌, ◌≡◌, refl, sym, ap, ap₂, ◌∙◌, ◌≢◌, inl, inr, Bool, true, false, none, some, List, ◌==◌,
  if◌then◌else◌, ==_iff, Bool-cases, bind-some,
}
use ddfs.Core.Balloc.{Sb, Errno, Io, is_ok, success}
use ddfs.Core.Inode.{Trees, World}
use ddfs.Core.Inode.Block.{InodeBlock, no_block, sum_place, BlockOut, alloc_undo, alloc_open}
use ddfs.Core.Inode.Contract.{Contract}
use ddfs.Core.Inode.Grown.{insert-Inserted}
use ddfs.Core.Inode.Mapped.{true-false}
use ddfs.Core.Inode.Undo.{
  IsSame, IsSame-trans, moved_to, moved_to-IsSame, WorldMapped, WorldSpare, SumsBack, IsUndone,
  undo_block, undo_inserted,
}
use ddfs.Core.Super.Format.{IsGood}
use mathlib.Core.Path.{subst}

module _ {T : Type 0} (trees : Trees T) (contract : Contract trees) (m : ℕ) (digest : List ℕ → ℕ)
    (io : Io) (good : IsGood io) where
  abbrev vsum : World T → ℕ → ℕ
  vsum w v = (sum_place w.sb.bsize v).0

  -- Either the block is allocated and mapped, with a block for its checksum, or nothing has changed that the inode reads.
  pub data AllocatedSays (w : World T) (v : ℕ) : BlockOut T → Type 0 where
    allocated :
        {w' : World T} {ib : InodeBlock}
        → IsSame w w'
        → WorldMapped trees contract m digest io good w'
        → ib.vblock ≡ v
        → ib.vsum_block ≡ (sum_place w.sb.bsize v).0
        → ib.sum_off ≡ (sum_place w.sb.bsize v).1
        → trees.find w'.inode.blocks_tree v ≡ some ib.block
        → ((other : ℕ)
            → other ≢ v
            → trees.find w'.inode.blocks_tree other ≡ trees.find w.inode.blocks_tree other)
        → trees.find w'.inode.blocks_sum_tree (sum_place w.sb.bsize v).0 ≡ some ib.sum_block
        → ((s c : ℕ)
            → trees.find w.inode.blocks_sum_tree s ≡ some c
            → trees.find w'.inode.blocks_sum_tree s ≡ some c)
        → AllocatedSays w v (record { world = w'; errno = success; ib = ib })
    not_allocated :
        {w' : World T} {e : Errno}
        → IsSame w w'
        → WorldMapped trees contract m digest io good w'
        → ((k : ℕ) → trees.find w'.inode.blocks_tree k ≡ trees.find w.inode.blocks_tree k)
        → ((s : ℕ) → trees.find w'.inode.blocks_sum_tree s ≡ trees.find w.inode.blocks_sum_tree s)
        → is_ok e ≡ false
        → AllocatedSays w v (record { world = w'; errno = e; ib = no_block })

  -- The same of the part that comes once the blocks are there; a new entry for the checksum is taken back on an error.
  pub data OpenSays (w : World T) (ib : InodeBlock) (fresh : Bool) : BlockOut T → Type 0 where
    opened :
        {w' : World T}
        → IsSame w w'
        → WorldMapped trees contract m digest io good w'
        → trees.find w'.inode.blocks_tree ib.vblock ≡ some ib.block
        → ((other : ℕ)
            → other ≢ ib.vblock
            → trees.find w'.inode.blocks_tree other ≡ trees.find w.inode.blocks_tree other)
        → w'.inode.blocks_sum_tree ≡ w.inode.blocks_sum_tree
        → OpenSays w ib fresh (record { world = w'; errno = success; ib = ib })
    not_opened :
        {w' : World T} {e : Errno}
        → IsSame w w'
        → WorldMapped trees contract m digest io good w'
        → ((k : ℕ) → trees.find w'.inode.blocks_tree k ≡ trees.find w.inode.blocks_tree k)
        → SumsBack trees contract m digest io good fresh w.inode.blocks_sum_tree
            w'.inode.blocks_sum_tree ib.vsum_block
        → is_ok e ≡ false
        → OpenSays w ib fresh (record { world = w'; errno = e; ib = no_block })

  pub undo_flags :
      (w : World T) (ib : InodeBlock) (fresh : Bool) (e : Errno)
      → WorldMapped trees contract m digest io good w
      → WorldSpare trees contract m digest io good w ib.block
      → trees.find w.inode.blocks_sum_tree ib.vsum_block ≡ some ib.sum_block
      → (o : BlockOut T) × (alloc_undo trees digest io w ib fresh fresh e ≡ some o)
        × IsUndone trees contract m digest io good w ib fresh e o
  undo_flags w ib true e g s has = undo_inserted trees contract m digest io good w ib e g s has
  undo_flags w ib false e g s has = undo_block trees contract m digest io good w ib e g s

  undone-OpenSays :
      (w w1 : World T) (ib : InodeBlock) (fresh : Bool) (e : Errno) (o : BlockOut T)
      → IsSame w w1
      → w1.inode.blocks_sum_tree ≡ w.inode.blocks_sum_tree
      → ((k : ℕ) → trees.find w1.inode.blocks_tree k ≡ trees.find w.inode.blocks_tree k)
      → is_ok e ≡ false
      → IsUndone trees contract m digest io good w1 ib fresh e o
      → OpenSays w ib fresh o
  undone-OpenSays w w1 ib fresh e o same sum bt bad u = subst (OpenSays w ib fresh) back (
      not_opened (IsSame-trans same u.same) u.mapped (λ k. ap (λ t. trees.find t k) u.bt ∙ bt k)
        (subst
          (λ t.
            SumsBack trees contract m digest io good fresh t o.world.inode.blocks_sum_tree
              ib.vsum_block)
          sum u.sums)
        bad)
    where
      back : record { world = o.world; errno = e; ib = no_block } ≡ o
      back =
          ap₂ (λ x y. record { world = o.world; errno = x; ib = y }) (sym u.errno) (sym u.ib_none)

  pub alloc_open-OpenSays :
      (w : World T) (ib : InodeBlock) (fresh : Bool)
      → WorldMapped trees contract m digest io good w
      → WorldSpare trees contract m digest io good w ib.block
      → ib.vblock < contract.limit
      → trees.find w.inode.blocks_tree ib.vblock ≡ none
      → trees.find w.inode.blocks_sum_tree ib.vsum_block ≡ some ib.sum_block
      → (o : BlockOut T) × (alloc_open trees digest io w ib fresh ≡ some o) × OpenSays w ib fresh o
  unfolding alloc_open
  alloc_open-OpenSays w ib fresh g s low unmapped has =
      let (o, run, ins) = insert-Inserted trees contract m g ib.vblock ib.block s low unmapped in
      let w1 = moved_to w o.after o.value.1 w.inode.blocks_sum_tree in
      let same = moved_to-IsSame w o.after o.value.1 w.inode.blocks_sum_tree ins.kept in
      elim (Bool-cases (is_ok o.value.0)) [
        | inl ok ↦ (
          record { world = w1; errno = success; ib = ib },
          rw (good.get ib.block, good.get ib.sum_block) (bind-some _ run (rw ok refl)),
          opened same ins.mapped (ins.here ∙ ap (λ x. if x then some ib.block else none) ok)
              ins.there refl,
        )
        | inr bad ↦
            let (o', run', u) = undo_flags w1 ib fresh o.value.0 ins.mapped (ins.back bad) has in
            (
              o',
              rw (good.get ib.block, good.get ib.sum_block) (bind-some _ run (rw bad run')),
              undone-OpenSays w w1 ib fresh o.value.0 o' same refl
                  (λ k. elim (Bool-cases (k == ib.vblock)) [
                    | inl here ↦
                        ap (trees.find o.value.1) ((==_iff k ib.vblock).0 here)
                        ∙ ins.here
                        ∙ ap (λ x. if x then some ib.block else none) bad
                        ∙ sym unmapped
                        ∙ ap (trees.find w.inode.blocks_tree) (sym ((==_iff k ib.vblock).0 here))
                    | inr far ↦ ins.there k (λ f. true-false ((==_iff k ib.vblock).1 f) far)
                  ])
                  bad u,
            )
      ]

  -- The state once the blocks are there, back to the start of the allocation.
  pub from_open :
      (w w1 : World T) (v : ℕ) (ib : InodeBlock) (fresh : Bool) (o : BlockOut T)
      → IsSame w w1
      → ib.vblock ≡ v
      → ib.vsum_block ≡ (sum_place w.sb.bsize v).0
      → ib.sum_off ≡ (sum_place w.sb.bsize v).1
      → w1.inode.blocks_tree ≡ w.inode.blocks_tree
      → trees.find w1.inode.blocks_sum_tree ib.vsum_block ≡ some ib.sum_block
      → ((s c : ℕ)
          → trees.find w.inode.blocks_sum_tree s ≡ some c
          → trees.find w1.inode.blocks_sum_tree s ≡ some c)
      → ((t : T)
          → SumsBack trees contract m digest io good fresh w1.inode.blocks_sum_tree t ib.vsum_block
          → (s : ℕ) → trees.find t s ≡ trees.find w.inode.blocks_sum_tree s)
      → OpenSays w1 ib fresh o
      → AllocatedSays w v o
  from_open w w1 v ib fresh _ same e f h bt has more back (opened {w'} s g here there st) =
      allocated (IsSame-trans same s) g e f h (ap (trees.find w'.inode.blocks_tree) (sym e) ∙ here)
        (λ other ne. there other (λ x. ne (x ∙ e)) ∙ ap (λ t. trees.find t other) bt)
        (ap₂ trees.find st (sym f) ∙ has) (λ s c x. ap (λ t. trees.find t s) st ∙ more s c x)
  from_open w w1 v ib fresh _ same e f h bt has more back (not_opened {w'} s g t sums bad) =
      not_allocated (IsSame-trans same s) g (λ k. t k ∙ ap (λ x. trees.find x k) bt)
        (back w'.inode.blocks_sum_tree sums) bad

  pub from_undo :
      (w w1 : World T) (v : ℕ) (ib : InodeBlock) (e : Errno) (o : BlockOut T)
      → IsSame w w1
      → w1.inode.blocks_tree ≡ w.inode.blocks_tree
      → ((s : ℕ) → trees.find w1.inode.blocks_sum_tree s ≡ trees.find w.inode.blocks_sum_tree s)
      → is_ok e ≡ false
      → IsUndone trees contract m digest io good w1 ib false e o
      → AllocatedSays w v o
  from_undo w w1 v ib e o same bt st bad u = subst (AllocatedSays w v) back (
      not_allocated (IsSame-trans same u.same) u.mapped (λ k. ap (λ t. trees.find t k) (u.bt ∙ bt))
        (λ s. u.sums s ∙ st s) bad)
    where
      back : record { world = o.world; errno = e; ib = no_block } ≡ o
      back =
          ap₂ (λ x y. record { world = o.world; errno = x; ib = y }) (sym u.errno) (sym u.ib_none)

  -- The entry of a checksum that was not there has been put in.
  module _ (w : World T) (sb : Sb) (t : T) (vs c : ℕ)
      (no_sum : trees.find w.inode.blocks_sum_tree vs ≡ none)
      (there : (s : ℕ) → s ≢ vs → trees.find t s ≡ trees.find w.inode.blocks_sum_tree s) where
    nothing : {x : ℕ} → none ≢ some x
    nothing e = cc

    pub old_sums :
        (s x : ℕ) → trees.find w.inode.blocks_sum_tree s ≡ some x → trees.find t s ≡ some x
    old_sums s x e =
        there s (λ f. nothing (sym no_sum ∙ ap (trees.find w.inode.blocks_sum_tree) (sym f) ∙ e))
        ∙ e

    pub at_both :
        (u : T)
        → trees.find u vs ≡ none
        → ((s : ℕ) → s ≢ vs → trees.find u s ≡ trees.find t s)
        → (s : ℕ) → trees.find u s ≡ trees.find w.inode.blocks_sum_tree s
    at_both u here rest s = elim (Bool-cases (s == vs)) [
      | inl same ↦
          ap (trees.find u) ((==_iff s vs).0 same)
          ∙ here
          ∙ sym no_sum
          ∙ ap (trees.find w.inode.blocks_sum_tree) (sym ((==_iff s vs).0 same))
      | inr far ↦
          rest s (λ f. true-false ((==_iff s vs).1 f) far)
          ∙ there s (λ f. true-false ((==_iff s vs).1 f) far)
    ]
