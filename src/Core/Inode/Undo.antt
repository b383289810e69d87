-- ===== src/Core/Inode/Undo.antt =====
-- A failed `nkfs_inode_block_alloc` gives back what it has taken.
use ddfs.Base.{ℕ, ◌≡◌, refl, sym, ap, ◌∙◌, ◌≢◌, Bool, true, false, none, some, List, bind-some}
use ddfs.Core.Balloc.{Sb, Errno, Io}
use ddfs.Core.Balloc.Blocks.{Kept, Kept-trans}
use ddfs.Core.Inode.{Trees, World}
use ddfs.Core.Inode.Block.{InodeBlock, no_block, BlockOut, alloc_undo}
use ddfs.Core.Inode.Contract.{Contract, IsMapped, IsSpare}
use ddfs.Core.Inode.Grown.{delete-Deleted}
use ddfs.Core.Inode.Mapped.{flip, flip-IsSpare, block_free-IsSpare}
use ddfs.Core.Super.Format.{IsGood}

-- What the operations on blocks leave as it is.
pub record IsSame {T : Type 0} (w w' : World T) : Type 0 where
  pub kept : Kept w.sb w'.sb
  pub clusters : w'.clusters ≡ w.clusters
  pub images : w'.images ≡ w.images
  pub ino : w'.inode.ino ≡ w.inode.ino
  pub block : w'.inode.block ≡ w.inode.block
  pub size : w'.inode.size ≡ w.inode.size
  pub tree_block : w'.inode.blocks_tree_block ≡ w.inode.blocks_tree_block
  pub sum_tree_block : w'.inode.blocks_sum_tree_block ≡ w.inode.blocks_sum_tree_block
  pub dirty : w'.inode.dirty ≡ w.inode.dirty
  pub readers : w'.inode.readers ≡ w.inode.readers

pub IsSame-trans : {T : Type 0} {a b c : World T} → IsSame a b → IsSame b c → IsSame a c
IsSame-trans k l = record {
  kept = Kept-trans k.kept l.kept;
  clusters = l.clusters ∙ k.clusters;
  images = l.images ∙ k.images;
  ino = l.ino ∙ k.ino;
  block = l.block ∙ k.block;
  size = l.size ∙ k.size;
  tree_block = l.tree_block ∙ k.tree_block;
  sum_tree_block = l.sum_tree_block ∙ k.sum_tree_block;
  dirty = l.dirty ∙ k.dirty;
  readers = l.readers ∙ k.readers;
}

-- A world with another superblock and other trees.
abbrev pub moved_to : {T : Type 0} → World T → Sb → T → T → World T
moved_to w sb bt st = record w {
  sb = sb;
  inode = record w.inode { blocks_tree = bt; blocks_sum_tree = st };
}

pub moved_to-IsSame :
    {T : Type 0} (w : World T) (sb : Sb) (bt st : T) → Kept w.sb sb → IsSame w (moved_to w sb bt st)
moved_to-IsSame w sb bt st k = record {
  kept = k;
  clusters = refl;
  images = refl;
  ino = refl;
  block = refl;
  size = refl;
  tree_block = refl;
  sum_tree_block = refl;
  dirty = refl;
  readers = refl;
}

module _ {T : Type 0} (trees : Trees T) (contract : Contract trees) (m : ℕ) (digest : List ℕ → ℕ)
    (io : Io) (good : IsGood io) where
  abbrev pub WorldMapped : World T → Type 0
  WorldMapped w = IsMapped trees contract m w.sb w.inode.blocks_tree w.inode.blocks_sum_tree

  abbrev pub WorldSpare : World T → ℕ → Type 0
  WorldSpare w b = IsSpare trees contract m w.sb w.inode.blocks_tree w.inode.blocks_sum_tree b

  -- The tree of checksums has lost its entry for `vs`, if that was new, and no other.
  abbrev pub SumsBack : Bool → T → T → ℕ → Type 0
  SumsBack true st st' vs =
      (trees.find st' vs ≡ none) × ((s : ℕ) → s ≢ vs → trees.find st' s ≡ trees.find st s)
  SumsBack false st st' vs = (s : ℕ) → trees.find st' s ≡ trees.find st s

  pub record IsUndone (w : World T) (ib : InodeBlock) (inserted : Bool) (e : Errno) (o : BlockOut T)
      : Type 0 where
    pub same : IsSame w o.world
    pub mapped : WorldMapped o.world
    pub bt : o.world.inode.blocks_tree ≡ w.inode.blocks_tree
    pub sums : SumsBack inserted w.inode.blocks_sum_tree o.world.inode.blocks_sum_tree ib.vsum_block
    pub errno : o.errno ≡ e
    pub ib_none : o.ib ≡ no_block

  pub undo_block :
      (w : World T) (ib : InodeBlock) (e : Errno)
      → WorldMapped w
      → WorldSpare w ib.block
      → (o : BlockOut T) × (alloc_undo trees digest io w ib false false e ≡ some o)
        × IsUndone w ib false e o
  unfolding alloc_undo
  undo_block w ib e g s =
      let (f, run, k, g', rest) = block_free-IsSpare trees contract m io good g s in
      (
        record {
          world = moved_to w f.after w.inode.blocks_tree w.inode.blocks_sum_tree;
          errno = e;
          ib = no_block;
        },
        bind-some _ run refl,
        record {
          same = moved_to-IsSame w f.after w.inode.blocks_tree w.inode.blocks_sum_tree k;
          mapped = g';
          bt = refl;
          sums = λ s. refl;
          errno = refl;
          ib_none = refl;
        },
      )

  pub undo_both :
      (w : World T) (ib : InodeBlock) (e : Errno)
      → WorldMapped w
      → WorldSpare w ib.block
      → WorldSpare w ib.sum_block
      → ib.block ≢ ib.sum_block
      → (o : BlockOut T) × (alloc_undo trees digest io w ib true false e ≡ some o)
        × IsUndone w ib false e o
  unfolding alloc_undo
  undo_both w ib e g s t ne =
      let (f, run, k, g', rest) = block_free-IsSpare trees contract m io good g t in
      let (f', run', k', g'', _) =
        block_free-IsSpare trees contract m io good g' (rest ib.block ne s) in
      (
        record {
          world = moved_to w f'.after w.inode.blocks_tree w.inode.blocks_sum_tree;
          errno = e;
          ib = no_block;
        },
        bind-some _ (bind-some _ run refl) (bind-some _ run' refl),
        record {
          same =
              moved_to-IsSame w f'.after w.inode.blocks_tree w.inode.blocks_sum_tree
                (Kept-trans k k');
          mapped = g'';
          bt = refl;
          sums = λ s. refl;
          errno = refl;
          ib_none = refl;
        },
      )

  pub undo_inserted :
      (w : World T) (ib : InodeBlock) (e : Errno)
      → WorldMapped w
      → WorldSpare w ib.block
      → trees.find w.inode.blocks_sum_tree ib.vsum_block ≡ some ib.sum_block
      → (o : BlockOut T) × (alloc_undo trees digest io w ib true true e ≡ some o)
        × IsUndone w ib true e o
  unfolding alloc_undo
  undo_inserted w ib e g s has =
      let (d, gone, del) =
        delete-Deleted trees contract m (flip trees contract m g) ib.vsum_block ib.sum_block has in
      let h = flip trees contract m del.mapped in
      let (f, run, k, g', rest) =
        block_free-IsSpare trees contract m io good h (flip-IsSpare trees contract m del.back) in
      let (f', run', k', g'', _) = block_free-IsSpare trees contract m io good g' (
        rest ib.block (λ e. s.unneeded.no_sum ib.vsum_block (has ∙ ap some (sym e)))
          (flip-IsSpare trees contract m (del.spare ib.block (flip-IsSpare trees contract m s)))) in
      (
        record {
          world = moved_to w f'.after w.inode.blocks_tree d.value.1;
          errno = e;
          ib = no_block;
        },
        bind-some _ (bind-some _ gone refl)
            (bind-some _ (bind-some _ run refl) (bind-some _ run' refl)),
        record {
          same =
              moved_to-IsSame w f'.after w.inode.blocks_tree d.value.1
                (Kept-trans (Kept-trans del.kept k) k');
          mapped = g'';
          bt = refl;
          sums = (del.here, del.there);
          errno = refl;
          ib_none = refl;
        },
      )
