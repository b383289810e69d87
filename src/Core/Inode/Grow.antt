-- ===== src/Core/Inode/Grow.antt =====
-- The size of an inode after a write, and its image on disk.
use ddfs.Base.{
  ℕ, ◌≡◌, refl, ap, ◌∙◌, ◌≢◌, inl, inr, Bool, true, false, Option, some, List, [], arith, ltb, ◌==◌,
  if◌then◌else◌, ne→==, ==-refl, Bool-cases,
}
use ddfs.Core.Balloc.{Io, success}
use ddfs.Core.Inode.{InodeDisk, set_size, to_on_disk, Trees, World, inode_write, write_dirty}
use ddfs.Core.Inode.Buf.{grow}
use ddfs.Core.Inode.Contract.{Contract}
use ddfs.Core.Inode.Created.{IsKin, IsSound}
use ddfs.Core.Inode.Summed.{IsSummed-move}
use ddfs.Core.Super.Format.{IsGood}

-- The image on disk is that of the inode, which has nothing left to write.
pub record IsSaved {T : Type 0} (digest : List ℕ → ℕ) (w : World T) : Type 0 where
  pub placed : (w.inode.block == 0) ≡ false
  pub clean : w.inode.dirty ≡ false
  pub imaged : w.images w.inode.block ≡ some (to_on_disk digest w.inode)

pub IsKin-IsSaved :
    {T : Type 0} {digest : List ℕ → ℕ} {w w' : World T}
    → IsKin w w'
    → IsSaved digest w
    → IsSaved digest w'
unfolding to_on_disk
IsKin-IsSaved {digest = digest} {w' = w'} k s = record {
  placed = rw (k.block) s.placed;
  clean = k.dirty ∙ s.clean;
  imaged =
      rw (k.images, k.block)
        (s.imaged ∙ ap some (rw (k.ino, k.size, k.tree_block, k.sum_tree_block) refl));
}

module _ {T : Type 0} (trees : Trees T) (contract : Contract trees) (m : ℕ) (digest : List ℕ → ℕ)
    (io : Io) (good : IsGood io) where
  -- A sound inode that is saved.
  pub record IsFile (w : World T) : Type 0 where
    pub sound : IsSound trees contract m digest io good w
    pub saved : IsSaved digest w

  -- The head of the inode has no part in its blocks.
  abbrev pub headed : World T → (ℕ → Option InodeDisk) → ℕ → Bool → World T
  headed w images size dirty = record w {
    images = images;
    inode = record w.inode { size = size; dirty = dirty };
  }

  pub headed-IsSound :
      (w : World T) (images : ℕ → Option InodeDisk) (size : ℕ) (dirty : Bool)
      → IsSound trees contract m digest io good w
      → IsSound trees contract m digest io good (headed w images size dirty)
  headed-IsSound w images size dirty f = record {
    mapped = f.mapped;
    summed = λ v b ne e.
        let s = f.summed v b ne e in
        IsSummed-move trees contract m digest io good w (headed w images size dirty) v b refl s
          s.found (λ k. refl) (λ i _. refl);
    small = f.small;
  }

  -- What the end of a write leaves: the same blocks, and a size that is at least the end.
  pub record IsGrown (w w' : World T) (data_end : ℕ) : Type 0 where
    pub sb : w'.sb ≡ w.sb
    pub clusters : w'.clusters ≡ w.clusters
    pub tree : w'.inode.blocks_tree ≡ w.inode.blocks_tree
    pub size : w'.inode.size ≡ (if ltb w.inode.size data_end then data_end else w.inode.size)
    pub readers : w'.inode.readers ≡ w.inode.readers
    pub ino : w'.inode.ino ≡ w.inode.ino

  grows :
      (w : World T) (data_end len : ℕ)
      → IsFile w
      → w.inode.readers ≡ 0
      → ltb w.inode.size data_end ≡ true
      → (w' : World T) × (grow trees digest io w data_end len
          ≡ some (record { world = w'; errno = success; count = len; eof = false; bytes = [] }))
        × IsFile w'
        × IsGrown w w' data_end
  unfolding grow write_dirty inode_write set_size to_on_disk
  grows w data_end len f free more =
      let images : ℕ → Option InodeDisk = λ b.
        if b == w.inode.block
        then some (to_on_disk digest (record w.inode { size = data_end }))
        else w.images b in
      (
        headed w images data_end false,
        rw
            (
              free,
              more,
              ne→== w.inode.size data_end (λ e. differ e),
              f.saved.placed,
              good.get w.inode.block,
              good.sync w.inode.block,
            )
            refl,
        record {
          sound = headed-IsSound w images data_end false f.sound;
          saved = record {
            placed = f.saved.placed;
            clean = refl;
            imaged = rw (==-refl w.inode.block) refl;
          };
        },
        record {
          sb = refl;
          clusters = refl;
          tree = refl;
          size = rw more refl;
          readers = refl;
          ino = refl;
        },
      )
    where
      differ : w.inode.size ≢ data_end
      differ e = ground (arith, more)

  pub grow-IsGrown :
      (w : World T) (data_end len : ℕ)
      → IsFile w
      → w.inode.readers ≡ 0
      → (w' : World T) × (grow trees digest io w data_end len
          ≡ some (record { world = w'; errno = success; count = len; eof = false; bytes = [] }))
        × IsFile w'
        × IsGrown w w' data_end
  unfolding grow
  grow-IsGrown w data_end len f free = elim (Bool-cases (ltb w.inode.size data_end)) [
    | inl more ↦ grows w data_end len f free more
    | inr no_more ↦ (
      w,
      rw (free, no_more) refl,
      f,
      record {
        sb = refl;
        clusters = refl;
        tree = refl;
        size = rw no_more refl;
        readers = refl;
        ino = refl;
      },
    )
  ]
