-- ===== src/Core/Super/Reload.antt =====
-- `nkfs_sb_load` after `nkfs_sb_format` on the same device.
use ddfs.Base.{ℕ, ◌/◌, ◌≡◌, sym, ap, ap₂, ◌∙◌, Bool, true, some, List, arith}
use ddfs.Core.Balloc.{Sb, Io, success}
use ddfs.Core.Super.{Dev, Formatted, sb_format, sb_load}
use ddfs.Core.Super.Format.{IsGood}
use ddfs.Core.Super.Fresh.{IsFresh, sb_format-IsFresh}
use ddfs.Core.Super.Geometry.{IsSuitable}
use ddfs.Core.Super.Load.{loaded, IsAcceptable, sb_load-fill}
use ddfs.Crt.ObjId.{ObjId}
use mathlib.Core.Path.{subst}

module _ (digest : List ℕ → ℕ) (io : Io) (root_there : ℕ → Bool) (dev : Dev) (id : ObjId)
    (m : ℕ) where
  -- The device with the bitmap that formatting leaves on it.
  abbrev pub left_by : Sb → Dev
  left_by sb = record dev { disk = sb.bits }

  fresh-IsAcceptable : (sb : Sb) → IsFresh dev id m sb → IsAcceptable (left_by sb) sb
  fresh-IsAcceptable sb fresh = record {
    checked = fresh.laid_out.checked;
    held = rw (fresh.size_kept) (omega arith);
    root_below = rw (fresh.size_kept, fresh.bsize_kept) (rw (fresh.blocks) at fresh.root_below);
  }

  fresh-loaded :
      (sb : Sb)
      → IsFresh dev id m sb
      → loaded (left_by sb) sb ≡ record sb { read_locks = λ _. 0; sb_unlocks = 0 }
  fresh-loaded sb fresh =
      ap₂ (λ n s. record sb { read_locks = λ _. 0; sb_unlocks = 0; nr_blocks = n; stopping = s })
        blocks (sym fresh.going)
    where
      blocks : sb.size / sb.bsize ≡ sb.nr_blocks
      blocks = rw (fresh.size_kept, fresh.bsize_kept) (sym fresh.blocks)

  -- On such a disk and device, what a format that has ended leaves on the disk is accepted when
  -- it is loaded, where the read of the root of the tree of inodes finds a node: the load never
  -- stops and returns 0, the superblock is the same, with its bitmap, and no lock is held.
  pub sb_format-sb_load :
      (f : Formatted)
      → IsGood io
      → IsSuitable dev m
      → sb_format digest io dev (some id) ≡ some f
      → root_there f.sb.inodes_tree_block ≡ true
      → sb_load digest io root_there (left_by f.sb) f.header
        ≡ some (success, record f.sb { read_locks = λ _. 0; sb_unlocks = 0 })
  sb_format-sb_load f good s e found =
      let (sb, made, fresh) = sb_format-IsFresh digest io dev id m good s in
      subst
        (λ x.
          root_there x.sb.inodes_tree_block ≡ true
          → sb_load digest io root_there (left_by x.sb) x.header
            ≡ some (success, record x.sb { read_locks = λ _. 0; sb_unlocks = 0 }))
        (from_some (sym made ∙ e))
        (λ there.
          sb_load-fill digest io root_there (left_by sb) sb (good.get 0)
            (fresh-IsAcceptable sb fresh) (λ z. omega (arith, z, fresh.root_above))
            (rw (fresh.bsize_kept) s.node_fits) there
          ∙ ap (λ x. some (success, x)) (fresh-loaded sb fresh))
        found
    where
      from_some : {x y : Formatted} → some x ≡ some y → x ≡ y
      from_some g = cc
