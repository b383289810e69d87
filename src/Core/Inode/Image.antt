-- ===== src/Core/Inode/Image.antt =====
-- The image of an inode on disk: nkfs_inode_to_on_disk and nkfs_inode_parse_on_disk.
use ddfs.Base.{
  ℕ, ◌≡◌, refl, sym, ap, ap₂, ◌∙◌, ◌≢◌, Bool, true, false, ◌&&◌, List, ◌==◌, if◌then◌else◌, ==_iff,
  ==-refl,
}
use ddfs.Core.Balloc.{Errno, is_ok, success, einval}
use ddfs.Core.Inode.{
  Inode, InodeDisk, inode_sig1, inode_sig2, disk_words, to_on_disk, parse_on_disk,
}
use ddfs.Core.Inode.Summed.{written}

module _ {T : Type 0} (digest : List ℕ → ℕ) (inode : Inode T) where
  -- What an accepted image gives the inode, and that it is the image of what comes out.
  pub record IsParsed (d : InodeDisk) (read : Inode T) : Type 0 where
    pub fields : read ≡ record inode {
      sig1 = d.sig1;
      ino = d.ino;
      size = d.size;
      blocks_tree_block = d.blocks_tree_block;
      blocks_sum_tree_block = d.blocks_sum_tree_block;
      sig2 = d.sig2;
    }
    pub image : to_on_disk digest read ≡ d

  abbrev fill : InodeDisk → Inode T
  fill d = record inode {
    sig1 = d.sig1;
    ino = d.ino;
    size = d.size;
    blocks_tree_block = d.blocks_tree_block;
    blocks_sum_tree_block = d.blocks_sum_tree_block;
    sig2 = d.sig2;
  }

  -- Every image that is written is accepted.
  pub parse_on_disk-to_on_disk :
      (written : Inode T)
      → parse_on_disk digest inode (to_on_disk digest written) ≡ (
        success,
        record inode {
          sig1 = inode_sig1;
          ino = written.ino;
          size = written.size;
          blocks_tree_block = written.blocks_tree_block;
          blocks_sum_tree_block = written.blocks_sum_tree_block;
          sig2 = inode_sig2;
        },
      )
  unfolding parse_on_disk to_on_disk
  parse_on_disk-to_on_disk written =
      rw (==-refl (digest (disk_words (to_on_disk digest written)))) refl

  accepted :
      (d : InodeDisk)
      → d.sig1 ≡ inode_sig1
      → d.sig2 ≡ inode_sig2
      → d.sum ≡ digest (disk_words d)
      → to_on_disk digest (fill d) ≡ d
  unfolding to_on_disk
  accepted d s1 s2 c =
      ap₂
        (λ x y. record d { sig1 = x; sum = digest (disk_words (record d { sig1 = x })); sig2 = y })
        (sym s1) (sym s2)
      ∙ ap (λ x. record d { sum = x }) (sym c)

  -- What the tests say, one after the other.
  parse_cases :
      (d : InodeDisk) (a b c : Bool)
      → (d.sig1 == inode_sig1) ≡ a
      → (d.sig2 == inode_sig2) ≡ b
      → (d.sum == digest (disk_words d)) ≡ c
      → parse_on_disk digest inode d
        ≡ (if a && (b && c) then (success, fill d) else (einval, inode))
  unfolding parse_on_disk
  parse_cases d true true true e f g = rw (e, f, g) refl
  parse_cases d true true false e f g = rw (e, f, g) refl
  parse_cases d true false c e f g = rw (e, f) refl
  parse_cases d false b c e f g = rw e refl

  -- An image of an inode that is accepted is the image that the inode which is read from it
  -- writes, and the inode differs from the one before only in the signatures, the id, the size
  -- and the blocks of its trees, which are those of the image.
  pub parse_on_disk-IsParsed :
      (d : InodeDisk) (read : Inode T)
      → parse_on_disk digest inode d ≡ (success, read)
      → IsParsed d read
  parse_on_disk-IsParsed d read e =
      go (d.sig1 == inode_sig1) (d.sig2 == inode_sig2) (d.sum == digest (disk_words d)) refl refl
        refl
    where
      ne : {i : Inode T} {A : Type 0} → ◌≡◌ {A = Errno × Inode T} (einval, i) (success, read) → A
      ne f = absurd (differ (ap (λ x. is_ok x.0) f))
        where
          differ : false ≢ true
          differ h = cc

      go :
          (a b c : Bool)
          → (d.sig1 == inode_sig1) ≡ a
          → (d.sig2 == inode_sig2) ≡ b
          → (d.sum == digest (disk_words d)) ≡ c
          → IsParsed d read
      go true true true f g h =
          let same = ap (λ x. x.1) (sym (parse_cases d true true true f g h) ∙ e) in
          record {
            fields = sym same;
            image =
                ap (to_on_disk digest) (sym same)
                ∙ accepted d ((==_iff d.sig1 inode_sig1).0 f) ((==_iff d.sig2 inode_sig2).0 g)
                    ((==_iff d.sum (digest (disk_words d))).0 h);
          }
      go true true false f g h = ne (sym (parse_cases d true true false f g h) ∙ e)
      go true false c f g h = ne (sym (parse_cases d true false c f g h) ∙ e)
      go false b c f g h = ne (sym (parse_cases d false b c f g h) ∙ e)
