-- ===== src/Core/Inode/Created.antt =====
-- `nkfs_inode_block_read_create` on an inode whose blocks agree with their checksums.
use ddfs.Base.{
  ℕ, ◌≡◌, refl, sym, ap, ◌∙◌, ◌≢◌, inl, inr, false, Option, none, some, List, Option-cases,
}
use ddfs.Core.Balloc.{Errno, Io, is_ok, success, enoent}
use ddfs.Core.Balloc.Blocks.{Kept, Kept-refl}
use ddfs.Core.Inode.{Trees, World}
use ddfs.Core.Inode.Block.{
  InodeBlock, no_block, sum_place, BlockOut, block_check_sum, block_read, block_read_create,
}
use ddfs.Core.Inode.Contract.{Contract}
use ddfs.Core.Inode.Summed.{IsSummed, SummedBut, Small}
use ddfs.Core.Inode.Undo.{IsSame, moved_to-IsSame, WorldMapped}
use ddfs.Core.Super.Format.{IsGood}

-- What an operation on blocks leaves as it is, beside the bytes of clusters.
pub record IsKin {T : Type 0} (w w' : World T) : Type 0 where
  pub kept : Kept w.sb w'.sb
  pub images : w'.images ≡ w.images
  pub ino : w'.inode.ino ≡ w.inode.ino
  pub block : w'.inode.block ≡ w.inode.block
  pub size : w'.inode.size ≡ w.inode.size
  pub tree_block : w'.inode.blocks_tree_block ≡ w.inode.blocks_tree_block
  pub sum_tree_block : w'.inode.blocks_sum_tree_block ≡ w.inode.blocks_sum_tree_block
  pub dirty : w'.inode.dirty ≡ w.inode.dirty
  pub readers : w'.inode.readers ≡ w.inode.readers

pub IsSame-IsKin :
    {T : Type 0} {w v : World T}
    → IsSame w v
    → (clusters : ℕ → ℕ → ℕ) → IsKin w (record v { clusters = clusters })
IsSame-IsKin s clusters = record {
  kept = s.kept;
  images = s.images;
  ino = s.ino;
  block = s.block;
  size = s.size;
  tree_block = s.tree_block;
  sum_tree_block = s.sum_tree_block;
  dirty = s.dirty;
  readers = s.readers;
}

pub IsKin-clusters :
    {T : Type 0} {w v : World T}
    → IsKin w v
    → (clusters : ℕ → ℕ → ℕ) → IsKin w (record v { clusters = clusters })
IsKin-clusters s clusters = record {
  kept = s.kept;
  images = s.images;
  ino = s.ino;
  block = s.block;
  size = s.size;
  tree_block = s.tree_block;
  sum_tree_block = s.sum_tree_block;
  dirty = s.dirty;
  readers = s.readers;
}

-- The byte `i` of block `v` of an inode, if it has the block.
abbrev pub byte_at : {T : Type 0} → Trees T → World T → ℕ → ℕ → Option ℕ
byte_at trees w v i = elim (trees.find w.inode.blocks_tree v) [
  | none ↦ none
  | some b ↦ some (w.clusters b i)
]

pub byte_at-some :
    {T : Type 0} (trees : Trees T) (w : World T) (k b i : ℕ)
    → trees.find w.inode.blocks_tree k ≡ some b
    → byte_at trees w k i ≡ some (w.clusters b i)
byte_at-some trees w k b i e = rw (byte_at, e) refl

pub byte_at-none :
    {T : Type 0} (trees : Trees T) (w : World T) (k i : ℕ)
    → trees.find w.inode.blocks_tree k ≡ none
    → byte_at trees w k i ≡ none
byte_at-none trees w k i e = rw (byte_at, e) refl

module _ {T : Type 0} (trees : Trees T) (w w' : World T) (k : ℕ) where
  -- The bytes of a block that is mapped as before and has not changed.
  pub byte_at-same :
      trees.find w'.inode.blocks_tree k ≡ trees.find w.inode.blocks_tree k
      → ((b i : ℕ) → trees.find w.inode.blocks_tree k ≡ some b → w'.clusters b i ≡ w.clusters b i)
      → (i : ℕ) → byte_at trees w' k i ≡ byte_at trees w k i
  byte_at-same e h i = elim (Option-cases (trees.find w.inode.blocks_tree k)) [
    | inl gone ↦ byte_at-none trees w' k i (e ∙ gone) ∙ sym (byte_at-none trees w k i gone)
    | inr (b, has) ↦
        byte_at-some trees w' k b i (e ∙ has)
        ∙ ap some (h b i has)
        ∙ sym (byte_at-some trees w k b i has)
  ]

module _ {T : Type 0} (trees : Trees T) (contract : Contract trees) (m : ℕ) (digest : List ℕ → ℕ)
    (io : Io) (good : IsGood io) where
  -- The blocks of an inode: each stands for one thing and agrees with its checksum.
  pub record IsSound (w : World T) : Type 0 where
    pub mapped : WorldMapped trees contract m digest io good w
    pub summed : SummedBut trees contract m digest io good w none
    pub small : Small trees contract m digest io good w

  -- The blocks of an inode that are at hand for block `v`.
  pub record IsOpen (w : World T) (v : ℕ) (ib : InodeBlock) : Type 0 where
    pub here : trees.find w.inode.blocks_tree v ≡ some ib.block
    pub there : trees.find w.inode.blocks_sum_tree (sum_place w.sb.bsize v).0 ≡ some ib.sum_block
    pub off : ib.sum_off ≡ (sum_place w.sb.bsize v).1

  -- Either the block is there and sound, and no byte that was mapped has changed, or the call has failed and no byte has changed.
  pub data CreateSays (w : World T) (v : ℕ) : BlockOut T → Type 0 where
    created :
        {w' : World T} {ib : InodeBlock}
        → IsKin w w'
        → IsSound w'
        → IsOpen w' v ib
        → ((k i : ℕ) → k ≢ v → byte_at trees w' k i ≡ byte_at trees w k i)
        → ((b i : ℕ)
            → trees.find w.inode.blocks_tree v ≡ some b
            → byte_at trees w' v i ≡ byte_at trees w v i)
        → CreateSays w v (record { world = w'; errno = success; ib = ib })
    not_created :
        {w' : World T} {e : Errno}
        → IsKin w w'
        → IsSound w'
        → ((k i : ℕ) → byte_at trees w' k i ≡ byte_at trees w k i)
        → is_ok e ≡ false
        → CreateSays w v (record { world = w'; errno = e; ib = no_block })

  -- The block that a sound inode has for `v`.
  abbrev pub block_of : (w : World T) (v b c : ℕ) → InodeBlock
  block_of w v b c = record {
    vblock = v;
    block = b;
    vsum_block = (sum_place w.sb.bsize v).0;
    sum_block = c;
    sum_off = (sum_place w.sb.bsize v).1;
  }

  pub block_read-found :
      (w : World T) (v b : ℕ)
      → trees.find w.inode.blocks_tree v ≡ some b
      → (s : IsSummed trees contract m digest io good w v b)
      → block_read trees digest io w v ≡ (success, block_of w v b s.sum_block)
  unfolding block_read
  block_read-found w v b e s = rw (block_read, e, s.found, good.get b, good.get s.sum_block) refl

  pub block_check_sum-passes :
      (w : World T) (v b : ℕ) (s : IsSummed trees contract m digest io good w v b)
      → block_check_sum trees digest io w (block_of w v b s.sum_block) ≡ success
  unfolding block_check_sum
  block_check_sum-passes w v b s = rw (s.agrees) refl

  pub block_read-missing :
      (w : World T) (v : ℕ)
      → trees.find w.inode.blocks_tree v ≡ none
      → block_read trees digest io w v ≡ (enoent, no_block)
  unfolding block_read
  block_read-missing w v e = rw (block_read, e) refl

  pub create_found :
      (w : World T) (v b : ℕ)
      → IsSound w
      → trees.find w.inode.blocks_tree v ≡ some b
      → (o : BlockOut T) × (block_read_create trees digest io w v ≡ some o) × CreateSays w v o
  unfolding block_read_create
  create_found w v b f e =
      let s = f.summed v b nothing e in
      (
        record { world = w; errno = success; ib = block_of w v b s.sum_block },
        rw (block_read-found w v b e s, block_check_sum-passes w v b s) refl,
        created
            (IsSame-IsKin
              (moved_to-IsSame w w.sb w.inode.blocks_tree w.inode.blocks_sum_tree (Kept-refl w.sb))
              w.clusters)
            f (record { here = e; there = s.found; off = refl }) (λ k i _. refl) (λ b i _. refl),
      )
    where
      nothing : {x : ℕ} → none ≢ some x
      nothing h = cc
