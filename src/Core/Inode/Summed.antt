-- ===== src/Core/Inode/Summed.antt =====
-- The checksums agree with the blocks: what keeps this, and what brings it about.
use ddfs.Base.{
  ℕ, ◌+◌, ◌^◌, ◌≤◌, ◌<◌, ◌≡◌, refl, sym, ap, ◌∙◌, ◌≢◌, ◌⊎◌, inl, inr, true, Option, none, some,
  List, arith, ◌==◌, ==_iff, Bool-cases, tab, tab-ext,
}
use ddfs.Core.Balloc.{Io, success}
use ddfs.Core.Inode.{Trees, World}
use ddfs.Core.Inode.Block.{InodeBlock, sum_place, put_sum, same_sum, block_write}
use ddfs.Core.Inode.Contract.{Contract}
use ddfs.Core.Inode.Mapped.{true-false}
use ddfs.Core.Inode.Sums.{sum_place-apart, same_sum-ext, same_sum-put, put_sum-other}
use ddfs.Core.Inode.Undo.{WorldMapped}
use ddfs.Core.Super.Format.{IsGood}
use mathlib.Core.Path.{subst}

module _ {T : Type 0} (trees : Trees T) (contract : Contract trees) (m : ℕ) (digest : List ℕ → ℕ)
    (io : Io) (good : IsGood io) where
  -- The block `b` of `v` has a checksum, which agrees with its bytes.
  pub record IsSummed (w : World T) (v b : ℕ) : Type 0 where
    pub sum_block : ℕ
    pub found : trees.find w.inode.blocks_sum_tree (sum_place w.sb.bsize v).0 ≡ some sum_block
    pub agrees :
        same_sum
          (w.clusters sum_block)
          (sum_place w.sb.bsize v).1
          (digest (tab (w.clusters b) w.sb.bsize))
          8
        ≡ true

  -- So it is of all blocks that are not `but`.
  abbrev pub SummedBut : World T → Option ℕ → Type 0
  SummedBut w but =
      (v b : ℕ) → but ≢ some v → trees.find w.inode.blocks_tree v ≡ some b → IsSummed w v b

  abbrev pub Small : World T → Type 0
  Small w = (v b : ℕ) → trees.find w.inode.blocks_tree v ≡ some b → v < 2 ^ 61

  same_bytes : (f g : ℕ → ℕ) (n : ℕ) → ((k : ℕ) → f k ≡ g k) → digest (tab f n) ≡ digest (tab g n)
  same_bytes f g n h = ap digest (tab-ext f g n (λ i _. h i))

  pub IsSummed-move :
      (w w' : World T) (v b : ℕ)
      → w'.sb.bsize ≡ w.sb.bsize
      → (s : IsSummed w v b)
      → trees.find w'.inode.blocks_sum_tree (sum_place w.sb.bsize v).0 ≡ some s.sum_block
      → ((k : ℕ) → w'.clusters b k ≡ w.clusters b k)
      → ((i : ℕ)
          → i < 8
          → w'.clusters s.sum_block ((sum_place w.sb.bsize v).1 + i)
            ≡ w.clusters s.sum_block ((sum_place w.sb.bsize v).1 + i))
      → IsSummed w' v b
  IsSummed-move w w' v b size s has bytes words = record {
    sum_block = s.sum_block;
    found = rw size has;
    agrees =
        rw (size, same_bytes (w'.clusters b) (w.clusters b) w.sb.bsize bytes)
          (same_sum-ext (w'.clusters s.sum_block) (w.clusters s.sum_block)
              (sum_place w.sb.bsize v).1 (digest (tab (w.clusters b) w.sb.bsize)) 8 words
            ∙ s.agrees);
  }

  -- Writing the block of `v` with its checksum leaves all blocks with their checksums, if the others had them.
  module _ (w : World T) (v : ℕ) (ib : InodeBlock)
      (g : WorldMapped trees contract m digest io good w) (small : Small w)
      (here : trees.find w.inode.blocks_tree v ≡ some ib.block)
      (there : trees.find w.inode.blocks_sum_tree (sum_place w.sb.bsize v).0 ≡ some ib.sum_block)
      (off : ib.sum_off ≡ (sum_place w.sb.bsize v).1) where
    sum : ℕ
    sum = digest (tab (w.clusters ib.block) w.sb.bsize)

    abbrev pub written : World T
    written = record w {
      clusters =
          put_sum w.clusters ib.sum_block ib.sum_off
            (digest (tab (w.clusters ib.block) w.sb.bsize));
    }

    pub written-runs : block_write trees digest io w ib ≡ (written, success)
    unfolding block_write
    written-runs = rw (good.sync ib.block, good.sync ib.sum_block) refl

    pub written-other : (x k : ℕ) → x ≢ ib.sum_block → written.clusters x k ≡ w.clusters x k
    written-other x k ne =
        put_sum-other w.clusters ib.sum_block ib.sum_off
          (digest (tab (w.clusters ib.block) w.sb.bsize)) x k (inl ne)

    pub not_sum : (k b : ℕ) → trees.find w.inode.blocks_tree k ≡ some b → b ≢ ib.sum_block
    not_sum k b e f = g.data_sum k (sum_place w.sb.bsize v).0 b e (there ∙ ap some (sym f))

    own-IsSummed : IsSummed written v ib.block
    own-IsSummed = record {
      sum_block = ib.sum_block;
      found = there;
      agrees =
          rw
            (
              same_bytes (written.clusters ib.block) (w.clusters ib.block) w.sb.bsize
                  (λ k. written-other ib.block k (not_sum v ib.block here)),
              sym off,
            )
            (same_sum-put w.clusters ib.sum_block ib.sum_off
              (digest (tab (w.clusters ib.block) w.sb.bsize)) 8 (omega arith));
    }

    -- The checksum of another block stands aside of what is written.
    aside :
        (k : ℕ) (b : ℕ) (s : IsSummed w k b)
        → k ≢ v
        → trees.find w.inode.blocks_tree k ≡ some b
        → (i : ℕ) → i < 8
        → written.clusters s.sum_block ((sum_place w.sb.bsize k).1 + i)
          ≡ w.clusters s.sum_block ((sum_place w.sb.bsize k).1 + i)
    aside k b s ne e i h = elim (Bool-cases (s.sum_block == ib.sum_block)) [
      | inr far ↦
          written-other s.sum_block ((sum_place w.sb.bsize k).1 + i)
            (λ f. true-false ((==_iff s.sum_block ib.sum_block).1 f) far)
      | inl near ↦
          put_sum-other w.clusters ib.sum_block ib.sum_off
            (digest (tab (w.clusters ib.block) w.sb.bsize)) s.sum_block
            ((sum_place w.sb.bsize k).1 + i)
            (inr (
              outside (
                subst
                  (λ x. (x + 8 ≤ (sum_place w.sb.bsize k).1) ⊎ ((sum_place w.sb.bsize k).1 + 8 ≤ x))
                  (sym off)
                  (sum_place-apart w.sb.bsize v k pos word (small v ib.block here) (small k b e)
                    (λ f. ne (sym f))
                    (g.sum_once (sum_place w.sb.bsize v).0 (sum_place w.sb.bsize k).0 ib.sum_block
                      there (s.found ∙ ap some ((==_iff s.sum_block ib.sum_block).0 near)))))))
    ]
      where
        pos : 0 < w.sb.bsize
        pos = rw (g.bitmap.pages) (omega (arith, g.bitmap.one_page))

        word : w.sb.bsize < 2 ^ 32
        word = rw (g.bitmap.pages) g.bitmap.word

        outside : {a x : ℕ} → (x + 8 ≤ a) ⊎ (a + 8 ≤ x) → (a + i < x) ⊎ (x + 8 ≤ a + i)
        outside (inl low) = inr (omega arith)
        outside (inr high) = inl (omega arith)

    pub written-SummedBut : SummedBut w (some v) → SummedBut written none
    written-SummedBut others k b _ e = elim (Bool-cases (k == v)) [
      | inl same ↦
          subst (λ x. IsSummed written x b) (sym ((==_iff k v).0 same))
            (subst (IsSummed written v)
              (from_some
                (sym here ∙ ap (trees.find w.inode.blocks_tree) (sym ((==_iff k v).0 same)) ∙ e))
              own-IsSummed)
      | inr far ↦
          let s = others k b (λ f. true-false ((==_iff k v).1 (sym (from_some f))) far) e in
          IsSummed-move w written k b refl s s.found (λ i. written-other b i (not_sum k b e))
            (aside k b s (λ f. true-false ((==_iff k v).1 f) far) e)
    ]
      where
        from_some : {x y : ℕ} → some x ≡ some y → x ≡ y
        from_some f = cc
