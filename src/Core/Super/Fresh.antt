-- ===== src/Core/Super/Fresh.antt =====
-- A device after `nkfs_sb_format`, and what `nkfs_sb_load` makes of its header.
use ddfs.Base.{
  ℕ, ◌+◌, ◌/◌, ◌≤◌, ◌<◌, ◌≡◌, refl, sym, ap, ◌∙◌, ◌≢◌, inl, inr, Bool, true, false, ◌||◌, some,
  List, arith, ltb, ◌==◌, ltb→ge, ==_iff, Bool-cases, bind-some, u64,
}
use ddfs.Core.Balloc.{Sb, Errno, Io, Out, bm_clear, block_bm_bit, success}
use ddfs.Core.Balloc.Alloc.{IsAlloc, block_alloc-IsAlloc, alloc_taken, alloc_full}
use ddfs.Core.Balloc.Blocks.{Kept, Kept-trans, Kept-IsBitmap}
use ddfs.Core.Balloc.Position.{IsBitmap, bit_of}
use ddfs.Core.Super.{
  fill_header, sb_check, Dev, sb_create_new, mark_loop, node_size, node_guard, new_root, put_header,
  sb_format,
}
use ddfs.Core.Super.Format.{IsGood, UsedBelow, used_fits, mark_loop-low, bm_clear-frees}
use ddfs.Core.Super.Geometry.{
  IsLaidOut, IsSuitable, new_sb, sb_create_new-runs, new_sb-IsLaidOut, node_guard-in,
}
use ddfs.Crt.ObjId.{ObjId}
use native.Mathlib.Nat.{mod-eq_of_lt}
use mathlib.Core.Path.{subst}

-- A superblock as formatting leaves it: the header's block, the bitmap and the root of the tree of inodes
-- are in use, and nothing else.
pub record IsFresh (dev : Dev) (id : ObjId) (m : ℕ) (sb : Sb) : Type 0 where
  pub laid_out : IsLaidOut sb m
  pub id_kept : sb.id ≡ id
  pub size_kept : sb.size ≡ dev.dev_size
  pub bsize_kept : sb.bsize ≡ dev.dev_bsize
  pub blocks : sb.nr_blocks ≡ dev.dev_size / dev.dev_bsize
  pub root_above : 1 + sb.bm_blocks ≤ sb.inodes_tree_block
  pub root_below : sb.inodes_tree_block < sb.nr_blocks
  pub in_use :
      (b : ℕ)
      → b < sb.nr_blocks
      → bit_of sb b ≡ some (ltb b (1 + sb.bm_blocks) || b == sb.inodes_tree_block)
  pub counted : sb.used_blocks ≡ 2 + sb.bm_blocks
  pub going : sb.stopping ≡ false

-- The root of a tree that is made while the blocks below `n` are in use.
record IsRooted (sb sb' : Sb) (n b : ℕ) : Type 0 where
  kept : Kept sb sb'
  above : n ≤ b
  below : b < sb.nr_blocks
  in_use : (c : ℕ) → c < sb.nr_blocks → bit_of sb' c ≡ some (ltb c n || c == b)
  counted : sb'.used_blocks ≡ n + 1

module _ (io : Io) (good : IsGood io) where
  rooted :
      (sb : Sb) (m n : ℕ) (o : Out (Errno × ℕ))
      → IsBitmap sb m
      → n < sb.nr_blocks
      → UsedBelow sb n
      → sb.used_blocks ≡ n
      → IsAlloc sb o
      → (sb' : Sb) × (b : ℕ) × (o ≡ record { after = sb'; value = (success, b) })
        × IsRooted sb sb' n b
  rooted sb m n _ g lt below counted (alloc_full full) =
      absurd (differ (sym (below n lt) ∙ full n lt))
    where
      differ : some (ltb n n) ≢ some true
      differ e = ground arith
  rooted sb m n _ g lt below counted
        (alloc_taken {after} {block} inside free now others used kept) =
      (
        after,
        block,
        refl,
        record {
          kept = kept;
          above = ltb→ge block n (from_some (sym (below block inside) ∙ free));
          below = inside;
          in_use = at;
          counted = used ∙ rw counted (mod-eq_of_lt (omega (arith, used_fits sb m g)));
        },
      )
    where
      from_some : {x y : Bool} → some x ≡ some y → x ≡ y
      from_some e = cc

      ne : {x : Bool} → x ≡ false → x ≢ true
      ne e f = cc

      or_true : (x : Bool) → (x || true) ≡ true
      or_true true = refl
      or_true false = refl

      or_false : (x : Bool) → (x || false) ≡ x
      or_false true = refl
      or_false false = refl

      at : (c : ℕ) → c < sb.nr_blocks → bit_of after c ≡ some (ltb c n || c == block)
      at c h = elim (Bool-cases (c == block)) [
        | inl e ↦
            ap (bit_of after) ((==_iff c block).0 e)
            ∙ now
            ∙ ap some (sym (rw e (or_true (ltb c n))))
        | inr e ↦
            others c (λ f. ne e ((==_iff c block).1 f))
            ∙ below c h
            ∙ ap some (sym (rw e (or_false (ltb c n))))
      ]

  new_root-IsRooted :
      (sb : Sb) (m n : ℕ)
      → IsBitmap sb m
      → n < sb.nr_blocks
      → UsedBelow sb n
      → sb.used_blocks ≡ n
      → 0 < n
      → node_size ≤ sb.bsize
      → (sb' : Sb) × (b : ℕ) × (new_root io sb ≡ some (record { after = sb'; value = some b }))
        × IsRooted sb sb' n b
  unfolding new_root
  new_root-IsRooted sb m n g lt below counted pos wide =
      let (o, e, says) = block_alloc-IsAlloc io sb m g good.get good.sync in
      let (sb', b, f, r) = rooted sb m n o g lt below counted says in
      (
        sb',
        b,
        bind-some _ (e ∙ ap some f)
            (bind-some _ (guard sb' b r) (rw (good.get b, good.sync b) refl)),
        r,
      )
    where
      guard : (sb' : Sb) (b : ℕ) → IsRooted sb sb' n b → node_guard sb' b ≡ some tt
      guard sb' b r =
          node_guard-in sb' b (omega (arith, r.kept.bsize, wide))
            (λ z. omega (arith, z, r.above, pos)) (omega (arith, r.below, r.kept.nr_blocks))

unmoved : (sb : Sb) (b c : ℕ) → bit_of (record sb { inodes_tree_block = b }) c ≡ bit_of sb c
unfolding block_bm_bit
unmoved sb b c = refl

checked-Kept :
    (a b : Sb) (r : ℕ)
    → Kept a b
    → sb_check a ≡ success
    → sb_check (record b { inodes_tree_block = r }) ≡ success
unfolding sb_check
checked-Kept a b r k e = rw (k.magic, k.version, k.size, k.bsize, k.bm_block, k.bm_blocks) e

Kept-IsLaidOut :
    (a b : Sb) (m r : ℕ)
    → Kept a b
    → IsLaidOut a m
    → IsLaidOut (record b { inodes_tree_block = r }) m
Kept-IsLaidOut a b m r k l = record {
  bitmap = record {
    pages = k.bsize ∙ l.bitmap.pages;
    one_page = l.bitmap.one_page;
    word = l.bitmap.word;
    covers = rw (k.size, k.bsize, k.bm_blocks) l.bitmap.covers;
    fits = rw (k.bm_blocks) l.bitmap.fits;
  };
  at_one = k.bm_block ∙ l.at_one;
  room = rw (k.size, k.bsize, k.bm_blocks) l.room;
  checked = checked-Kept a b r k l.checked;
}

-- The steps of a format that succeeds.
format_steps :
    (digest : List ℕ → ℕ) (io : Io) (dev : Dev) (id : ObjId) (new cleared marked after : Sb) (b : ℕ)
    → IsGood io
    → sb_create_new dev (some id) ≡ some (success, new)
    → bm_clear io new ≡ record { after = cleared; value = success }
    → mark_loop io 0 (u64 (cleared.bm_block + cleared.bm_blocks)) cleared
      ≡ some (record { after = marked; value = success })
    → new_root io marked ≡ some (record { after = after; value = some b })
    → sb_format digest io dev (some id)
      ≡ some (record {
        errno = success;
        sb = record after { inodes_tree_block = b };
        header = some (fill_header digest (record after { inodes_tree_block = b }));
      })
unfolding sb_format put_header
format_steps digest io dev id new cleared marked after b good made clear mark root =
    rw (sb_format, good.get 0)
      (bind-some _ made (
        rw (clear, clear)
          (bind-some _ mark (bind-some _ root (rw (put_header, good.sync 0) refl)))))

module _ (digest : List ℕ → ℕ) (io : Io) (dev : Dev) (id : ObjId) (m : ℕ) (good : IsGood io)
    (s : IsSuitable dev m) where
  fresh :
      (after : Sb) (b : ℕ)
      → (cleared marked : Sb) → Kept (new_sb dev m s id) cleared
      → Kept cleared marked
      → IsRooted marked after (1 + (new_sb dev m s id).bm_blocks) b
      → IsFresh dev id m (record after { inodes_tree_block = b })
  fresh after b cleared marked k l r =
      let all = Kept-trans (Kept-trans k l) r.kept in
      let to_marked = Kept-trans k l in
      record {
        laid_out = Kept-IsLaidOut (new_sb dev m s id) after m b all (new_sb-IsLaidOut dev m s id);
        id_kept = all.id;
        size_kept = all.size;
        bsize_kept = all.bsize;
        blocks = all.nr_blocks;
        root_above = rw (all.bm_blocks) r.above;
        root_below = rw (all.nr_blocks) (subst (λ x. b < x) to_marked.nr_blocks r.below);
        in_use = λ c h.
            unmoved after b c
            ∙ r.in_use c (subst (λ x. c < x) r.kept.nr_blocks h)
            ∙ ap (λ x. some (ltb c (1 + x) || c == b)) (sym all.bm_blocks);
        counted = r.counted ∙ rw (all.bm_blocks) (omega arith);
        going = all.stopping;
      }

  -- On a disk without errors and a device of whole blocks of whole pages, each block as large as
  -- a node of a tree at least, below 2^60 bytes, with room behind the header and the bitmap,
  -- formatting with a new id never stops and returns 0: the superblock has the size, the block
  -- size and the id, its bitmap has a bit for every block, the blocks in use are the header, the
  -- bitmap and the root of the tree of inodes, which stands behind them, they are counted, and
  -- the header is that of the superblock.
  pub sb_format-IsFresh :
      (sb : Sb) × (sb_format digest io dev (some id)
        ≡ some (record { errno = success; sb = sb; header = some (fill_header digest sb) }))
      × IsFresh dev id m sb
  sb_format-IsFresh =
      let new = new_sb dev m s id in
      let l = new_sb-IsLaidOut dev m s id in
      let (cleared, e, k, none_used, zero_count) = bm_clear-frees io new m good l.bitmap in
      let g = Kept-IsBitmap m k l.bitmap in
      let (marked, f, k', low_used, count) =
        mark_loop-low io m (1 + new.bm_blocks) cleared good g
          (rw (k.nr_blocks) (omega (arith, l.room))) none_used zero_count in
      let (after, b, h, r) =
        new_root-IsRooted io good marked m (1 + new.bm_blocks) (Kept-IsBitmap m k' g)
          (rw (k'.nr_blocks, k.nr_blocks) l.room) low_used count (omega arith)
          (rw (k'.bsize, k.bsize) s.node_fits) in
      (
        record after { inodes_tree_block = b },
        format_steps digest io dev id new cleared marked after b good
            (sb_create_new-runs dev m s id) e
            (ap (λ x. mark_loop io 0 x cleared) (loops cleared k) ∙ f) h,
        fresh after b cleared marked k k' r,
      )
    where
      loops :
          (c : Sb)
          → Kept (new_sb dev m s id) c
          → u64 (c.bm_block + c.bm_blocks) ≡ 1 + (new_sb dev m s id).bm_blocks
      loops c k =
          rw (k.bm_block, k.bm_blocks)
            (mod-eq_of_lt (
              omega (
                arith,
                (new_sb-IsLaidOut dev m s id).room,
                used_fits (new_sb dev m s id) m (new_sb-IsLaidOut dev m s id).bitmap,
              )))
