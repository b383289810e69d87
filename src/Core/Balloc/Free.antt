-- ===== src/Core/Balloc/Free.antt =====
-- What `nkfs_balloc_block_mark` and `nkfs_balloc_block_free` do to a block of the bitmap.
use ddfs.Base.{
  ℕ, ◌+◌, ◌-◌, ◌*◌, ◌/◌, ◌%◌, ◌<◌, ◌≡◌, refl, sym, ap, ◌∙◌, ◌≢◌, inl, inr, Bool, true, false, not,
  Option, none, some, arith, leb, if◌then◌else◌, leb→le, Bool-cases, bug_on, bind-some, u64, sub64,
}
use ddfs.Core.Balloc.{
  Sb, Errno, Io, Out, Place, block_bm_bit, mark_place, block_mark, block_free, success, einval,
}
use ddfs.Core.Balloc.Blocks.{
  put, Kept, put-Kept, number, block_split, out_of_range, put_other, put_here,
}
use ddfs.Core.Balloc.Position.{IsBitmap, place, block_bm_bit-place, bit_of, bit_of-place}
use mathlib.Core.Path.{subst}

-- Marking a block whose bit is the other one.
pub data IsMarked (sb : Sb) (block : ℕ) (in_use : Bool) : Out Errno → Type 0 where
  marked :
      {after : Sb}
      → bit_of after block ≡ some in_use
      → ((other : ℕ) → other ≢ block → bit_of after other ≡ bit_of sb other)
      → after.used_blocks ≡ (if in_use then u64 (sb.used_blocks + 1) else sub64 sb.used_blocks 1)
      → after.read_locks ≡ sb.read_locks
      → after.sb_unlocks ≡ sb.sb_unlocks + 1
      → Kept sb after
      → IsMarked sb block in_use (record { after = after; value = success })

mark_known :
    (io : Io) (sb : Sb) (block : ℕ) (p : Place) (v : Bool)
    → block_bm_bit sb block ≡ some p
    → block_mark io sb block v ≡ mark_place io sb p v
unfolding block_mark
mark_known io sb block p v f = rw (block_mark, f) refl

module _ (io : Io) (sb : Sb) (m : ℕ) (g : IsBitmap sb m) (there : (c : ℕ) → io.get c ≡ true) where
  -- The state that marking leaves.
  abbrev mark_put : ℕ → ℕ → Bool → Sb
  mark_put j k v =
      put sb j k v (if v then u64 (sb.used_blocks + 1) else sub64 sb.used_blocks 1) sb.read_locks
        (sb.sb_unlocks + 1)

  place_index : (k : ℕ) → 8 * (8 * (k / 64)) + k % 64 ≡ k
  place_index k = omega arith

  bit_free : (v : Bool) (x : Bool) → x ≡ not v → bug_on (if v then x else not x) ≡ some tt
  bit_free true x e = rw e refl
  bit_free false x e = rw e refl

  mark_place-put :
      (q k : ℕ) (v : Bool)
      → sb.bits (sb.bm_block + q) k ≡ not v
      → mark_place io sb (place sb q k) v
        ≡ some
            (record { after = mark_put (sb.bm_block + q) k v; value = io.sync (sb.bm_block + q) })
  unfolding mark_place
  mark_place-put q k v e =
      rw (there (sb.bm_block + q), place_index k)
        (bind-some _ (bit_free v (sb.bits (sb.bm_block + q) k) e) refl)

  mark_place-stops :
      (q k : ℕ) → sb.bits (sb.bm_block + q) k ≡ false → mark_place io sb (place sb q k) false ≡ none
  unfolding mark_place
  mark_place-stops q k e = rw (there (sb.bm_block + q), place_index k, e) refl

  place_of :
      (block q k : ℕ)
      → block < sb.nr_blocks
      → block ≡ 32768 * (q * m) + k
      → k < 32768 * m
      → block_bm_bit sb block ≡ some (place sb q k)
  place_of block q k lt e h =
      ap (block_bm_bit sb) e ∙ block_bm_bit-place sb m q k g h (subst (λ x. x < sb.nr_blocks) e lt)

  read_bit :
      (block q k : ℕ) (v : Bool)
      → block < sb.nr_blocks
      → block ≡ 32768 * (q * m) + k
      → k < 32768 * m
      → bit_of sb block ≡ some v
      → sb.bits (sb.bm_block + q) k ≡ v
  read_bit block q k v lt e h now =
      from_some (sym (bit_of-place sb m q k g h (omega arith)) ∙ ap (bit_of sb) (sym e) ∙ now)
    where
      from_some : {x y : Bool} → some x ≡ some y → x ≡ y
      from_some f = cc

  mark_at :
      (block q k : ℕ) (v : Bool)
      → ((c : ℕ) → io.sync c ≡ success)
      → block < sb.nr_blocks
      → block ≡ 32768 * (q * m) + k
      → k < 32768 * m
      → bit_of sb block ≡ some (not v)
      → (o : Out Errno) × (block_mark io sb block v ≡ some o) × IsMarked sb block v o
  mark_at block q k v synced lt e h now = (
    record { after = mark_put (sb.bm_block + q) k v; value = success },
    (mark_known io sb block (place sb q k) v (place_of block q k lt e h)
        ∙ mark_place-put q k v was
        ∙ ap (λ x. some (record { after = mark_put (sb.bm_block + q) k v; value = x }))
            (synced (sb.bm_block + q))),
    marked
        (ap (bit_of (mark_put (sb.bm_block + q) k v)) (sym same)
          ∙ put_here sb m g (sb.bm_block + q) k v count sb.read_locks (sb.sb_unlocks + 1)
              (omega arith) h (subst (λ x. x < sb.nr_blocks) (sym same) lt))
        (λ other ne.
          put_other sb m g (sb.bm_block + q) k other v count sb.read_locks (sb.sb_unlocks + 1)
            (omega arith) (λ f. ne (f ∙ same)))
        refl refl refl (put-Kept sb (sb.bm_block + q) k v count sb.read_locks (sb.sb_unlocks + 1)),
  )
    where
      count : ℕ
      count = if v then u64 (sb.used_blocks + 1) else sub64 sb.used_blocks 1

      same : number sb m (sb.bm_block + q) k ≡ block
      same = ap (λ x. 32768 * (x * m) + k) (back) ∙ sym e
        where
          back : sb.bm_block + q - sb.bm_block ≡ q
          back = omega arith

      was : sb.bits (sb.bm_block + q) k ≡ not v
      was = read_bit block q k (not v) lt e h now

  free_stops :
      (block q k : ℕ)
      → block < sb.nr_blocks
      → block ≡ 32768 * (q * m) + k
      → k < 32768 * m
      → bit_of sb block ≡ some false
      → block_mark io sb block false ≡ none
  free_stops block q k lt e h now =
      mark_known io sb block (place sb q k) false (place_of block q k lt e h)
      ∙ mark_place-stops q k (read_bit block q k false lt e h now)

-- On such a bitmap and disk, marking a block below the count whose bit is the other one returns
-- 0, sets its bit to the new value and changes no other block's bit, counts it in or out, keeps
-- the read locks and releases the lock of the superblock once more than it took it.
pub block_mark-IsMarked :
    (io : Io) (sb : Sb) (m : ℕ) (block : ℕ) (in_use : Bool)
    → IsBitmap sb m
    → ((c : ℕ) → io.get c ≡ true)
    → ((c : ℕ) → io.sync c ≡ success)
    → block < sb.nr_blocks
    → bit_of sb block ≡ some (not in_use)
    → (o : Out Errno) × (block_mark io sb block in_use ≡ some o) × IsMarked sb block in_use o
block_mark-IsMarked io sb m block in_use g there synced lt now =
    let (q, k, e, h, _) = block_split sb m g block lt in
    mark_at io sb m g there block q k in_use synced lt e h now

-- What freeing a block does, by what the bitmap says of the block: refused, a stop, or done.
abbrev pub FreeSays : Io → Sb → ℕ → Option Bool → Type 0
FreeSays io sb block none = block_free io sb block ≡ some (record { after = sb; value = einval })
FreeSays io sb block (some false) = block_free io sb block ≡ none
FreeSays io sb block (some true) =
    (o : Out Errno) × (block_free io sb block ≡ some o) × IsMarked sb block false o

free_refused :
    (io : Io) (sb : Sb) (block : ℕ)
    → bit_of sb block ≡ none
    → block_free io sb block ≡ some (record { after = sb; value = einval })
unfolding block_free block_mark
free_refused io sb block e = go (block_bm_bit sb block) refl
  where
    bit_read :
        (p : Place)
        → block_bm_bit sb block ≡ some p
        → bit_of sb block ≡ some (sb.bits p.cluster (8 * p.long_off + p.bit))
    bit_read p f = rw (bit_of, f) refl

    refused :
        block_bm_bit sb block ≡ none
        → block_free io sb block ≡ some (record { after = sb; value = einval })
    refused f = rw (block_free, block_mark, f) refl

    ne_none : {x : Bool} → none ≢ some x
    ne_none f = cc

    go :
        (o : Option Place)
        → block_bm_bit sb block ≡ o
        → block_free io sb block ≡ some (record { after = sb; value = einval })
    go none f = refused f
    go (some p) f = absurd (ne_none (sym e ∙ bit_read p f))

pub in_range :
    (sb : Sb) (m : ℕ)
    → IsBitmap sb m
    → (block : ℕ) (v : Bool) → bit_of sb block ≡ some v
    → block < sb.nr_blocks
in_range sb m g block v e = elim (Bool-cases (leb sb.nr_blocks block)) [
  | inl out ↦ absurd (ne (sym (out_of_range sb m g sb block (leb→le sb.nr_blocks block out)) ∙ e))
  | inr inside ↦ ground arith
]
  where
    ne : none ≢ some v
    ne f = cc

-- On a bitmap with a bit for every block and a disk without errors, freeing a block out of range
-- returns -EINVAL and changes nothing, freeing a free block stops at a BUG_ON, and freeing a
-- block in use returns 0 and clears its bit and no other, with one block less counted, the read
-- locks as before and the lock of the superblock released once more.
pub block_free-FreeSays :
    (io : Io) (sb : Sb) (m : ℕ) (block : ℕ)
    → IsBitmap sb m
    → ((c : ℕ) → io.get c ≡ true)
    → ((c : ℕ) → io.sync c ≡ success)
    → FreeSays io sb block (bit_of sb block)
unfolding block_free
block_free-FreeSays io sb m block g there synced = go (bit_of sb block) refl
  where
    go : (o : Option Bool) → bit_of sb block ≡ o → FreeSays io sb block o
    go none e = free_refused io sb block e
    go (some true) e =
        block_mark-IsMarked io sb m block false g there synced (in_range sb m g block true e) e
    go (some false) e =
        let (q, k, f, h, _) = block_split sb m g block (in_range sb m g block false e) in
        free_stops io sb m g there block q k (in_range sb m g block false e) f h e
