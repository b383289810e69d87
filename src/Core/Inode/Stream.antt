-- ===== src/Core/Inode/Stream.antt =====
-- `nkfs_inode_io_buf` writing: the blocks one after the other.
use ddfs.Base.{
  ℕ, ◌+◌, ◌*◌, ◌/◌, ◌%◌, ◌≤◌, ◌<◌, ◌≡◌, refl, sym, ap, ◌∙◌, ◌⊎◌, inl, inr, Bool, true, false, some,
  List, [], arith, ltb, ◌==◌, if◌then◌else◌, ltb→lt, ltb→ge, ==_iff, Bool-cases,
}
use ddfs.Core.Balloc.{Errno, Io, is_ok, success}
use ddfs.Core.Inode.{Trees, World}
use ddfs.Core.Inode.Buf.{BufOut}
use ddfs.Core.Inode.Contract.{Contract}
use ddfs.Core.Inode.Created.{byte_at}
use ddfs.Core.Inode.Mapped.{true-false}
use ddfs.Core.Inode.Position.{byte_in, byte_in-at, split_position, IsFilled}
use ddfs.Core.Inode.Written.{IsWritten}
use ddfs.Core.Super.Format.{IsGood}

module _ {T : Type 0} (trees : Trees T) (contract : Contract trees) (m : ℕ) (digest : List ℕ → ℕ)
    (io : Io) (good : IsGood io) where
  abbrev Filled : ℕ → World T → ℕ → (ℕ → ℕ) → ℕ → World T → Type 0
  Filled bsize w p buf n w' = IsFilled trees contract m digest io good bsize w p buf n w'

  -- A write within a block is one from its position on.
  pub written-IsFilled :
      (bsize : ℕ) (w w' : World T) (v off : ℕ) (buf : ℕ → ℕ) (len : ℕ)
      → w.sb.bsize ≡ bsize
      → 0 < bsize
      → 0 < len
      → off + len ≤ bsize
      → IsWritten trees contract m digest io good w v off buf len w'
      → Filled bsize w (v * bsize + off) buf len w'
  written-IsFilled bsize w w' v off buf len e pos some_len inside r = record {
    file = r.file;
    same_bsize = r.bsize ∙ e;
    readers = r.readers;
    grows = (sizes (ltb w.inode.size (v * bsize + off + len)) refl size).0;
    reaches = λ _. (sizes (ltb w.inode.size (v * bsize + off + len)) refl size).1;
    bounded = (sizes (ltb w.inode.size (v * bsize + off + len)) refl size).2;
    within = λ i h.
        ap (byte_in trees bsize w') (assoc i)
        ∙ byte_in-at trees bsize w' v (off + i) (omega (arith, h))
        ∙ r.within i h;
    around = λ q x out has.
        let (split, low) = split_position bsize q pos in
        outside q x (q / bsize) (q % bsize) split low out has;
  }
    where
      size : w'.inode.size ≡ (
          if ltb w.inode.size (v * bsize + off + len) then v * bsize + off + len else w.inode.size)
      size =
          r.size
          ∙ ap
              (λ x.
                if ltb w.inode.size (v * x + off + len) then v * x + off + len else w.inode.size)
              e

      sizes :
          (b : Bool)
          → ltb w.inode.size (v * bsize + off + len) ≡ b
          → w'.inode.size ≡ (if b then v * bsize + off + len else w.inode.size)
          → (w.inode.size ≤ w'.inode.size)
            × (v * bsize + off + len ≤ w'.inode.size)
            × ((w'.inode.size ≡ w.inode.size) ⊎ (w'.inode.size ≤ v * bsize + off + len))
      sizes true lt s = (
        omega (arith, ltb→lt w.inode.size (v * bsize + off + len) lt),
        omega arith,
        inr (omega arith),
      )
      sizes false ge s =
          (omega arith, omega (arith, ltb→ge w.inode.size (v * bsize + off + len) ge), inl s)

      assoc : (i : ℕ) → v * bsize + off + i ≡ v * bsize + (off + i)
      assoc i = omega arith

      outside :
          (q x k i : ℕ)
          → q ≡ k * bsize + i
          → i < bsize
          → (q < v * bsize + off) ⊎ (v * bsize + off + len ≤ q)
          → byte_at trees w k i ≡ some x
          → byte_at trees w' k i ≡ some x
      outside q x k i split low out has = elim (Bool-cases (k == v)) [
        | inr far ↦ r.beside k i (λ f. true-false ((==_iff k v).1 f) far) ∙ has
        | inl near ↦
            let same = (==_iff k v).0 near in
            ap (λ y. byte_at trees w' y i) same
            ∙ r.around i x (side (ap (λ y. y * bsize) same) out)
                (ap (λ y. byte_at trees w y i) (sym same) ∙ has)
      ]
        where
          side :
              k * bsize ≡ v * bsize
              → (q < v * bsize + off) ⊎ (v * bsize + off + len ≤ q)
              → (i < off) ⊎ (off + len ≤ i)
          side f (inl h) = inl (omega arith)
          side f (inr h) = inr (omega arith)

  -- What the loop leaves: all is written, or a first part is and there is an error.
  pub data StreamSays (bsize : ℕ) (w : World T) (p : ℕ) (buf : ℕ → ℕ) (n : ℕ)
      : BufOut T → Type 0 where
    all_written :
        {w' : World T}
        → Filled bsize w p buf n w'
        → StreamSays bsize w p buf n
            (record { world = w'; errno = success; count = n; eof = false; bytes = [] })
    part_written :
        {w' : World T} {e : Errno} (a count : ℕ)
        → a ≤ n
        → Filled bsize w p buf a w'
        → is_ok e ≡ false
        → StreamSays bsize w p buf n
            (record { world = w'; errno = e; count = count; eof = false; bytes = [] })
