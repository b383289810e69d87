-- ===== src/Core/Inode/Position.antt =====
-- The bytes of an inode by their position in the file.
use ddfs.Base.{
  ℕ, ◌+◌, ◌-◌, ◌*◌, ◌/◌, ◌%◌, ◌≤◌, ◌<◌, ◌≡◌, refl, sym, ap, ap₂, ◌∙◌, ◌⊎◌, inl, inr, Option, some,
  List, arith, ltb, ltb→lt, ltb→ge, Bool-cases,
}
use ddfs.Core.Balloc.{Io}
use ddfs.Core.Inode.{Trees, World}
use ddfs.Core.Inode.Contract.{Contract}
use ddfs.Core.Inode.Created.{byte_at}
use ddfs.Core.Inode.Grow.{IsFile}
use ddfs.Core.Super.Format.{IsGood}
use native.Mathlib.Nat.{
  mod-eq_of_lt, mul_comm, div-add-mod, mod-lt, div-eq_of_lt, add-mul-div_left,
  add-mul-mod_self_left,
}

-- The byte at a position, where blocks have `bsize` bytes.
abbrev pub byte_in : {T : Type 0} → Trees T → ℕ → World T → ℕ → Option ℕ
byte_in trees bsize w q = byte_at trees w (q / bsize) (q % bsize)

pub row_of : (bsize v i : ℕ) → i < bsize → (v * bsize + i) / bsize ≡ v
row_of bsize v i h =
    ap (λ x. x / bsize) turn ∙ add-mul-div_left i v pos ∙ rw (div-eq_of_lt h) (omega arith)
  where
    pos : 0 < bsize
    pos = omega arith

    turn : v * bsize + i ≡ i + bsize * v
    turn = omega (arith, mul_comm v bsize)

pub column_of : (bsize v i : ℕ) → i < bsize → (v * bsize + i) % bsize ≡ i
column_of bsize v i h = ap (λ x. x % bsize) turn ∙ add-mul-mod_self_left i bsize v ∙ mod-eq_of_lt h
  where
    turn : v * bsize + i ≡ i + bsize * v
    turn = omega (arith, mul_comm v bsize)

pub byte_in-at :
    {T : Type 0} (trees : Trees T) (bsize : ℕ) (w : World T) (v i : ℕ)
    → i < bsize
    → byte_in trees bsize w (v * bsize + i) ≡ byte_at trees w v i
byte_in-at trees bsize w v i h = ap₂ (byte_at trees w) (row_of bsize v i h) (column_of bsize v i h)

pub split_position :
    (bsize q : ℕ) → 0 < bsize → (q ≡ (q / bsize) * bsize + q % bsize) × (q % bsize < bsize)
split_position bsize q pos =
    (omega (arith, div-add-mod q bsize, mul_comm bsize (q / bsize)), mod-lt q pos)

module _ {T : Type 0} (trees : Trees T) (contract : Contract trees) (m : ℕ) (digest : List ℕ → ℕ)
    (io : Io) (good : IsGood io) where
  -- A write of `n` bytes from position `p` on, as a reader of the file sees it.
  pub record IsFilled (bsize : ℕ) (w : World T) (p : ℕ) (buf : ℕ → ℕ) (n : ℕ) (w' : World T)
      : Type 0 where
    pub file : IsFile trees contract m digest io good w'
    pub same_bsize : w'.sb.bsize ≡ bsize
    pub readers : w'.inode.readers ≡ w.inode.readers
    pub grows : w.inode.size ≤ w'.inode.size
    pub reaches : 0 < n → p + n ≤ w'.inode.size
    pub bounded : (w'.inode.size ≡ w.inode.size) ⊎ (w'.inode.size ≤ p + n)
    pub within : (i : ℕ) → i < n → byte_in trees bsize w' (p + i) ≡ some (buf i)
    pub around :
        (q x : ℕ)
        → (q < p) ⊎ (p + n ≤ q)
        → byte_in trees bsize w q ≡ some x
        → byte_in trees bsize w' q ≡ some x

  pub IsFilled-nothing :
      (bsize : ℕ) (w : World T) (p : ℕ) (buf : ℕ → ℕ)
      → IsFile trees contract m digest io good w
      → w.sb.bsize ≡ bsize
      → IsFilled bsize w p buf 0 w
  IsFilled-nothing bsize w p buf f e = record {
    file = f;
    same_bsize = e;
    readers = refl;
    grows = omega arith;
    reaches = λ h. absurd (omega arith);
    bounded = inl refl;
    within = λ i h. absurd (omega arith);
    around = λ q x _ has. has;
  }

  pub IsFilled-then :
      (bsize : ℕ) (w w1 w2 : World T) (p : ℕ) (buf : ℕ → ℕ) (a b : ℕ)
      → IsFilled bsize w p buf a w1
      → IsFilled bsize w1 (p + a) (λ i. buf (a + i)) b w2
      → IsFilled bsize w p buf (a + b) w2
  IsFilled-then bsize w w1 w2 p buf a b f g = record {
    file = g.file;
    same_bsize = g.same_bsize;
    readers = g.readers ∙ f.readers;
    grows = omega (arith, f.grows, g.grows);
    reaches = λ h. far h;
    bounded = bound f.bounded g.bounded;
    within = λ i h. here i h;
    around = λ q x out has. g.around q x (after q out) (f.around q x (before q out) has);
  }
    where
      far : 0 < a + b → p + (a + b) ≤ w2.inode.size
      far h = elim (Bool-cases (ltb 0 b)) [
        | inl some_left ↦ omega (arith, g.reaches (ltb→lt 0 b some_left))
        | inr none_left ↦
            omega (
              arith,
              ltb→ge 0 b none_left,
              f.reaches (omega (arith, ltb→ge 0 b none_left)),
              g.grows,
            )
      ]

      bound :
          (w1.inode.size ≡ w.inode.size) ⊎ (w1.inode.size ≤ p + a)
          → (w2.inode.size ≡ w1.inode.size) ⊎ (w2.inode.size ≤ p + a + b)
          → (w2.inode.size ≡ w.inode.size) ⊎ (w2.inode.size ≤ p + (a + b))
      bound (inl x) (inl y) = inl (y ∙ x)
      bound (inr x) (inl y) = inr (omega arith)
      bound x (inr y) = inr (omega arith)

      after : (q : ℕ) → (q < p) ⊎ (p + (a + b) ≤ q) → (q < p + a) ⊎ (p + a + b ≤ q)
      after q (inl h) = inl (omega arith)
      after q (inr h) = inr (omega arith)

      before : (q : ℕ) → (q < p) ⊎ (p + (a + b) ≤ q) → (q < p) ⊎ (p + a ≤ q)
      before q (inl h) = inl h
      before q (inr h) = inr (omega arith)

      late : (i : ℕ) → a ≤ i → (p + a + (i - a) ≡ p + i) × (a + (i - a) ≡ i)
      late i h = (omega arith, omega arith)

      here : (i : ℕ) → i < a + b → byte_in trees bsize w2 (p + i) ≡ some (buf i)
      here i h = elim (Bool-cases (ltb i a)) [
        | inl early ↦
            g.around (p + i) (buf i) (inl (omega (arith, ltb→lt i a early)))
              (f.within i (ltb→lt i a early))
        | inr l ↦
            ap (byte_in trees bsize w2) (sym (late i (ltb→ge i a l)).0)
            ∙ g.within (i - a) (omega (arith, ltb→ge i a l))
            ∙ ap (λ x. some (buf x)) (late i (ltb→ge i a l)).1
      ]
