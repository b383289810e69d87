-- ===== src/Core/Inode/Sums.antt =====
-- The checksums of an inode's blocks: where they stand, and that each block agrees with its own.
use ddfs.Base.{
  ℕ, zero, suc, ◌+◌, ◌-◌, ◌*◌, ◌/◌, ◌%◌, ◌^◌, ◌≤◌, ◌<◌, ◌≡◌, refl, sym, ap, ap₂, ◌∙◌, ◌≢◌, ◌⊎◌, inl,
  inr, Bool, true, false, ◌&&◌, arith, ltb, leb, ◌==◌, if◌then◌else◌, ltb→lt, ltb→ge, ne→==,
  ==-refl, Bool-cases, u64,
}
use ddfs.Core.Inode.Block.{sum_place, sum_byte, put_sum, same_sum}
use native.Mathlib.Nat.{mod-eq_of_lt, div-add-mod, mod-lt}

-- Checksums that share a block are eight bytes apart at least.
pub sum_place-apart :
    (bsize v v' : ℕ)
    → 0 < bsize
    → bsize < 2 ^ 32
    → v < 2 ^ 61
    → v' < 2 ^ 61
    → v ≢ v'
    → (sum_place bsize v).0 ≡ (sum_place bsize v').0
    → ((sum_place bsize v).1 + 8 ≤ (sum_place bsize v').1)
      ⊎ ((sum_place bsize v').1 + 8 ≤ (sum_place bsize v).1)
sum_place-apart bsize v v' pos word small small' ne same = elim (Bool-cases (ltb v v')) [
  | inl lt ↦ inl (
      rw (low v small, low v' small')
        (omega (arith, ltb→lt v v' lt, whole v small, whole v' small', same_row)))
  | inr ge ↦ inr (
      rw (low v small, low v' small')
        (omega (arith, ltb→ge v v' ge, differ, whole v small, whole v' small', same_row)))
]
  where
    exact : (x : ℕ) → x < 2 ^ 61 → u64 (x * 8) ≡ x * 8
    exact x h = mod-eq_of_lt (omega arith)

    low : (x : ℕ) → x < 2 ^ 61 → (sum_place bsize x).1 ≡ x * 8 % bsize
    low x h = rw (exact x h) (mod-eq_of_lt (omega (arith, mod-lt (x * 8) pos)))

    row : (x : ℕ) → x < 2 ^ 61 → (sum_place bsize x).0 ≡ x * 8 / bsize
    row x h = rw (exact x h) refl

    whole : (x : ℕ) → x < 2 ^ 61 → bsize * (x * 8 / bsize) + x * 8 % bsize ≡ x * 8
    whole x h = omega (arith, div-add-mod (x * 8) bsize)

    same_row : bsize * (v * 8 / bsize) ≡ bsize * (v' * 8 / bsize)
    same_row = ap (λ q. bsize * q) (sym (row v small) ∙ same ∙ row v' small')

    differ : v ≢ v'
    differ = ne

pub same_sum-ext :
    (f g : ℕ → ℕ) (off v n : ℕ)
    → ((i : ℕ) → i < n → f (off + i) ≡ g (off + i))
    → same_sum f off v n ≡ same_sum g off v n
unfolding same_sum
same_sum-ext f g off v zero h = refl
same_sum-ext f g off v (suc n) h =
    ap₂ (λ x y. x && y == sum_byte v n) (same_sum-ext f g off v n (λ i l. h i (omega arith)))
      (h n (omega arith))

-- What has just been written is found to be the same.
pub same_sum-put :
    (clusters : ℕ → ℕ → ℕ) (c off v n : ℕ)
    → n ≤ 8
    → same_sum (put_sum clusters c off v c) off v n ≡ true
unfolding same_sum
same_sum-put clusters c off v zero h = refl
same_sum-put clusters c off v (suc n) h =
    rw (same_sum-put clusters c off v n (omega arith), ==-refl c, inside, back)
      (==-refl (sum_byte v n))
  where
    inside : (leb off (off + n) && ltb (off + n) (off + 8)) ≡ true
    inside = ground arith

    back : off + n - off ≡ n
    back = omega arith

-- Bytes that a checksum does not cover stay.
pub put_sum-other :
    (clusters : ℕ → ℕ → ℕ) (c off v x k : ℕ)
    → (x ≢ c) ⊎ ((k < off) ⊎ (off + 8 ≤ k))
    → put_sum clusters c off v x k ≡ clusters x k
put_sum-other clusters c off v x k (inl ne) = rw (ne→== x c ne) refl
put_sum-other clusters c off v x k (inr out) = aside (x == c) (leb off k && ltb k (off + 8)) outside
  where
    outside : (leb off k && ltb k (off + 8)) ≡ false
    outside = ground (arith, out)

    aside :
        (p q : Bool)
        → q ≡ false
        → (if p && q then sum_byte v (k - off) else clusters x k) ≡ clusters x k
    aside true q e = rw e refl
    aside false q e = refl
