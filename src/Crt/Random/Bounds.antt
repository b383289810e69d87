-- ===== src/Crt/Random/Bounds.antt =====
-- What the random numbers stay below, and when the loop ends.
use ddfs.Base.{
  ℕ, zero, suc, ◌+◌, ◌-◌, ◌*◌, ◌/◌, ◌%◌, ◌^◌, ◌≤◌, ◌<◌, ◌≡◌, refl, ◌∙◌, ◌⊎◌, inl, inr, false, some,
  arith, ltb, ◌==◌, ltb→lt, lt→ltb, ge→ltb, ne→==, Bool-cases, bind-some, u32,
}
use ddfs.Crt.Random.{land, log2_loop, log2_u32, reject_loop, rand_u32_up, rand_u32_min_max}
use native.Mathlib.Nat.{pow-suc, pow-le-pow_right, mod-eq_of_lt}
use mathlib.Core.Path.{subst}

pub land-le : (n a b : ℕ) → land n a b ≤ b
unfolding land
land-le zero a b = omega arith
land-le (suc n) a b = omega (arith, land-le n (a / 2) (b / 2), bit (a % 2) (b % 2) (omega arith))
  where
    bit : (x y : ℕ) → x < 2 → x * y ≤ y
    bit zero y h = omega arith
    bit (suc zero) y h = omega arith
    bit (suc (suc x)) y h = absurd (omega arith)

-- The number of bits: the loop ends with the least power of two above the value.
log2_loop-bits :
    (fuel val res : ℕ)
    → val < 2 ^ fuel
    → (n : ℕ) × (log2_loop fuel val res ≡ res + n) × (val < 2 ^ n) × ((2 ^ n ≤ 2 * val) ⊎ (n ≡ 0))
unfolding log2_loop
log2_loop-bits zero val res h = (0, omega arith, h, inr refl)
log2_loop-bits (suc fuel) val res h = elim (Bool-cases (ltb 0 val)) [
  | inr none_left ↦ (0, rw none_left (omega arith), ground arith, inr refl)
  | inl some_left ↦
      let (n, e, above, least) =
        log2_loop-bits fuel (val / 2) (res + 1) (omega (arith, pow-suc 2 fuel, h)) in
      (
        suc n,
        rw some_left (omega (arith, e)),
        omega (arith, pow-suc 2 n, above),
        inl (doubled val n (ltb→lt 0 val some_left) least),
      )
]
  where
    doubled : (val n : ℕ) → 0 < val → ((2 ^ n ≤ 2 * (val / 2)) ⊎ (n ≡ 0)) → 2 ^ suc n ≤ 2 * val
    doubled val n pos (inl le) = omega (arith, pow-suc 2 n, le)
    doubled val n pos (inr e) = rw e (omega arith)

-- For a positive number of 32 bits, 2 to the result is greater than the number and at most twice
-- the number.
pub log2_u32-bits :
    (val : ℕ) → 0 < val → val < 2 ^ 32 → (val < 2 ^ log2_u32 val) × (2 ^ log2_u32 val ≤ 2 * val)
unfolding log2_u32
log2_u32-bits val pos h =
    let (n, e, above, least) = log2_loop-bits 33 val 0 (omega arith) in
    let same : log2_loop 33 val 0 ≡ n = e ∙ omega arith in rw same (above, least_of n above least)
  where
    least_of : (n : ℕ) → val < 2 ^ n → ((2 ^ n ≤ 2 * val) ⊎ (n ≡ 0)) → 2 ^ n ≤ 2 * val
    least_of n above (inl le) = le
    least_of n above (inr e) = rw e (omega arith)

reject_loop-ends :
    (draw : ℕ → ℕ) (fuel mask up k i : ℕ)
    → i < fuel
    → land 32 (draw (k + i)) mask < up
    → (v : ℕ) × (reject_loop draw fuel mask up k ≡ some v) × (v < up)
unfolding reject_loop
reject_loop-ends draw zero mask up k i h good = absurd (omega arith)
reject_loop-ends draw (suc fuel) mask up k zero h good =
    (_, rw (lt→ltb _ _ first_good) refl, first_good)
  where
    first_good : land 32 (draw k) mask < up
    first_good = subst (λ x. land 32 (draw x) mask < up) (plus_zero) good
      where
        plus_zero : k + 0 ≡ k
        plus_zero = omega arith
reject_loop-ends draw (suc fuel) mask up k (suc i) h good =
    elim (Bool-cases (ltb (land 32 (draw k) mask) up)) [
      | inl here ↦ (_, rw here refl, ltb→lt _ _ here)
      | inr later ↦
          let (v, e, b) =
            reject_loop-ends draw fuel mask up (k + 1) i (omega arith)
              (subst (λ x. land 32 (draw x) mask < up) (plus_swap) good) in
          (v, rw later e, b)
    ]
  where
    plus_swap : k + suc i ≡ k + 1 + i
    plus_swap = omega arith

-- For a bound from 1 to 2^31 - 1, where one of the draws that the fuel allows gives, masked, a
-- number below the bound, the function returns, with a number below the bound.
pub rand_u32_up-lt :
    (draw : ℕ → ℕ) (fuel up i : ℕ)
    → 0 < up
    → up < 2 ^ 31
    → i < fuel
    → land 32 (draw i) (2 ^ log2_u32 up - 1) < up
    → (v : ℕ) × (rand_u32_up draw fuel up ≡ some v) × (v < up)
unfolding rand_u32_up
rand_u32_up-lt draw fuel up i pos small h good = elim (Bool-cases (land 32 up (up - 1) == 0)) [
  | inl power ↦ (
    u32 (land 64 (draw 0) (up - 1)),
    rw (ne→== up 0 (omega arith), power) refl,
    omega (arith, land-le 64 (draw 0) (up - 1)),
  )
  | inr other ↦
      let (v, e, b) = reject_loop-ends draw fuel (2 ^ log2_u32 up - 1) up 0 i h good' in
      (v, rw (ne→== up 0 (omega arith), other, shift_defined) e, b)
]
  where
    good' : land 32 (draw (0 + i)) (2 ^ log2_u32 up - 1) < up
    good' = subst (λ x. land 32 (draw x) (2 ^ log2_u32 up - 1) < up) zero_plus good
      where
        zero_plus : i ≡ 0 + i
        zero_plus = omega arith

    shift_defined : ltb 31 (log2_u32 up) ≡ false
    shift_defined = elim (Bool-cases (ltb 31 (log2_u32 up))) [
      | inr fine ↦ fine
      | inl big ↦ absurd (
          omega (
            arith,
            pow-le-pow_right {n = 2} (omega arith) (ltb→lt 31 (log2_u32 up) big),
            (log2_u32-bits up pos (omega arith)).1,
          ))
    ]

-- For a range of 32-bit numbers of fewer than 2^31 values, where one of the draws that the fuel
-- allows gives, masked, a number below the count of values, the random number exists and lies
-- between the bounds, which it may reach.
pub rand_u32_min_max-within :
    (draw : ℕ → ℕ) (fuel min max i : ℕ)
    → min ≤ max
    → max < 2 ^ 32
    → max - min + 1 < 2 ^ 31
    → i < fuel
    → land 32 (draw i) (2 ^ log2_u32 (max - min + 1) - 1) < max - min + 1
    → (v : ℕ) × (rand_u32_min_max draw fuel min max ≡ some v) × (min ≤ v) × (v ≤ max)
unfolding rand_u32_min_max
rand_u32_min_max-within draw fuel min max i le top width h good = elim (Bool-cases (min == max)) [
  | inl same ↦ (min, rw (ge→ltb max min le, same) refl, omega arith, le)
  | inr apart ↦
      let (v, e, b) = rand_u32_up-lt draw fuel (max - min + 1) i (omega arith) width h good in
      (
        u32 (min + v),
        rw (ge→ltb max min le, apart, mod-eq_of_lt width') (bind-some _ e refl),
        omega arith,
        omega arith,
      )
]
  where
    width' : max - min + 1 < 2 ^ 32
    width' = omega arith
