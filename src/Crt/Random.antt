-- ===== src/Crt/Random.antt =====
-- crt/random.c: numbers below a bound by rejection. `draw k` is what the k-th call of `rand_u64`
-- returns.
pub mod Bounds
use ddfs.Base.{
  ℕ, zero, suc, ◌+◌, ◌-◌, ◌*◌, ◌/◌, ◌%◌, ◌^◌, Option, none, some, ltb, ◌==◌, if◌then◌else◌, ◌>>=◌,
  ◌>>◌, u32,
}

-- a & b on words of `n` bits
unfoldable pub land : ℕ → ℕ → ℕ → ℕ
land zero a b = 0
land (suc n) a b = a % 2 * (b % 2) + 2 * land n (a / 2) (b / 2)

-- The loop of `log2_u32`, on fuel.
unfoldable pub log2_loop : ℕ → ℕ → ℕ → ℕ
log2_loop zero val res = res
log2_loop (suc fuel) val res =
    let later = log2_loop fuel (val / 2) (res + 1) in if ltb 0 val then later else res

-- `log2_u32`; a value of 32 bits is 0 after 32 halvings.
unfoldable pub log2_u32 : ℕ → ℕ
log2_u32 val = log2_loop 33 val 0

-- The endless loop of `rand_u32_up` from draw `k` on, on fuel.
unfoldable pub reject_loop : (ℕ → ℕ) → ℕ → ℕ → ℕ → ℕ → Option ℕ
reject_loop draw zero mask up k = none
reject_loop draw (suc fuel) mask up k =
    let later = reject_loop draw fuel mask up (k + 1) in
    let v = land 32 (draw k) mask in if ltb v up then some v else later

-- `rand_u32_up`. A shift of the `int` 1 by 32 places has no defined value: `none`.
unfoldable pub rand_u32_up : (ℕ → ℕ) → ℕ → ℕ → Option ℕ
rand_u32_up draw fuel up =
    let log = log2_u32 up in
    if up == 0
    then some 0
    else (if land 32 up (up - 1) == 0
        then some (u32 (land 64 (draw 0) (up - 1)))
        else (if ltb 31 log then none else reject_loop draw fuel (2 ^ log - 1) up 0))

-- `rand_u32_min_max`
unfoldable pub rand_u32_min_max : (ℕ → ℕ) → ℕ → ℕ → ℕ → Option ℕ
rand_u32_min_max draw fuel min max =
    if ltb max min
    then some (2 ^ 32 - 1)
    else (if min == max
        then some min
        else (do v ← rand_u32_up draw fuel (u32 (max - min + 1)); some (u32 (min + v))))
