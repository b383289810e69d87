-- ===== src/Core/Pages/Region.antt =====
-- `nkfs_pages_region` covers the buffer with as few pages as it takes.
use ddfs.Base.{
  ℕ, ◌+◌, ◌-◌, ◌*◌, ◌/◌, ◌%◌, ◌^◌, ◌≤◌, ◌<◌, ◌≡◌, refl, ap, ◌∙◌, inl, inr, arith, ◌==◌,
  if◌then◌else◌, Bool-cases, u32, u64, sub64,
}
use ddfs.Core.Pages.{pages_region}
use native.Mathlib.Nat.{mod-eq_of_lt}

module _ (buf len : ℕ) (short : len < 2 ^ 32) (inside : buf + len < 2 ^ 64) where
  last_page : u64 (buf + len) ≡ buf + len
  last_page = mod-eq_of_lt inside

  pages_between : sub64 ((buf + len) / 4096) (buf / 4096) ≡ (buf + len) / 4096 - buf / 4096
  pages_between = omega arith

  region_count :
      (x : ℕ)
      → x ≡ (if (buf + len) % 4096 == 0 then 0 else 1)
      → u32 (u64 ((buf + len) / 4096 - buf / 4096 + x)) ≡ (buf + len) / 4096 - buf / 4096 + x
  region_count x e = elim (Bool-cases ((buf + len) % 4096 == 0)) [
    | inl zero_rest ↦ let e' : x ≡ 0 = e ∙ rw zero_rest refl in omega arith
    | inr some_rest ↦ let e' : x ≡ 1 = e ∙ rw some_rest refl in omega arith
  ]

  pages_region-value : pages_region buf len ≡ (
    buf - buf % 4096,
    buf % 4096,
    (buf + len) / 4096 - buf / 4096 + (if (buf + len) % 4096 == 0 then 0 else 1),
  )
  unfolding pages_region
  pages_region-value =
      rw (last_page, pages_between)
        (ap (λ x. (buf - buf % 4096, buf % 4096, x)) (region_count _ refl))

  -- For a buffer with a length of 32 bits that ends below 2^64, the region starts at a page, its
  -- offset lies in a page, address and offset give the buffer, the pages reach the end of the
  -- buffer, and they are less than a page longer than that.
  pub pages_region-covers :
      ((pages_region buf len).0 % 4096 ≡ 0)
      × ((pages_region buf len).1 < 4096)
      × ((pages_region buf len).0 + (pages_region buf len).1 ≡ buf)
      × ((pages_region buf len).1 + len ≤ 4096 * (pages_region buf len).2)
      × (4096 * (pages_region buf len).2 < (pages_region buf len).1 + len + 4096)
  pages_region-covers =
      rw (pages_region-value) (omega arith, omega arith, omega arith, ground arith, ground arith)
