-- ===== src/Core/Pages/Sum.antt =====
-- `nkfs_pages_dsum` walks through the bytes of the buffer.
use ddfs.Base.{
  ℕ, zero, suc, ◌+◌, ◌-◌, ◌*◌, ◌≤◌, ◌<◌, ◌≡◌, refl, ◌⊎◌, inl, inr, some, List, [], ◌∷◌, arith, ltb,
  leb, ◌==◌, ge→ltb, ==_iff, Bool-cases, bug_on, bind-some,
}
use ddfs.Core.Pages.{Pages, page_count, dsum_loop, pages_dsum, done}

-- The parts from page `i` on: in order, each page from its first byte, full but for the last, `len`
-- bytes in all.
abbrev pub IsChunks : ℕ → ℕ → List (ℕ × ℕ) → Type 0
IsChunks i len [] = len ≡ 0
IsChunks i len ((p, n) ∷ parts) =
    (p ≡ i)
    × (0 < n)
    × (n ≤ 4096)
    × (n ≤ len)
    × ((n ≡ 4096) ⊎ (parts ≡ []))
    × IsChunks (i + 1) (len - n) parts

no_chunks : (i len : ℕ) (parts : List (ℕ × ℕ)) → len ≡ 0 → IsChunks i len parts → parts ≡ []
no_chunks i len [] e c = refl
no_chunks i len ((p, n) ∷ parts) e c = absurd (omega (arith, c.1, c.3))

dsum_loop-IsChunks :
    (fuel nr i len : ℕ)
    → len < fuel
    → len ≤ 4096 * (nr - i)
    → (parts : List (ℕ × ℕ)) × (dsum_loop fuel nr i len ≡ some parts) × IsChunks i len parts
unfolding dsum_loop
dsum_loop-IsChunks zero nr i len enough room = absurd (omega arith)
dsum_loop-IsChunks (suc fuel) nr i len enough room = elim (Bool-cases (len == 0)) [
  | inl empty ↦ ([], rw empty refl, (==_iff len 0).0 empty)
  | inr more ↦ elim (Bool-cases (ltb 4096 len)) [
    | inl large ↦
        let (parts, e, c) =
          dsum_loop-IsChunks fuel nr (i + 1) (len - 4096) (ground arith) (ground arith) in
        (
          (i, 4096) ∷ parts,
          rw (more, large) (bind-some _ (in_pages (ground arith)) (bind-some _ e refl)),
          (refl, omega arith, omega arith, ground arith, inl refl, c),
        )
    | inr small ↦
        let (parts, e, c) =
          dsum_loop-IsChunks fuel nr (i + 1) (len - len) (ground arith) (omega arith) in
        (
          (i, len) ∷ parts,
          rw (more, small) (bind-some _ (in_pages (ground arith)) (bind-some _ e refl)),
          (
            refl,
            ground arith,
            ground arith,
            omega arith,
            inr (no_chunks (i + 1) (len - len) parts (omega arith) c),
            c,
          ),
        )
  ]
]
  where
    in_pages : i < nr → bug_on (leb nr i) ≡ some tt
    in_pages h = ground arith

-- For pages that are as many as their length takes, and a length that is not greater, the digest
-- never meets its BUG_ON and ends: its updates go through the pages in order from the first, each
-- from its start and with 4096 bytes but for the last one, none empty, and the bytes are the
-- length in all.
pub pages_dsum-IsChunks :
    (p : Pages) (len : ℕ)
    → p.nr_pages ≡ page_count p.len
    → len ≤ p.len
    → (parts : List (ℕ × ℕ)) × (pages_dsum p len ≡ some (done, parts)) × IsChunks 0 len parts
unfolding pages_dsum page_count
pages_dsum-IsChunks p len pages h =
    let (parts, e, c) =
      dsum_loop-IsChunks (len + 1) p.nr_pages 0 len (omega arith) (ground arith) in
    (parts, rw (ge→ltb p.len len h) (bind-some _ e refl), c)
