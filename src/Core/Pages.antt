-- ===== src/Core/Pages.antt =====
-- core/upages.c: buffers of pages. Pages have numbers; which are allocated is a function of the number,
-- and each attempt at an allocation has the next number.
pub mod Region
pub mod Create
pub mod Sum
mod Tests
use ddfs.Base.{
  ℕ, zero, suc, ◌+◌, ◌-◌, ◌/◌, ◌%◌, Bool, true, false, not, Option, none, some, List, [], ◌∷◌, ltb,
  leb, ◌==◌, if◌then◌else◌, ◌>>=◌, ◌>>◌, bug_on, update, u32, u64, sub64,
}

-- What `crt_alloc_page`, `crt_kcalloc` and their kin leave in memory.
pub record Heap : Type 0 where
  pub next : ℕ
  pub live : ℕ → Bool
  pub arrays : ℕ

-- `struct nkfs_pages`
pub record Pages : Type 0 where
  pub pages : List ℕ
  pub nr_pages : ℕ
  pub len : ℕ

-- What the functions return: 0 or the error.
pub data Code : Type 0 where
  done inval nomem : Code

-- `nkfs_pages_region`: the address of the first page, the offset in it, the number of pages.
unfoldable pub pages_region : ℕ → ℕ → ℕ × ℕ × ℕ
pages_region buf len =
    let last = u64 (buf + len) in
    let delta = sub64 (last / 4096) (buf / 4096) in
    (buf - buf % 4096, buf % 4096, u32 (u64 (delta + (if last % 4096 == 0 then 0 else 1))))

-- len >> PAGE_SHIFT, and one more for a remainder
unfoldable pub page_count : ℕ → ℕ
page_count len = len / 4096 + (if len % 4096 == 0 then 0 else 1)

-- `crt_alloc_page`; `granted` says which attempts give a page.
abbrev pub alloc_page : (ℕ → Bool) → Heap → Option ℕ × Heap
alloc_page granted h =
    if granted h.next
    then (some h.next, record h { next = h.next + 1; live = update h.live h.next true })
    else (none, record h { next = h.next + 1 })

-- The loop of `nkfs_pages_create`: whether all pages were given, those that were, in order.
unfoldable pub alloc_pages : (ℕ → Bool) → ℕ → Heap → Bool × List ℕ × Heap
alloc_pages granted zero h = (true, [], h)
alloc_pages granted (suc r) h =
    let (page, h') = alloc_page granted h in
    elim page [
      | none ↦ (false, [], h')
      | some p ↦ let (all, ps, h'') = alloc_pages granted r h' in (all, p ∷ ps, h'')
    ]

-- The loops that give pages back.
unfoldable pub free_pages : List ℕ → Heap → Heap
free_pages [] h = h
free_pages (p ∷ ps) h = free_pages ps (record h { live = update h.live p false })

-- `nkfs_pages_create`; `array` says whether `crt_kcalloc` gives the array.
unfoldable pub pages_create : (ℕ → Bool) → Bool → ℕ → Heap → Code × Option Pages × Heap
pages_create granted array len h =
    if len == 0
    then (inval, none, h)
    else (if not array
        then (nomem, none, h)
        else (let (all, ps, h') =
              alloc_pages granted (page_count len) (record h { arrays = h.arrays + 1 }) in
            let freed = free_pages ps h' in
            if all
            then (done, some (record { pages = ps; nr_pages = page_count len; len = len }), h')
            else (nomem, none, record freed { arrays = freed.arrays - 1 })))

-- `nkfs_pages_release`
unfoldable pub pages_release : Pages → Heap → Heap
pages_release p h = let freed = free_pages p.pages h in record freed { arrays = freed.arrays - 1 }

-- The loop of `nkfs_pages_dsum` from page `i` with `len` bytes left, on fuel: the page and the number of
-- bytes of each call of `csum_update`. `none` is the BUG_ON.
unfoldable pub dsum_loop : ℕ → ℕ → ℕ → ℕ → Option (List (ℕ × ℕ))
dsum_loop zero nr_pages i len = none
dsum_loop (suc fuel) nr_pages i len =
    let ilen = if ltb 4096 len then 4096 else len in
    let rest = dsum_loop fuel nr_pages (i + 1) (len - ilen) in
    if len == 0
    then some []
    else (do bug_on (leb nr_pages i); parts ← rest; some ((i, ilen) ∷ parts))

-- `nkfs_pages_dsum`
unfoldable pub pages_dsum : Pages → ℕ → Option (Code × List (ℕ × ℕ))
pages_dsum p len =
    if ltb p.len len
    then some (inval, [])
    else (do parts ← dsum_loop (len + 1) p.nr_pages 0 len; some (done, parts))
