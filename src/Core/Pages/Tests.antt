-- ===== src/Core/Pages/Tests.antt =====
-- The theorems on buffers of pages at concrete sizes.
use ddfs.Base.{
  ℕ, ◌+◌, ◌*◌, ◌%◌, ◌≤◌, ◌<◌, ◌≡◌, refl, Bool, true, some, List, [], ◌∷◌, arith, ltb, ge→ltb,
}
use ddfs.Core.Pages.{Heap, Pages, pages_region, page_count, pages_create, pages_dsum, done}
use ddfs.Core.Pages.Create.{CreateSays, pages_create-CreateSays}
use ddfs.Core.Pages.Region.{pages_region-covers}
use ddfs.Core.Pages.Sum.{IsChunks, pages_dsum-IsChunks}

pages_region-covers_example :
    ((pages_region 5000 10000).0 % 4096 ≡ 0)
    × ((pages_region 5000 10000).1 < 4096)
    × ((pages_region 5000 10000).0 + (pages_region 5000 10000).1 ≡ 5000)
    × ((pages_region 5000 10000).1 + 10000 ≤ 4096 * (pages_region 5000 10000).2)
    × (4096 * (pages_region 5000 10000).2 < (pages_region 5000 10000).1 + 10000 + 4096)
pages_region-covers_example = pages_region-covers 5000 10000 (omega arith) (omega arith)

-- Five pages in use.
abbrev five_pages : Heap
five_pages = record { next = 5; live = λ k. ltb k 5; arrays = 2 }

-- The third attempt from there on fails.
abbrev two_more : ℕ → Bool
two_more k = ltb k 7

pages_create-CreateSays_example :
    CreateSays five_pages 10000 (pages_create two_more true 10000 five_pages)
pages_create-CreateSays_example =
    pages_create-CreateSays two_more true 10000 five_pages (λ k h. ge→ltb k 5 h)

abbrev three_pages : Pages
three_pages = record { pages = 5 ∷ 6 ∷ 7 ∷ []; nr_pages = 3; len = 10000 }

three_pages-count : three_pages.nr_pages ≡ page_count three_pages.len
unfolding page_count
three_pages-count = refl

pages_dsum-IsChunks_example :
    (parts : List (ℕ × ℕ)) × (pages_dsum three_pages 9000 ≡ some (done, parts))
    × IsChunks 0 9000 parts
pages_dsum-IsChunks_example = pages_dsum-IsChunks three_pages 9000 three_pages-count (omega arith)
