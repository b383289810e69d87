-- ===== src/Core/Pages/Create.antt =====
-- What `nkfs_pages_create` and `nkfs_pages_release` leave allocated.
use ddfs.Base.{
  ℕ, zero, suc, ◌+◌, ◌-◌, ◌≤◌, ◌≡◌, refl, sym, ap, ◌∙◌, inl, inr, Bool, true, false, ◌||◌, Option,
  none, some, List, [], ◌∷◌, arith, ◌==◌, if◌then◌else◌, ==_iff, Bool-cases, update, length,
}
use ddfs.Core.Pages.{
  Heap, Pages, Code, page_count, alloc_page, alloc_pages, free_pages, pages_create, pages_release,
  done, inval, nomem,
}
use mathlib.Core.Path.{subst}

abbrev pub has : ℕ → List ℕ → Bool
has k [] = false
has k (p ∷ ps) = k == p || has k ps

free_pages-live :
    (ps : List ℕ) (h : Heap) (k : ℕ)
    → (free_pages ps h).live k ≡ (if has k ps then false else h.live k)
unfolding free_pages
free_pages-live [] h k = refl
free_pages-live (p ∷ ps) h k =
    free_pages-live ps (record h { live = update h.live p false }) k ∙ pick (has k ps) (k == p)
  where
    pick :
        (later here : Bool)
        → (if later then false else (if here then false else h.live k))
          ≡ (if here || later then false else h.live k)
    pick true true = refl
    pick true false = refl
    pick false true = refl
    pick false false = refl

free_pages-arrays : (ps : List ℕ) (h : Heap) → (free_pages ps h).arrays ≡ h.arrays
unfolding free_pages
free_pages-arrays [] h = refl
free_pages-arrays (p ∷ ps) h = free_pages-arrays ps (record h { live = update h.live p false })

-- What the loop that allocates gives.
pub record AllocSays (h : Heap) (r : ℕ) (all : Bool) (ps : List ℕ) (h' : Heap) : Type 0 where
  pub live : (k : ℕ) → h'.live k ≡ (if has k ps then true else h.live k)
  pub fresh : (k : ℕ) → has k ps ≡ true → h.next ≤ k
  pub arrays : h'.arrays ≡ h.arrays
  pub count : all ≡ true → length ps ≡ r

module _ (granted : ℕ → Bool) where
  alloc_step :
      (h : Heap) (r : ℕ) (all : Bool) (ps : List ℕ) (h' : Heap)
      → AllocSays (record h { next = h.next + 1; live = update h.live h.next true }) r all ps h'
      → AllocSays h (suc r) all (h.next ∷ ps) h'
  alloc_step h r all ps h' s = record {
    live = λ k. s.live k ∙ pick k (has k ps) (k == h.next);
    fresh = λ k e. elim (Bool-cases (k == h.next)) [
      | inl same ↦ omega (arith, (==_iff k h.next).0 same)
      | inr other ↦ omega (arith, s.fresh k (rw other at e))
    ];
    arrays = s.arrays;
    count = λ e. ap suc (s.count e);
  }
    where
      pick :
          (k : ℕ) (later here : Bool)
          → (if later then true else (if here then true else h.live k))
            ≡ (if here || later then true else h.live k)
      pick k true true = refl
      pick k true false = refl
      pick k false true = refl
      pick k false false = refl

  abbrev after_page : ℕ → Option ℕ × Heap → Bool × List ℕ × Heap
  after_page r a = elim a.0 [
    | none ↦ (false, [], a.1)
    | some p ↦ let (all, ps, h'') = alloc_pages granted r a.1 in (all, p ∷ ps, h'')
  ]

  page_refused :
      (h : Heap)
      → granted h.next ≡ false
      → alloc_page granted h ≡ (none, record h { next = h.next + 1 })
  page_refused h e = rw (alloc_page, e) refl

  page_given :
      (h : Heap)
      → granted h.next ≡ true
      → alloc_page granted h
        ≡ (some h.next, record h { next = h.next + 1; live = update h.live h.next true })
  page_given h e = rw (alloc_page, e) refl

  alloc_pages-AllocSays :
      (r : ℕ) (h : Heap)
      → AllocSays h r
          (alloc_pages granted r h).0
          (alloc_pages granted r h).1
          (alloc_pages granted r h).2
  unfolding alloc_pages
  alloc_pages-AllocSays zero h = record {
    live = λ k. refl;
    fresh = λ k e. absurd (cc);
    arrays = refl;
    count = λ e. refl;
  }
  alloc_pages-AllocSays (suc r) h = elim (Bool-cases (granted h.next)) [
    | inr refused ↦
        subst (λ a. AllocSays h (suc r) (after_page r a).0 (after_page r a).1 (after_page r a).2)
          (sym (page_refused h refused))
          (record {
            live = λ k. refl;
            fresh = λ k e. absurd (cc);
            arrays = refl;
            count = λ e. absurd (cc);
          })
    | inl got ↦
        subst (λ a. AllocSays h (suc r) (after_page r a).0 (after_page r a).1 (after_page r a).2)
          (sym (page_given h got))
          (alloc_step h r _ _ _ (
            alloc_pages-AllocSays r
              (record h { next = h.next + 1; live = update h.live h.next true })))
  ]

-- What a creation gives: an error with memory as before, or pages that were not allocated before, as many
-- as hold `len` bytes, whose release leaves memory as before.
pub data CreateSays (h : Heap) (len : ℕ) : Code × Option Pages × Heap → Type 0 where
  create_inval : len ≡ 0 → CreateSays h len (inval, none, h)
  create_nomem :
      {h' : Heap}
      → ((k : ℕ) → h'.live k ≡ h.live k)
      → h'.arrays ≡ h.arrays
      → CreateSays h len (nomem, none, h')
  create_done :
      {p : Pages} {h' : Heap}
      → p.len ≡ len
      → p.nr_pages ≡ page_count len
      → length p.pages ≡ p.nr_pages
      → ((k : ℕ) → has k p.pages ≡ true → (h.live k ≡ false) × (h'.live k ≡ true))
      → ((k : ℕ) → has k p.pages ≡ false → h'.live k ≡ h.live k)
      → ((k : ℕ) → (pages_release p h').live k ≡ h.live k)
      → (pages_release p h').arrays ≡ h.arrays
      → CreateSays h len (done, some p, h')

module _ (h : Heap) (unused : (k : ℕ) → h.next ≤ k → h.live k ≡ false) where
  -- Freeing what was allocated.
  undone :
      (h0 : Heap) (r : ℕ) (all : Bool) (ps : List ℕ) (h' : Heap)
      → h0.live ≡ h.live
      → h0.next ≡ h.next
      → AllocSays h0 r all ps h'
      → (k : ℕ) → (free_pages ps h').live k ≡ h.live k
  undone h0 r all ps h' el en s k = free_pages-live ps h' k ∙ elim (Bool-cases (has k ps)) [
    | inl in_ps ↦ rw in_ps (sym (unused k (omega (arith, s.fresh k in_ps))))
    | inr out ↦ rw out (s.live k ∙ rw out (ap (λ f. f k) el))
  ]

-- From a heap in which no page with a number yet to come is allocated, a creation gives one of
-- three: -EINVAL for a length of 0 with the heap unchanged; -ENOMEM with the same pages and
-- arrays allocated as before; or 0 with as many pages as hold the length, none of which was
-- allocated before and all of which are now, all other pages as before, and their release leaves
-- the same pages and arrays allocated as before the creation.
pub pages_create-CreateSays :
    (granted : ℕ → Bool) (array : Bool) (len : ℕ) (h : Heap)
    → ((k : ℕ) → h.next ≤ k → h.live k ≡ false)
    → CreateSays h len (pages_create granted array len h)
unfolding pages_create pages_release
pages_create-CreateSays granted array len h unused = elim (Bool-cases (len == 0)) [
  | inl empty ↦ rw empty (create_inval ((==_iff len 0).0 empty))
  | inr more ↦ elim (Bool-cases array) [
    | inr refused ↦ rw (more, refused) (create_nomem (λ k. refl) refl)
    | inl got ↦
        rw (more, got)
          (by_all _ _ _
            (alloc_pages-AllocSays granted (page_count len) (record h { arrays = h.arrays + 1 })))
  ]
]
  where
    by_all :
        (all : Bool) (ps : List ℕ) (h' : Heap)
        → AllocSays (record h { arrays = h.arrays + 1 }) (page_count len) all ps h'
        → CreateSays h len (
            if all
            then (done, some (record { pages = ps; nr_pages = page_count len; len = len }), h')
            else (
              nomem,
              none,
              record (free_pages ps h') { arrays = (free_pages ps h').arrays - 1 },
            ))
    by_all true ps h' s =
        create_done refl refl (s.count refl) (λ k e. (unused k (s.fresh k e), s.live k ∙ rw e refl))
          (λ k e. s.live k ∙ rw e refl)
          (undone h unused (record h { arrays = h.arrays + 1 }) (page_count len) true ps h' refl
            refl s)
          (omega (arith, free_pages-arrays ps h', s.arrays))
    by_all false ps h' s =
        create_nomem
          (undone h unused (record h { arrays = h.arrays + 1 }) (page_count len) false ps h' refl
            refl s)
          (omega (arith, free_pages-arrays ps h', s.arrays))
