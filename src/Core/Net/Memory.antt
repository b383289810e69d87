-- ===== src/Core/Net/Memory.antt =====
-- What the handlers of requests on objects leave of the memory.
use ddfs.Base.{ℕ, ◌-◌, ◌≡◌, ap, ◌∙◌, false, Option, some, List, [], ◌∷◌, ◌==◌, if◌then◌else◌}
use ddfs.Core.Net.{Served, Handlers}
use ddfs.Core.Net.Data.{SameHeap}
use ddfs.Core.Pages.{Heap, Pages, free_pages, pages_release}
use ddfs.Crt.ObjId.{ObjId}

-- An operation that ends, with the pages and arrays allocated that were.
abbrev pub Ends : {D A : Type 0} → (Heap → D → Option (Served D A)) → Type 0
Ends {D} {A} run =
    (heap : Heap) (store : D) → (o : Served D A) × (run heap store ≡ some o) × SameHeap heap o.heap

-- The operations on objects all end, and free what they allocate.
pub record HandlersEnd {D : Type 0} (h : Handlers D) : Type 0 where
  pub get_obj :
      (id : ObjId) (off len : ℕ) (pages : List ℕ) (mem : ℕ → ℕ → ℕ)
      → Ends (h.get_obj id off len pages mem)
  pub put_obj :
      (id : ObjId) (off len : ℕ) (pages : List ℕ) (mem : ℕ → ℕ → ℕ)
      → Ends (h.put_obj id off len pages mem)
  pub create_obj : Ends h.create_obj
  pub delete_obj : (id : ObjId) → Ends (h.delete_obj id)
  pub query_obj : (id : ObjId) → Ends (h.query_obj id)

pub SameHeap-trans : (a b c : Heap) → SameHeap a b → SameHeap b c → SameHeap a c
SameHeap-trans a b c s t = record { live = λ n. t.live n ∙ s.live n; arrays = t.arrays ∙ s.arrays }

free_pages-SameHeap :
    (ps : List ℕ) (a b : Heap) → SameHeap a b → SameHeap (free_pages ps a) (free_pages ps b)
unfolding free_pages
free_pages-SameHeap [] a b s = s
free_pages-SameHeap (p ∷ ps) a b s =
    free_pages-SameHeap ps _ _
      (record { live = λ n. ap (λ x. if n == p then false else x) (s.live n); arrays = s.arrays })

pub pages_release-SameHeap :
    (p : Pages) (a b : Heap) → SameHeap a b → SameHeap (pages_release p a) (pages_release p b)
unfolding pages_release
pages_release-SameHeap p a b s =
    let t = free_pages-SameHeap p.pages a b s in
    record { live = t.live; arrays = ap (λ x. x - 1) t.arrays }
