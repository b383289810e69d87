-- ===== src/Core/Registry/Links.antt =====
-- The reference counts of superblocks over an operation on an object.
use ddfs.Base.{
  ℕ, suc, ◌+◌, ◌-◌, ◌≤◌, ◌<◌, ◌≡◌, refl, sym, ap, ◌∙◌, ◌≢◌, ◌⊎◌, inl, inr, Bool, true, some, List,
  [], ◌∷◌, arith, ◌==◌, if◌then◌else◌, ==_iff, ne→==, ==-refl, Bool-cases, bug_on, bind-some,
  update, get_elem?,
}
use ddfs.Core.Balloc.{Sb, Errno, success, enomem}
use ddfs.Core.Registry.{Registry, sb_ref, sb_deref, list_release, by_obj_loop, list_by_obj}

-- How often a place stands in a list of links.
pub occurs : ℕ → List ℕ → ℕ
occurs k [] = 0
occurs k (i ∷ links) = (if k == i then 1 else 0) + occurs k links

pub occurs-empty : (k : ℕ) → occurs k [] ≡ 0
unfolding occurs
occurs-empty k = refl

-- The places of the superblocks that have an object.
unfoldable pub holders : (Sb → Bool) → List Sb → ℕ → List ℕ
holders has [] i = []
holders has (sb ∷ sbs) i = let rest = holders has sbs (i + 1) in if has sb then i ∷ rest else rest

pub held : (n : ℕ) → 0 < n → bug_on (n == 0) ≡ some tt
held n h = rw (ne→== n 0 (λ e. omega arith)) refl

-- Giving the links back restores the counts.
pub release-restores :
    (links : List ℕ) (refs now : ℕ → ℕ)
    → ((k : ℕ) → now k ≡ refs k + occurs k links)
    → (back : ℕ → ℕ) × (list_release now links ≡ some back) × ((k : ℕ) → back k ≡ refs k)
unfolding list_release sb_deref occurs
release-restores [] refs now e = (now, refl, λ k. e k ∙ plus_zero k)
  where
    plus_zero : (k : ℕ) → refs k + 0 ≡ refs k
    plus_zero k = omega arith
release-restores (i ∷ links) refs now e =
    let (back, run, same) = release-restores links refs (update now i (now i - 1)) less in
    (back, bind-some _ (bind-some _ (held (now i) some_left) refl) run, same)
  where
    here : now i ≡ refs i + (1 + occurs i links)
    here = e i ∙ ap (λ x. refs i + ((if x then 1 else 0) + occurs i links)) (==-refl i)

    some_left : 0 < now i
    some_left = omega (arith, here)

    less : (k : ℕ) → update now i (now i - 1) k ≡ refs k + occurs k links
    less k = elim (Bool-cases (k == i)) [
      | inl near ↦
          rw near
            (omega (arith, here) ∙ ap (λ x. refs x + occurs x links) (sym ((==_iff k i).0 near)))
      | inr far ↦ rw far (e k ∙ rw far (omega arith))
    ]

-- What the loop has taken.
abbrev TakenSays : (Sb → Bool) → List Sb → ℕ → (ℕ → ℕ) → (ℕ → ℕ) × List ℕ × Errno → Type 0
TakenSays has sbs i refs (refs', links, e) =
    ((k : ℕ) → refs' k ≡ refs k + occurs k links)
    × (((e ≡ success) × (links ≡ holders has sbs i)) ⊎ (e ≡ enomem))

link_taken :
    (has : Sb → Bool) (granted : ℕ → Bool) (sb : Sb) (sbs : List Sb) (i : ℕ) (refs refs' : ℕ → ℕ)
    (links : List ℕ) (e : Errno)
    → has sb ≡ true
    → granted i ≡ true
    → 0 < refs i
    → by_obj_loop has granted sbs (i + 1) (update refs i (refs i + 1)) ≡ some (refs', links, e)
    → by_obj_loop has granted (sb ∷ sbs) i refs ≡ some (refs', i ∷ links, e)
unfolding by_obj_loop sb_ref
link_taken has granted sb sbs i refs refs' links e obj given live run =
    rw (by_obj_loop, obj, given)
      (bind-some _ (bind-some _ (held (refs i) live) refl) (bind-some _ run refl))

by_obj_loop-TakenSays :
    (has : Sb → Bool) (granted : ℕ → Bool) (sbs : List Sb) (i : ℕ) (refs : ℕ → ℕ)
    → ((k : ℕ) → 0 < refs k)
    → (o : (ℕ → ℕ) × List ℕ × Errno) × (by_obj_loop has granted sbs i refs ≡ some o)
      × TakenSays has sbs i refs o
unfolding by_obj_loop sb_ref occurs holders
by_obj_loop-TakenSays has granted [] i refs live =
    ((refs, [], success), refl, (λ k. plus_zero k, inl (refl, refl)))
  where
    plus_zero : (k : ℕ) → refs k ≡ refs k + 0
    plus_zero k = omega arith
by_obj_loop-TakenSays has granted (sb ∷ sbs) i refs live = elim (Bool-cases (has sb)) [
  | inr no_obj ↦
      let ((refs', links, e), run, (count, ends)) =
        by_obj_loop-TakenSays has granted sbs (i + 1) refs live in
      ((refs', links, e), rw (by_obj_loop, no_obj) run, (count, rw no_obj ends))
  | inl obj ↦ elim (Bool-cases (granted i)) [
    | inr denied ↦
        ((refs, [], enomem), rw (by_obj_loop, obj, denied) refl, (λ k. plus_zero k, inr refl))
    | inl given ↦
        let ((refs', links, e), run, (count, ends)) =
          by_obj_loop-TakenSays has granted sbs (i + 1) (update refs i (refs i + 1)) more in
        (
          (refs', i ∷ links, e),
          link_taken has granted sb sbs i refs refs' links e obj given (live i) run,
          (λ k. count k ∙ one k (occurs k links), rw obj (first e links ends)),
        )
  ]
]
  where
    plus_zero : (k : ℕ) → refs k ≡ refs k + 0
    plus_zero k = omega arith

    more : (k : ℕ) → 0 < update refs i (refs i + 1) k
    more k = elim (Bool-cases (k == i)) [
      | inl near ↦ rw near (omega arith)
      | inr far ↦ rw far (live k)
    ]

    one : (k n : ℕ) → update refs i (refs i + 1) k + n ≡ refs k + ((if k == i then 1 else 0) + n)
    one k n = elim (Bool-cases (k == i)) [
      | inl near ↦ rw near (ap (λ x. refs x + 1 + n) (sym ((==_iff k i).0 near)) ∙ (omega arith))
      | inr far ↦ rw far (omega arith)
    ]

    first :
        (e : Errno) (links : List ℕ)
        → ((e ≡ success) × (links ≡ holders has sbs (i + 1))) ⊎ (e ≡ enomem)
        → ((e ≡ success) × (i ∷ links ≡ i ∷ holders has sbs (i + 1))) ⊎ (e ≡ enomem)
    first e links (inl (f, g)) = inl (f, ap (λ l. i ∷ l) g)
    first e links (inr f) = inr f

-- What a search over all superblocks gives: the links that it keeps, or no link and no count changed.
abbrev pub SearchSays : (Sb → Bool) → Registry → (ℕ → ℕ) × List ℕ × Errno → Type 0
SearchSays has r (refs, links, e) =
    ((e ≡ success) × (links ≡ holders has r.sbs 0) × ((k : ℕ) → refs k ≡ r.refs k + occurs k links))
    ⊎ ((e ≡ enomem) × ((k : ℕ) → refs k ≡ r.refs k))

searched :
    (has : Sb → Bool) (granted : ℕ → Bool) (r : Registry) (refs : ℕ → ℕ) (links : List ℕ)
    (e : Errno)
    → by_obj_loop has granted r.sbs 0 r.refs ≡ some (refs, links, e)
    → ((k : ℕ) → refs k ≡ r.refs k + occurs k links)
    → ((e ≡ success) × (links ≡ holders has r.sbs 0)) ⊎ (e ≡ enomem)
    → (o : (ℕ → ℕ) × List ℕ × Errno) × (list_by_obj has granted r ≡ some o) × SearchSays has r o
unfolding list_by_obj
searched has granted r refs links e run count (inl (f, g)) =
    ((refs, links, e), bind-some _ run (rw (f, f) refl), inl (f, g, count))
searched has granted r refs links e run count (inr f) =
    let (back, run', same) = release-restores links r.refs refs count in
    ((back, [], e), bind-some _ run (rw (f, f) (bind-some _ run' refl)), inr (f, same))

pub list_by_obj-SearchSays :
    (has : Sb → Bool) (granted : ℕ → Bool) (r : Registry)
    → ((k : ℕ) → 0 < r.refs k)
    → (o : (ℕ → ℕ) × List ℕ × Errno) × (list_by_obj has granted r ≡ some o) × SearchSays has r o
list_by_obj-SearchSays has granted r live =
    let ((refs, links, e), run, (count, ends)) =
      by_obj_loop-TakenSays has granted r.sbs 0 r.refs live in
    searched has granted r refs links e run count ends

pub holders-found :
    (has : Sb → Bool) (sbs : List Sb) (i j : ℕ) (rest : List ℕ)
    → holders has sbs i ≡ j ∷ rest
    → (i ≤ j) × (sb : Sb) × (get_elem? sbs (j - i) ≡ some sb) × (has sb ≡ true)
unfolding holders
holders-found has [] i j rest e = absurd (nothing e)
  where
    nothing : [] ≢ j ∷ rest
    nothing f = cc
holders-found has (sb ∷ sbs) i j rest e = elim (Bool-cases (has sb)) [
  | inl obj ↦
      let same = head_of (rw obj at e) in
      (omega arith, sb, ap (get_elem? (sb ∷ sbs)) (zero_off same), obj)
  | inr no_obj ↦
      let (le, found, at_place, obj) = holders-found has sbs (i + 1) j rest (rw no_obj at e) in
      (omega arith, found, ap (get_elem? (sb ∷ sbs)) (one_off le) ∙ at_place, obj)
]
  where
    head_of : {l : List ℕ} → i ∷ l ≡ j ∷ rest → i ≡ j
    head_of f = cc

    zero_off : i ≡ j → j - i ≡ 0
    zero_off f = omega arith

    one_off : i + 1 ≤ j → j - i ≡ suc (j - (i + 1))
    one_off h = omega arith
