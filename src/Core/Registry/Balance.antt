-- ===== src/Core/Registry/Balance.antt =====
-- An operation on an object leaves the reference counts of the superblocks as they were.
use ddfs.Base.{
  ℕ, ◌+◌, ◌-◌, ◌≤◌, ◌<◌, ◌≡◌, refl, sym, ap, ◌∙◌, inl, inr, Bool, true, Option, none, some, List,
  [], ◌∷◌, arith, bind-some, length, get_elem?,
}
use ddfs.Core.Balloc.{Sb, Errno, Out, success, enomem, enoent}
use ddfs.Core.Registry.{Registry, list_by_obj, set_sb, list_op}
use ddfs.Core.Registry.Links.{
  occurs, occurs-empty, holders, release-restores, SearchSays, list_by_obj-SearchSays,
  holders-found,
}

-- What an operation gives: no memory for a link, no superblock with the object, or the result on the one that has it. The counts are as before in every case.
pub data OpSays {R : Type 0} (has : Sb → Bool) (op : Sb → Option (Out (Errno × R))) (r : Registry)
    : Registry × Errno × Option R → Type 0 where
  op_no_memory :
      {refs : ℕ → ℕ}
      → ((k : ℕ) → refs k ≡ r.refs k)
      → OpSays has op r (record r { refs = refs }, enomem, none)
  op_no_object :
      {refs : ℕ → ℕ}
      → holders has r.sbs 0 ≡ []
      → ((k : ℕ) → refs k ≡ r.refs k)
      → OpSays has op r (record r { refs = refs }, enoent, none)
  op_done :
      {refs : ℕ → ℕ} (i : ℕ) (sb : Sb) (o : Out (Errno × R))
      → holders has r.sbs 0 ≡ i ∷ []
      → get_elem? r.sbs i ≡ some sb
      → has sb ≡ true
      → op sb ≡ some o
      → ((k : ℕ) → refs k ≡ r.refs k)
      → OpSays has op r
          (record { sbs = set_sb r.sbs i o.after; refs = refs }, o.value.0, some o.value.1)

module _ {R : Type 0} (has : Sb → Bool) (granted : ℕ → Bool) (op : Sb → Option (Out (Errno × R)))
    (r : Registry) where
  abbrev Answer : Type 0
  Answer =
      (out : Registry × Errno × Option R) × (list_op has granted op r ≡ some out)
      × OpSays has op r out

  on_memory :
      (refs : ℕ → ℕ) (links : List ℕ) (e : Errno)
      → list_by_obj has granted r ≡ some (refs, links, e)
      → e ≡ enomem
      → ((k : ℕ) → refs k ≡ r.refs k)
      → Answer
  unfolding list_op
  on_memory refs links e run f same = (_, bind-some _ run (rw (f, f) refl), op_no_memory same)

  -- One link at most: the superblock at its place, if any.
  on_links :
      (refs : ℕ → ℕ) (links : List ℕ) (e : Errno)
      → ((sb : Sb) → (o : Out (Errno × R)) × (op sb ≡ some o))
      → length links ≤ 1
      → list_by_obj has granted r ≡ some (refs, links, e)
      → e ≡ success
      → links ≡ holders has r.sbs 0
      → ((k : ℕ) → refs k ≡ r.refs k + occurs k links)
      → Answer
  unfolding list_op
  on_links refs [] e total few run f g count = (
    _,
    bind-some _ run (rw f refl),
    op_no_object (sym g) (λ k. count k ∙ rw (occurs-empty k) (plus_zero k)),
  )
    where
      plus_zero : (k : ℕ) → r.refs k + 0 ≡ r.refs k
      plus_zero k = omega arith
  on_links refs (i ∷ j ∷ links) e total few run f g count = absurd (omega arith)
  on_links refs (i ∷ []) e total few run f g count =
      let (le, sb, at_place, obj) = holders-found has r.sbs 0 i [] (sym g) in
      let (o, run') = total sb in
      let (back, run'', same) = release-restores (i ∷ []) r.refs refs count in
      (
        _,
        bind-some _ run (
            rw f (
              bind-some _ (ap (get_elem? r.sbs) from_zero ∙ at_place)
                (bind-some _ run' (bind-some _ run'' refl)))),
        op_done i sb o (sym g) (ap (get_elem? r.sbs) from_zero ∙ at_place) obj run' same,
      )
    where
      from_zero : i ≡ i - 0
      from_zero = omega arith

-- If at most one superblock has the object, every superblock has a reference, and the operation
-- on a superblock never stops, then the operation on the object never stops; whether memory for
-- the link is missing, no superblock has the object, or the operation on the one that has it is
-- done, with or without an error, the reference counts are as before, and no superblock but that
-- one is changed.
pub list_op-OpSays :
    {R : Type 0} (has : Sb → Bool) (granted : ℕ → Bool) (op : Sb → Option (Out (Errno × R)))
    (r : Registry)
    → ((k : ℕ) → 0 < r.refs k)
    → length (holders has r.sbs 0) ≤ 1
    → ((sb : Sb) → (o : Out (Errno × R)) × (op sb ≡ some o))
    → (out : Registry × Errno × Option R) × (list_op has granted op r ≡ some out)
      × OpSays has op r out
list_op-OpSays has granted op r live few total = go (list_by_obj-SearchSays has granted r live)
  where
    go :
        (o : (ℕ → ℕ) × List ℕ × Errno) × (list_by_obj has granted r ≡ some o) × SearchSays has r o
        → (out : _) × (list_op has granted op r ≡ some out) × OpSays has op r out
    go ((refs, links, e), run, inl (f, g, count)) =
        on_links has granted op r refs links e total (rw g few) run f g count
    go ((refs, links, e), run, inr (f, same)) = on_memory has granted op r refs links e run f same
