-- ===== src/Core/Registry.antt =====
-- core/super.c: the list of superblocks, their reference counts, and the operations on objects that look for the superblock of an object.
pub mod Links
pub mod Balance
pub mod Insert
mod Tests
use ddfs.Base.{
  ℕ, zero, suc, ◌+◌, ◌-◌, Bool, true, false, Option, none, some, List, [], ◌∷◌, ◌++◌, ltb, leb,
  ◌==◌, if◌then◌else◌, ◌>>=◌, ◌>>◌, bug_on, update, length, get_elem?, u32,
}
use ddfs.Core.Balloc.{Sb, Errno, is_ok, Out, success, enomem, enoent}
use ddfs.Crt.ObjId.{ObjId, obj_id_cmp, zero_sign}

-- The list `sb_list`, and the counts `refs` of its superblocks by their places in it.
pub record Registry : Type 0 where
  pub sbs : List Sb
  pub refs : ℕ → ℕ

-- `nkfs_sb_ref` of the superblock at a place
unfoldable pub sb_ref : (ℕ → ℕ) → ℕ → Option (ℕ → ℕ)
sb_ref refs i = do bug_on (refs i == 0); some (update refs i (refs i + 1))

-- `nkfs_sb_deref`; a count of 0 frees the superblock.
unfoldable pub sb_deref : (ℕ → ℕ) → ℕ → Option (ℕ → ℕ)
sb_deref refs i = do bug_on (refs i == 0); some (update refs i (refs i - 1))

abbrev pub same_id : ObjId → ObjId → Bool
same_id a b = elim (obj_id_cmp a b) [ zero_sign ↦ true | _ ↦ false ]

-- The place of the first superblock with an id.
unfoldable pub place_of_id : ObjId → List Sb → ℕ → Option ℕ
place_of_id id [] i = none
place_of_id id (sb ∷ sbs) i =
    let rest = place_of_id id sbs (i + 1) in if same_id sb.id id then some i else rest

-- `nkfs_sb_lookup`
unfoldable pub sb_lookup : Registry → ObjId → Option (Registry × Option ℕ)
sb_lookup r id = elim (place_of_id id r.sbs 0) [
  | none ↦ some (r, none)
  | some i ↦ do refs ← sb_ref r.refs i; some (record r { refs = refs }, some i)
]

-- `nkfs_sb_insert`
unfoldable pub sb_insert : Registry → Sb → Registry × Bool
sb_insert r cand = elim (place_of_id cand.id r.sbs 0) [
  | some _ ↦ (r, false)
  | none ↦ (record r { sbs = r.sbs ++ (cand ∷ []) }, true)
]

-- `nkfs_sb_free_blocks`
abbrev pub free_blocks : Sb → Option ℕ
free_blocks sb = do bug_on (ltb sb.nr_blocks sb.used_blocks); some (sb.nr_blocks - sb.used_blocks)

-- The loop of `nkfs_sb_select_most_free`, which keeps 32 bits of each count.
unfoldable pub most_free_loop : List Sb → ℕ → ℕ → Option ℕ → Option (Option ℕ)
most_free_loop [] i max found = some found
most_free_loop (sb ∷ sbs) i max found = do
  free ← free_blocks sb
  elim (leb max (u32 free)) [
    | true ↦ most_free_loop sbs (i + 1) (u32 free) (some i)
    | false ↦ most_free_loop sbs (i + 1) max found
  ]

-- `nkfs_sb_select_most_free`
unfoldable pub select_most_free : Registry → Option (Registry × Option ℕ)
select_most_free r = do
  found ← most_free_loop r.sbs 0 0 none
  elim found [
    | none ↦ some (r, none)
    | some i ↦ do refs ← sb_ref r.refs i; some (record r { refs = refs }, some i)
  ]

-- `nkfs_sb_list_release`
unfoldable pub list_release : (ℕ → ℕ) → List ℕ → Option (ℕ → ℕ)
list_release refs [] = some refs
list_release refs (i ∷ links) = do refs' ← sb_deref refs i; list_release refs' links

-- The loop of `nkfs_sb_list_by_obj` over the superblocks from the place `i` on: `has` says whether a
-- superblock's tree of inodes has the object, `granted` whether a link for a place gets its memory.
unfoldable pub by_obj_loop :
    (Sb → Bool) → (ℕ → Bool) → List Sb → ℕ → (ℕ → ℕ) → Option ((ℕ → ℕ) × List ℕ × Errno)
by_obj_loop has granted [] i refs = some (refs, [], success)
by_obj_loop has granted (sb ∷ sbs) i refs = elim (has sb) [
  | false ↦ by_obj_loop has granted sbs (i + 1) refs
  | true ↦ elim (granted i) [
    | false ↦ some (refs, [], enomem)
    | true ↦ do
      refs' ← sb_ref refs i
      (refs'', links, e) ← by_obj_loop has granted sbs (i + 1) refs'
      some (refs'', i ∷ links, e)
  ]
]

-- `nkfs_sb_list_by_obj`
unfoldable pub list_by_obj : (Sb → Bool) → (ℕ → Bool) → Registry → Option ((ℕ → ℕ) × List ℕ × Errno)
list_by_obj has granted r = do
  (refs, links, e) ← by_obj_loop has granted r.sbs 0 r.refs
  elim (is_ok e) [
    | true ↦ some (refs, links, e)
    | false ↦ do back ← list_release refs links; some (back, [], e)
  ]

-- The list with another superblock at a place.
abbrev pub set_sb : List Sb → ℕ → Sb → List Sb
set_sb [] i sb = []
set_sb (x ∷ xs) zero sb = sb ∷ xs
set_sb (x ∷ xs) (suc i) sb = x ∷ set_sb xs i sb

-- `nkfs_sb_list_get_obj`, `_put_obj`, `_delete_obj` and `_query_obj`, which differ in the operation on
-- the superblock of the object.
unfoldable pub list_op :
    {R : Type 0}
    → (Sb → Bool)
    → (ℕ → Bool)
    → (Sb → Option (Out (Errno × R)))
    → Registry
    → Option (Registry × Errno × Option R)
list_op has granted op r = do
  (refs, links, e) ← list_by_obj has granted r
  elim (is_ok e) [
    | false ↦ some (record r { refs = refs }, e, none)
    | true ↦ do
      bug_on (ltb 1 (length links))
      elim links [
        | [] ↦ some (record r { refs = refs }, enoent, none)
        | i ∷ more ↦ do
          sb ← get_elem? r.sbs i
          o ← op sb
          back ← list_release refs (i ∷ more)
          some (record { sbs = set_sb r.sbs i o.after; refs = back }, o.value.0, some o.value.1)
      ]
  ]

-- `nkfs_sb_list_create_obj`
unfoldable pub list_create :
    {R : Type 0} → (Sb → Option (Out (Errno × R))) → Registry → Option (Registry × Errno × Option R)
list_create create r = do
  (r', found) ← select_most_free r
  elim found [
    | none ↦ some (r', enoent, none)
    | some i ↦ do
      sb ← get_elem? r'.sbs i
      o ← create sb
      back ← sb_deref r'.refs i
      some (record { sbs = set_sb r'.sbs i o.after; refs = back }, o.value.0, some o.value.1)
  ]
