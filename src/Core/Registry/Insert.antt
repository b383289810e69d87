-- ===== src/Core/Registry/Insert.antt =====
-- Entering a superblock into the list, and looking it up.
use ddfs.Base.{
  ℕ, ◌+◌, ◌<◌, ◌≡◌, refl, sym, ap, ◌∙◌, ◌≢◌, inl, inr, Bool, true, false, none, some, List, [], ◌∷◌,
  ◌++◌, arith, Bool-cases, Option-cases, bind-some, update, length, get_elem?,
}
use ddfs.Core.Balloc.{Sb}
use ddfs.Core.Registry.{Registry, sb_ref, same_id, place_of_id, sb_lookup, sb_insert}
use ddfs.Core.Registry.Links.{held}
use ddfs.Crt.ObjId.{ObjId, obj_id_cmp, zero_sign}

cmp-same : (a : ObjId) → obj_id_cmp a a ≡ zero_sign
unfolding obj_id_cmp
cmp-same a = ground arith

same_id_refl : (a : ObjId) → same_id a a ≡ true
same_id_refl a = rw (same_id, cmp-same a) refl

-- A superblock at the end is found if none before it has the id.
place_of_id-last :
    (id : ObjId) (sbs : List Sb) (c : Sb) (i : ℕ)
    → place_of_id id sbs i ≡ none
    → same_id c.id id ≡ true
    → place_of_id id (sbs ++ (c ∷ [])) i ≡ some (i + length sbs)
unfolding place_of_id
place_of_id-last id [] c i gone same = rw same (ap some (omega arith))
place_of_id-last id (sb ∷ sbs) c i gone same = elim (Bool-cases (same_id sb.id id)) [
  | inl first_one ↦ absurd (nothing (sym (rw first_one refl) ∙ gone))
  | inr later_one ↦
      rw later_one
        (place_of_id-last id sbs c (i + 1) (rw later_one at gone) same ∙ ap some (omega arith))
]
  where
    nothing : some i ≢ none
    nothing e = cc

-- What was found is found at the same place still.
place_of_id-before :
    (id : ObjId) (sbs : List Sb) (c : Sb) (i j : ℕ)
    → place_of_id id sbs i ≡ some j
    → place_of_id id (sbs ++ (c ∷ [])) i ≡ some j
unfolding place_of_id
place_of_id-before id [] c i j found = absurd (nothing found)
  where
    nothing : none ≢ some j
    nothing e = cc
place_of_id-before id (sb ∷ sbs) c i j found = elim (Bool-cases (same_id sb.id id)) [
  | inl first_one ↦ rw first_one (rw first_one at found)
  | inr later_one ↦ rw later_one (place_of_id-before id sbs c (i + 1) j (rw later_one at found))
]

-- An insertion either enters the superblock, or finds its id taken and changes nothing.
pub data InsertSays (r : Registry) (cand : Sb) : Registry × Bool → Type 0 where
  entered :
      {r' : Registry}
      → r' ≡ record r { sbs = r.sbs ++ (cand ∷ []) }
      → get_elem? r'.sbs (length r.sbs) ≡ some cand
      → sb_lookup r' cand.id
        ≡ some (
          record r' { refs = update r.refs (length r.sbs) (r.refs (length r.sbs) + 1) },
          some (length r.sbs),
        )
      → ((id : ObjId) (j : ℕ) → place_of_id id r.sbs 0 ≡ some j → place_of_id id r'.sbs 0 ≡ some j)
      → InsertSays r cand (r', true)
  id_taken : (j : ℕ) → place_of_id cand.id r.sbs 0 ≡ some j → InsertSays r cand (r, false)

looked :
    (r : Registry) (cand : Sb)
    → 0 < r.refs (length r.sbs)
    → place_of_id cand.id r.sbs 0 ≡ none
    → sb_lookup (record r { sbs = r.sbs ++ (cand ∷ []) }) cand.id
      ≡ some (
        record r {
          sbs = r.sbs ++ (cand ∷ []);
          refs = update r.refs (length r.sbs) (r.refs (length r.sbs) + 1);
        },
        some (length r.sbs),
      )
unfolding sb_lookup sb_ref
looked r cand live gone =
    rw
      (
        sb_lookup,
        place_of_id-last cand.id r.sbs cand 0 gone (same_id_refl cand.id) ∙ ap some from_zero,
      )
      (bind-some _ (bind-some _ (held (r.refs (length r.sbs)) live) refl) refl)
  where
    from_zero : 0 + length r.sbs ≡ length r.sbs
    from_zero = omega arith

at_end : (sbs : List Sb) (c : Sb) → get_elem? (sbs ++ (c ∷ [])) (length sbs) ≡ some c
at_end [] c = refl
at_end (sb ∷ sbs) c = at_end sbs c

-- Where the new superblock has a reference, an insertion either returns 0, the list is the one
-- before with the new superblock at its end, a lookup of its id then gives that place with one
-- reference more, and every other id is found where it was; or it returns -EEXIST, the list is
-- unchanged, and a superblock in it has the id.
pub sb_insert-InsertSays :
    (r : Registry) (cand : Sb) → 0 < r.refs (length r.sbs) → InsertSays r cand (sb_insert r cand)
unfolding sb_insert
sb_insert-InsertSays r cand live = elim (Option-cases (place_of_id cand.id r.sbs 0)) [
  | inr (j, found) ↦ rw (sb_insert, found) (id_taken j found)
  | inl gone ↦
      rw (sb_insert, gone)
        (entered refl (at_end r.sbs cand) (looked r cand live gone)
          (λ id j e. place_of_id-before id r.sbs cand 0 j e))
]
