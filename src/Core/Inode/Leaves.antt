-- ===== src/Core/Inode/Leaves.antt =====
-- The trees of an inode as core/btree.c has them, and the contract for those of one leaf.
use ddfs.Base.{ℕ, ◌≡◌, sym, ap, ◌∙◌, true, false, Option, none, some, ◌==◌}
use ddfs.Btree.Tree.{Tree, Status, ok}
use ddfs.Btree.Tree.Delete.{delete_key}
use ddfs.Btree.Tree.Insert.{insert_key}
use ddfs.Btree.Tree.Leaf.{look_up, max_keys, IsLeafTree, insert_key-MapsTo, delete_key-MapsTo}
use ddfs.Core.Balloc.{Sb, Errno, Out, success, eio}
use ddfs.Core.Balloc.Blocks.{Kept-refl}
use ddfs.Core.Inode.{Trees}
use ddfs.Core.Inode.Contract.{Contract}

-- The errors of a tree as the inode sees them; it does not tell them apart.
abbrev errno_of : Status → Errno
errno_of ok = success
errno_of _ = eio

-- A result of the tree, with the superblock of before: a tree takes its new blocks from `free`.
abbrev with_sb : Sb → Option (Status × Tree) → Option (Out (Errno × Tree))
with_sb sb none = none
with_sb sb (some r) = some (record { after = sb; value = (errno_of r.0, r.1) })

-- `nkfs_btree_find_key`, `nkfs_btree_insert_key` without replacing and `nkfs_btree_delete_key`.
abbrev pub leaf_trees : Trees Tree
leaf_trees = record {
  find = look_up;
  insert = λ sb t k v. with_sb sb (insert_key 1 t k v false);
  delete = λ sb t k. with_sb sb (delete_key 1 t k);
}

pub same_owner :
    (t t' : Tree) → t'.root ≡ t.root → (b : ℕ) → (b == t'.root) ≡ true → (b == t.root) ≡ true
same_owner t t' e b own = ap (λ x. b == x) (sym e) ∙ own

-- The insertion and the deletion of a tree of one leaf do what an inode needs, for as many keys as a node
-- holds: its one block stays its own.
unfoldable pub leaf_contract : Contract leaf_trees
leaf_contract = record {
  owns = λ t b. b == t.root;
  IsFit = IsLeafTree;
  limit = max_keys;
  insert_says = λ sb m t k v g fit low own gone.
      let (t', run, s) = insert_key-MapsTo t fit k 0 v low gone in
      (
        record { after = sb; value = (success, t') },
        ap (with_sb sb) run,
        s.fit,
        Kept-refl sb,
        λ b used. used,
        λ b mine. own b (same_owner t t' s.same_root b mine),
        λ b mine used. same_owner t t' s.same_root b mine,
        s.here,
        s.there,
      );
  delete_says = λ sb m t k v g fit own has.
      let (t', run, s) = delete_key-MapsTo t fit k 0 v has in
      (
        record { after = sb; value = (success, t') },
        ap (with_sb sb) run,
        s.fit,
        Kept-refl sb,
        λ b used _. used,
        λ b mine. own b (same_owner t t' s.same_root b mine),
        λ b mine. same_owner t t' s.same_root b mine,
        s.here,
        s.there,
      );
}
