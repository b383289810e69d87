-- ===== src/Core/Inode/Contract.antt =====
-- What an inode needs of its trees and of the bitmap: the blocks that it has taken stay its own.
use ddfs.Base.{ℕ, ◌<◌, ◌≡◌, ◌≢◌, Bool, true, false, none, some, if◌then◌else◌}
use ddfs.Core.Balloc.{Sb, Errno, is_ok, Out}
use ddfs.Core.Balloc.Blocks.{Kept}
use ddfs.Core.Balloc.Position.{IsBitmap, bit_of}
use ddfs.Core.Inode.{Trees}

abbrev pub InUse : Sb → ℕ → Type 0
InUse sb b = bit_of sb b ≡ some true

-- What an inode needs of the operations of core/btree.c on a disk without errors, for trees of a kind `IsFit` and keys below `limit`. `owns` says which blocks the nodes of a tree stand in. An insertion takes free blocks at most, a deletion gives back blocks of the tree at most. Core/Inode/Leaves has it for trees of one leaf.
pub record Contract {T : Type 0} (trees : Trees T) : Type 1 where
  pub owns : T → ℕ → Bool
  pub IsFit : T → Type 0
  pub limit : ℕ
  pub insert_says :
      (sb : Sb) (m : ℕ) (t : T) (k v : ℕ)
      → IsBitmap sb m
      → IsFit t
      → k < limit
      → ((b : ℕ) → owns t b ≡ true → InUse sb b)
      → trees.find t k ≡ none
      → (o : Out (Errno × T)) × (trees.insert sb t k v ≡ some o)
        × IsFit o.value.1
        × Kept sb o.after
        × ((b : ℕ) → InUse sb b → InUse o.after b)
        × ((b : ℕ) → owns o.value.1 b ≡ true → InUse o.after b)
        × ((b : ℕ) → owns o.value.1 b ≡ true → InUse sb b → owns t b ≡ true)
        × (trees.find o.value.1 k ≡ (if is_ok o.value.0 then some v else none))
        × ((other : ℕ) → other ≢ k → trees.find o.value.1 other ≡ trees.find t other)
  pub delete_says :
      (sb : Sb) (m : ℕ) (t : T) (k v : ℕ)
      → IsBitmap sb m
      → IsFit t
      → ((b : ℕ) → owns t b ≡ true → InUse sb b)
      → trees.find t k ≡ some v
      → (o : Out (Errno × T)) × (trees.delete sb t k ≡ some o)
        × IsFit o.value.1
        × Kept sb o.after
        × ((b : ℕ) → InUse sb b → owns t b ≡ false → InUse o.after b)
        × ((b : ℕ) → owns o.value.1 b ≡ true → InUse o.after b)
        × ((b : ℕ) → owns o.value.1 b ≡ true → owns t b ≡ true)
        × (trees.find o.value.1 k ≡ none)
        × ((other : ℕ) → other ≢ k → trees.find o.value.1 other ≡ trees.find t other)

module _ {T : Type 0} (trees : Trees T) (contract : Contract trees) (m : ℕ) where
  -- A block that belongs to the inode's data or checksums: in use, and in neither tree.
  pub record IsTaken (sb : Sb) (bt st : T) (b : ℕ) : Type 0 where
    pub used : InUse sb b
    pub not_bt : contract.owns bt b ≡ false
    pub not_st : contract.owns st b ≡ false

  -- The trees of an inode over the bitmap: every block stands for one thing.
  pub record IsMapped (sb : Sb) (bt st : T) : Type 0 where
    pub bitmap : IsBitmap sb m
    pub bt_fit : contract.IsFit bt
    pub st_fit : contract.IsFit st
    pub bt_used : (b : ℕ) → contract.owns bt b ≡ true → InUse sb b
    pub st_used : (b : ℕ) → contract.owns st b ≡ true → InUse sb b
    pub apart : (b : ℕ) → contract.owns bt b ≡ true → contract.owns st b ≡ false
    pub data_taken : (v b : ℕ) → trees.find bt v ≡ some b → IsTaken sb bt st b
    pub sum_taken : (s c : ℕ) → trees.find st s ≡ some c → IsTaken sb bt st c
    pub data_once : (v v' b : ℕ) → trees.find bt v ≡ some b → trees.find bt v' ≡ some b → v ≡ v'
    pub sum_once : (s s' c : ℕ) → trees.find st s ≡ some c → trees.find st s' ≡ some c → s ≡ s'
    pub data_sum : (v s b : ℕ) → trees.find bt v ≡ some b → trees.find st s ≢ some b

  -- A block that stands for nothing.
  pub record IsUnneeded (bt st : T) (b : ℕ) : Type 0 where
    pub not_bt : contract.owns bt b ≡ false
    pub not_st : contract.owns st b ≡ false
    pub no_data : (v : ℕ) → trees.find bt v ≢ some b
    pub no_sum : (s : ℕ) → trees.find st s ≢ some b

  -- A block that is in use and stands for nothing yet.
  pub record IsSpare (sb : Sb) (bt st : T) (b : ℕ) : Type 0 where
    pub used : InUse sb b
    pub unneeded : IsUnneeded bt st b
