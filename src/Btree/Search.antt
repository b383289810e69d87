-- ===== src/Btree/Search.antt =====
-- The binary searches of core/btree.c over the keys of one node: `nkfs_btree_node_has_key` and
-- `nkfs_btree_node_find_key_index`. A comparison is `memcmp` of the sixteen bytes.
pub mod Sound
pub mod Answers
use ddfs.Base.{
  ℕ, zero, suc, ◌+◌, ◌-◌, ◌/◌, Bool, true, false, not, Option, none, some, ltb, ◌==◌, if◌then◌else◌,
  ◌>>=◌, ◌>>◌,
}
use ddfs.Btree.Node.{Key, Node, node_key}
use Prim.Native.Nat.{compare, Ordering}

-- How the loop that the two functions share ends: at the key, or with `start` and `end` met.
pub data Outcome : Type 0 where
  hit : ℕ → Outcome
  miss : ℕ → Outcome

module _ (n : Node) (key : Key) where
  -- while (start < end): the first argument bounds the rounds, and `none` would be its end.
  unfoldable pub search_loop : ℕ → ℕ → ℕ → Option Outcome
  search_loop zero start end = none
  search_loop (suc fuel) start end =
      if ltb start end
      then (do
        k ← node_key n ((start + end) / 2)
        elim (compare key k) [
          | Ordering.eq ↦ some (hit ((start + end) / 2))
          | Ordering.lt ↦ search_loop fuel start ((start + end) / 2)
          | Ordering.gt ↦ search_loop fuel ((start + end) / 2 + 1) end
        ])
      else some (miss end)

  -- `nkfs_btree_node_key_probably_inside`
  unfoldable pub key_probably_inside : Option Bool
  key_probably_inside = if n.nr_keys == 0 then some false else do
    last ← node_key n (n.nr_keys - 1)
    if ltb last key
        then some false
        else do first ← node_key n 0; some (if ltb key first then false else true)

  -- `nkfs_btree_node_has_key`: the index of the key; `none` inside stands for -1.
  unfoldable pub has_key : Option (Option ℕ)
  has_key = do
    inside ← key_probably_inside
    if not inside then some none else do
      out ← search_loop (n.nr_keys + 1) 0 n.nr_keys
      elim out [ hit mid ↦ some (some mid) | miss end ↦ some none ]

  -- `nkfs_btree_node_find_key_index`
  unfoldable pub find_key_index : Option ℕ
  find_key_index = if n.nr_keys == 0 then some 0 else do
    last ← node_key n (n.nr_keys - 1)
    if ltb last key then some n.nr_keys else do
      first ← node_key n 0
      if ltb key first then some 0 else do
        out ← search_loop (n.nr_keys + 1) 0 n.nr_keys
        elim out [ hit mid ↦ some mid | miss end ↦ some end ]
