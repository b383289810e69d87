-- ===== src/Core/Registry/Tests.antt =====
-- The theorem on the list of superblocks at a list of two.
use ddfs.Base.{
  ℕ, ◌+◌, ◌≤◌, ◌≡◌, refl, Bool, true, false, Option, none, some, [], ◌∷◌, arith, ◌==◌, length,
}
use ddfs.Core.Balloc.{Sb, Errno, Out, success}
use ddfs.Core.Registry.{Registry, sb_insert, most_free_loop, list_op}
use ddfs.Core.Registry.Balance.{OpSays, list_op-OpSays}
use ddfs.Core.Registry.Insert.{InsertSays, sb_insert-InsertSays}
use ddfs.Core.Registry.Links.{holders}
use ddfs.Core.Super.{blank_sb}

abbrev numbered : ℕ → Sb
numbered n = record (blank_sb (λ _ _. false)) {
  id = record { high = 1; low = n };
  nr_blocks = 100;
  used_blocks = n;
}

abbrev two_sbs : Registry
two_sbs = record { sbs = numbered 5 ∷ numbered 6 ∷ []; refs = λ _. 1 }

abbrev in_second : Sb → Bool
in_second sb = sb.used_blocks == 6

-- The operation counts one block more.
abbrev use_block : Sb → Option (Out (Errno × ℕ))
use_block sb = some (record {
  after = record sb { used_blocks = sb.used_blocks + 1 };
  value = (success, sb.used_blocks);
})

few_holders : length (holders in_second two_sbs.sbs 0) ≤ 1
unfolding holders
few_holders = omega arith

list_op-OpSays_example :
    (out : Registry × Errno × Option ℕ) × (list_op in_second (λ _. true) use_block two_sbs
      ≡ some out)
    × OpSays in_second use_block two_sbs out
list_op-OpSays_example =
    list_op-OpSays in_second (λ _. true) use_block two_sbs (λ _. omega arith) few_holders
      (λ sb. (_, refl))

-- The second superblock has fewer free blocks, so the first one is chosen.
most_free_first : most_free_loop two_sbs.sbs 0 0 none ≡ some (some 0)
unfolding most_free_loop
most_free_first = refl

sb_insert-InsertSays_example : InsertSays two_sbs (numbered 7) (sb_insert two_sbs (numbered 7))
sb_insert-InsertSays_example = sb_insert-InsertSays two_sbs (numbered 7) (omega arith)
