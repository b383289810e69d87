-- ===== src/Core/Super/Tests.antt =====
-- The theorems on formatting and loading at a device of four blocks.
use ddfs.Base.{ℕ, ◌+◌, ◌*◌, ◌≡◌, refl, true, false, Option, none, some, List, [], ◌∷◌, arith, ◌==◌}
use ddfs.Core.Balloc.{
  Sb, Errno, Io, clear_loop, bm_clear, block_bm_bit, mark_place, block_mark, find_set_free_bit,
  alloc_loop, block_alloc, success, eio,
}
use ddfs.Core.Balloc.Scan.{scan_bits, long_full, scan_longs}
use ddfs.Core.Super.{
  ImageHeader, image_magic, image_sig, div_round_up, blank_sb, gen_header, parse_header,
  fill_header, sb_check, Dev, checked_sb, sb_create_new, sb_create_read, mark_loop, new_root,
  btree_create, Formatted, put_header, sb_format, sb_load,
}
use ddfs.Core.Super.Format.{IsGood}
use ddfs.Core.Super.Fresh.{IsFresh, sb_format-IsFresh}
use ddfs.Core.Super.Geometry.{IsSuitable}
use ddfs.Core.Super.Load.{Accepted, sb_load-Accepted}
use ddfs.Core.Super.Reload.{left_by, sb_format-sb_load}
use ddfs.Crt.ObjId.{ObjId}

abbrev four_blocks : Dev
four_blocks = record { dev_size = 262144; dev_bsize = 65536; disk = λ c k. true }

abbrev good_disk : Io
good_disk = record { get = λ _. true; zeroed = λ _. success; sync = λ _. success }

abbrev an_id : ObjId
an_id = record { high = 7; low = 9 }

abbrev sum_up : List ℕ → ℕ
sum_up [] = 0
sum_up (x ∷ xs) = x + 31 * sum_up xs

four_blocks-IsSuitable : IsSuitable four_blocks 16
unfolding div_round_up
four_blocks-IsSuitable = record {
  one_page = omega arith;
  word = omega arith;
  bsize = refl;
  small = omega arith;
  whole = refl;
  over = omega arith;
  node_fits = omega arith;
}

good_disk-IsGood : IsGood good_disk
good_disk-IsGood = record { get = λ _. refl; zeroed = λ _. refl; sync = λ _. refl }

sb_format-IsFresh_example :
    (sb : Sb) × (sb_format sum_up good_disk four_blocks (some an_id)
      ≡ some (record { errno = success; sb = sb; header = some (fill_header sum_up sb) }))
    × IsFresh four_blocks an_id 16 sb
sb_format-IsFresh_example =
    sb_format-IsFresh sum_up good_disk four_blocks an_id 16 good_disk-IsGood four_blocks-IsSuitable

abbrev format_run : Option Formatted
format_run = sb_format sum_up good_disk four_blocks (some an_id)

abbrev formatted : Option Formatted → Formatted
formatted (some f) = f
formatted none = record { errno = eio; sb = blank_sb (λ _ _. false); header = none }

format_run-runs : format_run ≡ some (formatted format_run)
unfolding sb_format put_header new_root mark_loop sb_create_new checked_sb sb_check gen_header
    div_round_up bm_clear clear_loop block_mark mark_place block_bm_bit block_alloc alloc_loop
    find_set_free_bit scan_longs scan_bits long_full
format_run-runs = refl

sb_format-sb_load_example :
    sb_load sum_up good_disk
      (λ _. true)
      (left_by sum_up good_disk (λ _. true) four_blocks an_id 16 (formatted format_run).sb)
      (formatted format_run).header
    ≡ some (success, record (formatted format_run).sb { read_locks = λ _. 0; sb_unlocks = 0 })
sb_format-sb_load_example =
    sb_format-sb_load sum_up good_disk (λ _. true) four_blocks an_id 16 (formatted format_run)
      good_disk-IsGood four_blocks-IsSuitable format_run-runs refl

abbrev four_header : ImageHeader
four_header = record {
  magic = image_magic;
  version = 1;
  id = an_id;
  size = 262144;
  bm_block = 1;
  bm_blocks = 1;
  inodes_tree_block = 2;
  used_blocks = 3;
  bsize = 65536;
  sum = 0;
  sig = image_sig;
}

abbrev four_loaded : Option (Errno × Sb)
four_loaded = sb_load (λ _. 0) good_disk (λ b. b == 2) four_blocks (some four_header)

abbrev loaded_sb : Option (Errno × Sb) → Sb
loaded_sb (some r) = r.1
loaded_sb none = blank_sb (λ _ _. false)

four_loaded-runs : four_loaded ≡ some (success, loaded_sb four_loaded)
unfolding sb_load sb_create_read parse_header checked_sb sb_check btree_create
four_loaded-runs = refl

sb_load-Accepted_example :
    Accepted (λ _. 0) good_disk (λ b. b == 2) four_blocks four_header (loaded_sb four_loaded)
sb_load-Accepted_example =
    sb_load-Accepted (λ _. 0) good_disk (λ b. b == 2) four_blocks four_header
      (loaded_sb four_loaded) four_loaded-runs
