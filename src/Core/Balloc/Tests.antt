-- ===== src/Core/Balloc/Tests.antt =====
-- The theorems on the bitmap at concrete superblocks.
use ddfs.Base.{ℕ, ◌≡◌, refl, true, false, ◌&&◌, some, arith, ◌==◌}
use ddfs.Core.Balloc.{
  Sb, Errno, Io, Out, block_bm_bit, block_free, find_set_free_bit, alloc_loop, block_alloc, success,
}
use ddfs.Core.Balloc.Alloc.{take, IsAlloc, block_alloc-IsAlloc}
use ddfs.Core.Balloc.Free.{FreeSays, block_free-FreeSays}
use ddfs.Core.Balloc.Position.{IsBitmap, bit_of}
use ddfs.Core.Balloc.Returned.{IsReturned, free-alloc}
use ddfs.Core.Balloc.Scan.{scan_bits, long_full, scan_longs}

-- Two clusters of one page, the first block of the disk in use and the others free.
abbrev two_clusters : Sb
two_clusters = record {
  bm_block = 1;
  bm_blocks = 2;
  nr_blocks = 40000;
  bsize = 4096;
  used_blocks = 1;
  bits = λ c k. c == 1 && k == 0;
  read_locks = λ _. 0;
  sb_unlocks = 0;
  id = record { high = 7; low = 9 };
  magic = 0;
  version = 0;
  size = 0;
  inodes_tree_block = 0;
  stopping = false;
}

abbrev good_disk : Io
good_disk = record { get = λ _. true; zeroed = λ _. success; sync = λ _. success }

two_clusters-IsBitmap : IsBitmap two_clusters 1
two_clusters-IsBitmap = record {
  pages = refl;
  one_page = omega arith;
  word = omega arith;
  covers = omega arith;
  fits = omega arith;
}

block_alloc-IsAlloc_example :
    (o : Out (Errno × ℕ)) × (block_alloc good_disk two_clusters ≡ some o) × IsAlloc two_clusters o
block_alloc-IsAlloc_example =
    block_alloc-IsAlloc good_disk two_clusters 1 two_clusters-IsBitmap (λ _. refl) (λ _. refl)

block_free-FreeSays_example : FreeSays good_disk two_clusters 0 (bit_of two_clusters 0)
block_free-FreeSays_example =
    block_free-FreeSays good_disk two_clusters 1 0 two_clusters-IsBitmap (λ _. refl) (λ _. refl)

first_bit : bit_of two_clusters 0 ≡ some true
unfolding block_bm_bit
first_bit = refl

second_bit : bit_of two_clusters 1 ≡ some false
unfolding block_bm_bit
second_bit = refl

-- The allocation takes block 1.
abbrev after_alloc : Out (Errno × ℕ)
after_alloc = record { after = take two_clusters 1 1; value = (success, 1) }

alloc_takes : block_alloc good_disk two_clusters ≡ some after_alloc
unfolding block_alloc alloc_loop find_set_free_bit scan_longs scan_bits long_full
alloc_takes = refl

free-alloc_example : IsReturned two_clusters (block_free good_disk after_alloc.after 1)
free-alloc_example =
    free-alloc good_disk two_clusters 1 after_alloc 1 two_clusters-IsBitmap (λ _. refl) (λ _. refl)
      alloc_takes refl
