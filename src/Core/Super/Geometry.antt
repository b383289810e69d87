-- ===== src/Core/Super/Geometry.antt =====
-- The geometry that `nkfs_sb_gen_header` gives a device: one block for the header, then a bitmap that
-- has a bit for every block, then at least one block more.
use ddfs.Base.{
  ℕ, ◌+◌, ◌-◌, ◌*◌, ◌/◌, ◌%◌, ◌^◌, ◌≤◌, ◌<◌, ◌≡◌, refl, ap, ◌∙◌, ◌≢◌, inl, inr, false, Option, none,
  some, arith, ltb, leb, ltb→lt, ge→ltb, ltb→ge, ne→==, Bool-cases, bind-some, u64, sub64,
}
use ddfs.Core.Balloc.{Sb, success}
use ddfs.Core.Balloc.Position.{IsBitmap}
use ddfs.Core.Super.{
  image_magic, image_ver_1, image_bm_block, div_round_up, blank_sb, gen_header, sb_check, Dev,
  checked_sb, sb_create_new, node_size, node_guard,
}
use ddfs.Crt.ObjId.{ObjId}
use native.Mathlib.Nat.{
  mod-eq_of_lt, mul_comm, mul_assoc, div-add-mod, mul-le-mul_right, mul-le-mul_left, mul-add,
  mul-one, div-le_self, mul-div-le, lt-mul-div-succ,
}
use native.Mathlib.Nat.{
  mul-add, mul_comm, mul_assoc, mul-le-mul_right, mul-div-le, lt-mul-div-succ, div-add-mod,
  div-le_self, mul-one, mod-eq_of_lt, mul-le-mul_left,
}
use mathlib.Core.Path.{subst}

-- A superblock whose blocks are of `m` pages, as formatting makes it and loading expects it.
pub record IsLaidOut (sb : Sb) (m : ℕ) : Type 0 where
  pub bitmap : IsBitmap (record sb { nr_blocks = sb.size / sb.bsize }) m
  pub at_one : sb.bm_block ≡ 1
  pub room : 1 + sb.bm_blocks < sb.size / sb.bsize
  pub checked : sb_check sb ≡ success

module _ (size m : ℕ) (pos : 0 < m) (word : 4096 * m < 2 ^ 32) (small : size < 2 ^ 60) where
  abbrev bytes : ℕ
  bytes = div_round_up (size / (4096 * m)) 8

  abbrev bms : ℕ
  bms = div_round_up bytes (4096 * m)

  blocks_small : size / (4096 * m) ≤ size
  blocks_small = div-le_self size (4096 * m)

  bytes-value : bytes ≡ (size / (4096 * m) + 7) / 8
  unfolding div_round_up
  bytes-value = omega (arith, blocks_small)

  bytes_small : bytes ≤ size + 7
  bytes_small = omega (arith, bytes-value, blocks_small)

  bms-value : bms ≡ (bytes + (4096 * m - 1)) / (4096 * m)
  unfolding div_round_up
  bms-value = ap (λ x. x / (4096 * m)) (whole bytes bytes_small)
    where
      whole : (b : ℕ) → b ≤ size + 7 → sub64 (u64 (b + 4096 * m)) 1 ≡ b + (4096 * m - 1)
      whole b h = omega arith

  -- The bitmap is as long as the bits take, and no cluster longer.
  bms_cover : bytes ≤ 4096 * m * bms
  bms_cover = omega (arith, bms-value, step)
    where
      step : bytes + (4096 * m - 1) < 4096 * m * bms + 4096 * m
      step = rw (bms-value) (
          subst (λ x. bytes + (4096 * m - 1) < x)
            (mul-add (4096 * m) ((bytes + (4096 * m - 1)) / (4096 * m)) 1
              ∙ ap (λ x. 4096 * m * ((bytes + (4096 * m - 1)) / (4096 * m)) + x)
                  (mul-one (4096 * m)))
            (lt-mul-div-succ (bytes + (4096 * m - 1)) (omega arith)))

  bms_least : 4096 * m * bms ≤ bytes + 4096 * m
  bms_least = rw (bms-value) (omega (arith, mul-div-le (bytes + (4096 * m - 1)) (4096 * m)))

  bits_product : 32768 * (bms * m) ≡ 8 * (4096 * m * bms)
  bits_product = omega (arith, mul_assoc 4096 m bms, mul_comm bms m)

  -- What the tests of `nkfs_sb_gen_header` say, as numbers.
  module _ (whole : size % (4096 * m) ≡ 0) (over : (1 + bms) * (4096 * m) < size) where
    blocks_product : 4096 * m * (size / (4096 * m)) ≡ size
    blocks_product = omega (arith, div-add-mod size (4096 * m))

    room_left : 1 + bms < size / (4096 * m)
    room_left = elim (Bool-cases (ltb (1 + bms) (size / (4096 * m)))) [
      | inl yes_room ↦ ltb→lt (1 + bms) (size / (4096 * m)) yes_room
      | inr none_left ↦ absurd (
          omega (
            arith,
            mul-le-mul_right (4096 * m) (ltb→ge (1 + bms) (size / (4096 * m)) none_left),
            mul_comm (size / (4096 * m)) (4096 * m),
            blocks_product,
          ))
    ]

    covered : size / (4096 * m) ≤ 32768 * (bms * m)
    covered = omega (arith, bits_product, bms_cover, bytes-value)

    fitting : 32768 * (bms * m) < 2 ^ 64
    fitting = omega (arith, bits_product, bms_least, bytes_small)

-- A device that formatting accepts: whole blocks of `m` pages, and room behind the header and the bitmap.
pub record IsSuitable (dev : Dev) (m : ℕ) : Type 0 where
  pub one_page : 0 < m
  pub word : 4096 * m < 2 ^ 32
  pub bsize : dev.dev_bsize ≡ 4096 * m
  pub small : dev.dev_size < 2 ^ 60
  pub whole : dev.dev_size % (4096 * m) ≡ 0
  pub over :
      (1 + div_round_up (div_round_up (dev.dev_size / (4096 * m)) 8) (4096 * m)) * (4096 * m)
      < dev.dev_size
  pub node_fits : node_size ≤ dev.dev_bsize

module _ (dev : Dev) (m : ℕ) (s : IsSuitable dev m) (id : ObjId) where
  abbrev bm_size : ℕ
  bm_size = bms dev.dev_size m s.one_page s.word s.small

  -- The superblock that `nkfs_sb_create` makes.
  abbrev pub new_sb : Sb
  new_sb = record (blank_sb dev.disk) {
    id = id;
    magic = image_magic;
    version = image_ver_1;
    size = dev.dev_size;
    bsize = dev.dev_bsize;
    bm_block = image_bm_block;
    bm_blocks = bm_size;
    nr_blocks = dev.dev_size / dev.dev_bsize;
  }

  product_small : (1 + bm_size) * (4096 * m) < 2 ^ 64
  product_small = omega (arith, s.over, s.small)

  gt→leb : (a b : ℕ) → b < a → leb a b ≡ false
  gt→leb a b h = ground arith

  more_than_block : 4096 * m < dev.dev_size
  more_than_block = omega (arith, s.over, mul-le-mul_right (4096 * m) one_at_least)
    where
      one_at_least : 1 ≤ 1 + bm_size
      one_at_least = omega arith

  more_than_clusters : bm_size + 1 < dev.dev_size
  more_than_clusters = omega (
    arith,
    s.over,
    s.one_page,
    mul-le-mul_left (1 + bm_size) page_at_least,
    mul-one (1 + bm_size),
  )
    where
      page_at_least : 1 ≤ 4096 * m
      page_at_least = omega (arith, s.one_page)

  gen_header-runs :
      gen_header (some id) (blank_sb dev.disk) dev.dev_size dev.dev_bsize
      ≡ some (success, record new_sb { nr_blocks = 0 })
  unfolding gen_header
  gen_header-runs =
      rw
        (
          s.bsize,
          ne→== (4096 * m) 0 (omega (arith, s.one_page)),
          s.whole,
          gt→leb dev.dev_size (4096 * m) more_than_block,
          mod-eq_of_lt product_small,
          gt→leb dev.dev_size ((1 + bm_size) * (4096 * m)) s.over,
        )
        refl

  new_sb-checked : (nr : ℕ) → sb_check (record new_sb { nr_blocks = nr }) ≡ success
  unfolding sb_check
  new_sb-checked nr =
      rw
        (
          ne→== dev.dev_size 0 (omega (arith, more_than_block)),
          s.bsize,
          ne→== (4096 * m) 0 (omega (arith, s.one_page)),
          gt→leb dev.dev_size (4096 * m) more_than_block,
          s.whole,
          clusters,
        )
        refl
    where
      clusters : leb dev.dev_size (u64 (bm_size + image_bm_block)) ≡ false
      clusters = rw (mod-eq_of_lt fits) (gt→leb dev.dev_size (bm_size + 1) more_than_clusters)
        where
          fits : bm_size + 1 < 2 ^ 64
          fits = omega (arith, more_than_clusters, s.small)

  pub sb_create_new-runs : sb_create_new dev (some id) ≡ some (success, new_sb)
  unfolding sb_create_new checked_sb
  sb_create_new-runs = bind-some _ gen_header-runs (rw (new_sb-checked 0) refl)

  pub new_sb-IsLaidOut : IsLaidOut new_sb m
  new_sb-IsLaidOut = record {
    bitmap = record {
      pages = s.bsize;
      one_page = s.one_page;
      word = s.word;
      covers = rw (s.bsize) (covered dev.dev_size m s.one_page s.word s.small s.whole s.over);
      fits = fitting dev.dev_size m s.one_page s.word s.small s.whole s.over;
    };
    at_one = refl;
    room = rw (s.bsize) (room_left dev.dev_size m s.one_page s.word s.small s.whole s.over);
    checked = new_sb-checked (dev.dev_size / dev.dev_bsize);
  }

-- Where the BUG_ONs of a node let it pass.
pub node_guard-in :
    (sb : Sb) (b : ℕ) → node_size ≤ sb.bsize → b ≢ 0 → b < sb.nr_blocks → node_guard sb b ≡ some tt
node_guard-in sb b wide ne below =
    rw (ge→ltb sb.bsize node_size wide) (rw (ne→== b 0 ne) (rw inside refl))
  where
    inside : leb sb.nr_blocks b ≡ false
    inside = ground arith

pub node_guard-wide : (sb : Sb) (b : ℕ) → node_guard sb b ≡ some tt → node_size ≤ sb.bsize
node_guard-wide sb b e = elim (Bool-cases (ltb sb.bsize node_size)) [
  | inr wide ↦ ltb→ge sb.bsize node_size wide
  | inl short ↦ absurd (stops (rw short at e))
]
  where
    stops : ◌≢◌ {A = Option (Unit {0})} none (some tt)
    stops h = cc
