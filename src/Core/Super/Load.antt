-- ===== src/Core/Super/Load.antt =====
-- Loading a superblock from its header: which headers are accepted, and what becomes of them.
use ddfs.Base.{
  ℕ, ◌/◌, ◌≤◌, ◌<◌, ◌≡◌, refl, sym, ap, ◌∙◌, ◌≢◌, inl, inr, Bool, true, false, ◌&&◌, Option, none,
  some, List, arith, ltb, leb, ◌==◌, if◌then◌else◌, ge→ltb, ltb→ge, ==_iff, ne→==, ==-refl,
  Bool-cases, ◌>>=◌, ◌>>◌, bind-some,
}
use ddfs.Core.Balloc.{
  Sb, Errno, Io, is_ok, Out, success, eio, einval, enospc, enomem, enoent, erange,
}
use ddfs.Core.Registry.Links.{held}
use ddfs.Core.Super.{
  ImageHeader, image_sig, blank_sb, header_words, parse_header, fill_header, sb_check, Dev,
  checked_sb, sb_create_read, node_size, node_guard, new_root, btree_create, with_root, sb_load,
}
use ddfs.Core.Super.Geometry.{node_guard-in, node_guard-wide}

-- The superblock that loading makes of the header of `sb`, over the bitmap that is on the disk.
abbrev pub loaded : Dev → Sb → Sb
loaded dev sb = record sb {
  bits = dev.disk;
  read_locks = λ _. 0;
  sb_unlocks = 0;
  nr_blocks = sb.size / sb.bsize;
  stopping = false;
}

-- What `nkfs_sb_load` asks of the superblock that it makes of a header.
pub record IsAcceptable (dev : Dev) (sb : Sb) : Type 0 where
  pub checked : sb_check sb ≡ success
  pub held : sb.size ≤ dev.dev_size
  pub root_below : sb.inodes_tree_block < sb.size / sb.bsize

-- What becomes of the tree of inodes: its root is read, or the block is 0 and a new root is made.
pub data IsRootOf (io : Io) (root_there : ℕ → Bool) (sb sb' : Sb) : Type 0 where
  root_read :
      sb.inodes_tree_block ≢ 0
      → node_size ≤ sb.bsize
      → root_there sb.inodes_tree_block ≡ true
      → sb' ≡ sb
      → IsRootOf io root_there sb sb'
  root_made :
      (b : ℕ)
      → sb.inodes_tree_block ≡ 0
      → new_root io sb ≡ some (record { after = sb'; value = some b })
      → IsRootOf io root_there sb sb'

-- The end of a load: the tree of inodes is created.
abbrev pub opened : Io → (ℕ → Bool) → Sb → Option (Errno × Sb)
opened io root_there sb = do
  o ← btree_create io root_there sb sb.inodes_tree_block
  some (with_root o)

btree_create-read :
    (io : Io) (root_there : ℕ → Bool) (sb : Sb) (b : ℕ)
    → (b == 0) ≡ false
    → btree_create io root_there sb b ≡ (do
      node_guard sb b
      some (record { after = sb; value = if root_there b then some b else none }))
unfolding btree_create
btree_create-read io root_there sb b e =
    ap
      (λ (z : Bool). elim z as (λ _. Option (Out (Option ℕ))) [
        | true ↦ new_root io sb
        | false ↦ do
          node_guard sb b
          some (record { after = sb; value = if root_there b then some b else none })
      ])
      e

btree_create-made :
    (io : Io) (root_there : ℕ → Bool) (sb : Sb) (b : ℕ)
    → (b == 0) ≡ true
    → btree_create io root_there sb b ≡ new_root io sb
unfolding btree_create
btree_create-made io root_there sb b e =
    ap
      (λ (z : Bool). elim z as (λ _. Option (Out (Option ℕ))) [
        | true ↦ new_root io sb
        | false ↦ do
          node_guard sb b
          some (record { after = sb; value = if root_there b then some b else none })
      ])
      e

opened-read :
    (io : Io) (root_there : ℕ → Bool) (sb : Sb)
    → sb.inodes_tree_block ≢ 0
    → sb.inodes_tree_block < sb.nr_blocks
    → node_size ≤ sb.bsize
    → root_there sb.inodes_tree_block ≡ true
    → opened io root_there sb ≡ some (success, sb)
opened-read io root_there sb ne below wide found = bind-some _ root refl
  where
    value :
        ◌≡◌ {A = Option (Out (Option ℕ))}
          (some (record {
            after = sb;
            value = if root_there sb.inodes_tree_block then some sb.inodes_tree_block else none;
          }))
          (some (record { after = sb; value = some sb.inodes_tree_block }))
    value = rw found refl

    root :
        btree_create io root_there sb sb.inodes_tree_block
        ≡ some (record { after = sb; value = some sb.inodes_tree_block })
    root =
        btree_create-read io root_there sb sb.inodes_tree_block (ne→== sb.inodes_tree_block 0 ne)
        ∙ bind-some _ (node_guard-in sb sb.inodes_tree_block wide ne below) value

abbrev after_create : Option (Out (Option ℕ)) → Option (Errno × Sb)
after_create r = do o ← r; some (with_root o)

opened-IsRootOf :
    (io : Io) (root_there : ℕ → Bool) (sb sb' : Sb)
    → opened io root_there sb ≡ some (success, sb')
    → IsRootOf io root_there sb sb'
opened-IsRootOf io root_there sb sb' e = elim (Bool-cases (sb.inodes_tree_block == 0)) [
  | inl zero_block ↦
      made (new_root io sb) refl
        (ap after_create (sym (btree_create-made io root_there sb sb.inodes_tree_block zero_block))
          ∙ e)
        ((==_iff sb.inodes_tree_block 0).0 zero_block)
  | inr far ↦
      read (node_guard sb sb.inodes_tree_block) refl (root_there sb.inodes_tree_block) refl
        (λ z. differ (sym far ∙ (==_iff sb.inodes_tree_block 0).1 z))
        (ap after_create (sym (btree_create-read io root_there sb sb.inodes_tree_block far)) ∙ e)
]
  where
    differ : false ≢ true
    differ h = cc

    stops : ◌≢◌ {A = Option (Errno × Sb)} none (some (success, sb'))
    stops h = cc

    fails : {s : Sb} → ◌≢◌ {A = Option (Errno × Sb)} (some (einval, s)) (some (success, sb'))
    fails h = cc

    from_some :
        {s : Sb} → ◌≡◌ {A = Option (Errno × Sb)} (some (success, s)) (some (success, sb')) → sb' ≡ s
    from_some h = cc

    read :
        (g : Option (Unit {0}))
        → node_guard sb sb.inodes_tree_block ≡ g
        → (there : Bool) → root_there sb.inodes_tree_block ≡ there
        → sb.inodes_tree_block ≢ 0
        → after_create (do
          g
          some (record { after = sb; value = if there then some sb.inodes_tree_block else none }))
          ≡ some (success, sb')
        → IsRootOf io root_there sb sb'
    read none same there f ne h = absurd (stops h)
    read (some tt) same false f ne h = absurd (fails h)
    read (some tt) same true f ne h =
        root_read ne (node_guard-wide sb sb.inodes_tree_block same) f (from_some h)

    of_value :
        (a : Sb) (v : Option ℕ)
        → some (record { after = a; value = v }) ≡ new_root io sb
        → ◌≡◌ {A = Option (Errno × Sb)}
            (some (elim v [ none ↦ einval | some _ ↦ success ], a))
            (some (success, sb'))
        → sb.inodes_tree_block ≡ 0
        → IsRootOf io root_there sb sb'
    of_value a none same h z = absurd (fails h)
    of_value a (some b) same h z =
        root_made b z
          (sym same ∙ ap (λ x. some (record { after = x; value = some b })) (sym (from_some h)))

    made :
        (r : Option (Out (Option ℕ)))
        → r ≡ new_root io sb
        → (do o ← r; some (with_root o)) ≡ some (success, sb')
        → sb.inodes_tree_block ≡ 0
        → IsRootOf io root_there sb sb'
    made none same h z = absurd (stops h)
    made (some o) same h z = of_value o.after o.value same h z

module _ (digest : List ℕ → ℕ) (io : Io) (root_there : ℕ → Bool) (dev : Dev) where
  loaded-checked : (sb : Sb) → sb_check sb ≡ success → sb_check (loaded dev sb) ≡ success
  unfolding sb_check
  loaded-checked sb e = e

  not_checked :
      (sb : Sb) (n : ℕ) → sb_check (record (loaded dev sb) { nr_blocks = n }) ≡ sb_check sb
  unfolding sb_check
  not_checked sb n = refl

  parse-fill :
      (sb : Sb)
      → parse_header digest (blank_sb dev.disk) (fill_header digest sb)
        ≡ (success, record (loaded dev sb) { nr_blocks = 0 })
  unfolding parse_header fill_header
  parse-fill sb = rw (==-refl (digest (header_words (fill_header digest sb)))) refl

  pub sb_create_read-fill :
      (sb : Sb)
      → sb_check sb ≡ success
      → sb_create_read digest dev (fill_header digest sb) ≡ (success, loaded dev sb)
  unfolding sb_create_read checked_sb
  sb_create_read-fill sb e = rw (parse-fill sb, not_checked sb 0, e) refl

  pub sb_load-fill :
      (sb : Sb)
      → io.get 0 ≡ true
      → IsAcceptable dev sb
      → sb.inodes_tree_block ≢ 0
      → node_size ≤ sb.bsize
      → root_there sb.inodes_tree_block ≡ true
      → sb_load digest io root_there dev (some (fill_header digest sb))
        ≡ some (success, loaded dev sb)
  unfolding sb_load
  sb_load-fill sb there a r wide found =
      rw
        (
          sb_create_read-fill sb a.checked,
          there,
          ge→ltb dev.dev_size sb.size a.held,
          lt→leb a.root_below,
          opened-read io root_there (loaded dev sb) r a.root_below wide found,
        )
        refl
    where
      lt→leb : {a b : ℕ} → a < b → leb b a ≡ false
      lt→leb h = ground arith

  -- The superblock of a header that is intact.
  abbrev of_header : ImageHeader → Sb
  of_header h = record (blank_sb dev.disk) {
    magic = h.magic;
    version = h.version;
    size = h.size;
    bsize = h.bsize;
    bm_block = h.bm_block;
    bm_blocks = h.bm_blocks;
    inodes_tree_block = h.inodes_tree_block;
    used_blocks = h.used_blocks;
    id = h.id;
  }

  -- Whether a load has ended and returned 0.
  abbrev code_ok : Option (Errno × Sb) → Bool
  code_ok none = false
  code_ok (some r) = is_ok r.0

  refused :
      {sb' : Sb} {x : Option (Errno × Sb)} {A : Type 0}
      → code_ok x ≡ false
      → x ≡ some (success, sb')
      → A
  refused f e = absurd (ne (sym f ∙ ap code_ok e))
    where
      ne : false ≢ true
      ne e = cc

  intact :
      (h : ImageHeader)
      → h.sig ≡ image_sig
      → h.sum ≡ digest (header_words h)
      → fill_header digest (of_header h) ≡ h
  unfolding fill_header
  intact h s c = rw (sym c) (ap (λ x. record h { sig = x }) (sym s))

  is_ok→success : (e : Errno) → is_ok e ≡ true → e ≡ success
  is_ok→success success f = refl
  is_ok→success eio f = cc
  is_ok→success einval f = cc
  is_ok→success enospc f = cc
  is_ok→success enomem f = cc
  is_ok→success enoent f = cc
  is_ok→success erange f = cc

  load_created :
      (h : ImageHeader)
      → (h.sig == image_sig) ≡ true
      → (h.sum == digest (header_words h)) ≡ true
      → sb_create_read digest dev h ≡ checked_sb (success, of_header h)
  unfolding sb_create_read parse_header
  load_created h s c = rw (s, c) refl

  refused_header :
      (h : ImageHeader)
      → (h.sig == image_sig && h.sum == digest (header_words h)) ≡ false
      → io.get 0 ≡ true
      → code_ok (sb_load digest io root_there dev (some h)) ≡ false
  unfolding sb_load sb_create_read parse_header checked_sb
  refused_header h f there = elim (Bool-cases (h.sig == image_sig)) [
    | inr s ↦ rw (s, there) refl
    | inl s ↦ elim (Bool-cases (h.sum == digest (header_words h))) [
      | inr c ↦ rw (s, c, there) refl
      | inl c ↦ absurd (ne s c f)
    ]
  ]
    where
      ne : {x y : Bool} → x ≡ true → y ≡ true → (x && y) ≢ false
      ne e f g = ground arith

  not_there :
      (h : ImageHeader)
      → io.get 0 ≡ false
      → code_ok (sb_load digest io root_there dev (some h)) ≡ false
  unfolding sb_load
  not_there h e = rw e refl

  refused_check :
      (h : ImageHeader)
      → (h.sig == image_sig) ≡ true
      → (h.sum == digest (header_words h)) ≡ true
      → io.get 0 ≡ true
      → is_ok (sb_check (of_header h)) ≡ false
      → code_ok (sb_load digest io root_there dev (some h)) ≡ false
  unfolding sb_load checked_sb
  refused_check h s c there f = rw (load_created h s c, there, f, f) f

  -- The tests that follow on a superblock that is checked.
  abbrev last : ImageHeader → Option (Errno × Sb)
  last h =
      if ltb dev.dev_size h.size
      then some (einval, loaded dev (of_header h))
      else (if leb (h.size / h.bsize) h.inodes_tree_block
          then some (einval, loaded dev (of_header h))
          else opened io root_there (loaded dev (of_header h)))

  checked_steps :
      (h : ImageHeader)
      → (h.sig == image_sig) ≡ true
      → (h.sum == digest (header_words h)) ≡ true
      → io.get 0 ≡ true
      → is_ok (sb_check (of_header h)) ≡ true
      → sb_load digest io root_there dev (some h) ≡ last h
  unfolding sb_load checked_sb
  checked_steps h s c there f = rw (load_created h s c, f, there) refl

  -- What a load that returns 0 says of the header and of the superblock.
  abbrev pub Accepted : ImageHeader → Sb → Type 0
  Accepted h sb =
      (read : Sb) × (fill_header digest read ≡ h)
      × (read ≡ loaded dev read)
      × IsAcceptable dev read
      × IsRootOf io root_there read sb

  accepted_fill :
      (h : ImageHeader)
      → (h.sig == image_sig) ≡ true
      → (h.sum == digest (header_words h)) ≡ true
      → fill_header digest (loaded dev (of_header h)) ≡ h
  unfolding fill_header
  accepted_fill h s c =
      intact h ((==_iff h.sig image_sig).0 s) ((==_iff h.sum (digest (header_words h))).0 c)

  last_tests :
      (h : ImageHeader) (sb : Sb)
      → (h.sig == image_sig) ≡ true
      → (h.sum == digest (header_words h)) ≡ true
      → sb_check (of_header h) ≡ success
      → last h ≡ some (success, sb)
      → Accepted h sb
  last_tests h sb s c f e = elim (Bool-cases (ltb dev.dev_size h.size)) [
    | inl over ↦ refused refl (rw over at e)
    | inr held ↦ elim (Bool-cases (leb (h.size / h.bsize) h.inodes_tree_block)) [
      | inl over ↦ refused refl (rw (held, over) at e)
      | inr inside ↦ (
        loaded dev (of_header h),
        accepted_fill h s c,
        refl,
        record {
          checked = loaded-checked (of_header h) f;
          held = ltb→ge dev.dev_size h.size held;
          root_below = gt_of inside;
        },
        opened-IsRootOf io root_there (loaded dev (of_header h)) sb (rw (held, inside) at e),
      )
    ]
  ]
    where
      gt_of : {a b : ℕ} → leb b a ≡ false → a < b
      gt_of h = ground arith

  -- If loading a header returns 0, the header is the one that the loaded superblock would write,
  -- the superblock has its fields and the bitmap of the disk, it passes its check, it is not
  -- larger than the device, and the block of the root of its tree of inodes is one of its blocks;
  -- either that block is not 0, a node fits into a block, the root was found, and the superblock
  -- is otherwise unchanged, or it is 0, and the superblock is what the making of a new root
  -- leaves.
  pub sb_load-Accepted :
      (h : ImageHeader) (sb : Sb)
      → sb_load digest io root_there dev (some h) ≡ some (success, sb)
      → Accepted h sb
  sb_load-Accepted h sb e = elim (Bool-cases (io.get 0)) [
    | inr gone ↦ refused (not_there h gone) e
    | inl there ↦ elim (Bool-cases (h.sig == image_sig && h.sum == digest (header_words h))) [
      | inr bad ↦ refused (refused_header h bad there) e
      | inl good ↦ elim (Bool-cases (is_ok (sb_check (of_header h)))) [
        | inr bad ↦ refused (refused_check h (both good).0 (both good).1 there bad) e
        | inl passed ↦
            last_tests h sb (both good).0 (both good).1
              (is_ok→success (sb_check (of_header h)) passed)
              (sym (checked_steps h (both good).0 (both good).1 there passed) ∙ e)
      ]
    ]
  ]
    where
      both : {x y : Bool} → (x && y) ≡ true → (x ≡ true) × (y ≡ true)
      both e = ground arith
