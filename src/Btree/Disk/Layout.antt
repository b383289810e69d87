-- ===== src/Btree/Disk/Layout.antt =====
-- What the conversions put into each word of the cluster.
use ddfs.Base.{
  ℕ, zero, suc, ◌+◌, ◌-◌, ◌*◌, ◌/◌, ◌%◌, ◌^◌, ◌<◌, ◌≡◌, refl, ap, ap₂, ◌∙◌, ◌≢◌, false, ◌&&◌,
  Option, none, some, arith, ltb, leb, if◌then◌else◌,
}
use ddfs.Btree.Disk.{
  Cluster, disk_keys, disk_children, disk_values, key_word, val_word, copy_page, write_pages,
  is_null, to_ondisk,
}
use ddfs.Btree.Node.{key_pages, child_pages, value_pages, Node, value_at, child_page_at}
use ddfs.Btree.Node.Kids.{kid_at, HasPages}
use ddfs.Btree.Node.Slots.{key_of}

pub write_pages-word :
    (r i base : ℕ) (pages : ℕ → ℕ → ℕ) (words : ℕ → ℕ) (w : ℕ)
    → write_pages r i base pages words w ≡ (
        if leb (base + 512 * i) w && ltb w (base + 512 * (i + r))
        then pages ((w - base) / 512) ((w - base) % 512)
        else words w)
unfolding write_pages
write_pages-word zero i base pages words w = ground arith
write_pages-word (suc r) i base pages words w =
    ground
      (arith, write_pages-word r (i + 1) base pages (copy_page (base + 512 * i) (pages i) words) w)

-- The words that `to_ondisk` leaves, for a node and what the cluster held before.
unfoldable pub image : Node → (ℕ → ℕ) → ℕ → ℕ
image n old =
    write_pages value_pages 0 disk_values (λ i. val_word (n.values i))
      (write_pages child_pages 0 disk_children (λ i. val_word (child_page_at (n.children i)))
        (write_pages key_pages 0 disk_keys (λ i. key_word (n.keys i)) old))

not_null : (o : Option (ℕ → ℕ)) → o ≢ none → is_null o ≡ false
not_null none h = absurd (h refl)
not_null (some p) h = refl

pub to_ondisk-image :
    (n : Node) (sum : ℕ) (clu : Cluster)
    → HasPages n
    → to_ondisk n sum clu
      ≡ some (record {
        sig1 = n.sig1;
        leaf = n.leaf;
        nr_keys = n.nr_keys;
        sum = sum;
        sig2 = n.sig2;
        word = image n clu.word;
      })
unfolding to_ondisk image
to_ondisk-image n sum clu pages =
    rw
      (
        not_null (n.children 0) (pages 0 (omega arith)),
        not_null (n.children 1) (pages 1 (omega arith)),
        not_null (n.children 2) (pages 2 (omega arith)),
        not_null (n.children 3) (pages 3 (omega arith)),
      )
      refl

-- The three arrays written one after the other, by the words of their pages.
module _ (kf cf vf : ℕ → ℕ → ℕ) (old : ℕ → ℕ) where
  keyed : ℕ → ℕ
  keyed = write_pages key_pages 0 disk_keys kf old

  linked : ℕ → ℕ
  linked = write_pages child_pages 0 disk_children cf keyed

  pub whole : ℕ → ℕ
  whole = write_pages value_pages 0 disk_values vf linked

  pub whole-value : (s : ℕ) → s < 2048 → whole (4608 + s) ≡ vf (s / 512) (s % 512)
  unfolding whole
  whole-value s h = write_pages-word 4 0 disk_values vf linked (4608 + s) ∙ ground arith

  pub whole-child : (s : ℕ) → s < 2048 → whole (2560 + s) ≡ cf (s / 512) (s % 512)
  unfolding whole linked
  whole-child s h =
      write_pages-word 4 0 disk_values vf linked (2560 + s)
      ∙ ground (arith, write_pages-word 4 0 disk_children cf keyed (2560 + s))

  pub whole-key : (s : ℕ) → s < 2048 → whole (512 + s) ≡ kf (s / 512) (s % 512)
  unfolding whole linked keyed
  whole-key s h =
      write_pages-word 4 0 disk_values vf linked (512 + s)
      ∙ ground (
        arith,
        write_pages-word 4 0 disk_children cf keyed (512 + s),
        write_pages-word 7 0 disk_keys kf old (512 + s),
      )

module _ (n : Node) (old : ℕ → ℕ) where
  image-whole :
      (w : ℕ)
      → image n old w
        ≡ whole
            (λ i. key_word (n.keys i))
            (λ i. val_word (child_page_at (n.children i)))
            (λ i. val_word (n.values i))
            old
            w
  unfolding image whole linked keyed
  image-whole w = refl

  pub image-value : (i : ℕ) → i < 2048 → image n old (4608 + i) ≡ value_at n i
  image-value i h =
      image-whole (4608 + i)
      ∙ whole-value (λ i. key_word (n.keys i)) (λ i. val_word (child_page_at (n.children i)))
          (λ i. val_word (n.values i)) old i h
      ∙ ground arith

  pub image-child : (i : ℕ) → i < 2048 → image n old (2560 + i) ≡ kid_at n i
  unfolding kid_at
  image-child i h =
      image-whole (2560 + i)
      ∙ whole-child (λ i. key_word (n.keys i)) (λ i. val_word (child_page_at (n.children i)))
          (λ i. val_word (n.values i)) old i h
      ∙ ap₂ (λ p o. child_page_at (n.children p) o) (omega arith) (omega arith)

  -- The two words of a key, up to the slot at which the children begin.
  pub image-key :
      (i : ℕ)
      → i < 1024
      → (image n old (512 + 2 * i) ≡ key_of n i / 2 ^ 64)
        × (image n old (512 + 2 * i + 1) ≡ key_of n i % 2 ^ 64)
  unfolding key_of
  image-key i h = (
    image-whole (512 + 2 * i)
        ∙ whole-key (λ i. key_word (n.keys i)) (λ i. val_word (child_page_at (n.children i)))
            (λ i. val_word (n.values i)) old (2 * i) (omega arith)
        ∙ ground arith,
    ap (image n old) shift
        ∙ image-whole (512 + (2 * i + 1))
        ∙ whole-key (λ i. key_word (n.keys i)) (λ i. val_word (child_page_at (n.children i)))
            (λ i. val_word (n.values i)) old (2 * i + 1) (omega arith)
        ∙ ground arith,
  )
    where
      shift : 512 + 2 * i + 1 ≡ 512 + (2 * i + 1)
      shift = omega arith
