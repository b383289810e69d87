-- ===== src/Btree/Disk/RoundTrip.antt =====
-- A node written to its cluster and read back.
use ddfs.Base.{ℕ, ◌+◌, ◌*◌, ◌^◌, ◌<◌, ◌≡◌, refl, ap, ap₂, ◌∙◌, some, arith}
use ddfs.Btree.Disk.{Cluster, to_ondisk, by_ondisk}
use ddfs.Btree.Disk.Layout.{image, to_ondisk-image, image-value, image-child, image-key}
use ddfs.Btree.Node.{Node, value_at}
use ddfs.Btree.Node.Kids.{kid_at, HasPages}
use ddfs.Btree.Node.Slots.{key_of}

-- What a node `m` read back from the cluster of `n` holds. The key pages behind the fourth lie where
-- the cluster has the children.
pub record IsStored (n m : Node) : Type 0 where
  pub sig1 : m.sig1 ≡ n.sig1
  pub sig2 : m.sig2 ≡ n.sig2
  pub leaf : m.leaf ≡ n.leaf
  pub nr_keys : m.nr_keys ≡ n.nr_keys
  pub low_key : (i : ℕ) → i < 1024 → key_of m i ≡ key_of n i
  pub high_key :
      (i : ℕ) → i < 768 → key_of m (1024 + i) ≡ kid_at n (2 * i) * 2 ^ 64 + kid_at n (2 * i + 1)
  pub value : (i : ℕ) → i < 2048 → value_at m i ≡ value_at n i
  pub kid : (i : ℕ) → i < 2048 → kid_at m i ≡ kid_at n i
  pub pages : HasPages m

module _ (blank : Node) (d : Cluster) where
  loaded-key :
      (i : ℕ)
      → key_of (by_ondisk blank d) i ≡ d.word (512 + 2 * i) * 2 ^ 64 + d.word (512 + 2 * i + 1)
  unfolding by_ondisk key_of
  loaded-key i = ap (λ w. d.word w * 2 ^ 64 + d.word (w + 1)) (omega arith)

  loaded-value : (i : ℕ) → value_at (by_ondisk blank d) i ≡ d.word (4608 + i)
  unfolding by_ondisk
  loaded-value i = ap d.word (omega arith)

  loaded-kid : (i : ℕ) → kid_at (by_ondisk blank d) i ≡ d.word (2560 + i)
  unfolding by_ondisk kid_at
  loaded-kid i = ap d.word (omega arith)

high_word : (i : ℕ) → 512 + 2 * (1024 + i) ≡ 2560 + 2 * i
high_word i = omega arith

high_word_next : (i : ℕ) → 512 + 2 * (1024 + i) + 1 ≡ 2560 + (2 * i + 1)
high_word_next i = omega arith

module _ (n blank : Node) (sum : ℕ) (clu : Cluster) (pages : HasPages n) where
  -- Writing a node that has its pages into its cluster never stops, and what is read back has its
  -- head, its 2048 values, its 2048 children and its first 1024 keys; each key slot from 1024 on
  -- holds a pair of the children instead.
  pub by_ondisk-to_ondisk :
      (d : Cluster) × (to_ondisk n sum clu ≡ some d)
      × (d.sum ≡ sum)
      × IsStored n (by_ondisk blank d)
  unfolding by_ondisk
  by_ondisk-to_ondisk = (
    d,
    to_ondisk-image n sum clu pages,
    refl,
    record {
      sig1 = refl;
      sig2 = refl;
      leaf = refl;
      nr_keys = refl;
      low_key = λ i h.
          loaded-key blank d i
          ∙ omega (arith, (image-key n clu.word i h).0, (image-key n clu.word i h).1);
      high_key = λ i h.
          loaded-key blank d (1024 + i)
          ∙ ap₂ (λ a b. a * 2 ^ 64 + b)
              (ap d.word (high_word i) ∙ image-child n clu.word (2 * i) (omega arith))
              (ap d.word (high_word_next i) ∙ image-child n clu.word (2 * i + 1) (omega arith));
      value = λ i h. loaded-value blank d i ∙ image-value n clu.word i h;
      kid = λ i h. loaded-kid blank d i ∙ image-child n clu.word i h;
      pages = λ p h. ground arith;
    },
  )
    where
      d : Cluster
      d = record {
        sig1 = n.sig1;
        leaf = n.leaf;
        nr_keys = n.nr_keys;
        sum = sum;
        sig2 = n.sig2;
        word = image n clu.word;
      }
