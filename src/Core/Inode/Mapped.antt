-- ===== src/Core/Inode/Mapped.antt =====
-- What allocating, freeing and the trees' operations do to the blocks of an inode.
use ddfs.Base.{ℕ, ◌≡◌, sym, ap, ◌∙◌, ◌≢◌, inl, inr, Bool, true, false, some, Bool-cases}
use ddfs.Core.Balloc.{Sb, Errno, Io, Out, block_free, block_alloc, success, enospc}
use ddfs.Core.Balloc.Alloc.{IsAlloc, block_alloc-IsAlloc, alloc_taken, alloc_full}
use ddfs.Core.Balloc.Blocks.{Kept, Kept-IsBitmap}
use ddfs.Core.Balloc.Free.{IsMarked, block_mark-IsMarked, in_range, marked}
use ddfs.Core.Balloc.Position.{bit_of}
use ddfs.Core.Inode.{Trees}
use ddfs.Core.Inode.Contract.{InUse, Contract, IsTaken, IsMapped, IsUnneeded, IsSpare}
use ddfs.Core.Super.Format.{IsGood}

pub true-false : {x : Bool} → x ≡ true → x ≢ false
true-false e f = cc

module _ {T : Type 0} (trees : Trees T) (contract : Contract trees) (m : ℕ) where
  not_owned : (t : T) (c : ℕ) → (contract.owns t c ≢ true) → contract.owns t c ≡ false
  not_owned t c h = elim (Bool-cases (contract.owns t c)) [ inl e ↦ absurd (h e) | inr e ↦ e ]

  -- The trees in the other order.
  pub flip :
      {sb : Sb} {bt st : T}
      → IsMapped trees contract m sb bt st
      → IsMapped trees contract m sb st bt
  flip {sb} {bt} {st} g = record {
    bitmap = g.bitmap;
    bt_fit = g.st_fit;
    st_fit = g.bt_fit;
    bt_used = g.st_used;
    st_used = g.bt_used;
    apart = λ b own. not_owned bt b (λ e. true-false own (g.apart b e));
    data_taken = λ s c e. turned (g.sum_taken s c e);
    sum_taken = λ v b e. turned (g.data_taken v b e);
    data_once = g.sum_once;
    sum_once = g.data_once;
    data_sum = λ s v c e f. g.data_sum v s c f e;
  }
    where
      turned : {b : ℕ} → IsTaken trees contract m sb bt st b → IsTaken trees contract m sb st bt b
      turned t = record { used = t.used; not_bt = t.not_st; not_st = t.not_bt }

  pub flip-IsSpare :
      {sb : Sb} {bt st : T} {b : ℕ}
      → IsSpare trees contract m sb bt st b
      → IsSpare trees contract m sb st bt b
  flip-IsSpare s = record {
    used = s.used;
    unneeded = record {
      not_bt = s.unneeded.not_st;
      not_st = s.unneeded.not_bt;
      no_data = s.unneeded.no_sum;
      no_sum = s.unneeded.no_data;
    };
  }

  -- Only the use of a block that stands for nothing has changed.
  pub IsMapped-use :
      {sb sb' : Sb} {bt st : T} {b : ℕ}
      → IsMapped trees contract m sb bt st
      → Kept sb sb'
      → IsUnneeded trees contract m bt st b
      → ((c : ℕ) → c ≢ b → InUse sb c → InUse sb' c)
      → IsMapped trees contract m sb' bt st
  IsMapped-use {sb} {sb'} {bt} {st} {b} g k u stay = record {
    bitmap = Kept-IsBitmap m k g.bitmap;
    bt_fit = g.bt_fit;
    st_fit = g.st_fit;
    bt_used = λ c own.
        stay c (λ e. true-false own (ap (contract.owns bt) e ∙ u.not_bt)) (g.bt_used c own);
    st_used = λ c own.
        stay c (λ e. true-false own (ap (contract.owns st) e ∙ u.not_st)) (g.st_used c own);
    apart = g.apart;
    data_taken = λ v c e. still c (λ f. u.no_data v (e ∙ ap some f)) (g.data_taken v c e);
    sum_taken = λ s c e. still c (λ f. u.no_sum s (e ∙ ap some f)) (g.sum_taken s c e);
    data_once = g.data_once;
    sum_once = g.sum_once;
    data_sum = g.data_sum;
  }
    where
      still :
          (c : ℕ)
          → c ≢ b
          → IsTaken trees contract m sb bt st c
          → IsTaken trees contract m sb' bt st c
      still c ne t = record { used = stay c ne t.used; not_bt = t.not_bt; not_st = t.not_st }

  -- What an allocation gives an inode.
  pub data AllocSays (sb : Sb) (bt st : T) : Out (Errno × ℕ) → Type 0 where
    got :
        {after : Sb} {b : ℕ}
        → Kept sb after
        → IsMapped trees contract m after bt st
        → IsSpare trees contract m after bt st b
        → ((c : ℕ)
            → IsSpare trees contract m sb bt st c
            → IsSpare trees contract m after bt st c × (c ≢ b))
        → AllocSays sb bt st (record { after = after; value = (success, b) })
    no_space : AllocSays sb bt st (record { after = sb; value = (enospc, 0) })

  alloc_says :
      {sb : Sb} {bt st : T} (o : Out (Errno × ℕ))
      → IsMapped trees contract m sb bt st
      → IsAlloc sb o
      → AllocSays sb bt st o
  alloc_says _ g (alloc_full full) = no_space
  alloc_says {sb} {bt} {st} _ g (alloc_taken {after} {block} inside free now others used kept) =
      let u : IsUnneeded trees contract m bt st block = record {
        not_bt = not_owned bt block (λ e. differ (g.bt_used block e));
        not_st = not_owned st block (λ e. differ (g.st_used block e));
        no_data = λ v e. differ (g.data_taken v block e).used;
        no_sum = λ s e. differ (g.sum_taken s block e).used;
      } in
      got kept (IsMapped-use g kept u stay) (record { used = now; unneeded = u })
        (λ c s.
          (record { used = stay c (other c s.used) s.used; unneeded = s.unneeded }, other c s.used))
    where
      differ : bit_of sb block ≢ some true
      differ e = cc

      other : (c : ℕ) → InUse sb c → c ≢ block
      other c used e = differ (ap (bit_of sb) (sym e) ∙ used)

      stay : (c : ℕ) → c ≢ block → InUse sb c → InUse after c
      stay c ne used = others c ne ∙ used

  module _ (io : Io) (good : IsGood io) where
    pub block_alloc-AllocSays :
        {sb : Sb} {bt st : T}
        → IsMapped trees contract m sb bt st
        → (o : Out (Errno × ℕ)) × (block_alloc io sb ≡ some o) × AllocSays sb bt st o
    block_alloc-AllocSays {sb} g =
        let (o, e, says) = block_alloc-IsAlloc io sb m g.bitmap good.get good.sync in
        (o, e, alloc_says o g says)

    freed :
        {sb : Sb} {bt st : T} {b : ℕ} (o : Out Errno)
        → IsMapped trees contract m sb bt st
        → IsUnneeded trees contract m bt st b
        → IsMarked sb b false o
        → Kept sb o.after
          × IsMapped trees contract m o.after bt st
          × ((c : ℕ)
              → c ≢ b
              → IsSpare trees contract m sb bt st c
              → IsSpare trees contract m o.after bt st c)
    freed {sb} {bt} {st} {b} _ g u (marked {after} here others used locks unlocks kept) = (
      kept,
      IsMapped-use g kept u (λ c ne now. others c ne ∙ now),
      λ c ne s. record { used = others c ne ∙ s.used; unneeded = s.unneeded },
    )

    -- A spare block is freed.
    pub block_free-IsSpare :
        {sb : Sb} {bt st : T} {b : ℕ}
        → IsMapped trees contract m sb bt st
        → IsSpare trees contract m sb bt st b
        → (o : Out Errno) × (block_free io sb b ≡ some o)
          × Kept sb o.after
          × IsMapped trees contract m o.after bt st
          × ((c : ℕ)
              → c ≢ b
              → IsSpare trees contract m sb bt st c
              → IsSpare trees contract m o.after bt st c)
    unfolding block_free
    block_free-IsSpare {sb} {b = b} g s =
        let (o, e, says) =
          block_mark-IsMarked io sb m b false g.bitmap good.get good.sync
            (in_range sb m g.bitmap b true s.used) s.used in
        let (k, g', rest) = freed o g s.unneeded says in (o, e, k, g', rest)
