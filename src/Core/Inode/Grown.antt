-- ===== src/Core/Inode/Grown.antt =====
-- The trees of an inode after an insertion or a deletion in one of them.
use ddfs.Base.{
  ℕ, ◌<◌, ◌≡◌, sym, ap, ◌∙◌, ◌≢◌, ◌⊎◌, inl, inr, Bool, true, false, none, some, ◌==◌, if◌then◌else◌,
  ==_iff, Bool-cases,
}
use ddfs.Core.Balloc.{Sb, Errno, is_ok, Out}
use ddfs.Core.Balloc.Blocks.{Kept, Kept-IsBitmap}
use ddfs.Core.Inode.{Trees}
use ddfs.Core.Inode.Contract.{InUse, Contract, IsTaken, IsMapped, IsSpare}
use ddfs.Core.Inode.Mapped.{true-false, flip}
use mathlib.Core.Path.{subst}

module _ {T : Type 0} (trees : Trees T) (contract : Contract trees) (m : ℕ) where
  -- Blocks change hands by an operation on the tree of data: what was taken stays so.
  record IsMoved (sb sb' : Sb) (bt bt' st : T) : Type 0 where
    kept : Kept sb sb'
    fit : contract.IsFit bt'
    stay : (c : ℕ) → InUse sb c → contract.owns bt c ≡ false → InUse sb' c
    owned : (c : ℕ) → contract.owns bt' c ≡ true → InUse sb' c
    from : (c : ℕ) → contract.owns bt' c ≡ true → InUse sb c → contract.owns bt c ≡ true

  module _ {sb sb' : Sb} {bt bt' st : T} (g : IsMapped trees contract m sb bt st)
      (v : IsMoved sb sb' bt bt' st) where
    not_mine : (c : ℕ) → InUse sb c → contract.owns bt c ≡ false → contract.owns bt' c ≡ false
    not_mine c used no_bt = elim (Bool-cases (contract.owns bt' c)) [
      | inr e ↦ e
      | inl e ↦ absurd (true-false (v.from c e used) no_bt)
    ]

    st_not_bt : (c : ℕ) → contract.owns st c ≡ true → contract.owns bt c ≡ false
    st_not_bt c own = (flip trees contract m g).apart c own

    still : (c : ℕ) → IsTaken trees contract m sb bt st c → IsTaken trees contract m sb' bt' st c
    still c t = record {
      used = v.stay c t.used t.not_bt;
      not_bt = not_mine c t.used t.not_bt;
      not_st = t.not_st;
    }

    -- The trees are as they should be again, if what the tree maps now is as it should be.
    moved :
        ((k c : ℕ) → trees.find bt' k ≡ some c → IsTaken trees contract m sb bt st c)
        → ((k k' c : ℕ) → trees.find bt' k ≡ some c → trees.find bt' k' ≡ some c → k ≡ k')
        → ((k s c : ℕ) → trees.find bt' k ≡ some c → trees.find st s ≢ some c)
        → IsMapped trees contract m sb' bt' st
    moved taken once no_sum = record {
      bitmap = Kept-IsBitmap m v.kept g.bitmap;
      bt_fit = v.fit;
      st_fit = g.st_fit;
      bt_used = v.owned;
      st_used = λ c own. v.stay c (g.st_used c own) (st_not_bt c own);
      apart = λ c own. elim (Bool-cases (contract.owns st c)) [
        | inr e ↦ e
        | inl e ↦ absurd (true-false (v.from c own (g.st_used c e)) (st_not_bt c e))
      ];
      data_taken = λ k c e. still c (taken k c e);
      sum_taken = λ s c e. still c (g.sum_taken s c e);
      data_once = once;
      sum_once = g.sum_once;
      data_sum = no_sum;
    }

    still-IsSpare :
        (c : ℕ)
        → ((k : ℕ) → trees.find bt' k ≢ some c)
        → InUse sb c
        → contract.owns bt c ≡ false
        → contract.owns st c ≡ false
        → ((s : ℕ) → trees.find st s ≢ some c)
        → IsSpare trees contract m sb' bt' st c
    still-IsSpare c no_data used no_bt no_st no_sum = record {
      used = v.stay c used no_bt;
      unneeded = record {
        not_bt = not_mine c used no_bt;
        not_st = no_st;
        no_data = no_data;
        no_sum = no_sum;
      };
    }

  -- The tree `t'` maps `k` to `b`, if at all, and else what `t` maps.
  abbrev MapsMore : T → T → ℕ → ℕ → Type 0
  MapsMore t t' k b =
      (k' c : ℕ)
      → trees.find t' k' ≡ some c
      → ((k' ≡ k) × (c ≡ b)) ⊎ ((k' ≢ k) × (trees.find t k' ≡ some c))

  maps_more :
      (t t' : T) (k b : ℕ) (yes_no : Bool)
      → trees.find t' k ≡ (if yes_no then some b else none)
      → ((other : ℕ) → other ≢ k → trees.find t' other ≡ trees.find t other)
      → MapsMore t t' k b
  maps_more t t' k b ok here there k' c e = elim (Bool-cases (k' == k)) [
    | inl same ↦ inl (
      (==_iff k' k).0 same,
      only ok (sym here ∙ ap (trees.find t') (sym ((==_iff k' k).0 same)) ∙ e),
    )
    | inr far ↦ inr (apart far, sym (there k' (apart far)) ∙ e)
  ]
    where
      apart : (k' == k) ≡ false → k' ≢ k
      apart far f = true-false ((==_iff k' k).1 f) far

      only : (x : Bool) → (if x then some b else none) ≡ some c → c ≡ b
      only true f = cc
      only false f = cc

  -- What an insertion of a spare block leaves.
  pub record Inserted (sb : Sb) (bt st : T) (k b : ℕ) (o : Out (Errno × T)) : Type 0 where
    pub kept : Kept sb o.after
    pub mapped : IsMapped trees contract m o.after o.value.1 st
    pub here : trees.find o.value.1 k ≡ (if is_ok o.value.0 then some b else none)
    pub there : (other : ℕ) → other ≢ k → trees.find o.value.1 other ≡ trees.find bt other
    pub spare :
        (c : ℕ)
        → c ≢ b
        → IsSpare trees contract m sb bt st c
        → IsSpare trees contract m o.after o.value.1 st c
    pub back : is_ok o.value.0 ≡ false → IsSpare trees contract m o.after o.value.1 st b

  pub insert-Inserted :
      {sb : Sb} {bt st : T}
      → IsMapped trees contract m sb bt st
      → (k b : ℕ) → IsSpare trees contract m sb bt st b
      → k < contract.limit
      → trees.find bt k ≡ none
      → (o : Out (Errno × T)) × (trees.insert sb bt k b ≡ some o) × Inserted sb bt st k b o
  insert-Inserted {sb} {bt} {st} g k b s low no_k =
      let (o, e, fit, kept, stay, owned, from, here, there) =
        contract.insert_says sb m bt k b g.bitmap g.bt_fit low g.bt_used no_k in
      let v : IsMoved sb o.after bt o.value.1 st = record {
        kept = kept;
        fit = fit;
        stay = λ c used _. stay c used;
        owned = owned;
        from = from;
      } in
      let more = maps_more bt o.value.1 k b (is_ok o.value.0) here there in
      (
        o,
        e,
        record {
          kept = kept;
          mapped =
              moved g v (λ k' c f. taken k' c (more k' c f))
                (λ k1 k2 c f f'. once k1 k2 c (more k1 c f) (more k2 c f'))
                (λ k' s' c f. no_sum k' s' c (more k' c f));
          here = here;
          there = there;
          spare = λ c ne sp.
              still-IsSpare g v c (λ k' f. other_free k' c ne sp (more k' c f)) sp.used
                sp.unneeded.not_bt sp.unneeded.not_st sp.unneeded.no_sum;
          back = λ bad.
              still-IsSpare g v b (λ k' f. unmapped o.value.1 k' here bad f (more k' b f)) s.used
                s.unneeded.not_bt s.unneeded.not_st s.unneeded.no_sum;
        },
      )
    where
      taken :
          (k' c : ℕ)
          → ((k' ≡ k) × (c ≡ b)) ⊎ ((k' ≢ k) × (trees.find bt k' ≡ some c))
          → IsTaken trees contract m sb bt st c
      taken k' c (inl (_, e)) =
          subst (IsTaken trees contract m sb bt st) (sym e)
            (record { used = s.used; not_bt = s.unneeded.not_bt; not_st = s.unneeded.not_st })
      taken k' c (inr (_, e)) = g.data_taken k' c e

      once :
          (k1 k2 c : ℕ)
          → ((k1 ≡ k) × (c ≡ b)) ⊎ ((k1 ≢ k) × (trees.find bt k1 ≡ some c))
          → ((k2 ≡ k) × (c ≡ b)) ⊎ ((k2 ≢ k) × (trees.find bt k2 ≡ some c))
          → k1 ≡ k2
      once k1 k2 c (inl (e, _)) (inl (f, _)) = e ∙ sym f
      once k1 k2 c (inl (_, e)) (inr (_, f)) = absurd (s.unneeded.no_data k2 (f ∙ ap some e))
      once k1 k2 c (inr (_, f)) (inl (_, e)) = absurd (s.unneeded.no_data k1 (f ∙ ap some e))
      once k1 k2 c (inr (_, e)) (inr (_, f)) = g.data_once k1 k2 c e f

      no_sum :
          (k' s' c : ℕ)
          → ((k' ≡ k) × (c ≡ b)) ⊎ ((k' ≢ k) × (trees.find bt k' ≡ some c))
          → trees.find st s' ≢ some c
      no_sum k' s' c (inl (_, e)) f = s.unneeded.no_sum s' (f ∙ ap some e)
      no_sum k' s' c (inr (_, e)) f = g.data_sum k' s' c e f

      other_free :
          (k' c : ℕ)
          → c ≢ b
          → IsSpare trees contract m sb bt st c
          → ¬ (((k' ≡ k) × (c ≡ b)) ⊎ ((k' ≢ k) × (trees.find bt k' ≡ some c)))
      other_free k' c ne sp (inl (_, e)) = ne e
      other_free k' c ne sp (inr (_, e)) = sp.unneeded.no_data k' e

      unmapped :
          (t : T) (k' : ℕ) {x : Bool}
          → trees.find t k ≡ (if x then some b else none)
          → x ≡ false
          → trees.find t k' ≡ some b
          → ¬ (((k' ≡ k) × (b ≡ b)) ⊎ ((k' ≢ k) × (trees.find bt k' ≡ some b)))
      unmapped t k' {x} here bad f (inr (_, e)) = s.unneeded.no_data k' e
      unmapped t k' {x} here bad f (inl (e, _)) =
          nothing (sym f ∙ ap (trees.find t) e ∙ here ∙ ap (λ y. if y then some b else none) bad)
        where
          nothing : some b ≢ none
          nothing h = cc

  -- What a deletion leaves; the block that was mapped stands for nothing now.
  pub record Deleted (sb : Sb) (bt st : T) (k b : ℕ) (o : Out (Errno × T)) : Type 0 where
    pub kept : Kept sb o.after
    pub mapped : IsMapped trees contract m o.after o.value.1 st
    pub here : trees.find o.value.1 k ≡ none
    pub there : (other : ℕ) → other ≢ k → trees.find o.value.1 other ≡ trees.find bt other
    pub spare :
        (c : ℕ)
        → IsSpare trees contract m sb bt st c
        → IsSpare trees contract m o.after o.value.1 st c
    pub back : IsSpare trees contract m o.after o.value.1 st b

  pub delete-Deleted :
      {sb : Sb} {bt st : T}
      → IsMapped trees contract m sb bt st
      → (k b : ℕ) → trees.find bt k ≡ some b
      → (o : Out (Errno × T)) × (trees.delete sb bt k ≡ some o) × Deleted sb bt st k b o
  delete-Deleted {sb} {bt} {st} g k b has =
      let (o, e, fit, kept, stay, owned, from, here, there) =
        contract.delete_says sb m bt k b g.bitmap g.bt_fit g.bt_used has in
      let v : IsMoved sb o.after bt o.value.1 st = record {
        kept = kept;
        fit = fit;
        stay = stay;
        owned = owned;
        from = λ c own _. from c own;
      } in
      let was = old o.value.1 here there in
      let t = g.data_taken k b has in
      (
        o,
        e,
        record {
          kept = kept;
          mapped =
              moved g v (λ k' c f. g.data_taken k' c (was k' c f).1)
                (λ k1 k2 c f f'. g.data_once k1 k2 c (was k1 c f).1 (was k2 c f').1)
                (λ k' s' c f. g.data_sum k' s' c (was k' c f).1);
          here = here;
          there = there;
          spare = λ c sp.
              still-IsSpare g v c (λ k' f. sp.unneeded.no_data k' (was k' c f).1) sp.used
                sp.unneeded.not_bt sp.unneeded.not_st sp.unneeded.no_sum;
          back =
              still-IsSpare g v b (λ k' f. (was k' b f).0 (g.data_once k' k b (was k' b f).1 has))
                t.used t.not_bt t.not_st (λ s f. g.data_sum k s b has f);
        },
      )
    where
      nothing : {c : ℕ} → none ≢ some c
      nothing h = cc

      old :
          (t' : T)
          → trees.find t' k ≡ none
          → ((other : ℕ) → other ≢ k → trees.find t' other ≡ trees.find bt other)
          → (k' c : ℕ) → trees.find t' k' ≡ some c
          → (k' ≢ k) × (trees.find bt k' ≡ some c)
      old t' here there k' c e = (ne, sym (there k' ne) ∙ e)
        where
          ne : k' ≢ k
          ne f = nothing (sym here ∙ ap (trees.find t') (sym f) ∙ e)
