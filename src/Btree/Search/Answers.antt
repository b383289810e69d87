-- ===== src/Btree/Search/Answers.antt =====
-- What the two searches of core/btree.c answer over a node whose keys grow.
use ddfs.Base.{
  ℕ, ◌+◌, ◌-◌, ◌≤◌, ◌<◌, ◌≡◌, refl, ◌≢◌, inl, inr, Bool, true, false, Option, none, some, arith,
  ltb, ◌==◌, ltb→lt, ltb→ge, ==_iff, Bool-cases,
}
use ddfs.Btree.Node.{Key, Node}
use ddfs.Btree.Node.Slots.{key_of, node_key-of}
use ddfs.Btree.Search.{
  Outcome, search_loop, key_probably_inside, has_key, find_key_index, hit, miss,
}
use ddfs.Btree.Search.Sound.{Sorted, Gap, Ends, search_loop-Ends, at_key, at_gap}

-- The answer of `nkfs_btree_node_has_key`: an index of the key, or that it is nowhere.
abbrev pub Tells : Node → Key → Option ℕ → Type 0
Tells n key (some i) = (i < n.nr_keys) × (key_of n i ≡ key)
Tells n key none = (i : ℕ) → i < n.nr_keys → key_of n i ≢ key

-- The first index whose key is not smaller, or the number of keys.
pub record IsLowerBound (n : Node) (key : Key) (p : ℕ) : Type 0 where
  pub bound : p ≤ n.nr_keys
  pub before : (i : ℕ) → i < p → key_of n i < key
  pub after : (i : ℕ) → p ≤ i → i < n.nr_keys → key ≤ key_of n i

Gap-absent : (n : Node) (key : Key) (p : ℕ) → Gap n key p → Tells n key none
Gap-absent n key p g i h e = elim (Bool-cases (ltb i p)) [
  | inl l ↦ absurd (omega (arith, g.before i (ltb→lt i p l)))
  | inr l ↦ absurd (omega (arith, g.after i (ltb→ge i p l) h))
]

Gap-IsLowerBound : (n : Node) (key : Key) (p : ℕ) → Gap n key p → IsLowerBound n key p
Gap-IsLowerBound n key p g = record {
  bound = g.bound;
  before = g.before;
  after = λ i l h. omega (arith, g.after i l h);
}

module _ (n : Node) (key : Key) where
  has_key_end :
      (out : Outcome)
      → Ends n key out
      → (r : Option ℕ) × ((elim out as (λ _. Option (Option ℕ)) [
        | hit mid ↦ some (some mid)
        | miss end ↦ some none
      ])
          ≡ some r)
        × Tells n key r
  has_key_end (hit i) (at_key h e) = (some i, refl, (h, e))
  has_key_end (miss p) (at_gap g) = (none, refl, Gap-absent n key p g)

  hit-IsLowerBound : Sorted n → (i : ℕ) → i < n.nr_keys → key_of n i ≡ key → IsLowerBound n key i
  hit-IsLowerBound sorted i h e = record {
    bound = omega arith;
    before = λ j l. omega (arith, sorted j i l h);
    after = λ j l hj. elim (Bool-cases (j == i)) [
      | inl same ↦ rw ((==_iff j i).0 same, e) (omega arith)
      | inr ne ↦ omega (arith, sorted i j (ground arith) hj)
    ];
  }

  find_key_end :
      Sorted n
      → (out : Outcome) → Ends n key out
      → (p : ℕ) × ((elim out as (λ _. Option ℕ) [ hit mid ↦ some mid | miss end ↦ some end ])
          ≡ some p)
        × IsLowerBound n key p
  find_key_end sorted (hit i) (at_key h e) = (i, refl, hit-IsLowerBound sorted i h e)
  find_key_end sorted (miss p) (at_gap g) = (p, refl, Gap-IsLowerBound n key p g)

module _ (n : Node) (key : Key) (sorted : Sorted n) where
  all_below : ltb (key_of n (n.nr_keys - 1)) key ≡ true → Gap n key n.nr_keys
  all_below l = record {
    bound = omega arith;
    before = λ i h. elim (Bool-cases (i == (n.nr_keys - 1))) [
      | inl e ↦ rw ((==_iff i (n.nr_keys - 1)).0 e) (ltb→lt _ _ l)
      | inr ne ↦ omega (arith, ltb→lt _ _ l, sorted i (n.nr_keys - 1) (ground arith) (omega arith))
    ];
    after = λ i le h. absurd (omega arith);
  }

  all_above : ltb key (key_of n 0) ≡ true → Gap n key 0
  all_above l = record {
    bound = omega arith;
    before = λ i h. absurd (omega arith);
    after = λ i le h. elim (Bool-cases (i == 0)) [
      | inl e ↦ rw ((==_iff i 0).0 e) (ltb→lt _ _ l)
      | inr ne ↦ omega (arith, ltb→lt _ _ l, sorted 0 i (ground arith) h)
    ];
  }

  module _ (small : n.nr_keys ≤ 1792) where
    whole_search :
        (out : Outcome) × (search_loop n key (n.nr_keys + 1) 0 n.nr_keys ≡ some out)
        × Ends n key out
    whole_search =
        search_loop-Ends n key sorted small (n.nr_keys + 1) 0 n.nr_keys (omega arith) (omega arith)
          (omega arith) (λ i h. absurd (omega arith)) (λ i le h. absurd (omega arith))

    -- The guard in front of the search never hides a key.
    key_probably_inside-absent :
        (b : Bool) × (key_probably_inside n key ≡ some b) × (b ≡ false → Tells n key none)
    unfolding key_probably_inside
    key_probably_inside-absent = elim (Bool-cases (n.nr_keys == 0)) [
      | inl e ↦ rw e (false, refl, λ _ i h. absurd (omega (arith, (==_iff n.nr_keys 0).0 e)))
      | inr e ↦
          rw (e, node_key-of n (n.nr_keys - 1) (omega arith))
            (elim (Bool-cases (ltb (key_of n (n.nr_keys - 1)) key)) [
              | inl l ↦ rw l (false, refl, λ _. Gap-absent n key n.nr_keys (all_below l))
              | inr l ↦
                  rw (l, node_key-of n 0 (omega arith))
                    (elim (Bool-cases (ltb key (key_of n 0))) [
                      | inl f ↦ rw f (false, refl, λ _. Gap-absent n key 0 (all_above f))
                      | inr f ↦ rw f (true, refl, λ c. cc)
                    ])
            ])
    ]

    -- On a node whose keys grow strictly and fit the pages, has_key ends without a stop; an index
    -- it returns holds the key, and if it returns none no slot in use holds the key.
    pub has_key-Tells : (r : Option ℕ) × (has_key n key ≡ some r) × Tells n key r
    unfolding has_key
    has_key-Tells =
        let (b, e, absent) = key_probably_inside-absent in
        let (out, s, ends) = whole_search in
        rw e (elim (Bool-cases b) [
          | inl y ↦ rw (y, s) (has_key_end n key out ends)
          | inr x ↦ rw x (none, refl, absent x)
        ])

    -- On a node whose keys grow strictly and fit the pages, the search for an index ends without
    -- a stop at the first slot whose key is not smaller, or at the number of keys.
    pub find_key_index-IsLowerBound :
        (p : ℕ) × (find_key_index n key ≡ some p) × IsLowerBound n key p
    unfolding find_key_index
    find_key_index-IsLowerBound = elim (Bool-cases (n.nr_keys == 0)) [
      | inl z ↦ rw z (
        0,
        refl,
        record {
          bound = omega arith;
          before = λ i h. absurd (omega arith);
          after = λ i l h. absurd (omega (arith, (==_iff n.nr_keys 0).0 z));
        },
      )
      | inr z ↦
          rw (z, node_key-of n (n.nr_keys - 1) (omega arith))
            (elim (Bool-cases (ltb (key_of n (n.nr_keys - 1)) key)) [
              | inl l ↦ rw l (n.nr_keys, refl, Gap-IsLowerBound n key n.nr_keys (all_below l))
              | inr l ↦
                  rw (l, node_key-of n 0 (omega arith))
                    (elim (Bool-cases (ltb key (key_of n 0))) [
                      | inl f ↦ rw f (0, refl, Gap-IsLowerBound n key 0 (all_above f))
                      | inr f ↦
                          let (out, s, ends) = whole_search in
                          rw (f, s) (find_key_end n key sorted out ends)
                    ])
            ])
    ]
