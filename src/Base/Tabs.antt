-- ===== src/Base/Tabs.antt =====
-- The list of a function's first values, by which arrays are seen as lists.
use Prim.Native.Nat.{ℕ, zero, suc, ◌+◌, ◌-◌, ◌<◌, ◌≤◌}
use mathlib.Core.Path.{◌≡◌, refl, ap, ap₂, sym, ◌∙◌}
use mathlib.Core.List.{List, [], ◌∷◌, ◌++◌}
use native.Mathlib.Omega.{arith}
use mathlib.Core.Bool.{◌&&◌}
use ddfs.Base.Maps.{length}
use ddfs.Base.Tests.{◌==◌, ltb, leb, if◌then◌else◌}

zero_plus : (i : ℕ) → i ≡ 0 + i
zero_plus i = omega arith

plus_one : (a i : ℕ) → a + i + 1 ≡ suc a + i
plus_one a i = omega arith

plus_swap : (a i : ℕ) → a + (i + 1) ≡ a + 1 + i
plus_swap a i = omega arith

plus_zero : (a : ℕ) → a + 0 ≡ a
plus_zero a = omega arith

module _ {ℓ} {A : Type ℓ} where
  -- f 0, f 1, ..., f (n - 1)
  unfoldable pub tab : (ℕ → A) → ℕ → List A
  tab f zero = []
  tab f (suc n) = f 0 ∷ tab (λ i. f (i + 1)) n

  pub tab-zero : (f : ℕ → A) → tab f 0 ≡ []
  unfolding tab
  tab-zero f = refl

  -- the `n` values from `lo` on
  abbrev pub slice : (ℕ → A) → ℕ → ℕ → List A
  slice f lo n = tab (λ i. f (lo + i)) n

  pub tab-ext : (f g : ℕ → A) (n : ℕ) → ((i : ℕ) → i < n → f i ≡ g i) → tab f n ≡ tab g n
  unfolding tab
  tab-ext f g zero h = refl
  tab-ext f g (suc n) h =
      ap₂ ◌∷◌ (h 0 (omega arith))
        (tab-ext (λ i. f (i + 1)) (λ i. g (i + 1)) n (λ i l. h (i + 1) (omega arith)))

  pub tab-append : (f : ℕ → A) (a b c : ℕ) → c ≡ a + b → tab f c ≡ tab f a ++ slice f a b
  unfolding tab
  tab-append f zero b zero e = rw (eb)
    where
      eb : b ≡ 0
      eb = omega arith
  tab-append f zero b (suc c) e = rw (eb) (tab-ext _ _ (suc c) (λ i _. ap f (zero_plus i)))
    where
      eb : b ≡ suc c
      eb = omega arith
  tab-append f (suc a) b zero e = absurd (omega arith)
  tab-append f (suc a) b (suc c) e =
      ap (λ l. f 0 ∷ l)
        (rw (tab-append (λ i. f (i + 1)) a b c (omega arith)) (
          ap (λ l. tab (λ i. f (i + 1)) a ++ l)
            (tab-ext (λ i. f (a + i + 1)) (λ i. f (suc a + i)) b (λ i _. ap f (plus_one a i)))))

  pub length-tab : (f : ℕ → A) (n : ℕ) → length (tab f n) ≡ n
  unfolding tab
  length-tab f zero = refl
  length-tab f (suc n) = ap suc (length-tab (λ i. f (i + 1)) n)

  pub slice-ext :
      (f g : ℕ → A) (lo lo' n : ℕ)
      → ((i : ℕ) → i < n → f (lo + i) ≡ g (lo' + i))
      → slice f lo n ≡ slice g lo' n
  unfolding tab
  slice-ext f g lo lo' n h = tab-ext _ _ n h

  -- a slice from its first value on
  pub slice-cons : (f : ℕ → A) (lo n m : ℕ) → m ≡ suc n → slice f lo m ≡ f lo ∷ slice f (lo + 1) n
  unfolding tab
  slice-cons f lo n zero e = absurd (omega arith)
  slice-cons f lo n (suc m) e =
      rw (en) (ap₂ ◌∷◌ (ap f (plus_zero lo)) (tab-ext _ _ n (λ i _. ap f (plus_swap lo i))))
    where
      en : m ≡ n
      en = omega arith

  -- the same, where the lengths are equal but not written alike
  pub tab-resize :
      (f g : ℕ → A) (n m : ℕ) → n ≡ m → ((i : ℕ) → i < n → f i ≡ g i) → tab f n ≡ tab g m
  tab-resize f g n m e h = tab-ext f g n h ∙ ap (tab g) e

-- An array with `e` put in at slot `di`, where the first `n` slots are in use.
abbrev pub inserted {ℓ} : {A : Type ℓ} → (ℕ → A) → ℕ → ℕ → A → ℕ → A
inserted f n di e j = if j == di then e else (if ltb di j && leb j n then f (j - 1) else f j)

module _ {ℓ} {A : Type ℓ} (f g : ℕ → A) (n di : ℕ) where
  -- As a list, the array has `e` between what stood before `di` and what stood from `di` on.
  pub tab-inserted :
      (e : A) (m : ℕ)
      → di ≤ n
      → m ≡ n + 1
      → ((j : ℕ) → g j ≡ inserted f n di e j)
      → tab g m ≡ tab f di ++ (e ∷ slice f di (n - di))
  tab-inserted e m le em h =
      tab-append g di (suc (n - di)) m (omega arith)
      ∙ ap₂ ◌++◌ (tab-ext g f di front) (
          slice-cons g di (n - di) (suc (n - di)) refl
          ∙ ap₂ ◌∷◌ here (slice-ext g f (di + 1) di (n - di) back))
    where
      front : (i : ℕ) → i < di → g i ≡ f i
      front i l = ground (arith, h i)

      here : g di ≡ e
      here = ground (arith, h di)

      back : (i : ℕ) → i < n - di → g (di + 1 + i) ≡ f (di + i)
      back i l = ground (arith, h (di + 1 + i))

  -- As a list, the array without slot `di`.
  pub tab-erased :
      (m : ℕ)
      → di < n
      → n ≡ m + 1
      → ((j : ℕ) → j < m → g j ≡ (if ltb j di then f j else f (j + 1)))
      → tab g m ≡ tab f di ++ slice f (di + 1) (m - di)
  tab-erased m lt em h =
      tab-append g di (m - di) m (omega arith)
      ∙ ap₂ ◌++◌ (tab-ext g f di front) (slice-ext g f di (di + 1) (m - di) back)
    where
      front : (i : ℕ) → i < di → g i ≡ f i
      front i l = ground (arith, h i)

      back : (i : ℕ) → i < m - di → g (di + i) ≡ f (di + 1 + i)
      back i l = ground (arith, h (di + i))

-- Equal lists of first values come from functions that agree there.
pub tab-injective {ℓ} :
    {A : Type ℓ} (f g : ℕ → A) (n : ℕ) → tab f n ≡ tab g n → (i : ℕ) → i < n → f i ≡ g i
unfolding tab
tab-injective f g zero e i h = absurd (omega arith)
tab-injective f g (suc n) e zero h = cc
tab-injective f g (suc n) e (suc i) h =
    ap f (succ i)
    ∙ tab-injective (λ i. f (i + 1)) (λ i. g (i + 1)) n (cc) i (omega arith)
    ∙ ap g (sym (succ i))
  where
    succ : (k : ℕ) → suc k ≡ k + 1
    succ k = omega arith
