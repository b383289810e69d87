-- ===== src/Base/Monad.antt =====
-- Code that may hit a BUG_ON or a bad access: `none` stands for the kernel's stop.
use mathlib.Core.Path.{◌≡◌, refl}
use mathlib.Core.Bool.{Bool, true, false}
use mathlib.Core.Option.{Option, none, some}

infixl 5 ◌>>=◌ ◌>>◌
abbrev pub ◌>>=◌ {ℓ κ} : {A : Type ℓ} {B : Type κ} → Option A → (A → Option B) → Option B
none >>= f = none
some a >>= f = f a

abbrev pub ◌>>◌ {ℓ} : {B : Type ℓ} → Option (Unit {0}) → Option B → Option B
m >> k = m >>= λ _. k

-- NKFS_BUG_ON(b)
abbrev pub bug_on : Bool → Option (Unit {0})
bug_on true = none
bug_on false = some tt

-- Inversion of a successful bind.
pub >>=-eq-some {ℓ κ} :
    {A : Type ℓ} {B : Type κ} (m : Option A) (f : A → Option B) {b : B}
    → (m >>= f) ≡ some b
    → (a : A) × (m ≡ some a) × (f a ≡ some b)
>>=-eq-some none f h = cc
>>=-eq-some (some a) f h = (a, refl, h)

-- A successful bind, one step at a time.
pub bind-some {ℓ κ} :
    {A : Type ℓ} {B : Type κ} {m : Option A} {a : A} (f : A → Option B) {b : B}
    → m ≡ some a
    → f a ≡ some b
    → (m >>= f) ≡ some b
bind-some f e h = rw e h

-- A chain that ends in a stop whatever its first step gives.
pub bind-none {ℓ κ} :
    {A : Type ℓ} {B : Type κ} (m : Option A) (f : A → Option B)
    → ((a : A) → m ≡ some a → f a ≡ none)
    → (m >>= f) ≡ none
bind-none none f h = refl
bind-none (some a) f h = h a refl
