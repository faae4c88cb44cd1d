-- ===== src/Partial.antt =====
-- Code that reads and does not write into an array: `none` is a fault, as in Buffer.
use mathlib.Core.Option.{Option, none, some}
use mathlib.Core.Path.{◌≡◌, refl}
use native.Mathlib.Omega.{arith}

infixl 5 ◌>>=◌
unfoldable pub ◌>>=◌ {ℓ κ} : {A : Type ℓ} {B : Type κ} → Option A → (A → Option B) → Option B
none >>= f = none
some a >>= f = f a

-- What the code returns, if it does not fault, has a property.
abbrev pub Ensures {ℓ κ} : {A : Type ℓ} → (A → Type κ) → Option A → Type κ
Ensures P none = Unit
Ensures P (some a) = P a

pub Ensures-bind {ℓ κ μ ν} :
    {A : Type ℓ} {B : Type κ} (P : A → Type μ) (Q : B → Type ν) (o : Option A) (f : A → Option B)
    → Ensures P o
    → ((a : A) → P a → Ensures Q (f a))
    → Ensures Q (o >>= f)
unfolding ◌>>=◌
Ensures-bind P Q none f h step = tt
Ensures-bind P Q (some a) f h step = step a h

pub Ensures-self {ℓ} : {A : Type ℓ} (o : Option A) → Ensures (λ a. o ≡ some a) o
Ensures-self none = tt
Ensures-self (some a) = refl

pub Ensures-map {ℓ κ μ} :
    {A : Type ℓ} (P : A → Type κ) (Q : A → Type μ) (o : Option A)
    → ((a : A) → P a → Q a)
    → Ensures P o
    → Ensures Q o
Ensures-map P Q none step h = tt
Ensures-map P Q (some a) step h = step a h

-- The code does not fault.
abbrev pub Returns {ℓ} : {A : Type ℓ} → Option A → Type ℓ
Returns {A = A} o = (a : A) × (o ≡ some a)

pub Returns-bind {ℓ κ} :
    {A : Type ℓ} {B : Type κ} (o : Option A) (f : A → Option B)
    → Returns o
    → ((a : A) → Returns (f a))
    → Returns (o >>= f)
unfolding ◌>>=◌
Returns-bind none f (a, e) step = ground arith
Returns-bind (some a) f h step = step a

pub Returns-Ensures {ℓ κ} :
    {A : Type ℓ} (P : A → Type κ) (o : Option A)
    → Returns o
    → Ensures P o
    → (a : A) × (o ≡ some a) × P a
Returns-Ensures P none (a, e) h = ground arith
Returns-Ensures P (some a) r h = (a, refl, h)
