-- ===== src/Base/Fault.antt =====
-- Runs that may go wrong: `none` is undefined behaviour, such as a dereference of NULL or an
-- access outside an array.
use mathlib.Core.Path.{◌≡◌, refl, subst}
use mathlib.Core.Option.{Option, none, some}

infixl 5 ◌>>=◌
abbrev pub ◌>>=◌ {ℓ κ} : {A : Type ℓ} {B : Type κ} → Option A → (A → Option B) → Option B
none >>= f = none
some a >>= f = f a

-- If a run does not go wrong, its result is in `P`.
abbrev pub Holds {ℓ κ} : {A : Type ℓ} → (A → Type κ) → Option A → Type κ
Holds P none = Unit
Holds P (some a) = P a

pub Holds-bind {ℓ ℓ' κ} :
    {A : Type ℓ} {B : Type ℓ'} (Q : B → Type κ) (o : Option A) (f : A → Option B)
    → ((a : A) → o ≡ some a → Holds Q (f a))
    → Holds Q (o >>= f)
Holds-bind Q none f h = tt
Holds-bind Q (some a) f h = h a refl

pub Holds-some {ℓ κ} :
    {A : Type ℓ} (P : A → Type κ) {o : Option A} {a : A} → Holds P o → o ≡ some a → P a
Holds-some P h e = subst (Holds P) e h

pub some-Holds {ℓ κ} :
    {A : Type ℓ} (P : A → Type κ) (o : Option A) → ((a : A) → o ≡ some a → P a) → Holds P o
some-Holds P none h = tt
some-Holds P (some a) h = h a refl
