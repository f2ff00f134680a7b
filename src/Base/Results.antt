-- ===== src/Base/Results.antt =====
-- A result or an error, as the source returns `(value, error)`.
use mathlib.Core.Path.{◌≡◌, refl, subst}
use mathlib.Core.Bool.{Bool, true, false}
use mathlib.Core.Logic.{◌⊎◌, inl, inr}
use digi_erp_connector.Base.Tests.{if◌then◌else◌}

pub data Outcome {ℓ κ} (E : Type ℓ) (A : Type κ) : Type (ℓ ⊔ κ) where
  ok : A → Outcome E A
  err : E → Outcome E A

infixl 5 ◌>>=◌ ◌>>◌
abbrev pub ◌>>=◌ {ℓ κ μ} :
    {E : Type ℓ} {A : Type κ} {B : Type μ} → Outcome E A → (A → Outcome E B) → Outcome E B
ok a >>= f = f a
err e >>= f = err e

abbrev pub ◌>>◌ {ℓ κ} : {E : Type ℓ} {B : Type κ} → Outcome E (Unit {0}) → Outcome E B → Outcome E B
m >> k = m >>= λ _. k

-- `if bad { return err }`
abbrev pub guard {ℓ} : {E : Type ℓ} → Bool → E → Outcome E (Unit {0})
guard true e = ok tt
guard false e = err e

pub Outcome-cases {ℓ κ} :
    {E : Type ℓ} {A : Type κ} (o : Outcome E A) → ((a : A) × (o ≡ ok a)) ⊎ ((e : E) × (o ≡ err e))
Outcome-cases (ok a) = inl (a, refl)
Outcome-cases (err e) = inr (e, refl)

-- The two steps of a result that was reached.
pub bind-ok {ℓ κ μ} :
    {E : Type ℓ} {A : Type κ} {B : Type μ} (m : Outcome E A) (f : A → Outcome E B) (b : B)
    → (m >>= f) ≡ ok b
    → (a : A) × (m ≡ ok a) × (f a ≡ ok b)
bind-ok (ok a) f b h = (a, refl, h)
bind-ok (err e) f b h = absurd (cc)

-- A test that fails with an error did not fail.
pub if_err-ok {ℓ κ} :
    {E : Type ℓ} {A : Type κ} (b : Bool) (e : E) (o : Outcome E A) {a : A}
    → (if b then err e else o) ≡ ok a
    → (b ≡ false) × (o ≡ ok a)
if_err-ok true e o h = absurd (cc)
if_err-ok false e o h = (refl, h)

-- A property of the value, if there is one.
abbrev pub Holds {ℓ κ μ} : {E : Type ℓ} {A : Type κ} → (A → Type μ) → Outcome E A → Type μ
Holds P (ok a) = P a
Holds P (err e) = Unit

pub Holds-bind {ℓ κ π μ ν} :
    {E : Type ℓ} {A : Type κ} {B : Type π} (P : A → Type μ) (Q : B → Type ν) (m : Outcome E A)
    (k : A → Outcome E B)
    → Holds P m
    → ((a : A) → P a → Holds Q (k a))
    → Holds Q (m >>= k)
Holds-bind P Q (ok a) k p f = f a p
Holds-bind P Q (err e) k p f = tt

pub Holds-ok {ℓ κ μ} :
    {E : Type ℓ} {A : Type κ} {a : A} (P : A → Type μ) (o : Outcome E A)
    → o ≡ ok a
    → Holds P o
    → P a
Holds-ok {a} P (ok b) h p = let same : b ≡ a = cc in subst P same p
Holds-ok P (err e) h p = absurd (cc)
