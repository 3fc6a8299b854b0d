-- ===== src/Base/Outcome.antt =====
-- Go's `(value, error)` as a value: a call returns a value or an error, never both.
use mathlib.Core.Path.{◌≡◌, refl}
use mathlib.Core.Logic.{◌⊎◌, inl, inr}
use mathlib.Core.Bool.{Bool, true, false}
use mathlib.Core.Option.{Option, none, some}

pub data Outcome {ℓ} (E : Type 0) (A : Type ℓ) : Type ℓ where
  ok : A → Outcome E A
  err : E → Outcome E A

infixl 5 ◌>>=◌ ◌>>◌
abbrev pub ◌>>=◌ {ℓ κ} :
    {E : Type 0} {A : Type ℓ} {B : Type κ} → Outcome E A → (A → Outcome E B) → Outcome E B
err e >>= rest = err e
ok a >>= rest = rest a

abbrev pub ◌>>◌ {ℓ} : {E : Type 0} {B : Type ℓ} → Outcome E (Unit {0}) → Outcome E B → Outcome E B
first >> second = first >>= λ _. second

-- `if bad { return err }`
abbrev pub refuse : {E : Type 0} → Bool → E → Outcome E (Unit {0})
refuse true e = err e
refuse false e = ok tt

abbrev pub or_refuse {ℓ} : {E : Type 0} {A : Type ℓ} → Option A → E → Outcome E A
or_refuse none e = err e
or_refuse (some a) e = ok a

-- A sequence that returns a value: what its first call returned, and what came of that.
pub >>=-eq-ok {ℓ κ} :
    {E : Type 0} {A : Type ℓ} {B : Type κ} (call : Outcome E A) (rest : A → Outcome E B)
    → {out : B} → (call >>= rest) ≡ ok out
    → (got : A) × (call ≡ ok got) × (rest got ≡ ok out)
>>=-eq-ok (err e) rest same = cc
>>=-eq-ok (ok got) rest same = (got, refl, same)

-- The same outcome with the error wrapped.
abbrev pub wrap_err {ℓ} : {E F : Type 0} {A : Type ℓ} → (E → F) → Outcome E A → Outcome F A
wrap_err f (ok a) = ok a
wrap_err f (err e) = err (f e)

abbrev pub IsOk {ℓ} : {E : Type 0} {A : Type ℓ} → Outcome E A → Type ℓ
IsOk {A = A} r = (a : A) × (r ≡ ok a)

pub wrap_err-eq-ok {ℓ} :
    {E F : Type 0} {A : Type ℓ} (f : E → F) (m : Outcome E A) {a : A}
    → wrap_err f m ≡ ok a
    → m ≡ ok a
wrap_err-eq-ok f (ok a) h = cc
wrap_err-eq-ok f (err e) h = cc

pub or_refuse-eq-ok {ℓ} :
    {E : Type 0} {A : Type ℓ} (o : Option A) (e : E) {a : A} → or_refuse o e ≡ ok a → o ≡ some a
or_refuse-eq-ok none e h = cc
or_refuse-eq-ok (some a) e h = cc

pub Outcome-cases {ℓ} :
    {E : Type 0} {A : Type ℓ} (r : Outcome E A) → IsOk r ⊎ ((e : E) × (r ≡ err e))
Outcome-cases (ok a) = inl (a, refl)
Outcome-cases (err e) = inr (e, refl)

pub ok-injective {ℓ} :
    {E : Type 0} {A : Type ℓ} {a b : A} → ◌≡◌ {A = Outcome E A} (ok a) (ok b) → a ≡ b
ok-injective h = cc

pub err-injective {ℓ} :
    {E : Type 0} {A : Type ℓ} {e f : E} → ◌≡◌ {A = Outcome E A} (err e) (err f) → e ≡ f
err-injective h = cc
