-- ===== src/Common/Raising.antt =====
-- Exceptions as values: what a function of the source returns or raises.
use mathlib.Core.Path.{◌≡◌, refl}
use mathlib.Core.Logic.{◌⊎◌, inl, inr}
use mathlib.Core.Bool.{Bool, true, false}
use mathlib.Core.Option.{Option, none, some}

pub data Outcome {ℓ κ} (E : Type κ) (A : Type ℓ) : Type (ℓ ⊔ κ) where
  ok : A → Outcome E A
  err : E → Outcome E A

module _ {ℓ κ μ} {E : Type μ} {A : Type ℓ} {B : Type κ} where
  infixl 5 ◌>>=◌
  -- What follows a step that may raise is given the value that the step returns.
  abbrev pub ◌>>=◌ : (step : Outcome E A) → (next : A → Outcome E B) → Outcome E B
  err raised >>= next = err raised
  ok value >>= next = next value

module _ {κ μ} {E : Type μ} {B : Type κ} where
  infixl 5 ◌>>◌
  abbrev pub ◌>>◌ : (check : Outcome E (Unit {0})) → (rest : Outcome E B) → Outcome E B
  check >> rest = check >>= λ passed. rest

-- `if bad: raise e`
abbrev pub raise_if {μ} : {E : Type μ} → Bool → E → Outcome E (Unit {0})
raise_if true e = err e
raise_if false e = ok tt

-- `if row is None: raise e`
abbrev pub or_raise {ℓ μ} : {E : Type μ} {A : Type ℓ} → Option A → E → Outcome E A
or_raise none e = err e
or_raise (some a) e = ok a

-- Where two steps in a row end well, the first has returned a value, and the second ends well with it.
pub >>=-eq-ok {ℓ κ μ} :
    {E : Type μ} {A : Type ℓ} {B : Type κ} (step : Outcome E A) (next : A → Outcome E B) {last : B}
    → (step >>= next) ≡ ok last
    → (value : A) × (step ≡ ok value) × (next value ≡ ok last)
>>=-eq-ok (err raised) next ended = cc
>>=-eq-ok (ok value) next ended = (value, refl, ended)

pub Outcome-cases {ℓ μ} :
    {E : Type μ} {A : Type ℓ} (m : Outcome E A) → ((a : A) × (m ≡ ok a)) ⊎ ((e : E) × (m ≡ err e))
Outcome-cases (ok a) = inl (a, refl)
Outcome-cases (err e) = inr (e, refl)
