-- ===== src/Common/Effects.antt =====
-- Code that reads and changes a world and may raise: a function from the world to how the code ends and the
-- world after it.
use mathlib.Core.Path.{◌≡◌, refl}
use mathlib.Core.Bool.{Bool, true, false}
use iceberg_rest_catalog.Common.Tests.{if◌then◌else◌}
use iceberg_rest_catalog.Common.Raising.{Outcome, ok, err}

abbrev pub Run : (E W A : Type 0) → Type 0
Run E W A = W → Outcome E A × W

module _ {E W : Type 0} where
  abbrev pub and_then :
      {A B : Type 0} → (ended : Outcome E A × W) → (next : A → Run E W B) → Outcome E B × W
  and_then (ok value, w) next = next value w
  and_then (err raised, w) next = (err raised, w)

  infixl 5 ◌>>=◌
  abbrev pub ◌>>=◌ : {A B : Type 0} → Run E W A → (A → Run E W B) → Run E W B
  (step >>= next) w = and_then (step w) next

  abbrev pub return : {A : Type 0} → A → Run E W A
  return a w = (ok a, w)

  abbrev pub raise : {A : Type 0} → E → Run E W A
  raise e w = (err e, w)

  abbrev pub lift : {A : Type 0} → Outcome E A → Run E W A
  lift m w = (m, w)

-- Where two steps in a row end well, the first has returned a value, and the second ends well with it.
pub and_then-eq-ok :
    {E W A B : Type 0} (ended : Outcome E A × W) (next : A → Run E W B) {b : B}
    → (and_then ended next).0 ≡ ok b
    → (a : A) × (ended.0 ≡ ok a) × ((next a ended.1).0 ≡ ok b)
and_then-eq-ok (ok a, w) next h = (a, refl, h)
and_then-eq-ok (err e, w) next h = cc

-- A step that ends well has not taken the branch that raises.
pub guard-eq-ok :
    {E W A : Type 0} (bad : Bool) (e : E) (w : W) (m : Outcome E A × W) {a : A}
    → (if bad then (err e, w) else m).0 ≡ ok a
    → (bad ≡ false) × (m.0 ≡ ok a)
guard-eq-ok true e w m h = cc
guard-eq-ok false e w m h = (refl, h)
