-- ===== src/Json/Equality.antt =====
-- Python's `==` and `>` on the values of a JSON document. A Boolean equals the number 0 or 1, and two
-- dictionaries are equal when each key of one has an equal value in the other. Numbers with a fraction
-- are compared by their texts.
use Prim.Native.String.{compare}
use Prim.Native.Nat.{Ordering}
use iceberg_rest_catalog.Common.{
  ℕ, suc, Bool, true, false, Option, none, some, ◌&&◌, ◌==◌, ◌=ₛ◌, if◌then◌else◌,
}
use iceberg_rest_catalog.Common.Int.{ℤ, pos, eq_ℤ, ltb_ℤ}
use iceberg_rest_catalog.Json.{
  Value, Items, Fields, null, bool, int, real, text, arr, obj, nil, cons, end, field, get,
}

abbrev bit : Bool → ℤ
bit true = pos 1
bit false = pos 0

-- The number that a Boolean or an integer is.
unfoldable pub as_number : Value → Option ℤ
as_number (bool b) = some (bit b)
as_number (int z) = some z
as_number v = none

eq_number : ℤ → Option ℤ → Bool
eq_number a none = false
eq_number a (some b) = eq_ℤ a b

greater_number : ℤ → Option ℤ → Option Bool
greater_number a none = none
greater_number a (some b) = some (ltb_ℤ b a)

length_fields : Fields → ℕ
length_fields end = 0
length_fields (field k v fs) = suc (length_fields fs)

unfoldable mutual
  unfolding as_number eq_number length_fields get

  pub eq_value : Value → Value → Bool
  eq_value null w = elim w [ null ↦ true | other ↦ false ]
  eq_value (bool b) w = eq_number (bit b) (as_number w)
  eq_value (int z) w = eq_number z (as_number w)
  eq_value (real r) w = elim w [ real q ↦ r =ₛ q | other ↦ false ]
  eq_value (text s) w = elim w [ text t ↦ s =ₛ t | other ↦ false ]
  eq_value (arr xs) w = elim w [ arr ys ↦ eq_items xs ys | other ↦ false ]
  eq_value (obj fs) w = elim w [
    | obj gs ↦ (length_fields fs == length_fields gs) && eq_fields fs gs
    | other ↦ false
  ]

  pub eq_items : Items → Items → Bool
  eq_items nil ys = elim ys [ nil ↦ true | other ↦ false ]
  eq_items (cons v xs) ys = elim ys [ nil ↦ false | cons w ws ↦ eq_value v w && eq_items xs ws ]

  pub eq_fields : Fields → Fields → Bool
  eq_fields end gs = true
  eq_fields (field k v fs) gs =
      elim (get k gs) [ none ↦ false | some w ↦ eq_value v w ] && eq_fields fs gs

-- `a > b`: `none` where Python raises a `TypeError`. Lists are compared at the first place where they
-- differ. Of numbers with a fraction the model has the text alone, and takes their order to raise too.
unfoldable mutual
  unfolding as_number greater_number

  pub greater : Value → Value → Option Bool
  greater (text s) w = elim w [
    | text t ↦ some (elim (compare s t) [ Ordering.gt ↦ true | _ ↦ false ])
    | other ↦ none
  ]
  greater (arr xs) w = elim w [ arr ys ↦ greater_items xs ys | other ↦ none ]
  greater (bool b) w = greater_number (bit b) (as_number w)
  greater (int z) w = greater_number z (as_number w)
  greater null w = none
  greater (real r) w = none
  greater (obj fs) w = none

  pub greater_items : Items → Items → Option Bool
  greater_items nil ys = some false
  greater_items (cons v xs) ys = elim ys [
    | nil ↦ some true
    | cons w ws ↦
        let rest = greater_items xs ws in
        let first = greater v w in if eq_value v w then rest else first
  ]
