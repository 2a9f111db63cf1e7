-- ===== src/Json.antt =====
-- The documents that the API stores and passes on as `dict[str, Any]`: parameters, plans, results
-- and metric reports, with the reads that the services make of them. A dictionary is its entries in
-- order, and the first entry of a key is the one that is read.
pub mod Equality
pub mod Redact
use iceberg_rest_catalog.Common.{
  ℕ, String, Bool, true, false, Option, none, some, if◌then◌else◌, ◌=ₛ◌, ◌&&◌, ◌||◌,
}
use iceberg_rest_catalog.Common.Int.{ℤ, pos, eq_ℤ}

-- `real` is a number with a fraction, by the text that stands for it.
mutual
  pub data Fields : Type 0 where
    field : (key : String) → (value : Value) → Fields → Fields
    end : Fields

  pub data Value : Type 0 where
    text : String → Value
    int : ℤ → Value
    real : String → Value
    bool : Bool → Value
    obj : Fields → Value
    arr : Items → Value
    null : Value

  pub data Items : Type 0 where
    cons : (first : Value) → Items → Items
    nil : Items

-- `key in d`
unfoldable pub has : String → Fields → Bool
has k end = false
has k (field j v fs) = j =ₛ k || has k fs

-- `d.get(key)`
unfoldable pub get : String → Fields → Option Value
get k end = none
get k (field j v fs) = if j =ₛ k then some v else get k fs

-- `d.get(key, default)`
unfoldable pub get_or : String → Value → Fields → Value
unfolding get
get_or k d fs = elim (get k fs) [ none ↦ d | some v ↦ v ]

-- `d.get(key) is None` reads a missing key and a null alike.
unfoldable pub is_null : Value → Bool
is_null null = true
is_null v = false

-- `d.get(key)`, with a missing key read as a null.
unfoldable pub get_null : String → Fields → Value
unfolding get
get_null k fs = elim (get k fs) [ none ↦ null | some v ↦ v ]

-- `isinstance(value, dict)`
unfoldable pub as_fields : Value → Option Fields
as_fields (obj fs) = some fs
as_fields v = none

-- `d[key] = value`: in the place of the key, or else last.
unfoldable pub put_field : String → Value → Fields → Fields
put_field k v end = field k v end
put_field k v (field j w fs) =
    let rest = put_field k v fs in if j =ₛ k then field j v fs else field j w rest
