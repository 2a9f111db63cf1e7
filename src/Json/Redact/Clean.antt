-- ===== src/Json/Redact/Clean.antt =====
-- What redaction promises: no sensitive key at any depth, and nothing else lost.
use iceberg_rest_catalog.Common.{
  String, ◌≡◌, refl, ap, ◌⊎◌, inl, inr, true, false, none, some, arith, eq_iff, Bool-cases,
}
use iceberg_rest_catalog.Json.{
  Value, Items, Fields, null, bool, int, real, text, arr, obj, nil, cons, end, field, get,
}
use iceberg_rest_catalog.Json.Redact.{
  is_sensitive, visit, visit_items, visit_fields, redact_metric_payload,
}

-- A key stands in a document: at an entry of a dictionary, or inside an item or an entry's value.
abbrev mutual
  pub Occurs : String → Value → Type 0
  Occurs k null = ⊥
  Occurs k (bool b) = ⊥
  Occurs k (int n) = ⊥
  Occurs k (real r) = ⊥
  Occurs k (text s) = ⊥
  Occurs k (arr xs) = OccursItems k xs
  Occurs k (obj fs) = OccursFields k fs

  pub OccursItems : String → Items → Type 0
  OccursItems k nil = ⊥
  OccursItems k (cons v xs) = Occurs k v ⊎ OccursItems k xs

  pub OccursFields : String → Fields → Type 0
  OccursFields k end = ⊥
  OccursFields k (field j v fs) = (j ≡ k) ⊎ Occurs k v ⊎ OccursFields k fs

module _ (k : String) (s : is_sensitive k ≡ true) where
  mutual
    unfolding visit visit_items visit_fields

    absent : (v : Value) → Occurs k (visit v) → ⊥
    absent null o = o
    absent (bool b) o = o
    absent (int n) o = o
    absent (real r) o = o
    absent (text t) o = o
    absent (arr xs) o = absent_items xs o
    absent (obj fs) o = absent_fields fs o

    absent_items : (xs : Items) → OccursItems k (visit_items xs) → ⊥
    absent_items nil o = o
    absent_items (cons v xs) (inl o) = absent v o
    absent_items (cons v xs) (inr o) = absent_items xs o

    absent_fields : (fs : Fields) → OccursFields k (visit_fields fs) → ⊥
    absent_fields end o = o
    absent_fields (field j v fs) o = ground (arith, absent v, absent_fields fs)

-- A sensitive key occurs nowhere in a redacted report.
pub redact-not_Occurs :
    (k : String) (payload : Fields)
    → is_sensitive k ≡ true
    → ¬ OccursFields k (redact_metric_payload payload)
unfolding redact_metric_payload
redact-not_Occurs k payload s = absent_fields k s payload

-- No sensitive key occurs in a document: the input form of the same promise.
abbrev pub IsClean : Fields → Type 0
IsClean fs = (k : String) → is_sensitive k ≡ true → ¬ OccursFields k fs

mutual
  unfolding visit visit_items visit_fields

  unchanged : (v : Value) → ((k : String) → is_sensitive k ≡ true → ¬ Occurs k v) → visit v ≡ v
  unchanged null h = refl
  unchanged (bool b) h = refl
  unchanged (int n) h = refl
  unchanged (real r) h = refl
  unchanged (text t) h = refl
  unchanged (arr xs) h = ap arr (unchanged_items xs h)
  unchanged (obj fs) h = ap obj (unchanged_fields fs h)

  unchanged_items :
      (xs : Items)
      → ((k : String) → is_sensitive k ≡ true → ¬ OccursItems k xs)
      → visit_items xs ≡ xs
  unchanged_items nil h = refl
  unchanged_items (cons v xs) h =
      cc (unchanged v (λ k s o. h k s (inl o)), unchanged_items xs (λ k s o. h k s (inr o)))

  unchanged_fields : (fs : Fields) → IsClean fs → visit_fields fs ≡ fs
  unchanged_fields end h = refl
  unchanged_fields (field j v fs) h = elim (Bool-cases (is_sensitive j)) [
    | inl s ↦ absurd (h j s (inl refl))
    | inr n ↦ rw n (
        cc (
          unchanged v (λ k s o. h k s (inr (inl o))),
          unchanged_fields fs (λ k s o. h k s (inr (inr o))),
        ))
  ]

-- A report in which no sensitive key occurs is stored as it came.
pub redact-IsClean : (payload : Fields) → IsClean payload → redact_metric_payload payload ≡ payload
unfolding redact_metric_payload
redact-IsClean payload h = unchanged_fields payload h

-- An entry whose key is not sensitive is kept, with what stands under it redacted in turn.
pub get-redact :
    (k : String) (payload : Fields)
    → is_sensitive k ≡ false
    → get k (redact_metric_payload payload)
      ≡ elim (get k payload) [ none ↦ none | some v ↦ some (visit v) ]
unfolding redact_metric_payload get visit_fields
get-redact k end h = refl
get-redact k (field j v fs) h = ground (arith, eq_iff j k, get-redact k fs h)
