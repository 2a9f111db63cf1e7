-- ===== src/Json/Redact.antt =====
-- `redact_metric_payload` of backend/app/services.py: the keys of a metric report that may carry
-- query text are taken out at every depth. The source deletes from a deep copy; here the copy is
-- built without them.
pub mod Clean
use iceberg_rest_catalog.Common.{String, Bool, List, [], ◌∷◌, if◌then◌else◌, one_of}
use iceberg_rest_catalog.Json.{
  Value, Items, Fields, null, bool, int, real, text, arr, obj, nil, cons, end, field,
}

-- `SENSITIVE_METRIC_FIELDS`
abbrev pub sensitive_metric_fields : List String
sensitive_metric_fields =
    "filter" ∷ "projected-field-names" ∷ "projectedFieldNames" ∷ "query" ∷ "queryText" ∷ "sql" ∷ []

unfoldable pub is_sensitive : String → Bool
is_sensitive k = one_of k sensitive_metric_fields

-- `visit` over values, over the items of a list and over the entries of a dictionary.
unfoldable mutual
  pub visit : Value → Value
  visit null = null
  visit (bool b) = bool b
  visit (int n) = int n
  visit (real r) = real r
  visit (text s) = text s
  visit (arr xs) = arr (visit_items xs)
  visit (obj fs) = obj (visit_fields fs)

  pub visit_items : Items → Items
  visit_items nil = nil
  visit_items (cons v xs) = cons (visit v) (visit_items xs)

  pub visit_fields : Fields → Fields
  visit_fields end = end
  visit_fields (field k v fs) =
      let rest = visit_fields fs in
      let v' = visit v in if is_sensitive k then rest else field k v' rest

pub redact_metric_payload : Fields → Fields
redact_metric_payload payload = visit_fields payload
