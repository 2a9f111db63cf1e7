-- ===== src/Verify.antt =====
-- `verify_result` of backend/app/worker.py: what a worker checks of the table's state before and
-- after a procedure ran.
pub mod Sound
use iceberg_rest_catalog.Common.{
  String, Bool, true, false, not, ◌&&◌, Option, none, some, List, [], ◌∷◌, Outcome, ok, err, ◌>>=◌,
  ◌>>◌, raise_if, or_raise,
}
use iceberg_rest_catalog.Common.Int.{ℤ, pos, negsuc, eq_ℤ, ltb_ℤ}
use iceberg_rest_catalog.Json.{
  Value, Fields, null, bool, int, real, text, arr, obj, get, get_null, get_or, is_null, as_fields,
}
use iceberg_rest_catalog.Json.Equality.{as_number, eq_value, greater}
use iceberg_rest_catalog.Params.{Command, expire_snapshots, rollback}

-- The exceptions that reach `execute_claim` from its own bookkeeping: those of `verify_result`, and
-- what Python raises on a value of another type than the code takes it for.
pub data WorkerError : Type 0 where
  no_table_state records_changed no_snapshot_after snapshots_increased wrong_snapshot : WorkerError
  invariant_changed negative_metric : String → WorkerError
  type_error not_storable : WorkerError

pub is_rollback : Command → Bool
is_rollback rollback = true
is_rollback c = false

pub is_expire : Command → Bool
is_expire expire_snapshots = true
is_expire c = false

abbrev pub invariant_keys : List String
invariant_keys = "table_uuid" ∷ "location" ∷ "schema_id" ∷ "spec_id" ∷ "sort_order_id" ∷ []

abbrev pub metric_keys : List String
metric_keys = "total_files" ∷ "total_bytes" ∷ "data_files" ∷ "delete_files" ∷ "partition_count" ∷ []

-- Python's `int(…)` on a text and on a number with a fraction is a parameter.
module _ (int_of_text int_of_real : String → Option ℤ) where
  unfoldable pub to_int : Value → Option ℤ
  unfolding as_number
  to_int (text s) = int_of_text s
  to_int (real r) = int_of_real r
  to_int v = as_number v

  -- `before.get(key) is not None and after.get(key) != before.get(key)`
  pub drifted : Fields → Fields → String → Bool
  drifted before after key =
      not (is_null (get_null key before))
      && not (eq_value (get_null key after) (get_null key before))

  pub keep_invariants : Fields → Fields → List String → Outcome WorkerError (Unit {0})
  unfolding drifted
  keep_invariants before after [] = ok tt
  keep_invariants before after (key ∷ keys) =
      raise_if (drifted before after key) (invariant_changed key)
      >> keep_invariants before after keys

  -- One metric: a missing or null value passes.
  pub metric_ok : Fields → String → Outcome WorkerError (Unit {0})
  unfolding to_int
  metric_ok after key = elim (is_null (get_null key after)) [
    | true ↦ ok tt
    | false ↦ do
      n ← or_raise (to_int (get_null key after)) type_error
      raise_if (ltb_ℤ n (pos 0)) (negative_metric key)
  ]

  pub metrics_ok : Fields → List String → Outcome WorkerError (Unit {0})
  metrics_ok after [] = ok tt
  metrics_ok after (key ∷ keys) = metric_ok after key >> metrics_ok after keys

  pub expire_ok : Command → Fields → Fields → Outcome WorkerError (Unit {0})
  unfolding is_expire
  expire_ok command before after = elim (is_expire command) [
    | false ↦ ok tt
    | true ↦ do
      more ←
          or_raise
            (greater (get_or "snapshot_count" (int (pos 0)) after)
              (get_or "snapshot_count" (int (pos 0)) before))
            type_error
      raise_if more snapshots_increased
  ]

  pub rollback_ok : Command → Fields → Fields → Outcome WorkerError (Unit {0})
  unfolding is_rollback to_int
  rollback_ok command after parameters =
      elim (is_rollback command && not (is_null (get_null "snapshotId" parameters))) [
        | false ↦ ok tt
        | true ↦ do
          selected ← or_raise (to_int (get_null "snapshot_id" after)) type_error
          target ← or_raise (to_int (get_null "snapshotId" parameters)) type_error
          raise_if (not (eq_ℤ selected target)) wrong_snapshot
      ]

  -- The checks once both states are known to be dictionaries.
  pub verify_states : Command → (before after parameters : Fields) → Outcome WorkerError (Unit {0})
  unfolding is_rollback
  verify_states command before after parameters = do
    raise_if
        (not (is_rollback command)
          && not (eq_value (get_null "total_records" before) (get_null "total_records" after)))
        records_changed
    raise_if (is_null (get_null "snapshot_id" after)) no_snapshot_after
    keep_invariants before after invariant_keys
    metrics_ok after metric_keys
    expire_ok command before after
    rollback_ok command after parameters

  unfoldable pub verify_result : Command → Fields → Fields → Outcome WorkerError (Unit {0})
  unfolding verify_states keep_invariants metrics_ok metric_ok expire_ok rollback_ok
  verify_result command result parameters = do
    before ← or_raise (as_fields (get_null "before" result)) no_table_state
    after ← or_raise (as_fields (get_null "after" result)) no_table_state
    verify_states command before after parameters
