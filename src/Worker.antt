-- ===== src/Worker.antt =====
-- The operation worker, backend/app/worker.py: one claim of the queue, the bookkeeping of an
-- execution, and the recovery after a restart. Each `mark_…` is one transaction.
pub mod Claim
pub mod Marks
pub mod Run
pub mod Recover
use iceberg_rest_catalog.Common.{
  ℕ, zero, suc, String, Bool, Option, none, some, List, [], ◌∷◌, ◌++◌,
}
use iceberg_rest_catalog.Json.{Fields}
use iceberg_rest_catalog.Params.{Command}
use iceberg_rest_catalog.Store.{State, Operation, OperationEvent, Level, EventType, ManagedTable}
use iceberg_rest_catalog.Store.Jobs.{BulkJobItem}
use iceberg_rest_catalog.Requests.{update_item}

-- `settings` and the module's constants, as far as the worker reads them: `spark_catalog_scope ==
-- "playground"`, and `spark_execution_mode == "livy"`.
pub record Settings : Type 0 where
  pub worker_id : String
  pub playground_scope : Bool
  pub livy_mode : Bool
  pub spark_engine_name : String

-- What is handed to the executor. The identifier stays a number here.
pub record Payload : Type 0 where
  pub operation_id : ℕ
  pub catalog : String
  pub catalog_type : String
  pub warehouse : Option String
  pub namespace_name : String
  pub table : String
  pub command : Command
  pub parameters : Fields
  pub expected_snapshot_id : Option ℕ

unfoldable pub operation_payload : Operation → ManagedTable → Payload
operation_payload op t = record {
  operation_id = op.id;
  catalog = t.catalog.name;
  catalog_type = t.catalog.catalog_type;
  warehouse = t.catalog.warehouse;
  namespace_name = t.namespace_name;
  table = t.table_name;
  command = op.command;
  parameters = op.parameters;
  expected_snapshot_id = op.planned_snapshot_id;
}

-- `finish_bulk_item`
unfoldable pub finish_bulk_item :
    (now : ℕ) → Operation → State → Option String → List BulkJobItem → List BulkJobItem
unfolding update_item
finish_bulk_item now op state error =
    update_item (λ i. record i { state = state; error_message = error; finished_at = some now }) op

unfoldable pub noted : ℕ → Level → EventType → List OperationEvent → List OperationEvent
noted execution level event events =
    events ++ record { execution_id = execution; level = level; event_type = event } ∷ []

-- `text[:limit]`
unfoldable pub truncate : ℕ → String → String
truncate zero s = String.[]
truncate (suc n) String.[] = String.[]
truncate (suc n) (String.◌∷◌ c s) = String.◌∷◌ c (truncate n s)
