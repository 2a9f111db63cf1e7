-- ===== src/Store/Jobs.antt =====
-- Bulk jobs and their items, worker heartbeats, engines, and the whole database
-- (backend/app/models.py), with the primary key of each table.
use iceberg_rest_catalog.Common.{ℕ, String, Option, List}
use iceberg_rest_catalog.Common.Rows.{Row}
use iceberg_rest_catalog.Json.{Fields}
use iceberg_rest_catalog.Params.{Command}
use iceberg_rest_catalog.Store.{
  State, ManagedTable, Operation, TableLock, Approval, Execution, OperationEvent, AuditEvent,
}

pub data JobKind : Type 0 where
  operation_request table_inspect : JobKind

pub record BulkJob : Type 0 where
  pub id : ℕ
  pub kind : JobKind
  pub state : State
  pub idempotency_key : Option String
  pub request_fingerprint : Option String
  pub catalog_id : Option ℕ
  pub namespace_name : Option String
  pub command : Option Command
  pub parameters : Fields
  pub requested_by : String
  pub total_items : ℕ
  pub completed_items : ℕ
  pub succeeded_items : ℕ
  pub failed_items : ℕ
  pub canceled_items : ℕ
  pub started_at : Option ℕ
  pub finished_at : Option ℕ
  pub cancellation_requested_at : Option ℕ
  pub created_at : ℕ

pub record BulkJobItem : Type 0 where
  pub id : ℕ
  pub bulk_job_id : ℕ
  pub ordinal : ℕ
  pub table_name : Option String
  pub table_id : Option ℕ
  pub operation_request_id : Option ℕ
  pub state : State
  pub result : Fields
  pub error_message : Option String
  pub started_at : Option ℕ
  pub finished_at : Option ℕ

pub record EngineInstance : Type 0 where
  pub id : ℕ
  pub name : String

pub record Db : Type 0 where
  pub tables : List ManagedTable
  pub operations : List Operation
  pub locks : List TableLock
  pub approvals : List Approval
  pub executions : List Execution
  pub events : List OperationEvent
  pub audit : List AuditEvent
  pub jobs : List BulkJob
  pub items : List BulkJobItem
  pub engines : List EngineInstance

instance abbrev pub table_row : Row ManagedTable
table_row = record { key = λ t. t.id }

instance abbrev pub operation_row : Row Operation
operation_row = record { key = λ o. o.id }

-- `session.get(OperationTableLock, table_id)`: the table is the primary key.
instance abbrev pub lock_row : Row TableLock
lock_row = record { key = λ l. l.table_id }

instance abbrev pub execution_row : Row Execution
execution_row = record { key = λ e. e.id }

instance abbrev pub job_row : Row BulkJob
job_row = record { key = λ j. j.id }

instance abbrev pub item_row : Row BulkJobItem
item_row = record { key = λ i. i.id }
