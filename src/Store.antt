-- ===== src/Store.antt =====
-- The tables of backend/app/models.py that the services and the workers read and write. Identifiers
-- (UUIDs) and times are natural numbers, of which only equality and order are used. A column that
-- holds one of a fixed set of words is a data type. Columns that no modelled code reads (the texts of
-- events, the details of audit entries, credentials) are left out.
pub mod Jobs
pub mod Locks
use iceberg_rest_catalog.Common.{ℕ, String, Bool, true, false, Option, List}
use iceberg_rest_catalog.Common.Rows.{Row}
use iceberg_rest_catalog.Common.Int.{ℤ}
use iceberg_rest_catalog.Json.{Fields}
use iceberg_rest_catalog.Params.{Command, Engine, Risk}

-- The words of the `state` columns of requests, executions, bulk jobs and their items.
pub data State : Type 0 where
  pending planning waiting_approval queued running verifying cancel_requested : State
  succeeded failed rejected canceled partial_success : State

pub data Decision : Type 0 where
  approved declined : Decision

pub record Catalog : Type 0 where
  pub id : ℕ
  pub name : String
  pub catalog_type : String
  pub warehouse : Option String

-- `health` columns
pub data Health : Type 0 where
  healthy warning critical unknown : Health

-- The ratio has five decimals, and is kept in hundred-thousandths.
pub record ManagedTable : Type 0 where
  pub id : ℕ
  pub catalog : Catalog
  pub namespace_name : String
  pub table_name : String
  pub current_snapshot_id : Option ℕ
  pub total_bytes : ℕ
  pub total_records : ℕ
  pub total_files : ℕ
  pub small_file_ratio : Option ℕ
  pub snapshot_count : ℕ
  pub health : Health
  pub observed_at : Option ℕ
  pub created_at : ℕ

-- The warnings of a plan, one for each text.
pub data Warning : Type 0 where
  few_small_files nothing_to_expire permanent_delete lineage_check : Warning
  no_snapshot never_observed : Warning

-- `OperationPlanItem` of backend/app/schemas.py, which is also what the `plan` column holds.
pub record PlanItem : Type 0 where
  pub table_id : ℕ
  pub qualified_table_name : String
  pub current_snapshot_id : Option ℕ
  pub total_files : ℕ
  pub total_bytes : ℕ
  pub estimated_rewrite_bytes : ℕ
  pub estimated_output_files : Option ℕ
  pub affected_snapshots : Option ℕ
  pub risk : Risk
  pub warnings : List Warning
  pub executable : Bool

-- `OperationRequest`
pub record Operation : Type 0 where
  pub id : ℕ
  pub table_id : ℕ
  pub command : Command
  pub preferred_engine : Engine
  pub parameters : Fields
  pub reason : String
  pub requester : String
  pub risk : Risk
  pub state : State
  pub planned_snapshot_id : Option ℕ
  pub idempotency_key : Option String
  pub request_fingerprint : Option String
  pub version : ℕ
  pub cancellation_requested_at : Option ℕ
  pub canceled_at : Option ℕ
  pub plan : PlanItem
  pub bulk_job_id : Option ℕ
  pub created_at : ℕ
  pub updated_at : ℕ

-- `OperationTableLock`
pub record TableLock : Type 0 where
  pub table_id : ℕ
  pub operation_request_id : ℕ
  pub acquired_at : ℕ

pub record Approval : Type 0 where
  pub operation_request_id : ℕ
  pub approver : String
  pub decision : Decision
  pub comment : Option String
  pub created_at : ℕ

-- `OperationExecution`
pub record Execution : Type 0 where
  pub id : ℕ
  pub operation_request_id : ℕ
  pub attempt : ℕ
  pub engine_type : Engine
  pub engine_instance_id : Option ℕ
  pub state : State
  pub worker_id : Option String
  pub external_id : Option String
  pub planned_snapshot_id : Option ℕ
  pub before_snapshot_id : Option ℤ
  pub after_snapshot_id : Option ℤ
  pub result : Fields
  pub error_message : Option String
  pub queued_at : ℕ
  pub started_at : Option ℕ
  pub finished_at : Option ℕ

pub data EventType : Type 0 where
  claimed engine_submitted spark_completed verified failed_event canceled_event : EventType
  recovery_attached stale_execution : EventType

pub data Level : Type 0 where
  info warning_level error_level : Level

-- `OperationEvent`
pub record OperationEvent : Type 0 where
  pub execution_id : ℕ
  pub level : Level
  pub event_type : EventType

pub data Action : Type 0 where
  operation_requested operation_approved operation_rejected operation_retried : Action
  operation_cancel_requested operation_started operation_succeeded operation_failed : Action
  operation_canceled bulk_job_cancel_requested bulk_job_retried : Action
  bulk_table_inspection_requested : Action

-- `AuditEvent`; `resource_id` is that of a request or, for the actions on jobs, of a bulk job.
pub record AuditEvent : Type 0 where
  pub actor : String
  pub action : Action
  pub resource_id : ℕ
