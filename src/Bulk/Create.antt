-- ===== src/Bulk/Create.antt =====
-- `create_operations` of backend/app/services.py: one request for each table, in one transaction.
pub mod Members
use iceberg_rest_catalog.Common.{
  ℕ, suc, String, Bool, false, not, Option, none, some, List, [], ◌∷◌, Outcome, ok, err, ◌>>=◌,
  ◌>>◌, or_raise, raise_if, if◌then◌else◌, ◌==◌, is_none, length, keep, every,
}
use iceberg_rest_catalog.Common.Rows.{find, add}
use iceberg_rest_catalog.Json.{Fields, end, field, text}
use iceberg_rest_catalog.Plan.{qualified_name}
use iceberg_rest_catalog.Params.{Command, Engine, engine_capable}
use iceberg_rest_catalog.Store.{
  waiting_approval, ManagedTable, PlanItem, Operation, operation_requested,
}
use iceberg_rest_catalog.Store.Jobs.{
  BulkJob, BulkJobItem, operation_request, Db, table_row, operation_row, job_row, item_row,
}
use iceberg_rest_catalog.Requests.{
  ServiceError, table_not_found, not_supported, key_reused, not_executable, integrity_error,
  validated, planned, text_is, audited,
}
use iceberg_rest_catalog.Requests.Create.{RequestCreate, with_key, new_operation}

-- `OperationRequestBulkCreate` of backend/app/schemas.py. The validator has taken repeated tables out.
pub record RequestBulkCreate : Type 0 where
  pub table_ids : List ℕ
  pub command : Command
  pub preferred_engine : Engine
  pub parameters : Fields
  pub reason : String
  pub requester : String

-- The answer: the requests in the order of the tables, and the job.
abbrev pub BulkReply : Type 0
BulkReply = Outcome ServiceError ((List Operation × BulkJob) × Db)

unfoldable pub job_with_key : Option String → List BulkJob → Option BulkJob
job_with_key none js = none
job_with_key (some k) [] = none
job_with_key (some k) (j ∷ js) =
    if text_is k j.idempotency_key then some j else job_with_key (some k) js

-- `select(OperationRequest).where(bulk_job_id == job.id)`
unfoldable pub requests_of : ℕ → List Operation → List Operation
requests_of job = keep (λ o. elim o.bulk_job_id [ none ↦ false | some j ↦ j == job ])

-- Every table that is asked for is there.
unfoldable pub all_found : List ManagedTable → List ℕ → Bool
all_found tables = every (λ t. not (is_none (find t tables)))

unfoldable pub single : RequestBulkCreate → ℕ → RequestCreate
single request table = record {
  table_id = table;
  command = request.command;
  preferred_engine = request.preferred_engine;
  parameters = request.parameters;
  reason = request.reason;
  requester = request.requester;
}

-- `item_key` derives a request's key from the job's and the table; it is a digest, and a parameter.
-- `op_ids` and `item_ids` are the identifiers that are drawn, by the ordinal.
module _ (item_key : String → ℕ → String) (op_ids item_ids : ℕ → ℕ) where
  unfoldable pub derived_key : Option String → ℕ → Option String
  derived_key none table = none
  derived_key (some k) table = some (item_key k table)

  unfoldable pub member_row :
      (now job ordinal : ℕ)
      → Option String
      → String
      → RequestBulkCreate
      → ManagedTable
      → PlanItem
      → Operation
  unfolding new_operation single derived_key
  member_row now job ordinal key fingerprint request table plan =
      record (new_operation (op_ids ordinal) now (derived_key key table.id) fingerprint
        (single request table.id) table plan) { bulk_job_id = some job }

  unfoldable pub item_row_of : (job ordinal : ℕ) → ManagedTable → BulkJobItem
  unfolding qualified_name
  item_row_of job ordinal table = record {
    id = item_ids ordinal;
    bulk_job_id = job;
    ordinal = ordinal;
    table_name = some table.table_name;
    table_id = some table.id;
    operation_request_id = some (op_ids ordinal);
    state = waiting_approval;
    result = field "qualifiedTableName" (text (qualified_name table)) end;
    error_message = none;
    started_at = none;
    finished_at = none;
  }

  unfoldable pub write_member :
      (now job ordinal : ℕ)
      → Option String
      → String
      → RequestBulkCreate
      → ManagedTable
      → PlanItem
      → Db
      → Db
  unfolding member_row item_row_of
  write_member now job ordinal key fingerprint request table plan db = record db {
    operations = add (member_row now job ordinal key fingerprint request table plan) db.operations;
    audit = audited request.requester operation_requested (op_ids ordinal) db.audit;
    items = add (item_row_of job ordinal table) db.items;
  }

  -- The body of the loop. The derived key can be taken, which the flush finds.
  unfoldable pub create_member :
      (now job ordinal : ℕ)
      → Option String
      → String
      → RequestBulkCreate
      → ℕ
      → Db
      → Outcome ServiceError Db
  unfolding write_member
  create_member now job ordinal key fingerprint request table_id db = do
    table ← or_raise (find table_id db.tables) table_not_found
    plan ← planned table request.command request.parameters
    raise_if (not plan.executable) not_executable
    raise_if (not (is_none (with_key (derived_key key table.id) db.operations))) integrity_error
    ok (write_member now job ordinal key fingerprint request table plan db)

  unfoldable pub create_members :
      (now job ordinal : ℕ)
      → Option String
      → String
      → RequestBulkCreate
      → List ℕ
      → Db
      → Outcome ServiceError Db
  unfolding create_member
  create_members now job ordinal key fingerprint request [] db = ok db
  create_members now job ordinal key fingerprint request (t ∷ ts) db =
      create_member now job ordinal key fingerprint request t db
      >>= create_members now job (suc ordinal) key fingerprint request ts

  unfoldable pub new_job : (fresh now : ℕ) → Option String → String → RequestBulkCreate → BulkJob
  new_job fresh now key fingerprint request = record {
    id = fresh;
    kind = operation_request;
    state = waiting_approval;
    idempotency_key = key;
    request_fingerprint = some fingerprint;
    catalog_id = none;
    namespace_name = none;
    command = some request.command;
    parameters = request.parameters;
    requested_by = request.requester;
    total_items = length request.table_ids;
    completed_items = 0;
    succeeded_items = 0;
    failed_items = 0;
    canceled_items = 0;
    started_at = none;
    finished_at = none;
    cancellation_requested_at = none;
    created_at = now;
  }

  -- The rest of the service when no job with the key was found. The job's insert is flushed before
  -- the guarded commit, as in `create_operation`.
  unfoldable pub insert_operations :
      (fresh now : ℕ) → Option String → String → RequestBulkCreate → Db → BulkReply
  unfolding new_job create_members requests_of all_found
  insert_operations fresh now key fingerprint request db = do
    raise_if (not (engine_capable request.preferred_engine request.command)) not_supported
    raise_if (not (all_found db.tables request.table_ids)) table_not_found
    raise_if (not (is_none (job_with_key key db.jobs))) integrity_error
    let job = new_job fresh now key fingerprint request
    db' ←
        create_members now fresh 0 key fingerprint request request.table_ids
          (record db { jobs = add job db.jobs })
    ok ((requests_of fresh db'.operations, job), db')

  unfoldable pub create_operations :
      (RequestBulkCreate → String)
      → (raced : Bool) (fresh now : ℕ) → RequestBulkCreate
      → Option String
      → Db
      → BulkReply
  unfolding insert_operations job_with_key requests_of
  create_operations fingerprint_of raced fresh now request key db = do
    validated request.command request.parameters
    elim (if raced then none else job_with_key key db.jobs) [
      | none ↦ insert_operations fresh now key (fingerprint_of request) request db
      | some job ↦
          if text_is (fingerprint_of request) job.request_fingerprint
          then ok ((requests_of job.id db.operations, job), db)
          else err key_reused
    ]
