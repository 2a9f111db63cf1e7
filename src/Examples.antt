-- ===== src/Examples.antt =====
-- A table, a request and a database to evaluate the model on.
mod Documents
mod Services
mod Jobs
mod Executions
mod Traces
mod Calls
mod Batches
mod Listing
mod Sessions
use iceberg_rest_catalog.Common.{ℕ, String, Bool, true, false, Option, none, some, List, [], ◌∷◌}
use iceberg_rest_catalog.Common.Int.{ℤ, pos}
use iceberg_rest_catalog.Json.{Fields, end, field, int, text, obj, bool}
use iceberg_rest_catalog.Params.{rewrite_data_files, spark, medium}
use iceberg_rest_catalog.Store.{
  State, waiting_approval, queued, running, failed, Catalog, healthy, ManagedTable, PlanItem,
  Operation, TableLock, Execution,
}
use iceberg_rest_catalog.Store.Jobs.{BulkJob, BulkJobItem, operation_request, Db}
use iceberg_rest_catalog.Requests.Create.{RequestCreate}
use iceberg_rest_catalog.Worker.{Settings}
use iceberg_rest_catalog.Worker.Claim.{Others}

abbrev pub warehouse : Catalog
warehouse = record { id = 1; name = "lake"; catalog_type = "HIVE"; warehouse = some "s3://lake" }

abbrev pub orders : ManagedTable
orders = record {
  id = 7;
  catalog = warehouse;
  namespace_name = "sales";
  table_name = "orders";
  current_snapshot_id = some 40;
  total_bytes = 300000000;
  total_records = 1000;
  total_files = 12;
  small_file_ratio = some 5000;
  snapshot_count = 3;
  health = healthy;
  observed_at = none;
  created_at = 90;
}

abbrev pub parameters : Fields
parameters = field "minInputFiles" (int (pos 5)) (field "rewriteAll" (bool true) end)

abbrev pub wish : RequestCreate
wish = record {
  table_id = 7;
  command = rewrite_data_files;
  preferred_engine = spark;
  parameters = parameters;
  reason = "too many small files";
  requester = "ann";
}

abbrev pub plan : PlanItem
plan = record {
  table_id = 7;
  qualified_table_name = "lake.sales.orders";
  current_snapshot_id = some 40;
  total_files = 12;
  total_bytes = 300000000;
  estimated_rewrite_bytes = 300000000;
  estimated_output_files = some 3;
  affected_snapshots = none;
  risk = medium;
  warnings = [];
  executable = true;
}

-- A request in a state.
abbrev pub request_in : State → Operation
request_in s = record {
  id = 1;
  table_id = 7;
  command = rewrite_data_files;
  preferred_engine = spark;
  parameters = parameters;
  reason = "too many small files";
  requester = "ann";
  risk = medium;
  state = s;
  planned_snapshot_id = some 40;
  idempotency_key = some "k1";
  request_fingerprint = some "f1";
  version = 1;
  cancellation_requested_at = none;
  canceled_at = none;
  plan = plan;
  bulk_job_id = none;
  created_at = 100;
  updated_at = 100;
}

abbrev pub lock_by : ℕ → TableLock
lock_by op = record { table_id = 7; operation_request_id = op; acquired_at = 110 }

abbrev pub attempt_in : State → Execution
attempt_in s = record {
  id = 50;
  operation_request_id = 1;
  attempt = 1;
  engine_type = spark;
  engine_instance_id = none;
  state = s;
  worker_id = some "worker-1";
  external_id = none;
  planned_snapshot_id = some 40;
  before_snapshot_id = none;
  after_snapshot_id = none;
  result = end;
  error_message = none;
  queued_at = 100;
  started_at = some 120;
  finished_at = none;
}

abbrev pub database : List Operation → List TableLock → List Execution → Db
database operations locks executions = record {
  tables = orders ∷ [];
  operations = operations;
  locks = locks;
  approvals = [];
  executions = executions;
  events = [];
  audit = [];
  jobs = [];
  items = [];
  engines = [];
}

abbrev pub settings : Settings
settings = record {
  worker_id = "worker-1";
  playground_scope = false;
  livy_mode = false;
  spark_engine_name = "Spark";
}

-- No other transaction runs beside a claim.
abbrev pub undisturbed : Others
undisturbed = record { row_locked = λ id. false; committed = λ locks. locks; raced = false }

abbrev pub no_number : String → Option ℤ
no_number s = none

abbrev pub same_text : String → String
same_text s = s

-- The state of the table before and after a run that went well.
abbrev pub before_run : Fields
before_run = field "snapshot_id" (int (pos 40)) (field "total_records" (int (pos 1000)) end)

abbrev pub after_run : Fields
after_run =
    field "snapshot_id" (int (pos 41))
      (field "total_records" (int (pos 1000)) (field "total_files" (int (pos 3)) end))

abbrev pub good_result : Fields
good_result = field "before" (obj before_run) (field "after" (obj after_run) end)
