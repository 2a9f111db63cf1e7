-- ===== src/Examples/Jobs.antt =====
-- Examples of bulk jobs.
use iceberg_rest_catalog.Common.{
  ℕ, ◌+◌, ◌≤◌, String, ◌≡◌, ◌≢◌, ◌↔◌, refl, true, none, some, List, [], ◌∷◌, ok, length, every,
}
use iceberg_rest_catalog.Common.Rows.{find, add}
use iceberg_rest_catalog.Json.{end, get}
use iceberg_rest_catalog.Params.{rewrite_data_files, spark, engine_capable, command_risk}
use iceberg_rest_catalog.Plan.{
  plan_table, int_parameter, estimate, rewrite_estimate, plan_item, qualified_name,
}
use iceberg_rest_catalog.Requests.Create.{with_key, new_operation}
use iceberg_rest_catalog.Bulk.Create.{
  RequestBulkCreate, new_job, write_member, member_row, insert_operations, all_found, job_with_key,
  create_members, create_member, derived_key, single, requests_of,
}
use iceberg_rest_catalog.Bulk.Create.Members.{Grown, insert_operations-Grown}
use iceberg_rest_catalog.Requests.{audited}
use iceberg_rest_catalog.Store.Locks.{delete_locks}
use iceberg_rest_catalog.Bulk.Cancel.{cancel_items, cancel_item, cancel_request, is_unbegun}
use iceberg_rest_catalog.Bulk.Inspect.{finished_state}
use iceberg_rest_catalog.Bulk.Inspect.Agrees.{finished_state-job_state}
use iceberg_rest_catalog.Store.{
  State, succeeded, failed, queued, running, waiting_approval, few_small_files, never_observed,
  bulk_job_retried, Operation, PlanItem,
}
use iceberg_rest_catalog.Store.Jobs.{
  BulkJob, BulkJobItem, operation_request, Db, operation_row, lock_row, table_row, job_row,
  item_row,
}
use iceberg_rest_catalog.Bulk.{is_terminal, is_succeeded, job_state, recount, refresh_bulk_job}
use iceberg_rest_catalog.Bulk.Counts.{
  is_job_over, recount_adds_up, job_state_over, job_state_succeeded, refresh_bulk_job-again,
}
use iceberg_rest_catalog.Examples.{orders, parameters, plan, request_in, lock_by, database}

abbrev job : BulkJob
job = record {
  id = 90;
  kind = operation_request;
  state = waiting_approval;
  idempotency_key = none;
  request_fingerprint = none;
  catalog_id = none;
  namespace_name = none;
  command = none;
  parameters = end;
  requested_by = "ann";
  total_items = 1;
  completed_items = 0;
  succeeded_items = 0;
  failed_items = 0;
  canceled_items = 0;
  started_at = none;
  finished_at = none;
  cancellation_requested_at = none;
  created_at = 100;
}

abbrev item : BulkJobItem
item = record {
  id = 91;
  bulk_job_id = 90;
  ordinal = 0;
  table_name = some "orders";
  table_id = some 7;
  operation_request_id = some 1;
  state = waiting_approval;
  result = end;
  error_message = none;
  started_at = none;
  finished_at = none;
}

abbrev mixed : List State
mixed = succeeded ∷ failed ∷ queued ∷ []

recount_adds_up_example :
    let j = recount 200 mixed job in
    (j.completed_items ≡ j.succeeded_items + j.failed_items + j.canceled_items)
    × (j.completed_items ≤ length mixed)
recount_adds_up_example = recount_adds_up 200 mixed job

job_state_over_example : is_job_over (job_state mixed) ≡ every is_terminal mixed
job_state_over_example = job_state_over succeeded (failed ∷ queued ∷ [])

job_state_succeeded_example :
    (job_state mixed ≡ succeeded) ↔ ((mixed ≢ []) × (every is_succeeded mixed ≡ true))
job_state_succeeded_example = job_state_succeeded mixed

abbrev job_db : Db
job_db = record (database (request_in failed ∷ []) [] []) { jobs = job ∷ []; items = item ∷ [] }

refresh_bulk_job-again_example :
    let (job', db') = refresh_bulk_job 200 job job_db in refresh_bulk_job 300 job' db' ≡ (job', db')
refresh_bulk_job-again_example = refresh_bulk_job-again 200 300 job job_db

abbrev failed_item : BulkJobItem
failed_item = record item { state = failed }

-- The request of the failed item was retried on its own, and is running.
abbrev busy_db : Db
busy_db = record (database (request_in running ∷ []) (lock_by 1 ∷ []) []) {
  jobs = job ∷ [];
  items = failed_item ∷ [];
}

abbrev queued_again : Operation
queued_again = record (request_in running) {
  state = queued;
  planned_snapshot_id = orders.current_snapshot_id;
  version = 2;
  updated_at = 200;
  cancellation_requested_at = none;
}

abbrev retried_db : Db
retried_db = record busy_db {
  operations = queued_again ∷ [];
  items = record failed_item { state = queued } ∷ [];
  jobs = record job { state = queued } ∷ [];
  audit = audited "ann" bulk_job_retried 90 busy_db.audit;
}

-- A bulk cancellation that has read the running request while it was queued.
abbrev canceled_late : Db
canceled_late = cancel_items (λ op. record op { state = queued }) 200 (item ∷ []) busy_db

-- It cancels the request under the worker, and takes its lock away.
stale_cancel_unlocks : canceled_late.locks ≡ []
unfolding cancel_items cancel_item cancel_request is_terminal is_unbegun find delete_locks
stale_cancel_unlocks = refl

abbrev two_over : List State
two_over = succeeded ∷ failed ∷ []

some_state : two_over ≢ []
some_state e = cc

all_over : every is_terminal two_over ≡ true
unfolding is_terminal
all_over = refl

finished_state-job_state_example : finished_state two_over ≡ job_state two_over
finished_state-job_state_example = finished_state-job_state two_over some_state all_over

abbrev bulk_wish : RequestBulkCreate
bulk_wish = record {
  table_ids = 7 ∷ [];
  command = rewrite_data_files;
  preferred_engine = spark;
  parameters = parameters;
  reason = "too many small files";
  requester = "ann";
}

abbrev no_key : String → ℕ → String
no_key k t = k

abbrev numbered : ℕ → ℕ
numbered n = n + 300

abbrev bare_db : Db
bare_db = database [] [] []

abbrev made_job : BulkJob
made_job = new_job no_key numbered numbered 400 500 none "f9" bulk_wish

abbrev made_plan : PlanItem
made_plan = record plan { warnings = few_small_files ∷ never_observed ∷ [] }

abbrev made_db : Db
made_db =
    write_member no_key numbered numbered 500 400 0 none "f9" bulk_wish orders made_plan
      (record bare_db { jobs = made_job ∷ [] })

abbrev made_ops : List Operation
made_ops = member_row no_key numbered numbered 500 400 0 none "f9" bulk_wish orders made_plan ∷ []

one_made :
    insert_operations no_key numbered numbered 400 500 none "f9" bulk_wish bare_db
    ≡ ok ((made_ops, made_job), made_db)
unfolding insert_operations engine_capable all_found find job_with_key new_job create_members
    create_member plan_table int_parameter get estimate rewrite_estimate plan_item qualified_name
    command_risk derived_key with_key write_member member_row new_operation single add requests_of
one_made = refl

insert_operations-Grown_example :
    Grown bulk_wish 400 0 (bulk_wish.table_ids) bare_db made_db × (made_job.total_items ≡ 1)
insert_operations-Grown_example =
    insert_operations-Grown no_key numbered numbered 400 500 none "f9" bulk_wish bare_db made_ops
      made_job made_db one_made
