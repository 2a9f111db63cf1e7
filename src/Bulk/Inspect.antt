-- ===== src/Bulk/Inspect.antt =====
-- The bulk worker, backend/app/bulk_worker.py: it inspects the tables of a namespace, one item after
-- the other. The inspection itself is the playground's, and a parameter.
pub mod Agrees
use iceberg_rest_catalog.Common.{
  ℕ, String, Bool, true, false, not, ◌&&◌, Option, none, some, List, [], ◌∷◌, if◌then◌else◌, ◌==◌,
  leb, is_none, length, tally, keep,
}
use iceberg_rest_catalog.Common.Rows.{find, put}
use iceberg_rest_catalog.Json.{Fields}
use iceberg_rest_catalog.Store.{
  State, queued, running, succeeded, failed, canceled, partial_success, Catalog, ManagedTable,
}
use iceberg_rest_catalog.Store.Jobs.{
  JobKind, operation_request, table_inspect, BulkJob, BulkJobItem, Db, job_row, item_row, table_row,
}
use iceberg_rest_catalog.Worker.{truncate}
use iceberg_rest_catalog.Bulk.{items_of, states_of, is_succeeded, is_canceled, is_in_queue}

unfoldable pub is_inspect : JobKind → Bool
is_inspect table_inspect = true
is_inspect operation_request = false

abbrev is_running : State → Bool
is_running running = true
is_running s = false

-- The terminal states of this worker: no request of it is rejected.
unfoldable pub is_done : State → Bool
is_done succeeded = true
is_done failed = true
is_done canceled = true
is_done s = false

unfoldable pub has_failed : State → Bool
has_failed failed = true
has_failed s = false

-- `recover_jobs`: a job that has not been written for too long goes back to the queue, with the items
-- that were running. `is_stale` is the comparison of its `updated_at` with the cutoff.
unfoldable pub recovered_items : BulkJob → List BulkJobItem → List BulkJobItem
recovered_items job [] = []
recovered_items job (i ∷ is) =
    let rest = recovered_items job is in
    (if (i.bulk_job_id == job.id) && is_running i.state
      then record i { state = queued; started_at = none }
      else i)
    ∷ rest

unfoldable pub recover_each : (is_stale : BulkJob → Bool) → List BulkJob → Db → Db
unfolding is_inspect recovered_items
recover_each is_stale [] db = db
recover_each is_stale (job ∷ jobs) db = recover_each is_stale jobs (
    if is_inspect job.kind && (is_running job.state && is_stale job)
    then record db {
      jobs = put (record job { state = queued; started_at = none }) db.jobs;
      items = recovered_items job db.items;
    }
    else db)

unfoldable pub recover_jobs : (is_stale : BulkJob → Bool) → Db → Db
unfolding recover_each
recover_jobs is_stale db = recover_each is_stale db.jobs db

-- `order_by(created_at).limit(1)`
unfoldable pub oldest_job : List BulkJob → Option BulkJob
oldest_job [] = none
oldest_job (j ∷ js) = elim (oldest_job js) [
  | none ↦ some j
  | some k ↦ some (if leb j.created_at k.created_at then j else k)
]

-- `claim_job`
unfoldable pub claim_job : (now : ℕ) → Db → Option ℕ × Db
unfolding oldest_job is_inspect
claim_job now db =
    elim (oldest_job (keep (λ j. is_inspect j.kind && is_in_queue j.state) db.jobs)) [
      | none ↦ (none, db)
      | some job ↦ (
        some job.id,
        record db { jobs = put (record job { state = running; started_at = some now }) db.jobs },
      )
    ]

-- The counts that the worker writes.
unfoldable pub counted : List State → BulkJob → BulkJob
unfolding is_done has_failed
counted states job = record job {
  completed_items = tally is_done states;
  succeeded_items = tally is_succeeded states;
  failed_items = tally has_failed states;
  canceled_items = tally is_canceled states;
}

-- The state in which `finish_job` leaves a job.
unfoldable pub finished_state : List State → State
finished_state states =
    if tally is_canceled states == length states
    then canceled
    else if tally is_succeeded states == length states
    then succeeded
    else if tally is_succeeded states == 0
    then failed
    else partial_success

-- `finish_job`
unfoldable pub finish_job : (now job_id : ℕ) → Db → Db
unfolding counted finished_state
finish_job now job_id db = elim (find job_id db.jobs) [
  | none ↦ db
  | some job ↦
      let states = states_of (items_of job db.items) in
      record db {
        jobs =
            put
              (record (counted states job) {
                state = finished_state states;
                finished_at = some now;
              })
              db.jobs;
      }
]

-- How the inspection of a table ends: an exception, by its text, or the table that it has written and
-- its summary.
pub data Inspected : Type 0 where
  raised : String → Inspected
  synced : ManagedTable → Fields → Inspected

-- The last transaction of an item, and of its job's counts.
unfoldable pub write_item : BulkJob → BulkJobItem → Db → Db
unfolding counted
write_item job i db =
    let items = put i db.items in
    record db { items = items; jobs = put (counted (states_of (items_of job items)) job) db.jobs }

-- An item that is left where it is.
unfoldable pub stop_item : (now : ℕ) → State → Option String → BulkJobItem → Db → Db
stop_item now state error i db = record db {
  items = put (record i { state = state; error_message = error; finished_at = some now }) db.items;
}

-- `sync` is the write of the inspected table, which is committed before the item is.
module _ (catalog_of : ℕ → Option Catalog) (sync : ManagedTable → Db → Db) where
  abbrev catalog_for : BulkJob → Option Catalog
  catalog_for job = elim job.catalog_id [ none ↦ none | some c ↦ catalog_of c ]

  -- `catalog is None or catalog.warehouse is None or job.namespace_name is None`
  unfoldable pub is_unavailable : BulkJob → Bool
  is_unavailable job = elim (catalog_for job) [
    | none ↦ true
    | some c ↦ if is_none c.warehouse then true else is_none job.namespace_name
  ]

  -- After the inspection, with the job read anew: an exception is noted before the cancellation is
  -- looked at.
  unfoldable pub after_inspection : (now : ℕ) → BulkJobItem → BulkJob → Inspected → Db → Db
  unfolding write_item stop_item
  after_inspection now i job (raised text) db =
      write_item job
        (record i {
          state = failed;
          error_message = some (truncate 2000 text);
          finished_at = some now;
        })
        db
  after_inspection now i job (synced t summary) db =
      if not (is_none job.cancellation_requested_at)
      then stop_item now canceled i.error_message i db
      else write_item job
          (record i {
            state = succeeded;
            table_id = some t.id;
            result = summary;
            finished_at = some now;
          })
          (sync t db)

  -- `process_item`, with `env` for what other transactions do while the table is inspected.
  unfoldable pub process_item : (env : Db → Db) → (now job_id item_id : ℕ) → Inspected → Db → Db
  unfolding after_inspection stop_item is_unavailable
  process_item env now job_id item_id result db = elim (find job_id db.jobs) [
    | none ↦ db
    | some job ↦ elim (find item_id db.items) [
      | none ↦ db
      | some i ↦
          if is_none i.table_name
          then db
          else if not (is_none job.cancellation_requested_at)
          then stop_item now canceled i.error_message i db
          else if is_unavailable job
          then stop_item now failed (some "Registered Catalog or Namespace is unavailable") i db
          else let i' = record i { state = running; started_at = some now } in
            let db' = env (record db { items = put i' db.items }) in
            (elim (find job_id db'.jobs) [
              | none ↦ db'
              | some job' ↦ after_inspection now i' job' result db'
            ])
    ]
  ]

  -- The loop of `process_job` over the queued items, then `finish_job`.
  unfoldable pub process_items :
      (env : Db → Db) → (now job_id : ℕ) → (ℕ → Inspected) → List BulkJobItem → Db → Db
  unfolding process_item is_in_queue
  process_items env now job_id results [] db = db
  process_items env now job_id results (i ∷ is) db =
      process_items env now job_id results is
        (if is_in_queue i.state then process_item env now job_id i.id (results i.id) db else db)

  unfoldable pub process_job : (env : Db → Db) → (now job_id : ℕ) → (ℕ → Inspected) → Db → Db
  unfolding process_items finish_job
  process_job env now job_id results db = elim (find job_id db.jobs) [
    | none ↦ db
    | some job ↦
        finish_job now job_id (process_items env now job_id results (items_of job db.items) db)
  ]
