-- ===== src/Bulk.antt =====
-- Bulk jobs in backend/app/services.py: the state of a job is worked out from the states of its
-- items, and those from the requests that they stand for. The column `updated_at` of a job, which the
-- database writes, is left out.
pub mod Counts
pub mod Cancel
pub mod Retry
pub mod Create
pub mod Inspect
use iceberg_rest_catalog.Common.{
  ℕ, ◌+◌, Bool, true, false, ◌||◌, Option, none, some, List, [], ◌∷◌, Outcome, ok, err, ◌>>=◌,
  or_raise, if◌then◌else◌, ◌==◌, length, tally, every, some_of, keep,
}
use iceberg_rest_catalog.Common.Rows.{find, put}
use iceberg_rest_catalog.Store.{
  State, waiting_approval, queued, running, verifying, cancel_requested, succeeded, failed,
  rejected, canceled, partial_success, Operation,
}
use iceberg_rest_catalog.Store.Jobs.{BulkJob, BulkJobItem, Db, operation_row, job_row}
use iceberg_rest_catalog.Requests.{ServiceError, job_not_found}

-- `{"SUCCEEDED", "FAILED", "REJECTED", "CANCELED"}`
unfoldable pub is_terminal : State → Bool
is_terminal succeeded = true
is_terminal failed = true
is_terminal rejected = true
is_terminal canceled = true
is_terminal s = false

unfoldable pub is_succeeded : State → Bool
is_succeeded succeeded = true
is_succeeded s = false

-- `count("FAILED") + count("REJECTED")`
unfoldable pub is_lost : State → Bool
is_lost failed = true
is_lost rejected = true
is_lost s = false

unfoldable pub is_canceled : State → Bool
is_canceled canceled = true
is_canceled s = false

unfoldable pub is_cancel_requested : State → Bool
is_cancel_requested cancel_requested = true
is_cancel_requested s = false

-- `{"RUNNING", "VERIFYING"}`
unfoldable pub is_at_work : State → Bool
is_at_work running = true
is_at_work verifying = true
is_at_work s = false

unfoldable pub is_in_queue : State → Bool
is_in_queue queued = true
is_in_queue s = false

-- `job.items`, in the order of their ordinals.
unfoldable pub items_of : BulkJob → List BulkJobItem → List BulkJobItem
items_of job = keep (λ i. i.bulk_job_id == job.id)

-- `by_id.get(item.operation_request_id)`
abbrev pub request_of : List Operation → BulkJobItem → Option Operation
request_of operations i = elim i.operation_request_id [ none ↦ none | some o ↦ find o operations ]

-- An item takes over the state of its request.
unfoldable pub refreshed : List Operation → BulkJobItem → BulkJobItem
unfolding is_terminal
refreshed operations i = elim (request_of operations i) [
  | none ↦ i
  | some op ↦ record i {
    state = op.state;
    finished_at = if is_terminal op.state then some op.updated_at else i.finished_at;
  }
]

unfoldable pub refresh_items : BulkJob → List Operation → List BulkJobItem → List BulkJobItem
unfolding refreshed
refresh_items job operations [] = []
refresh_items job operations (i ∷ is) =
    let rest = refresh_items job operations is in
    (if i.bulk_job_id == job.id then refreshed operations i else i) ∷ rest

abbrev pub states_of : List BulkJobItem → List State
states_of [] = []
states_of (i ∷ is) = i.state ∷ states_of is

-- The state of a job whose items are all over.
unfoldable pub closed_state : List State → State
unfolding is_succeeded is_canceled
closed_state states =
    if tally is_succeeded states == length states
    then succeeded
    else if tally is_canceled states == length states
    then canceled
    else if tally is_succeeded states == 0
    then failed
    else partial_success

-- The state of a job, by the states of its items.
unfoldable pub job_state : List State → State
unfolding is_terminal closed_state is_cancel_requested is_at_work is_in_queue
job_state [] = failed
job_state (s ∷ states) =
    if every is_terminal (s ∷ states)
    then closed_state (s ∷ states)
    else if some_of is_cancel_requested (s ∷ states)
    then cancel_requested
    else if some_of is_at_work (s ∷ states)
    then running
    else if some_of is_in_queue (s ∷ states)
    then queued
    else waiting_approval

-- `job.finished_at or datetime.now(UTC)`, when there are items and all are over.
unfoldable pub finished_time : (now : ℕ) → Option ℕ → List State → Option ℕ
unfolding is_terminal
finished_time now before [] = before
finished_time now before (s ∷ states) =
    if every is_terminal (s ∷ states)
    then (elim before [ none ↦ some now | some t ↦ some t ])
    else before

-- The columns of a job that follow from its items.
unfoldable pub recount : (now : ℕ) → List State → BulkJob → BulkJob
unfolding is_terminal is_succeeded is_lost is_canceled
recount now states job = record job {
  state = job_state states;
  completed_items = tally is_terminal states;
  succeeded_items = tally is_succeeded states;
  failed_items = tally is_lost states;
  canceled_items = tally is_canceled states;
  finished_at = finished_time now job.finished_at states;
}

-- `_refresh_bulk_job`
unfoldable pub refresh_bulk_job : (now : ℕ) → BulkJob → Db → BulkJob × Db
unfolding refresh_items items_of
refresh_bulk_job now job db =
    let items = refresh_items job db.operations db.items in
    let job' = recount now (states_of (items_of job items)) job in
    (job', record db { jobs = put job' db.jobs; items = items })

-- `bulk_job`
unfoldable pub bulk_job : (now job_id : ℕ) → Db → Outcome ServiceError (BulkJob × Db)
bulk_job now job_id db = do
  job ← or_raise (find job_id db.jobs) job_not_found
  ok (refresh_bulk_job now job db)

-- The loop of `bulk_jobs`, over the jobs that its query has loaded: one transaction each.
unfoldable pub bulk_jobs : (now : ℕ) → List BulkJob → Db → List BulkJob × Db
bulk_jobs now [] db = ([], db)
bulk_jobs now (job ∷ jobs) db =
    let (job', db₁) = refresh_bulk_job now job db in
    let (rest, db₂) = bulk_jobs now jobs db₁ in (job' ∷ rest, db₂)
