-- ===== src/Bulk/Cancel.antt =====
-- `cancel_bulk_job` of backend/app/services.py.
use iceberg_rest_catalog.Common.{
  ℕ, ◌+◌, String, Bool, true, false, none, some, List, [], ◌∷◌, Outcome, ◌>>=◌, or_raise,
  if◌then◌else◌,
}
use iceberg_rest_catalog.Common.Rows.{find, put}
use iceberg_rest_catalog.Store.{
  State, waiting_approval, queued, running, cancel_requested, canceled, Operation,
  bulk_job_cancel_requested,
}
use iceberg_rest_catalog.Store.Jobs.{BulkJob, BulkJobItem, Db, operation_row, job_row, item_row}
use iceberg_rest_catalog.Store.Locks.{delete_locks}
use iceberg_rest_catalog.Requests.{ServiceError, job_not_found, audited}
use iceberg_rest_catalog.Bulk.{is_terminal, items_of, bulk_job}

-- An item that stands for no request: the bulk worker's.
unfoldable pub canceled_alone : (now : ℕ) → BulkJobItem → BulkJobItem
canceled_alone now i = elim i.state [
  | queued ↦ record i { state = canceled; finished_at = some now }
  | running ↦ record i { state = cancel_requested }
  | other ↦ i
]

-- `{"WAITING_APPROVAL", "QUEUED"}`
unfoldable pub is_unbegun : State → Bool
is_unbegun waiting_approval = true
is_unbegun queued = true
is_unbegun s = false

-- An item and its request, which was not over when it was read. What was read decides, and the
-- columns are written on the row as it is when the update reaches it.
unfoldable pub cancel_request : (now : ℕ) → BulkJobItem → (read op : Operation) → Db → Db
unfolding is_unbegun
cancel_request now i read op db =
    let op' = record op {
      cancellation_requested_at = some now;
      version = read.version + 1;
      updated_at = now;
    } in
    if is_unbegun read.state
    then record db {
      operations = put (record op' { state = canceled; canceled_at = some now }) db.operations;
      items = put (record i { state = canceled; finished_at = some now }) db.items;
      locks = delete_locks op.id db.locks;
    }
    else record db {
      operations = put (record op' { state = cancel_requested }) db.operations;
      items = put (record i { state = cancel_requested }) db.items;
    }

-- The body of the loop. The request is read without a lock on its row: `seen op` is the version of
-- the row `op` that was read, which another transaction can have written since.
unfoldable pub cancel_item : (seen : Operation → Operation) (now : ℕ) → BulkJobItem → Db → Db
unfolding canceled_alone is_terminal cancel_request
cancel_item seen now i db = elim i.operation_request_id [
  | none ↦ record db { items = put (canceled_alone now i) db.items }
  | some o ↦ elim (find o db.operations) [
    | none ↦ db
    | some op ↦ if is_terminal ((seen op).state) then db else cancel_request now i (seen op) op db
  ]
]

unfoldable pub cancel_items : (seen : Operation → Operation) (now : ℕ) → List BulkJobItem → Db → Db
unfolding cancel_item
cancel_items seen now [] db = db
cancel_items seen now (i ∷ is) db = cancel_items seen now is (cancel_item seen now i db)

-- The first transaction; the service then answers with `bulk_job`, in another.
unfoldable pub write_cancel :
    (seen : Operation → Operation) (now : ℕ) → (actor : String) → BulkJob → Db → Db
unfolding items_of
write_cancel seen now actor job db =
    let db' = cancel_items seen now (items_of job db.items) db in
    record db' {
      jobs =
          put (record job { cancellation_requested_at = some now; state = cancel_requested })
            db'.jobs;
      audit = audited actor bulk_job_cancel_requested job.id db'.audit;
    }

unfoldable pub cancel_bulk_job :
    (seen : Operation → Operation) (now job_id : ℕ)
    → (actor : String) → Db
    → Outcome ServiceError (BulkJob × Db)
cancel_bulk_job seen now job_id actor db = do
  job ← or_raise (find job_id db.jobs) job_not_found
  bulk_job now job_id (write_cancel seen now actor job db)
