-- ===== src/Bulk/Retry.antt =====
-- `retry_failed_bulk_job` of backend/app/services.py.
pub mod Items
pub mod Requeues
use iceberg_rest_catalog.Common.{
  ℕ, suc, ◌+◌, String, not, none, some, List, [], ◌∷◌, Outcome, ok, ◌>>=◌, ◌>>◌, or_raise, raise_if,
  if◌then◌else◌, ◌==◌,
}
use iceberg_rest_catalog.Common.Rows.{find, put}
use iceberg_rest_catalog.Store.{queued, Operation, TableLock, bulk_job_retried}
use iceberg_rest_catalog.Store.Jobs.{
  BulkJob, BulkJobItem, Db, table_row, operation_row, lock_row, job_row, item_row,
}
use iceberg_rest_catalog.Store.Locks.{insert_lock}
use iceberg_rest_catalog.Requests.{
  ServiceError, job_not_found, nothing_retried, integrity_error, table_not_found, audited,
}
use iceberg_rest_catalog.Requests.Decide.{is_failed}
use iceberg_rest_catalog.Bulk.{items_of, bulk_job}

-- What the loop carries: how many were retried, and the database.
abbrev pub Progress : Type 0
Progress = ℕ × Db

-- The request of a failed item goes back to the queue, whatever its own state is. A table that is
-- gone ends in an exception, which the foreign key rules out.
unfoldable pub requeue :
    (now : ℕ) → BulkJobItem → Operation → List TableLock → Progress → Outcome ServiceError Progress
requeue now i op locks (n, db) = do
  table ← or_raise (find op.table_id db.tables) table_not_found
  ok (
    suc n,
    record db {
      operations =
          put
            (record op {
              state = queued;
              planned_snapshot_id = table.current_snapshot_id;
              version = op.version + 1;
              updated_at = now;
              cancellation_requested_at = none;
            })
            db.operations;
      locks = locks;
      items = put (record i { state = queued; error_message = none; finished_at = none }) db.items;
    },
  )

-- A lock of the table: the request's own serves, another's is noted on the item. Without one, the
-- insert is flushed by the refresh that follows, which no handler guards.
unfoldable pub retry_request :
    (now : ℕ) → BulkJobItem → Operation → Progress → Outcome ServiceError Progress
unfolding requeue
retry_request now i op (n, db) = elim (find op.table_id db.locks) [
  | some l ↦
      if l.operation_request_id == op.id
      then requeue now i op db.locks (n, db)
      else ok (
        n,
        record db {
          items =
              put (record i { error_message = some "Another operation owns the table lock" })
                db.items;
        },
      )
  | none ↦ do
    locks ←
        or_raise
          (insert_lock
            (record { table_id = op.table_id; operation_request_id = op.id; acquired_at = now })
            db.locks)
          integrity_error
    requeue now i op locks (n, db)
]

-- The body of the loop.
unfoldable pub retry_item : (now : ℕ) → BulkJobItem → Progress → Outcome ServiceError Progress
unfolding is_failed retry_request
retry_item now i (n, db) =
    if not (is_failed i.state) then ok (n, db) else (elim i.operation_request_id [
      | none ↦ ok (
        suc n,
        record db {
          items =
              put
                (record i {
                  state = queued;
                  error_message = none;
                  started_at = none;
                  finished_at = none;
                })
                db.items;
        },
      )
      | some o ↦ elim (find o db.operations) [
        | none ↦ ok (n, db)
        | some op ↦ retry_request now i op (n, db)
      ]
    ])

unfoldable pub retry_items : (now : ℕ) → List BulkJobItem → Progress → Outcome ServiceError Progress
unfolding retry_item
retry_items now [] p = ok p
retry_items now (i ∷ is) p = retry_item now i p >>= retry_items now is

-- The first transaction; the service then answers with `bulk_job`, in another.
unfoldable pub write_retries : (now : ℕ) → (actor : String) → BulkJob → Db → Outcome ServiceError Db
unfolding items_of
write_retries now actor job db = do
  p ← retry_items now (items_of job db.items) (0, db)
  raise_if (p.0 == 0) nothing_retried
  ok (record p.1 {
    jobs =
        put (record job { state = queued; finished_at = none; cancellation_requested_at = none })
          p.1.jobs;
    audit = audited actor bulk_job_retried job.id p.1.audit;
  })

unfoldable pub retry_failed_bulk_job :
    (now job_id : ℕ) → (actor : String) → Db → Outcome ServiceError (BulkJob × Db)
unfolding write_retries
retry_failed_bulk_job now job_id actor db = do
  job ← or_raise (find job_id db.jobs) job_not_found
  db' ← write_retries now actor job db
  bulk_job now job_id db'
