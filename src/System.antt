-- ===== src/System.antt =====
-- The services of backend/app/services.py and the worker of backend/app/worker.py on one database:
-- an interleaving is a sequence of their transactions, in any order. One worker runs at a time, as
-- the deployment has it, and holds at most one claim.
pub mod Locked
pub mod Requests
pub mod Worker
pub mod Safety
pub mod Bulk
pub mod Requeued
pub mod Recovery
pub mod Members
pub mod Reached
use iceberg_rest_catalog.Common.{
  ℕ, String, ◌≡◌, ◌≢◌, All, Bool, true, false, Option, none, some, List, [], Outcome, ok, err,
}
use iceberg_rest_catalog.Common.Int.{ℤ}
use iceberg_rest_catalog.Common.Rows.{find}
use iceberg_rest_catalog.Json.{Fields}
use iceberg_rest_catalog.Store.{
  State, waiting_approval, succeeded, failed, rejected, canceled, running, verifying,
  cancel_requested, Operation, Execution, TableLock,
}
use iceberg_rest_catalog.Store.Jobs.{
  BulkJob, BulkJobItem, Db, operation_row, execution_row, job_row,
}
use iceberg_rest_catalog.Requests.Create.{RequestCreate, create_operation}
use iceberg_rest_catalog.Requests.Decide.{decide_operation, retry_operation, is_failed}
use iceberg_rest_catalog.Requests.Cancel.{cancel_operation}
use iceberg_rest_catalog.Bulk.{bulk_job, items_of}
use iceberg_rest_catalog.Bulk.Create.{RequestBulkCreate, create_operations}
use iceberg_rest_catalog.Bulk.Cancel.{cancel_bulk_job}
use iceberg_rest_catalog.Bulk.Retry.{retry_failed_bulk_job}
use iceberg_rest_catalog.Worker.{Settings}
use iceberg_rest_catalog.Worker.Claim.{Claim, Others, claim_operation}
use iceberg_rest_catalog.Worker.Recover.{recover_stale_executions, in_progress}
use iceberg_rest_catalog.Worker.Marks.{
  mark_submitted, mark_verifying, mark_succeeded, mark_failed, mark_canceled,
}
use iceberg_rest_catalog.System.Locked.{is_executing}

-- What the code takes from Python, from the environment and from the caller's side.
pub record Host : Type 0 where
  pub fingerprint : RequestCreate → String
  pub bulk_fingerprint : RequestBulkCreate → String
  pub item_key : String → ℕ → String
  pub upper : String → String
  pub casefold : String → String
  pub int_of_text : String → Option ℤ
  pub int_of_real : String → Option ℤ
  pub settings : Settings

-- The database and the worker's claim: its request and its execution.
pub record System : Type 0 where
  pub db : Db
  pub claim : Option (ℕ × ℕ)

-- One transaction; or the worker attaches to an execution that its recovery took over; or its process
-- stops, and its claim is forgotten.
pub data Step (h : Host) : System → System → Type 0 where
  created :
      {s : System} (raced : Bool) (fresh now : ℕ) (request : RequestCreate) (key : Option String)
      {op : Operation} {db' : Db}
      → find fresh s.db.operations ≡ none
      → create_operation h.fingerprint raced fresh now request key s.db ≡ ok (op, db')
      → Step h s (record s { db = db' })
  decided :
      {s : System} (raced : Bool) (now id : ℕ) (approver decision : String)
      (comment : Option String) {op : Operation} {db' : Db}
      → decide_operation h.upper h.casefold raced now id approver decision comment s.db
        ≡ ok (op, db')
      → Step h s (record s { db = db' })
  retried :
      {s : System} (raced : Bool) (now id : ℕ) (actor : String) {op : Operation} {db' : Db}
      → retry_operation raced now id actor s.db ≡ ok (op, db')
      → Step h s (record s { db = db' })
  cancel_asked :
      {s : System} (now id : ℕ) (actor : String) (expected : Option ℕ) {op : Operation} {db' : Db}
      → cancel_operation now id actor expected s.db ≡ ok (op, db')
      → Step h s (record s { db = db' })
  claimed :
      {s : System} (others : Others) (fresh now : ℕ) {c : Claim} {db' : Db}
      → s.claim ≡ none
      → find fresh s.db.executions ≡ none
      → claim_operation h.settings others fresh now s.db ≡ ok (some c, db')
      → Step h s (record { db = db'; claim = some (c.0, c.1) })
  submitted :
      {s : System} {o e : ℕ} (external_id : String)
      → s.claim ≡ some (o, e)
      → Step h s (record s { db = mark_submitted e external_id s.db })
  ran :
      {s : System} {o e : ℕ} (now : ℕ) (result : Fields) {db' : Db}
      → s.claim ≡ some (o, e)
      → mark_verifying h.int_of_text h.int_of_real now e result s.db ≡ ok db'
      → Step h s (record s { db = db' })
  succeeded_with :
      {s : System} {o e : ℕ} (now : ℕ) (result : Fields) {db' : Db}
      → s.claim ≡ some (o, e)
      → mark_succeeded h.int_of_text h.int_of_real h.settings now o e result s.db ≡ ok db'
      → Step h s (record { db = db'; claim = none })
  failed_with :
      {s : System} {o e : ℕ} (now : ℕ) (message : String)
      → s.claim ≡ some (o, e)
      → Step h s (record { db = mark_failed h.settings now o e message s.db; claim = none })
  canceled_with :
      {s : System} {o e : ℕ} (now : ℕ) (message : String)
      → s.claim ≡ some (o, e)
      → Step h s (record { db = mark_canceled h.settings now o e message s.db; claim = none })
  bulk_canceled :
      {s : System} (seen : Operation → Operation) (now id : ℕ) (actor : String) {job : BulkJob}
      {db' : Db}
      → cancel_bulk_job seen now id actor s.db ≡ ok (job, db')
      → Step h s (record s { db = db' })
  bulk_retried :
      {s : System} (now id : ℕ) (actor : String) {job : BulkJob} {db' : Db}
      → retry_failed_bulk_job now id actor s.db ≡ ok (job, db')
      → Step h s (record s { db = db' })
  bulk_read :
      {s : System} (now id : ℕ) {job : BulkJob} {db' : Db}
      → bulk_job now id s.db ≡ ok (job, db')
      → Step h s (record s { db = db' })
  bulk_created :
      {s : System} (raced : Bool) (op_ids item_ids : ℕ → ℕ) (fresh now : ℕ)
      (request : RequestBulkCreate) (key : Option String) {reply : List Operation × BulkJob}
      {db' : Db}
      → ((m n : ℕ) → op_ids m ≡ op_ids n → m ≡ n)
      → ((m : ℕ) → find (op_ids m) s.db.operations ≡ none)
      → create_operations h.item_key op_ids item_ids h.bulk_fingerprint raced fresh now request key
          s.db
        ≡ ok (reply, db')
      → Step h s (record s { db = db' })
  recovered :
      {s : System} (now : ℕ)
      → s.claim ≡ none
      → Step h s (record s { db = (recover_stale_executions h.settings now s.db).1 })
  resumed :
      {s : System} (e : ℕ) {x : Execution}
      → s.claim ≡ none
      → find e s.db.executions ≡ some x
      → in_progress x.state ≡ true
      → x.worker_id ≡ some h.settings.worker_id
      → Step h s (record s { claim = some (x.operation_request_id, e) })
  stopped : {s : System} → Step h s (record s { claim = none })

-- What was read of a request is in the state of its row.
abbrev pub IsCurrent : (Operation → Operation) → Type 0
IsCurrent seen = (op : Operation) → (seen op).state ≡ op.state

-- An item that a bulk retry leaves alone, or whose request is not the one that the worker has claimed.
unfoldable pub IsApart : Option (ℕ × ℕ) → BulkJobItem → Type 0
unfolding is_failed
IsApart claim i =
    (o e : ℕ) → claim ≡ some (o, e) → is_failed i.state ≡ true → i.operation_request_id ≢ some o

-- What the code relies on and does not lock. Of a bulk cancellation: that no request has changed its
-- state since it was read. Of a bulk retry: that no failed item is of the request that the worker has
-- claimed. Of a claim: that no lock is committed between the choice and the second reading. Of an
-- execution that is resumed: that its request is being executed. Nothing is asked of the other steps.
unfoldable pub IsCalm : {h : Host} {s t : System} → Step h s t → Type 0
unfolding items_of is_executing
IsCalm (bulk_canceled seen now id actor e) = IsCurrent seen
IsCalm {s = s} (bulk_retried now id actor e) =
    (job : BulkJob) → find id s.db.jobs ≡ some job → All (IsApart s.claim) (items_of job s.db.items)
IsCalm (claimed others fresh now idle unused e) =
    (locks : List TableLock) → others.committed locks ≡ locks
IsCalm {s = s} (resumed e {x} idle found going mine) =
    (row : Operation) × (find x.operation_request_id s.db.operations ≡ some row)
    × (is_executing row.state ≡ true)
IsCalm step = Unit

pub data Reach (h : Host) (s : System) : System → Type 0 where
  here : Reach h s s
  next : {t u : System} → Reach h s t → Step h t u → Reach h s u

-- Each step of an interleaving is calm.
unfoldable pub IsCalmRun : {h : Host} {s t : System} → Reach h s t → Type 0
unfolding IsCalm
IsCalmRun here = Unit
IsCalmRun (next r step) = IsCalmRun r × IsCalm step
