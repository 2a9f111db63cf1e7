-- ===== src/Worker/Marks.antt =====
-- The transactions of backend/app/worker.py that record how an execution goes on: submitted, being
-- verified, succeeded, failed or canceled.
pub mod Inversion
pub mod Verified
use iceberg_rest_catalog.Common.{
  ℕ, ◌+◌, String, Bool, true, false, Option, none, some, List, [], ◌∷◌, Outcome, ok, err, ◌>>=◌,
  ◌>>◌, or_raise, is_none,
}
use iceberg_rest_catalog.Common.Int.{ℤ, pos, negsuc}
use iceberg_rest_catalog.Common.Rows.{find, put}
use iceberg_rest_catalog.Json.{
  Value, Fields, null, bool, int, real, text, arr, obj, end, get, get_null, is_null, as_fields,
}
use iceberg_rest_catalog.Store.{
  State, verifying, succeeded, failed, canceled, ManagedTable, Operation, Execution, info,
  warning_level, error_level, engine_submitted, spark_completed, verified, failed_event,
  canceled_event, operation_succeeded, operation_failed, operation_canceled,
}
use iceberg_rest_catalog.Store.Jobs.{Db, table_row, operation_row, execution_row}
use iceberg_rest_catalog.Store.Locks.{delete_locks}
use iceberg_rest_catalog.Requests.{audited}
use iceberg_rest_catalog.Verify.{WorkerError, type_error, not_storable, to_int, verify_result}
use iceberg_rest_catalog.Worker.{Settings, finish_bulk_item, noted, truncate}

-- `mark_submitted`
unfoldable pub mark_submitted : (execution : ℕ) → (external_id : String) → Db → Db
mark_submitted execution external_id db = elim (find execution db.executions) [
  | none ↦ db
  | some e ↦ record db {
    executions = put (record e { external_id = some external_id }) db.executions;
    events = noted execution info engine_submitted db.events;
  }
]

-- The end of a request: its state, its version and its lock.
unfoldable pub ended : (now : ℕ) → State → Operation → Operation
ended now s op = record op { state = s; updated_at = now; version = op.version + 1 }

-- An execution that is over.
unfoldable pub closed : (now : ℕ) → State → Option String → Execution → Execution
closed now s error e = record e { state = s; error_message = error; finished_at = some now }

-- `mark_failed`
unfoldable pub mark_failed : Settings → (now operation execution : ℕ) → (error : String) → Db → Db
unfolding ended closed
mark_failed s now operation execution error db =
    let message = truncate 4000 error in
    let db' : Db = elim (find execution db.executions) [
      | none ↦ db
      | some e ↦ record db {
        executions = put (closed now failed (some message) e) db.executions;
        events = noted execution error_level failed_event db.events;
      }
    ] in
    elim (find operation db.operations) [
      | none ↦ db'
      | some op ↦ record db' {
        operations = put (ended now failed op) db.operations;
        locks = delete_locks operation db.locks;
        items = finish_bulk_item now op failed (some message) db.items;
        audit = audited s.worker_id operation_failed operation db.audit;
      }
    ]

-- `mark_canceled`
unfoldable pub mark_canceled :
    Settings → (now operation execution : ℕ) → (message : String) → Db → Db
unfolding ended closed
mark_canceled s now operation execution message db =
    let db' : Db = elim (find execution db.executions) [
      | none ↦ db
      | some e ↦ record db {
        executions = put (closed now canceled (some message) e) db.executions;
        events = noted execution warning_level canceled_event db.events;
      }
    ] in
    elim (find operation db.operations) [
      | none ↦ db'
      | some op ↦ record db' {
        operations = put (record (ended now canceled op) { canceled_at = some now }) db.operations;
        locks = delete_locks operation db.locks;
        items = finish_bulk_item now op canceled (some message) db.items;
        audit = audited s.worker_id operation_canceled operation db.audit;
      }
    ]

-- `dict.get(key, {})`, on which `.get` is called next.
unfoldable pub nested : String → Fields → Outcome WorkerError Fields
nested key fs = elim (get key fs) [ none ↦ ok end | some v ↦ or_raise (as_fields v) type_error ]

-- What a column for a count takes: a missing key leaves it. Anything but a natural number is taken
-- to fail at the commit.
pub count_column : ℕ → Option Value → Outcome WorkerError ℕ
count_column old none = ok old
count_column old (some (int (pos n))) = ok n
count_column old (some v) = err not_storable

as_natural : ℤ → Outcome WorkerError ℕ
as_natural (pos n) = ok n
as_natural (negsuc n) = err not_storable

-- The writes of `mark_verifying`. The request's state is overwritten whatever it was.
unfoldable pub write_verifying :
    (now : ℕ) → Execution → Fields → (before after : Option ℤ) → Db → Db
write_verifying now e result before after db =
    let db' : Db = record db {
      executions =
          put
            (record e {
              state = verifying;
              before_snapshot_id = before;
              after_snapshot_id = after;
              result = result;
            })
            db.executions;
      events = noted e.id info spark_completed db.events;
    } in
    elim (find e.operation_request_id db.operations) [
      | none ↦ db'
      | some op ↦ record db' {
        operations = put (record op { state = verifying; updated_at = now }) db.operations;
      }
    ]

-- The writes of `mark_succeeded`, once the result is verified and the table's columns are known.
unfoldable pub write_success : Settings → (now : ℕ) → Operation → Execution → ManagedTable → Db → Db
unfolding ended
write_success s now op e t db = record db {
  tables = put t db.tables;
  operations = put (ended now succeeded op) db.operations;
  locks = delete_locks op.id db.locks;
  executions = put (record e { state = succeeded; finished_at = some now }) db.executions;
  events = noted e.id info verified db.events;
  items = finish_bulk_item now op succeeded none db.items;
  audit = audited s.worker_id operation_succeeded op.id db.audit;
}

module _ (int_of_text int_of_real : String → Option ℤ) where
  -- `optional_int`
  unfoldable pub optional_int : Value → Outcome WorkerError (Option ℤ)
  unfolding is_null to_int
  optional_int v = elim (is_null v) [
    | true ↦ ok none
    | false ↦ do z ← or_raise (to_int int_of_text int_of_real v) type_error; ok (some z)
  ]

  -- `mark_verifying`
  unfoldable pub mark_verifying : (now execution : ℕ) → Fields → Db → Outcome WorkerError Db
  unfolding nested optional_int
  mark_verifying now execution result db = elim (find execution db.executions) [
    | none ↦ ok db
    | some e ↦ do
      before ← nested "before" result
      after ← nested "after" result
      before_id ← optional_int (get_null "snapshot_id" before)
      after_id ← optional_int (get_null "snapshot_id" after)
      ok (write_verifying now e result before_id after_id db)
  ]

  -- The columns of the table that a successful execution writes. That the snapshot is not null has
  -- been verified by then.
  unfoldable pub observe : (now : ℕ) → Fields → ManagedTable → Outcome WorkerError ManagedTable
  unfolding count_column as_natural optional_int
  observe now after t = do
    current ← or_raise (to_int int_of_text int_of_real (get_null "snapshot_id" after)) type_error
    snapshot ← as_natural current
    snapshots ← count_column t.snapshot_count (get "snapshot_count" after)
    files ← count_column t.total_files (get "total_files" after)
    bytes ← count_column t.total_bytes (get "total_bytes" after)
    records ← count_column t.total_records (get "total_records" after)
    ok (record t {
      current_snapshot_id = some snapshot;
      snapshot_count = snapshots;
      total_files = files;
      total_bytes = bytes;
      total_records = records;
      observed_at = some now;
    })

  -- The table, with what was seen of it.
  unfoldable pub observed :
      (now : ℕ) → Operation → (after : Fields) → Db → Outcome WorkerError ManagedTable
  observed now op after db = do
    t ← or_raise (find op.table_id db.tables) type_error
    observe now after t

  -- `mark_succeeded`
  unfoldable pub mark_succeeded :
      Settings → (now operation execution : ℕ) → Fields → Db → Outcome WorkerError Db
  mark_succeeded s now operation execution result db = elim (find execution db.executions) [
    | none ↦ ok db
    | some e ↦ elim (find operation db.operations) [
      | none ↦ ok db
      | some op ↦ do
        verify_result int_of_text int_of_real op.command result op.parameters
        after ← or_raise (as_fields (get_null "after" result)) type_error
        t ← observed now op after db
        ok (write_success s now op e t db)
    ]
  ]
