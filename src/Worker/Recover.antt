-- ===== src/Worker/Recover.antt =====
-- `recover_stale_executions` of backend/app/worker.py: what a worker does at its start with the
-- executions that another process left behind.
pub mod Ends
pub mod Steps
pub mod Kept
pub mod Handled
use iceberg_rest_catalog.Common.{
  ℕ, ◌+◌, String, Bool, true, false, not, ◌&&◌, ◌||◌, Option, none, some, List, [], ◌∷◌, ◌++◌, keep,
  if◌then◌else◌, ◌=ₛ◌,
}
use iceberg_rest_catalog.Common.Rows.{find, put}
use iceberg_rest_catalog.Store.{
  State, running, verifying, failed, Operation, Execution, info, error_level, recovery_attached,
  stale_execution,
}
use iceberg_rest_catalog.Store.Jobs.{Db, operation_row, execution_row}
use iceberg_rest_catalog.Store.Locks.{delete_locks}
use iceberg_rest_catalog.Worker.{Settings, finish_bulk_item, noted}
use iceberg_rest_catalog.Worker.Marks.{ended, closed}

-- `state.in_(["RUNNING", "VERIFYING"])`
unfoldable pub in_progress : State → Bool
in_progress running = true
in_progress verifying = true
in_progress s = false

-- Of another process, or of none.
unfoldable pub is_foreign : Settings → Option String → Bool
is_foreign s none = true
is_foreign s (some w) = not (w =ₛ s.worker_id)

unfoldable pub is_stale : Settings → Execution → Bool
unfolding in_progress is_foreign
is_stale s e = in_progress e.state && is_foreign s e.worker_id

-- `execution.external_id` is true: there is one, and it is not empty.
unfoldable pub has_external : Option String → Bool
has_external none = false
has_external (some x) = not (x =ₛ "")

-- The execution goes on in Livy, and this worker takes it over.
unfoldable pub attach : Settings → Execution → Db → Db
attach s e db = record db {
  executions = put (record e { worker_id = some s.worker_id }) db.executions;
  events = noted e.id info recovery_attached db.events;
}

abbrev pub stale_message : String
stale_message =
    "Worker heartbeat expired while execution was in progress. Inspect Spark and table state before retrying."

abbrev pub stale_item_message : String
stale_item_message = "Worker heartbeat expired while execution was in progress."

-- The execution is lost, and its request with it.
unfoldable pub give_up : (now : ℕ) → Execution → Option Operation → Db → Db
unfolding ended closed
give_up now e found db =
    let db' : Db = record db {
      executions = put (closed now failed (some stale_message) e) db.executions;
      events = noted e.id error_level stale_execution db.events;
    } in
    elim found [
      | none ↦ db'
      | some op ↦ record db' {
        operations = put (ended now failed op) db.operations;
        locks = delete_locks op.id db.locks;
        items = finish_bulk_item now op failed (some stale_item_message) db.items;
      }
    ]

-- What is resumed after the commit: a request, its execution and the identifier in Livy.
abbrev pub Resumable : Type 0
Resumable = ℕ × ℕ × String

-- The body of the loop.
unfoldable pub recover_one :
    Settings → (now : ℕ) → Execution → List Resumable × Db → List Resumable × Db
unfolding attach give_up has_external
recover_one s now e (resumable, db) = elim (find e.operation_request_id db.operations) [
  | none ↦ (resumable, give_up now e none db)
  | some op ↦ elim (if has_external e.external_id && s.livy_mode then e.external_id else none) [
    | none ↦ (resumable, give_up now e (some op) db)
    | some external ↦ (resumable ++ (op.id, e.id, external) ∷ [], attach s e db)
  ]
]

unfoldable pub recover_rows :
    Settings → (now : ℕ) → List Execution → List Resumable × Db → List Resumable × Db
unfolding recover_one
recover_rows s now [] p = p
recover_rows s now (e ∷ es) p = recover_rows s now es (recover_one s now e p)

-- The transaction. The executor is then attached to each of the resumable, by `execute_claim`.
unfoldable pub recover_stale_executions : Settings → (now : ℕ) → Db → List Resumable × Db
unfolding recover_rows is_stale
recover_stale_executions s now db = recover_rows s now (keep (is_stale s) db.executions) ([], db)
