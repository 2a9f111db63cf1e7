-- ===== src/Requests/Cancel.antt =====
-- `cancel_operation` of backend/app/services.py.
pub mod Effects
use iceberg_rest_catalog.Common.{
  ℕ, ◌+◌, String, Bool, false, not, Option, none, some, ok, err, ◌>>=◌, ◌>>◌, raise_if, or_raise,
  ◌==◌,
}
use iceberg_rest_catalog.Common.Rows.{find, put}
use iceberg_rest_catalog.Store.{
  State, waiting_approval, queued, cancel_requested, succeeded, failed, rejected, canceled,
  Operation, operation_cancel_requested,
}
use iceberg_rest_catalog.Store.Jobs.{Db, table_row, operation_row, lock_row, item_row}
use iceberg_rest_catalog.Store.Locks.{delete_locks}
use iceberg_rest_catalog.Requests.{
  operation_not_found, version_changed, already_terminal, Reply, audited, update_item,
}

-- What a cancellation does to a request in a state.
pub data CancelEffect : Type 0 where
  already : CancelEffect
  refuse : CancelEffect
  at_once : CancelEffect
  ask_worker : CancelEffect

unfoldable pub cancel_effect : State → CancelEffect
cancel_effect canceled = already
cancel_effect succeeded = refuse
cancel_effect failed = refuse
cancel_effect rejected = refuse
cancel_effect waiting_approval = at_once
cancel_effect queued = at_once
cancel_effect s = ask_worker

unfoldable pub at_once_row : (now : ℕ) → Operation → Operation
at_once_row now op = record op {
  state = canceled;
  cancellation_requested_at = some now;
  canceled_at = some now;
  updated_at = now;
  version = op.version + 1;
}

-- A request that no worker has begun ends here, and its lock goes.
unfoldable pub write_at_once : (now : ℕ) → (actor : String) → Operation → Db → Operation × Db
unfolding at_once_row
write_at_once now actor op db = (
  at_once_row now op,
  record db {
    operations = put (at_once_row now op) db.operations;
    locks = delete_locks op.id db.locks;
    items = update_item (λ i. record i { state = canceled; finished_at = some now }) op db.items;
    audit = audited actor operation_cancel_requested op.id db.audit;
  },
)

unfoldable pub running_row : (now : ℕ) → Operation → Operation
running_row now op = record op {
  state = cancel_requested;
  cancellation_requested_at = some now;
  updated_at = now;
  version = op.version + 1;
}

-- A request that a worker has begun is only marked.
unfoldable pub write_running : (now : ℕ) → (actor : String) → Operation → Db → Operation × Db
unfolding running_row
write_running now actor op db = (
  running_row now op,
  record db {
    operations = put (running_row now op) db.operations;
    items = update_item (λ i. record i { state = cancel_requested }) op db.items;
    audit = audited actor operation_cancel_requested op.id db.audit;
  },
)

-- `request.expected_version is not None and operation.version != request.expected_version`
abbrev pub version_differs : ℕ → Option ℕ → Bool
version_differs version none = false
version_differs version (some expected) = not (version == expected)

unfoldable pub cancel_by : CancelEffect → (now : ℕ) → (actor : String) → Operation → Db → Reply
cancel_by already now actor op db = ok (op, db)
cancel_by refuse now actor op db = err already_terminal
cancel_by at_once now actor op db = ok (write_at_once now actor op db)
cancel_by ask_worker now actor op db = ok (write_running now actor op db)

unfoldable pub cancel_operation :
    (now request_id : ℕ) → (actor : String) → (expected_version : Option ℕ) → Db → Reply
cancel_operation now request_id actor expected_version db = do
  op ← or_raise (find request_id db.operations) operation_not_found
  raise_if (version_differs op.version expected_version) version_changed
  cancel_by (cancel_effect op.state) now actor op db
