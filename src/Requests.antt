-- ===== src/Requests.antt =====
-- The requests of `OpsService` in backend/app/services.py that create, decide, retry and cancel an
-- operation. Each is one transaction, from its row lock to its commit: it returns the database that
-- it commits, or raises and commits nothing. What the source reads without a lock can have changed
-- by the time it writes: `raced` says that the row which would have stopped it was committed by
-- another transaction after the read, so that only the uniqueness constraint finds it.
pub mod Acquire
pub mod Create
pub mod Decide
pub mod Cancel
use iceberg_rest_catalog.Common.{
  ℕ, ◌+◌, String, Bool, true, false, not, ◌||◌, Option, none, some, List, [], ◌∷◌, ◌++◌, Outcome,
  ok, err, ◌>>=◌, ◌>>◌, raise_if, or_raise, if◌then◌else◌, ◌==◌, ◌=ₛ◌, is_none,
}
use iceberg_rest_catalog.Common.Rows.{find, put, add}
use iceberg_rest_catalog.Json.{Fields}
use iceberg_rest_catalog.Params.{
  Command, Engine, BadParameter, validate_parameters, engine_capable, command_risk,
}
use iceberg_rest_catalog.Plan.{NotInteger, plan_table}
use iceberg_rest_catalog.Store.{
  State, waiting_approval, queued, cancel_requested, succeeded, failed, rejected, canceled,
  Decision, approved, declined, ManagedTable, PlanItem, Operation, TableLock, Approval, AuditEvent,
  Action, operation_requested, operation_approved, operation_rejected, operation_retried,
  operation_cancel_requested,
}
use iceberg_rest_catalog.Store.Jobs.{BulkJobItem, Db, table_row, operation_row, lock_row, item_row}
use iceberg_rest_catalog.Store.Locks.{insert_lock, delete_locks}

-- `NotFoundError` and `InvalidOperationError`, one for each message, and what leaves the service as
-- it was raised below it.
pub data ServiceError : Type 0 where
  table_not_found operation_not_found job_not_found : ServiceError
  bad_parameter : BadParameter → ServiceError
  not_supported key_reused not_executable not_waiting self_approval bad_decision : ServiceError
  lock_owned lock_race not_failed version_changed already_terminal nothing_retried : ServiceError
  integrity_error value_error bad_cursor bad_health : ServiceError

abbrev pub Reply : Type 0
Reply = Outcome ServiceError (Operation × Db)

-- `validate_parameters` and `plan_table` where a service calls them.
abbrev pub validated : Command → Fields → Outcome ServiceError (Unit {0})
validated command ps = elim (validate_parameters command ps) [
  | ok u ↦ ok u
  | err e ↦ err (bad_parameter e)
]

abbrev pub planned : ManagedTable → Command → Fields → Outcome ServiceError PlanItem
planned table command ps = elim (plan_table table command ps) [
  | ok p ↦ ok p
  | err e ↦ err value_error
]

abbrev pub text_is : String → Option String → Bool
text_is s none = false
text_is s (some t) = t =ₛ s

unfoldable pub audited : String → Action → ℕ → List AuditEvent → List AuditEvent
audited actor action id log =
    log ++ record { actor = actor; action = action; resource_id = id } ∷ []

-- The read of the table's lock, and the insert when there is none. `IntegrityError` comes from the
-- flush, and becomes `race` where the caller handles it.
unfoldable pub acquire :
    ServiceError
    → (raced : Bool) (now : ℕ) → Operation
    → List TableLock
    → Outcome ServiceError (List TableLock)
unfolding insert_lock
acquire race raced now op locks = elim (if raced then none else find op.table_id locks) [
  | some l ↦ if l.operation_request_id == op.id then ok locks else err lock_owned
  | none ↦
      or_raise
        (insert_lock
          (record { table_id = op.table_id; operation_request_id = op.id; acquired_at = now })
          locks)
        race
]

-- `select(BulkJobItem).where(operation_request_id == operation.id)`
unfoldable pub item_of : ℕ → List BulkJobItem → Option BulkJobItem
item_of op [] = none
item_of op (i ∷ is) =
    if elim i.operation_request_id [ none ↦ false | some o ↦ o == op ]
    then some i
    else item_of op is

-- What a service writes to the item of a request that belongs to a bulk job.
unfoldable pub update_item :
    (BulkJobItem → BulkJobItem) → Operation → List BulkJobItem → List BulkJobItem
unfolding item_of
update_item change op is = elim op.bulk_job_id [
  | none ↦ is
  | some job ↦ elim (item_of op.id is) [ none ↦ is | some i ↦ put (change i) is ]
]
