-- ===== src/Requests/Decide.antt =====
-- `decide_operation` and `retry_operation` of backend/app/services.py.
pub mod Inversion
pub mod Effects
use iceberg_rest_catalog.Common.{
  ℕ, ◌+◌, String, Bool, true, false, not, Option, none, some, List, [], ◌∷◌, ◌++◌, Outcome, ok,
  ◌>>=◌, ◌>>◌, raise_if, or_raise, if◌then◌else◌, ◌=ₛ◌, is_none,
}
use iceberg_rest_catalog.Common.Rows.{find, put}
use iceberg_rest_catalog.Store.{
  State, waiting_approval, queued, failed, rejected, Decision, approved, declined, ManagedTable,
  Operation, TableLock, Action, operation_approved, operation_rejected, operation_retried,
}
use iceberg_rest_catalog.Store.Jobs.{Db, table_row, operation_row, lock_row, item_row}
use iceberg_rest_catalog.Requests.{
  ServiceError, table_not_found, operation_not_found, not_waiting, self_approval, bad_decision,
  lock_race, not_failed, integrity_error, Reply, audited, acquire, update_item,
}

-- `decision.upper()` is one of the two words.
unfoldable pub decision_word : String → Option Decision
decision_word s =
    if s =ₛ "APPROVED" then some approved else if s =ₛ "REJECTED" then some declined else none

abbrev pub decided : Decision → State
decided approved = queued
decided declined = rejected

abbrev pub decided_action : Decision → Action
decided_action approved = operation_approved
decided_action declined = operation_rejected

-- The lock is flushed by the query for the bulk item, before the guarded commit, if there is one.
abbrev pub race_error : Operation → ServiceError
race_error op = if is_none op.bulk_job_id then lock_race else integrity_error

unfoldable pub lock_for :
    Decision
    → (raced : Bool) (now : ℕ) → Operation
    → List TableLock
    → Outcome ServiceError (List TableLock)
lock_for approved raced now op locks = acquire (race_error op) raced now op locks
lock_for declined raced now op locks = ok locks

unfoldable pub is_waiting : State → Bool
is_waiting waiting_approval = true
is_waiting s = false

-- The decided request.
unfoldable pub decided_row : (now : ℕ) → Decision → Operation → Operation
decided_row now d op = record op { state = decided d; updated_at = now; version = op.version + 1 }

-- The writes of a decision, once the lock is taken.
unfoldable pub write_decision :
    (now request_id : ℕ)
    → (approver : String) → Decision
    → (comment : Option String) → Operation
    → List TableLock
    → Db
    → Operation × Db
unfolding decided_row
write_decision now request_id approver normalized comment op locks db = (
  decided_row now normalized op,
  record db {
    operations = put (decided_row now normalized op) db.operations;
    locks = locks;
    approvals =
        db.approvals
        ++ record {
          operation_request_id = request_id;
          approver = approver;
          decision = normalized;
          comment = comment;
          created_at = now;
        }
          ∷ [];
    items = update_item (λ i. record i { state = decided normalized }) op db.items;
    audit = audited approver (decided_action normalized) request_id db.audit;
  },
)

-- `str.upper` and `str.casefold` work by the tables of Unicode, and are parameters.
unfoldable pub decide_operation :
    (upper casefold : String → String)
    → (raced : Bool) (now request_id : ℕ) → (approver decision : String) → Option String
    → Db
    → Reply
unfolding decision_word lock_for is_waiting
decide_operation upper casefold raced now request_id approver decision comment db = do
  op ← or_raise (find request_id db.operations) operation_not_found
  raise_if (not (is_waiting op.state)) not_waiting
  raise_if (casefold op.requester =ₛ casefold approver) self_approval
  normalized ← or_raise (decision_word (upper decision)) bad_decision
  locks ← lock_for normalized raced now op db.locks
  ok (write_decision now request_id approver normalized comment op locks db)

unfoldable pub is_failed : State → Bool
is_failed failed = true
is_failed s = false

-- The retried request, planned for the snapshot that the table has now.
unfoldable pub retried_row : (now : ℕ) → ManagedTable → Operation → Operation
retried_row now table op = record op {
  state = queued;
  planned_snapshot_id = table.current_snapshot_id;
  updated_at = now;
  version = op.version + 1;
  cancellation_requested_at = none;
  canceled_at = none;
}

unfoldable pub write_retry :
    (now request_id : ℕ)
    → (actor : String) → Operation
    → ManagedTable
    → List TableLock
    → Db
    → Operation × Db
unfolding retried_row
write_retry now request_id actor op table locks db = (
  retried_row now table op,
  record db {
    operations = put (retried_row now table op) db.operations;
    locks = locks;
    audit = audited actor operation_retried request_id db.audit;
  },
)

-- No handler guards the commit of a retry, so a race ends in `IntegrityError`.
unfoldable pub retry_operation : (raced : Bool) (now request_id : ℕ) → (actor : String) → Db → Reply
unfolding is_failed
retry_operation raced now request_id actor db = do
  op ← or_raise (find request_id db.operations) operation_not_found
  raise_if (not (is_failed op.state)) not_failed
  table ← or_raise (find op.table_id db.tables) table_not_found
  locks ← acquire integrity_error raced now op db.locks
  ok (write_retry now request_id actor op table locks db)
