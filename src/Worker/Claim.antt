-- ===== src/Worker/Claim.antt =====
-- `claim_operation` of backend/app/worker.py: the oldest queued request that this worker may run.
pub mod Inversion
pub mod Chosen
use iceberg_rest_catalog.Common.{
  ℕ, ◌+◌, String, Bool, true, false, not, ◌&&◌, Option, none, some, List, [], ◌∷◌, Outcome, ok, err,
  ◌>>=◌, or_raise, if◌then◌else◌, ◌==◌, leb, ◌=ₛ◌, keep,
}
use Prim.Native.Nat.{max}
use iceberg_rest_catalog.Common.Rows.{find, put, add}
use iceberg_rest_catalog.Json.{end}
use iceberg_rest_catalog.Params.{Engine, auto, spark, trino, flink}
use iceberg_rest_catalog.Store.{
  State, queued, running, ManagedTable, Operation, TableLock, Execution, info, claimed,
  operation_started,
}
use iceberg_rest_catalog.Store.Jobs.{
  EngineInstance, Db, table_row, operation_row, lock_row, execution_row,
}
use iceberg_rest_catalog.Store.Locks.{insert_lock}
use iceberg_rest_catalog.Requests.{audited}
use iceberg_rest_catalog.Worker.{Settings, Payload, operation_payload, noted}

unfoldable pub is_queued : State → Bool
is_queued queued = true
is_queued s = false

-- `preferred_engine.in_(["AUTO", "SPARK"])`
unfoldable pub runs_on_spark : Engine → Bool
runs_on_spark auto = true
runs_on_spark spark = true
runs_on_spark e = false

-- The condition on the joined catalog.
unfoldable pub in_scope : Bool → String → Bool
in_scope playground catalog_type =
    if playground then catalog_type =ₛ "HADOOP" else not (catalog_type =ₛ "HADOOP")

-- What the other transactions do while a claim runs: the rows that they have locked, which
-- `skip_locked` passes over; the locks of tables that they commit between the choice of a request and
-- the reading of its lock; and whether they take the lock after that reading and before its insert.
pub record Others : Type 0 where
  pub row_locked : ℕ → Bool
  pub committed : List TableLock → List TableLock
  pub raced : Bool

-- The outer join with the lock: none, or the request's own.
unfoldable pub lock_free_or_own : Operation → List TableLock → Bool
lock_free_or_own op locks = elim (find op.table_id locks) [
  | none ↦ true
  | some l ↦ l.operation_request_id == op.id
]

-- The `where` clause. A request whose table is gone falls out of the join.
unfoldable pub claimable : Settings → Db → Operation → Bool
unfolding is_queued runs_on_spark in_scope lock_free_or_own
claimable s db op =
    is_queued op.state
    && (runs_on_spark op.preferred_engine
        && (lock_free_or_own op db.locks && elim (find op.table_id db.tables) [
          | none ↦ false
          | some t ↦ in_scope s.playground_scope t.catalog.catalog_type
        ]))

-- `with_for_update(skip_locked=True, of=OperationRequest)`
unfoldable pub selectable : Settings → Others → Db → Operation → Bool
unfolding claimable
selectable s others db op = not (others.row_locked op.id) && claimable s db op

-- `order_by(created_at).limit(1)`: the first of the oldest.
unfoldable pub oldest : List Operation → Option Operation
oldest [] = none
oldest (o ∷ os) = elim (oldest os) [
  | none ↦ some o
  | some p ↦ some (if leb o.created_at p.created_at then o else p)
]

-- `coalesce(max(attempt), 0)`
unfoldable pub last_attempt : ℕ → List Execution → ℕ
last_attempt op [] = 0
last_attempt op (e ∷ es) =
    let rest = last_attempt op es in
    if e.operation_request_id == op then max e.attempt rest else rest

unfoldable pub engine_named : String → List EngineInstance → Option ℕ
engine_named name [] = none
engine_named name (e ∷ es) = if e.name =ₛ name then some e.id else engine_named name es

-- The second reading: a lock that is there serves, whosever it is. Without one it is taken; the insert
-- can find it taken by then.
unfoldable pub lock_claimed :
    (raced : Bool) (now : ℕ) → Operation → List TableLock → Option (List TableLock)
lock_claimed raced now op locks = elim (if raced then none else find op.table_id locks) [
  | some l ↦ some locks
  | none ↦
      insert_lock
        (record { table_id = op.table_id; operation_request_id = op.id; acquired_at = now }) locks
]

unfoldable pub new_execution : Settings → (fresh now : ℕ) → Operation → Db → Execution
unfolding last_attempt engine_named
new_execution s fresh now op db = record {
  id = fresh;
  operation_request_id = op.id;
  attempt = last_attempt op.id db.executions + 1;
  engine_type = spark;
  engine_instance_id = engine_named s.spark_engine_name db.engines;
  state = running;
  worker_id = some s.worker_id;
  external_id = none;
  planned_snapshot_id = op.planned_snapshot_id;
  before_snapshot_id = none;
  after_snapshot_id = none;
  result = end;
  error_message = none;
  queued_at = op.updated_at;
  started_at = some now;
  finished_at = none;
}

-- The request, its execution and the executor's payload.
abbrev pub Claim : Type 0
Claim = ℕ × ℕ × Payload

-- The writes of a claim, once a request is chosen and its table is locked.
unfoldable pub start :
    Settings → (fresh now : ℕ) → Operation → ManagedTable → List TableLock → Db → Claim × Db
unfolding new_execution
start s fresh now op table locks db =
    let op' = record op { state = running; updated_at = now } in
    (
      (op.id, fresh, operation_payload op' table),
      record db {
        operations = put op' db.operations;
        locks = locks;
        executions = add (new_execution s fresh now op db) db.executions;
        events = noted fresh info claimed db.events;
        audit = audited s.worker_id operation_started op.id db.audit;
      },
    )

-- The `IntegrityError` of the lock's insert, which `run` logs before it polls again.
pub data ClaimError : Type 0 where
  lock_taken : ClaimError

-- A request was chosen: its lock is taken, and the claim written.
unfoldable pub claim_chosen :
    Settings → Others → (fresh now : ℕ) → Operation → Db → Outcome ClaimError (Option Claim × Db)
claim_chosen s others fresh now op db = elim (find op.table_id db.tables) [
  | none ↦ ok (none, db)
  | some table ↦ elim (lock_claimed others.raced now op (others.committed db.locks)) [
    | none ↦ err lock_taken
    | some locks ↦ let (claim, db') = start s fresh now op table locks db in ok (some claim, db')
  ]
]

unfoldable pub claim_operation :
    Settings → Others → (fresh now : ℕ) → Db → Outcome ClaimError (Option Claim × Db)
claim_operation s others fresh now db =
    elim (oldest (keep (selectable s others db) db.operations)) [
      | none ↦ ok (none, db)
      | some op ↦ claim_chosen s others fresh now op db
    ]
