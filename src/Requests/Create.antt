-- ===== src/Requests/Create.antt =====
-- `create_operation` of backend/app/services.py.
pub mod Inversion
pub mod Idempotent
use iceberg_rest_catalog.Common.{
  ℕ, String, Bool, not, Option, none, some, List, [], ◌∷◌, ok, err, ◌>>=◌, ◌>>◌, raise_if, or_raise,
  if◌then◌else◌, is_none,
}
use iceberg_rest_catalog.Common.Rows.{find, add}
use iceberg_rest_catalog.Json.{Fields}
use iceberg_rest_catalog.Params.{Command, Engine, engine_capable, command_risk}
use iceberg_rest_catalog.Store.{
  waiting_approval, ManagedTable, PlanItem, Operation, operation_requested,
}
use iceberg_rest_catalog.Store.Jobs.{Db, table_row, operation_row, lock_row, item_row}
use iceberg_rest_catalog.Requests.{
  table_not_found, not_supported, key_reused, not_executable, integrity_error, Reply, validated,
  planned, text_is, audited,
}

-- `OperationRequestCreate` of backend/app/schemas.py
pub record RequestCreate : Type 0 where
  pub table_id : ℕ
  pub command : Command
  pub preferred_engine : Engine
  pub parameters : Fields
  pub reason : String
  pub requester : String

-- `select(OperationRequest).where(idempotency_key == …)`; with no key there is no such query.
unfoldable pub with_key : Option String → List Operation → Option Operation
with_key none os = none
with_key (some k) [] = none
with_key (some k) (o ∷ os) = if text_is k o.idempotency_key then some o else with_key (some k) os

-- The row that `create_operation` inserts.
unfoldable pub new_operation :
    (fresh now : ℕ) → Option String → String → RequestCreate → ManagedTable → PlanItem → Operation
new_operation fresh now key fingerprint request table plan = record {
  id = fresh;
  table_id = request.table_id;
  command = request.command;
  preferred_engine = request.preferred_engine;
  parameters = request.parameters;
  reason = request.reason;
  requester = request.requester;
  risk = command_risk request.command;
  state = waiting_approval;
  planned_snapshot_id = table.current_snapshot_id;
  idempotency_key = key;
  request_fingerprint = some fingerprint;
  version = 1;
  cancellation_requested_at = none;
  canceled_at = none;
  plan = plan;
  bulk_job_id = none;
  created_at = now;
  updated_at = now;
}

-- The writes of a creation.
unfoldable pub write_creation :
    (fresh now : ℕ)
    → Option String
    → String
    → RequestCreate
    → ManagedTable
    → PlanItem
    → Db
    → Operation × Db
write_creation fresh now key fingerprint request table plan db = (
  new_operation fresh now key fingerprint request table plan,
  record db {
    operations = add (new_operation fresh now key fingerprint request table plan) db.operations;
    audit = audited request.requester operation_requested fresh db.audit;
  },
)

-- The rest of `create_operation` when no request with the key was found. The insert goes to the
-- database in `flush`, which no handler guards: a key that is taken by then raises `IntegrityError`.
unfoldable pub insert_operation :
    (fresh now : ℕ) → Option String → String → RequestCreate → Db → Reply
insert_operation fresh now key fingerprint request db = do
  table ← or_raise (find request.table_id db.tables) table_not_found
  raise_if (not (engine_capable request.preferred_engine request.command)) not_supported
  plan ← planned table request.command request.parameters
  raise_if (not plan.executable) not_executable
  raise_if (not (is_none (with_key key db.operations))) integrity_error
  ok (write_creation fresh now key fingerprint request table plan db)

-- A request with the key was found: it is the answer, if it was made by the same request.
unfoldable pub answer_existing : String → Operation → Db → Reply
answer_existing fingerprint existing db =
    if text_is fingerprint existing.request_fingerprint then ok (existing, db) else err key_reused

-- `request_fingerprint` is a digest of the request's JSON text, and a parameter here. The empty key
-- does not reach the service: the header has at least one character.
unfoldable pub create_operation :
    (RequestCreate → String)
    → (raced : Bool) (fresh now : ℕ) → RequestCreate
    → Option String
    → Db
    → Reply
create_operation fingerprint_of raced fresh now request key db = do
  validated request.command request.parameters
  elim (if raced then none else with_key key db.operations) [
    | none ↦ insert_operation fresh now key (fingerprint_of request) request db
    | some existing ↦ answer_existing (fingerprint_of request) existing db
  ]
