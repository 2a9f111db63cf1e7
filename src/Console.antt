-- ===== src/Console.antt =====
-- What the console reads through backend/app/services.py besides the pages: `operation_plan`,
-- `worker_status`, and the counts of `dashboard`.
pub mod Plans
pub mod Heartbeats
use iceberg_rest_catalog.Common.{
  ℕ, ◌+◌, ◌-◌, String, Bool, true, false, ◌&&◌, ◌||◌, not, Option, none, some, List, [], ◌∷◌,
  Outcome, ok, err, ◌>>=◌, ◌>>◌, raise_if, if◌then◌else◌, ltb, ◌=ₛ◌, length, keep, tally, take,
}
use iceberg_rest_catalog.Common.Rows.{find}
use iceberg_rest_catalog.Json.{Fields}
use iceberg_rest_catalog.Params.{Command, Engine, engine_capable, Risk, risk_order}
use iceberg_rest_catalog.Store.{
  State, pending, planning, waiting_approval, queued, running, verifying, Health, healthy, warning,
  critical, unknown, ManagedTable, PlanItem, Operation,
}
use iceberg_rest_catalog.Store.Jobs.{Db, table_row}
use iceberg_rest_catalog.Requests.{
  ServiceError, table_not_found, not_supported, value_error, validated, planned,
}

-- `OperationPlanRequest`
pub record OperationPlanRequest : Type 0 where
  pub table_ids : List ℕ
  pub command : Command
  pub preferred_engine : Engine
  pub parameters : Fields

-- `OperationPlanOut`
pub record OperationPlanOut : Type 0 where
  pub command : Command
  pub tables : List PlanItem
  pub total_files : ℕ
  pub total_bytes : ℕ
  pub estimated_rewrite_bytes : ℕ
  pub highest_risk : Risk

abbrev pub sum_of : (PlanItem → ℕ) → List PlanItem → ℕ
sum_of f [] = 0
sum_of f (item ∷ items) = f item + sum_of f items

-- `max((item.risk for item in items), key=RISK_ORDER.get)`, the first of the greatest
unfoldable pub max_risk : Risk → List PlanItem → Risk
max_risk risk [] = risk
max_risk risk (item ∷ items) =
    max_risk (if ltb (risk_order risk) (risk_order (item.risk)) then item.risk else risk) items

-- `max` raises on nothing; the request has one table at least.
unfoldable pub highest_risk : List PlanItem → Outcome ServiceError Risk
highest_risk [] = err value_error
highest_risk (item ∷ items) = ok (max_risk (item.risk) items)

-- Every table that was asked for, in the order of the request.
unfoldable pub tables_of : List ℕ → List ManagedTable → Outcome ServiceError (List ManagedTable)
tables_of [] tables = ok []
tables_of (id ∷ ids) tables = elim (find id tables) [
  | none ↦ err table_not_found
  | some table ↦ tables_of ids tables >>= λ rest. ok (table ∷ rest)
]

unfoldable pub plan_all :
    Command → Fields → List ManagedTable → Outcome ServiceError (List PlanItem)
plan_all command ps [] = ok []
plan_all command ps (table ∷ tables) =
    planned table command ps >>= λ item. plan_all command ps tables >>= λ items. ok (item ∷ items)

unfoldable pub operation_plan : OperationPlanRequest → Db → Outcome ServiceError OperationPlanOut
operation_plan request db =
    validated (request.command) (request.parameters)
    >> raise_if (not (engine_capable (request.preferred_engine) (request.command))) not_supported
    >> (tables_of (request.table_ids) (db.tables) >>= λ tables.
        plan_all (request.command) (request.parameters) tables >>= λ items.
        highest_risk items >>= λ risk. ok (record {
          command = request.command;
          tables = items;
          total_files = sum_of (λ item. item.total_files) items;
          total_bytes = sum_of (λ item. item.total_bytes) items;
          estimated_rewrite_bytes = sum_of (λ item. item.estimated_rewrite_bytes) items;
          highest_risk = risk;
        }))

-- `WorkerHeartbeat`
pub record WorkerHeartbeat : Type 0 where
  pub id : String
  pub worker_id : String
  pub engine_type : String
  pub status : String
  pub current_operation_request_id : Option ℕ
  pub details : Fields
  pub last_seen_at : ℕ

pub record WorkerStatus : Type 0 where
  pub id : String
  pub worker_id : Option String
  pub status : String
  pub online : Bool
  pub current_operation_request_id : Option ℕ
  pub last_seen_at : Option ℕ

-- Times are in seconds here. Without a heartbeat, or with an old one, the worker is offline.
unfoldable pub worker_status :
    (now : ℕ) → (worker_id : String) → Option WorkerHeartbeat → WorkerStatus
worker_status now worker_id none = record {
  id = worker_id;
  worker_id = none;
  status = "OFFLINE";
  online = false;
  current_operation_request_id = none;
  last_seen_at = none;
}
worker_status now worker_id (some heartbeat) =
    let online = ltb (now - heartbeat.last_seen_at) 15 in
    record {
      id = heartbeat.id;
      worker_id = some (heartbeat.worker_id);
      status = if online then heartbeat.status else "OFFLINE";
      online = online;
      current_operation_request_id = heartbeat.current_operation_request_id;
      last_seen_at = some (heartbeat.last_seen_at);
    }

abbrev pub is_health : Health → Health → Bool
is_health healthy healthy = true
is_health warning warning = true
is_health critical critical = true
is_health unknown unknown = true
is_health _ _ = false

-- The states that `dashboard` counts as pending.
unfoldable pub is_pending : State → Bool
is_pending pending = true
is_pending planning = true
is_pending waiting_approval = true
is_pending queued = true
is_pending running = true
is_pending verifying = true
is_pending _ = false

-- `TableStatusCounts`, without the findings
pub record TableStatusCounts : Type 0 where
  pub total : ℕ
  pub with_health : Health → ℕ
  pub pending_operations : ℕ

unfoldable pub dashboard_counts : Db → TableStatusCounts
dashboard_counts db = record {
  total = length (db.tables);
  with_health = λ health. tally (λ table. is_health health (table.health)) (db.tables);
  pending_operations = tally (λ op. is_pending (op.state)) (db.operations);
}
