-- ===== src/Console/Heartbeats.antt =====
-- `heartbeat` and `refresh_idle_heartbeat` of backend/app/worker.py, and what `worker_status` makes of them.
use iceberg_rest_catalog.Common.{
  ℕ, ◌+◌, ◌<◌, ◌≤◌, ◌≡◌, String, Bool, true, false, Option, none, some, Outcome, ok, err, refl,
  arith,
}
use iceberg_rest_catalog.Json.{Fields, text, field, end, put_field}
use iceberg_rest_catalog.Text.{first_chars}
use iceberg_rest_catalog.Console.{WorkerHeartbeat, worker_status}

-- `{**fields, **others}`
unfoldable pub merged : (fields others : Fields) → Fields
merged fields end = fields
merged fields (field k v others) = merged (put_field k v fields) others

-- `executor_details` is `executor.heartbeat_details()`.
module _ (worker_id : String) (executor_details : Fields) where
  -- The row is made if it is missing, and every column but its key and engine is written.
  unfoldable pub heartbeat :
      (now : ℕ)
      → (status : String) → (current : Option ℕ) → (details : Fields) → Option WorkerHeartbeat
      → WorkerHeartbeat
  heartbeat now status current details none = record {
    id = "spark";
    worker_id = worker_id;
    engine_type = "SPARK";
    status = status;
    current_operation_request_id = current;
    details = merged executor_details details;
    last_seen_at = now;
  }
  heartbeat now status current details (some row) = record row {
    worker_id = worker_id;
    status = status;
    current_operation_request_id = current;
    details = merged executor_details details;
    last_seen_at = now;
  }

  -- The probe gives the details of the engine, or the text of its exception; whether the worker goes on.
  unfoldable pub refresh_idle_heartbeat :
      (now : ℕ) → (probe : Outcome String Fields) → Option WorkerHeartbeat → Bool × WorkerHeartbeat
  refresh_idle_heartbeat now (ok details) row = (true, heartbeat now "IDLE" none details row)
  refresh_idle_heartbeat now (err message) row = (
    false,
    heartbeat now "DEGRADED" none
        (field "engineHealth" (text "UNAVAILABLE")
          (field "error" (text (first_chars 1000 message)) end))
        row,
  )

  status-heartbeat :
      (now : ℕ) (status : String) (current : Option ℕ) (details : Fields)
      (row : Option WorkerHeartbeat)
      → ((heartbeat now status current details row).status ≡ status)
        × ((heartbeat now status current details row).last_seen_at ≡ now)
        × ((heartbeat now status current details row).current_operation_request_id ≡ current)
  unfolding heartbeat
  status-heartbeat now status current details none = (refl, refl, refl)
  status-heartbeat now status current details (some row) = (refl, refl, refl)

  -- For fifteen seconds after a heartbeat the console shows its status and its request, and after that the
  -- worker is offline.
  pub worker_status-heartbeat :
      (now later : ℕ) (key status : String) (current : Option ℕ) (details : Fields)
      (row : Option WorkerHeartbeat)
      → now ≤ later
      → (let shown = worker_status later key (some (heartbeat now status current details row)) in
          (later < now + 15
            → (shown.status ≡ status)
              × (shown.online ≡ true)
              × (shown.current_operation_request_id ≡ current))
          × (now + 15 ≤ later → (shown.status ≡ "OFFLINE") × (shown.online ≡ false)))
  unfolding worker_status
  worker_status-heartbeat now later key status current details row h =
      let (s, t, c) = status-heartbeat now status current details row in
      (
        λ soon. (ground (arith, s, t, soon), ground (arith, t, soon), c),
        λ long. (ground (arith, t, long), ground (arith, t, long)),
      )
