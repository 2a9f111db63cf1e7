-- ===== src/Runner.antt =====
-- The playground's runner, playground/spark/app/main.py: the Spark session that its requests share, the
-- catalogs it configures, and the requests that run on it.
pub mod Session
pub mod Catalogs
pub mod Execute
pub mod Inspect
use iceberg_rest_catalog.Common.{
  ℕ, String, Bool, true, false, Option, none, some, List, Outcome, ok, err, if◌then◌else◌,
}
use iceberg_rest_catalog.Common.Effects.{Run}
use iceberg_rest_catalog.Json.{Fields, Items}
use iceberg_rest_catalog.Sql.{BadCall}

-- What a request raises: an `HTTPException` with its status, or what Spark raises.
pub data RunnerError : Type 0 where
  bad_request : BadCall → RunnerError
  bad_warehouse invalid_token : RunnerError
  other_warehouse table_missing : String → RunnerError
  context_stopped snapshot_changed : RunnerError
  spark_raised : String → RunnerError

-- What the runner asks of Spark and of the JVM behind a session, in a world that they change. An exception
-- of `stop` or of the clearing of references is logged and dropped.
pub record SparkApi (S W : Type 0) : Type 0 where
  pub is_running : S → W → Bool
  pub build_session : W → Outcome RunnerError S × W
  pub stop_context : S → W → W
  pub clear_jvm : S → W → W
  pub clear_python : W → W
  pub conf_get : S → (key : String) → W → Option String
  pub conf_set : S → (key value : String) → W → W
  pub table_state : S → (full_table : String) → W → Outcome RunnerError Fields × W
  pub table_details : S → (full_table : String) → W → Outcome RunnerError Fields × W
  pub set_job_group : S → (operation_id description : String) → W → W
  pub clear_job_group : S → W → W
  pub run_sql : S → (sql : String) → (limit : ℕ) → W → Outcome RunnerError Items × W

-- The module's state: `spark_session` and the world.
pub record Runner (S W : Type 0) : Type 0 where
  pub spark_session : Option S
  pub world : W

-- What runs on a session, as a step of the runner.
abbrev pub in_world : {S W A : Type 0} → Run RunnerError W A → Run RunnerError (Runner S W) A
in_world run r = ((run (r.world)).0, record r { world = (run (r.world)).1 })
