-- ===== src/Sql.antt =====
-- The procedure calls that Spark runs: what the job of Livy (spark-jobs/iceberg_maintenance.py) and the
-- playground's runner (playground/spark/app/main.py) share.
pub mod Job
pub mod Runner
pub mod Agrees
pub mod Total
use Prim.Native.Char.{Char, code}
use iceberg_rest_catalog.Common.{ℕ, String}
use iceberg_rest_catalog.Params.{
  Command, compute_stats, rewrite_manifests, rewrite_data_files, rewrite_position_deletes,
  expire_snapshots, remove_orphan_files, storage_migration, rollback,
}

-- What refuses a call, by its message. The job raises it as a `ValueError`, the runner as an
-- `HTTPException` of status 400.
pub data BadCall : Type 0 where
  unsupported_identifier not_boolean unsupported_command invalid_literal : String → BadCall
  not_between : String → (minimum maximum : ℕ) → BadCall
  bad_columns bad_column_name : BadCall

-- `MaintenanceCommand`, as the payload spells it
unfoldable pub command_text : Command → String
command_text compute_stats = "COMPUTE_STATS"
command_text rewrite_manifests = "REWRITE_MANIFESTS"
command_text rewrite_data_files = "REWRITE_DATA_FILES"
command_text rewrite_position_deletes = "REWRITE_POSITION_DELETES"
command_text expire_snapshots = "EXPIRE_SNAPSHOTS"
command_text remove_orphan_files = "REMOVE_ORPHAN_FILES"
command_text storage_migration = "STORAGE_MIGRATION"
command_text rollback = "ROLLBACK"
