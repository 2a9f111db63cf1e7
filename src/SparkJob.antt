-- ===== src/SparkJob.antt =====
-- `main` of spark-jobs/iceberg_maintenance.py: the run of one operation by the job that Livy submits.
pub mod Guarded
use Prim.Native.String.{◌++◌ as ◌+++◌}
use iceberg_rest_catalog.Common.{
  ℕ, String, Bool, true, false, Option, none, some, Outcome, ok, err, if◌then◌else◌,
}
use iceberg_rest_catalog.Common.Int.{ℤ, pos}
use iceberg_rest_catalog.Common.Effects.{Run, ◌>>=◌, and_then, lift, return}
use iceberg_rest_catalog.Json.{Value, Fields, Items, text, int, obj, arr, field, end}
use iceberg_rest_catalog.Sql.{BadCall}
use iceberg_rest_catalog.Sql.Job.{identifier, namespace_identifier, procedure_sql}
use iceberg_rest_catalog.Executors.Logs.{emit_result}
use iceberg_rest_catalog.Runner.Execute.{before_paren, snapshot_differs}

-- The arguments, as `parse_args` reads them.
pub record JobArguments : Type 0 where
  pub operation_id : String
  pub catalog : String
  pub namespace_name : String
  pub table : String
  pub command : String
  pub parameters_json : String
  pub expected_snapshot_id : Option ℤ

-- What ends the job before it has printed a result.
pub data JobError : Type 0 where
  bad_call : BadCall → JobError
  bad_json not_an_object wrong_snapshot : JobError
  spark_failed : String → JobError

-- What the job asks of Spark.
pub record JobSpark (W : Type 0) : Type 0 where
  pub table_state : (full_table : String) → W → Outcome JobError Fields × W
  pub run_sql : (sql : String) → (limit : ℕ) → W → Outcome JobError Items × W

abbrev pub refused_by_job : {A : Type 0} → Outcome BadCall A → Outcome JobError A
refused_by_job (ok a) = ok a
refused_by_job (err e) = err (bad_call e)

-- `json.loads`, which gives nothing where it raises, and the check for an object.
abbrev pub object_in : Option Value → Outcome JobError Fields
object_in none = err bad_json
object_in (some (obj parameters)) = ok parameters
object_in (some _) = err not_an_object

module _ (timestamp_before : ℕ → String) (loads : String → Option Value) (encode : Fields → String)
    {W : Type 0} (spark : JobSpark W) (duration_ms : ℕ) where
  unfoldable pub job_result :
      JobArguments
      → (sql full_table : String) → (before : Fields) → (output : Items) → (after : Fields) → Fields
  job_result args sql full_table before output after =
      field "operation_id" (text (args.operation_id)) (
        field "command" (text (args.command)) (
          field "table" (text full_table) (
            field "procedure" (text (before_paren sql)) (
              field "before" (obj before) (
                field "after" (obj after) (
                  field "output" (arr output)
                    (field "duration_ms" (int (pos duration_ms)) end)))))))

  unfoldable pub check_snapshot : JobArguments → Fields → Outcome JobError (Unit {0})
  check_snapshot args before =
      if snapshot_differs (args.expected_snapshot_id) before then err wrong_snapshot else ok tt

  -- What follows the reading of the state before the call: the line that is printed.
  unfoldable pub call_and_print :
      JobArguments
      → (catalog table full_table : String) → (parameters before : Fields) → Run JobError W String
  call_and_print args catalog table full_table parameters before =
      lift (check_snapshot args before) >>= λ unchanged.
      lift (
        refused_by_job (
          procedure_sql timestamp_before catalog (args.namespace_name) table (args.command)
            parameters))
      >>= λ sql. spark.run_sql sql 100 >>= λ output. spark.table_state full_table >>= λ after.
          return (emit_result encode (job_result args sql full_table before output after))

  unfoldable pub main : JobArguments → Run JobError W String
  main args = lift (refused_by_job (identifier (args.catalog))) >>= λ catalog.
      lift (refused_by_job (namespace_identifier (args.namespace_name))) >>= λ namespace_name.
      lift (refused_by_job (identifier (args.table))) >>= λ table.
      lift (object_in (loads (args.parameters_json))) >>= λ parameters.
      spark.table_state (catalog +++ "." +++ namespace_name +++ "." +++ table) >>= λ before.
      call_and_print args catalog table (catalog +++ "." +++ namespace_name +++ "." +++ table)
        parameters before
