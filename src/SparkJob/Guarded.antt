-- ===== src/SparkJob/Guarded.antt =====
-- What the job has done when it prints a result.
use iceberg_rest_catalog.Common.{ℕ, ◌≡◌, String, false, Option, Outcome, ok, err, arith}
use iceberg_rest_catalog.Common.Effects.{and_then-eq-ok}
use iceberg_rest_catalog.Json.{Value, Fields, Items}
use iceberg_rest_catalog.Sql.{BadCall}
use iceberg_rest_catalog.Sql.Job.{procedure_sql}
use iceberg_rest_catalog.Executors.Logs.{emit_result}
use iceberg_rest_catalog.Runner.Execute.{snapshot_differs}
use iceberg_rest_catalog.SparkJob.{
  JobArguments, JobSpark, refused_by_job, job_result, check_snapshot, call_and_print,
}

refused_by_job-ok :
    {A : Type 0} (m : Outcome BadCall A) {a : A} → refused_by_job m ≡ ok a → m ≡ ok a
refused_by_job-ok (ok a) h = ground (arith, h)
refused_by_job-ok (err e) h = cc

module _ (timestamp_before : ℕ → String) (loads : String → Option Value) (encode : Fields → String)
    {W : Type 0} (spark : JobSpark W) (duration_ms : ℕ) where
  check_snapshot-ok :
      (args : JobArguments) (before : Fields)
      → check_snapshot timestamp_before loads encode spark duration_ms args before ≡ ok tt
      → snapshot_differs (args.expected_snapshot_id) before ≡ false
  unfolding check_snapshot
  check_snapshot-ok args before h = ground arith

  pub record IsPrinted (args : JobArguments) (catalog table full_table : String)
      (parameters before : Fields) (line : String) : Type 0 where
    pub unchanged : snapshot_differs (args.expected_snapshot_id) before ≡ false
    pub sql : String
    pub called :
        procedure_sql timestamp_before catalog (args.namespace_name) table (args.command) parameters
        ≡ ok sql
    pub world : W
    pub output : Items
    pub ran : (spark.run_sql sql 100 world).0 ≡ ok output
    pub after : Fields
    pub read : (spark.table_state full_table (spark.run_sql sql 100 world).1).0 ≡ ok after
    pub printed :
        emit_result encode (
          job_result timestamp_before loads encode spark duration_ms args sql full_table before
            output after)
        ≡ line

  -- The job prints a line only after it has read the state with the snapshot that it was told to expect, if
  -- it was, has run the procedure call of its arguments, and has read the state again; the line is the result
  -- with both states and what the call returned.
  pub call_and_print-IsPrinted :
      (args : JobArguments) (catalog table full_table : String) (parameters before : Fields) (w : W)
      (line : String)
      → (call_and_print timestamp_before loads encode spark duration_ms args catalog table
          full_table parameters before w).0
        ≡ ok line
      → IsPrinted args catalog table full_table parameters before line
  unfolding call_and_print
  call_and_print-IsPrinted args catalog table full_table parameters before w line h =
      let (u, unchanged, h1) =
        and_then-eq-ok
          (check_snapshot timestamp_before loads encode spark duration_ms args before, w) _ h in
      let (sql, called, h2) =
        and_then-eq-ok
          (
            refused_by_job (
                procedure_sql timestamp_before catalog (args.namespace_name) table (args.command)
                  parameters),
            w,
          )
          _ h1 in
      let (output, ran, h3) = and_then-eq-ok (spark.run_sql sql 100 w) _ h2 in
      let (after, read, h4) =
        and_then-eq-ok (spark.table_state full_table (spark.run_sql sql 100 w).1) _ h3 in
      record {
        unchanged = check_snapshot-ok args before unchanged;
        sql = sql;
        called = refused_by_job-ok _ called;
        world = w;
        output = output;
        ran = ran;
        after = after;
        read = read;
        printed = ground (arith, h4);
      }
