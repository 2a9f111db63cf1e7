-- ===== src/Runner/Execute.antt =====
-- `execute_operation` of playground/spark/app/main.py.
pub mod Inversion
pub mod Guarded
use Prim.Native.Char.{Char, code}
use Prim.Native.String.{◌++◌ as ◌+++◌}
use iceberg_rest_catalog.Common.{
  ◌>>=◌ as ◌>>=ₒ◌, ℕ, ◌≡◌, String, Bool, true, false, not, Option, none, some, Outcome, ok, err,
  ◌==◌, ◌=ₛ◌, if◌then◌else◌,
}
use iceberg_rest_catalog.Common.Int.{ℤ, pos, negsuc, eq_ℤ}
use iceberg_rest_catalog.Common.Effects.{Run, ◌>>=◌, and_then, lift, return}
use iceberg_rest_catalog.Json.{Value, Fields, Items, text, int, obj, arr, field, end, get_null}
use iceberg_rest_catalog.Sql.{BadCall}
use iceberg_rest_catalog.Sql.Runner.{
  OperationExecuteRequest, procedure_sql, identifier, namespace_identifier,
}
use iceberg_rest_catalog.Runner.{
  Runner, SparkApi, RunnerError, in_world, bad_request, invalid_token, snapshot_changed,
}
use iceberg_rest_catalog.Runner.Session.{get_spark}
use iceberg_rest_catalog.Runner.Catalogs.{configure_hadoop_catalog}

-- `verify_operation_token`; the expected token comes from the environment.
unfoldable pub verify_operation_token :
    (expected : String) → Option String → Outcome RunnerError (Unit {0})
verify_operation_token expected none = err invalid_token
verify_operation_token expected (some token) =
    if token =ₛ ""
    then err invalid_token
    else if token =ₛ expected
    then ok tt
    else err invalid_token

abbrev pub refused_call : {A : Type 0} → Outcome BadCall A → Outcome RunnerError A
refused_call (ok a) = ok a
refused_call (err e) = err (bad_request e)

-- `sql.split("(", 1)[0]`
unfoldable pub before_paren : String → String
before_paren String.[] = String.[]
before_paren (String.◌∷◌ c s) =
    let rest = before_paren s in if code c == 40 then String.[] else String.◌∷◌ c rest

-- `before["snapshot_id"] == expected`
unfoldable pub is_snapshot : ℤ → Value → Bool
is_snapshot expected (int n) = eq_ℤ n expected
is_snapshot expected v = false

-- `request.expected_snapshot_id is not None and before["snapshot_id"] != request.expected_snapshot_id`
unfoldable pub snapshot_differs : Option ℤ → Fields → Bool
snapshot_differs none before = false
snapshot_differs (some expected) before = not (is_snapshot expected (get_null "snapshot_id" before))

module _ (timestamp_before : ℕ → String) (urlparse : String → String × String)
    (lower : String → String) {S W : Type 0} (spark : SparkApi S W) (duration_ms : ℕ) where
  -- The call and the reading after it; the job group is cleared however they end.
  unfoldable pub run_call : S → (sql full_table : String) → Run RunnerError W (Items × Fields)
  run_call session sql full_table w =
      let ended = and_then (spark.run_sql session sql 1000 w) (λ output w.
        and_then (spark.table_state session full_table w) (λ after w. (ok (output, after), w))) in
      (ended.0, spark.clear_job_group session ended.1)

  unfoldable pub result_of :
      OperationExecuteRequest
      → (sql full_table : String) → (before : Fields) → Items × Fields
      → Fields
  result_of request sql full_table before (output, after) =
      field "operation_id" (text (request.operation_id)) (
        field "command" (text (request.command)) (
          field "table" (text full_table) (
            field "procedure" (text (before_paren sql)) (
              field "before" (obj before) (
                field "after" (obj after) (
                  field "output" (arr output)
                    (field "duration_ms" (int (pos duration_ms)) end)))))))

  -- What follows the reading of the table's state before the call.
  unfoldable pub call_on :
      S
      → OperationExecuteRequest
      → (sql full_table : String) → (before : Fields) → Run RunnerError W Fields
  call_on session request sql full_table before w =
      if snapshot_differs (request.expected_snapshot_id) before
      then (err snapshot_changed, w)
      else and_then
          (run_call session sql full_table (
            spark.set_job_group session (request.operation_id)
              ("Iceberg Ops " +++ request.command +++ " on " +++ full_table) w))
          (λ ended w. (ok (result_of request sql full_table before ended), w))

  -- What runs under the lock, on the session.
  unfoldable pub execute_on :
      S → OperationExecuteRequest → (sql catalog full_table : String) → Run RunnerError W Fields
  execute_on session request sql catalog full_table =
      configure_hadoop_catalog urlparse lower spark session catalog (request.warehouse)
      >>= λ configured. spark.table_state session full_table >>= λ before.
          call_on session request sql full_table before

  -- The checks that come before the session: the call, and the table's full name.
  unfoldable pub checked_call : OperationExecuteRequest → Outcome BadCall (String × String × String)
  checked_call request = procedure_sql timestamp_before request >>=ₒ λ sql.
      identifier (request.catalog) >>=ₒ λ catalog.
      namespace_identifier (request.namespace_name) >>=ₒ λ namespace_name.
      identifier (request.table) >>=ₒ λ table.
      ok (sql, catalog, catalog +++ "." +++ namespace_name +++ "." +++ table)

  unfoldable pub execute_call :
      OperationExecuteRequest → String × String × String → Run RunnerError (Runner S W) Fields
  execute_call request (sql, catalog, full_table) =
      get_spark spark >>= λ session. in_world (execute_on session request sql catalog full_table)

  unfoldable pub execute_operation :
      (expected_token : String)
      → OperationExecuteRequest
      → (token : Option String) → Run RunnerError (Runner S W) Fields
  execute_operation expected_token request token =
      lift (verify_operation_token expected_token token) >>= λ verified.
      lift (refused_call (checked_call request)) >>= λ call. execute_call request call
