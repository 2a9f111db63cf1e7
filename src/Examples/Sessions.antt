-- ===== src/Examples/Sessions.antt =====
-- Examples of the runner: an engine that counts the sessions it has built.
use iceberg_rest_catalog.Common.{ℕ, suc, String, ◌≡◌, refl, true, none, some, ok}
use iceberg_rest_catalog.Common.Int.{pos}
use iceberg_rest_catalog.Json.{Fields, field, end, int, nil, get, get_null, get_or}
use iceberg_rest_catalog.Text.{split, join}
use iceberg_rest_catalog.Sql.Runner.{
  OperationExecuteRequest, identifier, is_identifier, continues_name, identifiers,
  namespace_identifier, sql_literal, doubled, procedure_sql, command_sql, compute_stats_sql,
}
use iceberg_rest_catalog.Runner.{Runner, SparkApi}
use iceberg_rest_catalog.Runner.Session.{
  get_spark, build_new, keep_built, serve, Serves, get_spark-Serves,
}
use iceberg_rest_catalog.Runner.Catalogs.{
  configure_hadoop_catalog, configure_named, absolute_hdfs, conflicts, set_catalog, rstrip_slash,
}
use iceberg_rest_catalog.Runner.Execute.{
  verify_operation_token, snapshot_differs, is_snapshot, run_call, result_of, call_on, execute_on,
  execute_call, checked_call, execute_operation,
}
use iceberg_rest_catalog.Runner.Execute.Guarded.{IsGuarded, execute_operation-IsGuarded}

abbrev engine : SparkApi ℕ ℕ
engine = record {
  is_running = λ session w. true;
  build_session = λ w. (ok w, suc w);
  stop_context = λ session w. w;
  clear_jvm = λ session w. w;
  clear_python = λ w. w;
  conf_get = λ session key w. none;
  conf_set = λ session key value w. w;
  table_state = λ session table w. (ok (field "snapshot_id" (int (pos 40)) end), w);
  table_details = λ session table w. (ok end, w);
  set_job_group = λ session id description w. w;
  clear_job_group = λ session w. w;
  run_sql = λ session sql limit w. (ok nil, w);
}

abbrev idle : Runner ℕ ℕ
idle = record { spark_session = none; world = 0 }

get_spark-Serves_example : Serves engine idle (get_spark engine idle).0 (get_spark engine idle).1
get_spark-Serves_example = get_spark-Serves engine idle

abbrev stamp : (hours : ℕ) → String
stamp hours = "2026-08-20 00:00:00.000"

abbrev parsed : String → String × String
parsed uri = ("hdfs", "/warehouse")

abbrev same : String → String
same s = s

abbrev call : OperationExecuteRequest
call = record {
  operation_id = "op-1";
  catalog = "lake";
  namespace_name = "sales";
  table = "orders";
  command = "COMPUTE_STATS";
  parameters = end;
  expected_snapshot_id = some (pos 40);
  warehouse = "hdfs://nn/w/";
}

abbrev result : Fields
result =
    result_of stamp parsed same engine 5 call
      "CALL lake.system.compute_table_stats(table => 'sales.orders')" "lake.sales.orders"
      (field "snapshot_id" (int (pos 40)) end) (nil, field "snapshot_id" (int (pos 40)) end)

call_answered :
    (execute_operation stamp parsed same engine 5 "token" call (some "token") idle).0 ≡ ok result
unfolding execute_operation execute_call execute_on call_on run_call snapshot_differs is_snapshot
    verify_operation_token checked_call procedure_sql command_sql compute_stats_sql identifier
    is_identifier continues_name identifiers namespace_identifier sql_literal doubled split join get
    get_null get_or get_spark serve build_new keep_built configure_hadoop_catalog configure_named
    absolute_hdfs conflicts set_catalog rstrip_slash
call_answered = refl

execute_operation-IsGuarded_example :
    IsGuarded stamp parsed same engine 5 "token" call (some "token") idle result
execute_operation-IsGuarded_example =
    execute_operation-IsGuarded stamp parsed same engine 5 "token" call (some "token") idle result
      call_answered
