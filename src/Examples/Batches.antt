-- ===== src/Examples/Batches.antt =====
-- Examples of the runs of the executor for Livy: a service that answers at once, with the time as the world.
use iceberg_rest_catalog.Common.{
  ℕ, String, ◌≡◌, ◌+◌, refl, false, Option, none, some, List, [], ◌∷◌, ok, arith, take, drop,
}
use iceberg_rest_catalog.Common.Int.{pos}
use iceberg_rest_catalog.Json.{Value, Fields, text, int, obj, field, end, put_field}
use iceberg_rest_catalog.Text.{int_text, after_marker, after_prefix}
use iceberg_rest_catalog.Worker.{Payload}
use iceberg_rest_catalog.Executors.{
  ExecutorSettings, Env, HttpRequest, Response, post_batch, get_batch, delete_batch, get_log,
  post_operation,
}
use iceberg_rest_catalog.Executors.Logs.{emit_result}
use iceberg_rest_catalog.Executors.Logs.Slices.{log_response}
use iceberg_rest_catalog.Executors.Livy.{execute, finish_batch, livy_entry, external_id, batch_of}
use iceberg_rest_catalog.Executors.Livy.Ends.{execute-HasEnded}
use iceberg_rest_catalog.Executors.Livy.Ends.Steps.{HasEnded, KeepsTime}
use iceberg_rest_catalog.Executors.Livy.Resumed.{batch_of-external_id}
use iceberg_rest_catalog.Executors.Livy.Result.{finish_batch-emit_result}

abbrev settings : ExecutorSettings
settings = record {
  timeout_ms = 1800000;
  livy_poll_ms = 5000;
  livy_log_max_lines = 10000;
  livy_job_file = "hdfs:///apps/iceberg-ops/iceberg_maintenance.py";
  livy_conf = end;
  livy_proxy_user = none;
  livy_queue = some "maintenance";
  livy_driver_memory = none;
  livy_driver_cores = none;
  livy_executor_memory = none;
  livy_executor_cores = some 2;
  livy_num_executors = none;
}

abbrev str : Value → String
str (text s) = s
str _ = "None"

abbrev same : String → String
same s = s

abbrev result : Fields
result = field "command" (text "REWRITE_DATA_FILES") end

abbrev encode : Fields → String
encode fields = "e30="

abbrev decode : String → Option Value
decode encoded = some (obj result)

abbrev log : List String
log = "started" ∷ emit_result encode result ∷ "stopped" ∷ []

abbrev json_response : Fields → Response
json_response fields = record { status_code = 200; json = some (obj fields); body = "" }

-- The batch is never over.
abbrev answer : HttpRequest → Response
answer (post_batch json) = json_response (field "id" (int (pos 7)) end)
answer (get_batch batch_id) = json_response (field "state" (text "running") end)
answer (delete_batch batch_id) = json_response end
answer (get_log batch_id from size) = log_response (take size (drop from log))
answer post_operation = json_response end

abbrev env : Env ℕ
env = record {
  send = λ r now. (some (answer r), now);
  should_cancel = λ now. (ok false, now);
  on_submitted = λ external details now. (ok tt, now);
  clock = λ now. now;
  sleep = λ n now. now + n;
}

keeps_time : KeepsTime env
keeps_time = record {
  sends = λ r now. omega arith;
  asks = λ now. omega arith;
  asks_end = λ now. ground arith;
  sleeps = λ n now. omega arith;
  notes = λ external details now. omega arith;
  notes_end = λ external details now. ground arith;
}

abbrev payload : Payload
payload = record {
  operation_id = 1;
  catalog = "lake";
  catalog_type = "HIVE";
  warehouse = none;
  namespace_name = "sales";
  table = "orders";
  command = iceberg_rest_catalog.Params.rewrite_data_files;
  parameters = end;
  expected_snapshot_id = some 40;
}

execute-HasEnded_example :
    HasEnded
      (execute str same same decode env settings (λ id. "op-1") (λ fields. "{}") 361 payload 0).0
execute-HasEnded_example =
    execute-HasEnded str same same decode env settings keeps_time (λ id. "op-1") (λ fields. "{}")
      360 payload 0 (omega arith)

batch_of-external_id_example : batch_of (external_id (int_text (pos 7))) ≡ some 7
batch_of-external_id_example = batch_of-external_id 7

stopped_plain : after_marker "ICEBERG_OPS_RESULT=" "stopped" ≡ none
unfolding after_marker after_prefix
stopped_plain = refl

finish_batch-emit_result_example :
    (finish_batch str same same decode env settings (int (pos 7)) "7" (end, "success") 0).0
    ≡ ok (
        put_field "livy"
          (livy_entry str same same decode env settings (int (pos 7)) end "success" log)
          result)
finish_batch-emit_result_example =
    finish_batch-emit_result str same same decode env settings "7" log (λ line. refl)
      (λ from size w. refl) encode result ("started" ∷ []) ("stopped" ∷ []) (int (pos 7)) end
      "success" 0 refl refl refl (stopped_plain, tt)
