-- ===== src/Executors/Livy/Result.antt =====
-- A batch that succeeded, from the job's output to the executor's result.
use iceberg_rest_catalog.Common.{
  ℕ, ◌≡◌, String, false, Option, some, List, ◌∷◌, ◌++◌, Outcome, ok, ◌∙◌, ap, All, take, drop,
  one_of,
}
use iceberg_rest_catalog.Common.Effects.{Run, and_then}
use iceberg_rest_catalog.Json.{Value, Fields, text, obj, put_field}
use iceberg_rest_catalog.Executors.{ExecutorSettings, Env, ExecutorError, get_log}
use iceberg_rest_catalog.Executors.Logs.{emit_result, result_from_logs, logs}
use iceberg_rest_catalog.Executors.Logs.Slices.{log_response, logs-take}
use iceberg_rest_catalog.Executors.Logs.Found.{Plain, result_from_logs-emit_result}
use iceberg_rest_catalog.Executors.Livy.{failure_states, finish_batch, livy_entry}

and_then-ok :
    {W A B : Type 0} (ended : Outcome ExecutorError A × W) (next : A → Run ExecutorError W B)
    {a : A}
    → ended.0 ≡ ok a
    → (and_then ended next).0 ≡ (next a ended.1).0
and_then-ok (o, w) next h = rw h

module _ (str : Value → String) (lower strip : String → String) (decode : String → Option Value)
    {W : Type 0} (env : Env W) (s : ExecutorSettings) (batch_id : String) (log : List String)
    (str_text : (line : String) → str (text line) ≡ line)
    (serves : (from size : ℕ) (w : W)
      → (env.send (get_log batch_id from size) w).0
        ≡ some (log_response (take size (drop from log)))) where
  -- When a batch is in a final state that is no failure, Livy serves its log page by page, and the first
  -- `livy_log_max_lines` lines of the log have the line that the job printed and no later marker, then the
  -- executor returns the job's result, with the entry about the batch added.
  pub finish_batch-emit_result :
      (encode : Fields → String) (result : Fields) (before after : List String) (id_value : Value)
      (batch : Fields) (state : String) (w : W)
      → one_of state failure_states ≡ false
      → take (s.livy_log_max_lines) log ≡ before ++ emit_result encode result ∷ after
      → decode (strip (encode result)) ≡ some (obj result)
      → All Plain after
      → (finish_batch str lower strip decode env s id_value batch_id (batch, state) w).0
        ≡ ok (
            put_field "livy"
              (livy_entry str lower strip decode env s id_value batch state
                (take (s.livy_log_max_lines) log))
              result)
  unfolding finish_batch
  finish_batch-emit_result encode result before after id_value batch state w ended printed decoded
        plain =
      and_then-ok (logs str env s batch_id w) _ (logs-take str env s batch_id log str_text serves w)
      ∙ rw (
        ended,
        ap (result_from_logs strip decode) printed
            ∙ result_from_logs-emit_result strip decode encode result before after decoded plain,
      )
