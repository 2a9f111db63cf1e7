-- ===== src/Executors/Playground.antt =====
-- `PlaygroundSparkExecutor`: one request to the playground's runner.
use iceberg_rest_catalog.Common.{ℕ, String, Option, none, some, Outcome, ok, err, if◌then◌else◌}
use iceberg_rest_catalog.Common.Effects.{Run, ◌>>=◌, lift, return, raise}
use iceberg_rest_catalog.Json.{Value, Fields, text, obj, field, end}
use iceberg_rest_catalog.Worker.{Payload}
use iceberg_rest_catalog.Executors.{
  Env, ExecutorError, canceled, not_json, invalid_result, cannot_be_resumed, request,
  post_operation,
}

-- `result = response.json()`, which has to be an object.
unfoldable pub result_of : (body : Option Value) → Outcome ExecutorError Fields
result_of none = err not_json
result_of (some (obj result)) = ok result
result_of (some _) = err invalid_result

module _ (str : Value → String) {W : Type 0} (env : Env W) where
  -- `if should_cancel and await should_cancel(): raise …`
  unfoldable pub unless_canceled : Run ExecutorError W (Unit {0})
  unless_canceled = env.should_cancel >>= λ asked. lift (if asked then err canceled else ok tt)

  unfoldable pub run_operation : Run ExecutorError W Fields
  run_operation = request str env "Spark runner" post_operation >>= λ response.
      lift (result_of (response.json)) >>= λ result. unless_canceled >>= λ passed. return result

  -- The operation's own identifier stands for the run.
  unfoldable pub execute : (id_text : ℕ → String) → Payload → Run ExecutorError W Fields
  execute id_text payload = unless_canceled >>= λ passed.
      env.on_submitted (id_text (payload.operation_id))
        (field "executionMode" (text "playground") end)
      >>= λ noted. run_operation

  unfoldable pub resume : (external : String) → Run ExecutorError W Fields
  resume external = raise (cannot_be_resumed external)
