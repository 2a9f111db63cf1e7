-- ===== src/Executors.antt =====
-- What the executors of backend/app/executors.py share: the settings, the requests they send, and the
-- errors they raise.
pub mod Batch
pub mod Logs
pub mod Livy
pub mod Playground
use iceberg_rest_catalog.Common.{
  ℕ, String, ◌≡◌, Bool, true, false, ◌&&◌, Option, none, some, List, Outcome, ok, err, leb, ltb,
  if◌then◌else◌,
}
use iceberg_rest_catalog.Common.Effects.{Run}
use Prim.Native.String.{◌++◌ as ◌+++◌}
use iceberg_rest_catalog.Json.{Value, Fields, obj, get_null}
use iceberg_rest_catalog.Plan.{truthy}
use iceberg_rest_catalog.Text.{decimal, first_chars}

-- The settings that the executors read. Times are in milliseconds.
pub record ExecutorSettings : Type 0 where
  pub timeout_ms : ℕ
  pub livy_poll_ms : ℕ
  pub livy_log_max_lines : ℕ
  pub livy_job_file : String
  pub livy_conf : Fields
  pub livy_proxy_user : Option String
  pub livy_queue : Option String
  pub livy_driver_memory : Option String
  pub livy_driver_cores : Option ℕ
  pub livy_executor_memory : Option String
  pub livy_executor_cores : Option ℕ
  pub livy_num_executors : Option ℕ

-- The requests, each with what its path and its query name.
pub data HttpRequest : Type 0 where
  post_batch : (json : Fields) → HttpRequest
  get_batch delete_batch : (batch_id : String) → HttpRequest
  get_log : (batch_id : String) → (from size : ℕ) → HttpRequest
  post_operation : HttpRequest

-- A response, its body read as JSON where it is JSON.
pub record Response : Type 0 where
  pub status_code : ℕ
  pub json : Option Value
  pub body : String

-- `response.is_error`
unfoldable pub is_error : Response → Bool
is_error response = leb 400 (response.status_code) && leb (response.status_code) 599

-- What an executor raises: `OperationCanceled`, a `RuntimeError`, or the `ValueError` of a body that is no
-- JSON. `out_of_fuel` is the model's own.
pub data ExecutorError : Type 0 where
  canceled : ExecutorError
  unavailable not_json invalid_submission invalid_status invalid_log invalid_marker : ExecutorError
  result_not_object no_marker timed_out invalid_result out_of_fuel callback_failed : ExecutorError
  http_error unsupported_catalog unsupported_external_id cannot_be_resumed : String → ExecutorError
  finished_as : (state tail : String) → ExecutorError

-- The world of an executor: the service it talks to, the two callbacks, which read and write the
-- database and can raise, and the clock. A request that fails on the way has no response. Without a
-- callback `should_cancel` is never true.
pub record Env (W : Type 0) : Type 0 where
  pub send : HttpRequest → W → Option Response × W
  pub should_cancel : W → Outcome ExecutorError Bool × W
  pub on_submitted : String → Fields → W → Outcome ExecutorError (Unit {0}) × W
  pub clock : W → ℕ
  pub sleep : ℕ → W → W

-- Python's `str(…)` of a value is a parameter.
module _ (str : Value → String) where
  -- `payload.get("detail") or payload.get("msg")`, if the body is an object that has one
  unfoldable pub response_detail : Option Value → Option String
  response_detail (some (obj payload)) =
      let detail = get_null "detail" payload in
      let message = get_null "msg" payload in
      if truthy detail
      then some (str detail)
      else if truthy message
      then some (str message)
      else none
  response_detail body = none

  unfoldable pub response_error : Response → (service : String) → String
  response_error response service = elim (response_detail (response.json)) [
    | some detail ↦ detail
    | none ↦
        service
        +++ " returned HTTP "
        +++ decimal (response.status_code)
        +++ ": "
        +++ first_chars 1000 (response.body)
  ]

  abbrev pub answered :
      {W : Type 0} → (service : String) → Option Response × W → Outcome ExecutorError Response × W
  answered service (none, w) = (err unavailable, w)
  answered service (some response, w) =
      if is_error response
      then (err (http_error (response_error response service)), w)
      else (ok response, w)

  -- `self.request` of the executor for Livy, and the runner's request likewise
  unfoldable pub request :
      {W : Type 0} → Env W → (service : String) → HttpRequest → Run ExecutorError W Response
  request env service r w = answered service (env.send r w)
