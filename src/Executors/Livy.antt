-- ===== src/Executors/Livy.antt =====
-- `LivyBatchExecutor`: `execute`, `wait_for_batch` and `resume`.
pub mod Ends
pub mod Resumed
pub mod Result
use Prim.Native.String.{◌++◌ as ◌+++◌}
use iceberg_rest_catalog.Common.{
  ◌>>=◌ as ◌>>=ₒ◌, or_raise, ℕ, zero, suc, ◌+◌, ◌-◌, String, Bool, true, false, ◌||◌, Option, none,
  some, List, [], ◌∷◌, Outcome, ok, err, leb, length, drop, if◌then◌else◌, one_of, ◌=ₛ◌, ◌&&◌,
}
use iceberg_rest_catalog.Common.Effects.{Run, ◌>>=◌, and_then, return, raise, lift}
use iceberg_rest_catalog.Common.Int.{ℤ, pos, negsuc}
use iceberg_rest_catalog.Json.{
  Value, Items, Fields, text, int, bool, obj, arr, null, field, end, get, get_or, get_null,
  put_field,
}
use iceberg_rest_catalog.Text.{int_text, read_decimal, after_prefix, join, last_chars}
use iceberg_rest_catalog.Worker.{Payload}
use iceberg_rest_catalog.Executors.{
  ExecutorSettings, Env, ExecutorError, canceled, timed_out, finished_as, invalid_submission,
  invalid_status, not_json, out_of_fuel, unsupported_external_id, Response, request, post_batch,
  get_batch, delete_batch,
}
use iceberg_rest_catalog.Executors.Batch.{batch_payload, args_of}
use iceberg_rest_catalog.Executors.Logs.{logs, result_from_logs}

-- `LIVY_SUCCESS_STATES` and `LIVY_FAILURE_STATES`
abbrev pub success_states : List String
success_states = "success" ∷ []

abbrev pub failure_states : List String
failure_states = "dead" ∷ "error" ∷ "killed" ∷ []

unfoldable pub is_final : (state : String) → Bool
is_final state = one_of state success_states || one_of state failure_states

-- `isinstance(batch.get("id"), int)`, which holds of a Boolean too, and the identifier's text.
unfoldable pub id_of : Fields → Option String
id_of batch = elim (get_null "id" batch) [
  | int n ↦ some (int_text n)
  | bool b ↦ some (if b then "True" else "False")
  | _ ↦ none
]

-- `f"livy-batch:{batch_id}"`
unfoldable pub external_id : (batch_id : String) → String
external_id batch_id = "livy-batch:" +++ batch_id

-- `re.fullmatch(r"livy-batch:([0-9]+)", external_id)`, then `int(match.group(1))`
unfoldable pub batch_of : (external_id : String) → Option ℕ
batch_of external = elim (after_prefix "livy-batch:" external) [
  | none ↦ none
  | some batch_id ↦ read_decimal batch_id
]

-- The last lines of a log.
abbrev pub last_lines : List String → List String
last_lines lines = drop (length lines - 40) lines

-- Python's `str`, `str.lower`, `str.strip` and the decoding of a result are parameters.
module _ (str : Value → String) (lower strip : String → String)
    (decode : String → Option Value) where
  -- `str(batch.get("state", default)).lower()`
  unfoldable pub state_of : (default : String) → Fields → String
  state_of default batch = lower (str (get_or "state" (text default) batch))

  -- `batch = response.json()`, which has to be an object.
  unfoldable pub object_of : ExecutorError → (body : Option Value) → Outcome ExecutorError Fields
  object_of e none = err not_json
  object_of e (some (obj batch)) = ok batch
  object_of e (some _) = err e

  module _ {W : Type 0} (env : Env W) (s : ExecutorSettings) where
    -- The batch is asked to stop, whatever comes of it, and the wait ends.
    unfoldable pub stop_batch :
        (batch_id : String) → ExecutorError → Run ExecutorError W (Fields × String)
    stop_batch batch_id e w = (err e, (request str env "Livy" (delete_batch batch_id) w).1)

    unfoldable pub poll_batch : (batch_id : String) → Run ExecutorError W Fields
    poll_batch batch_id = request str env "Livy" (get_batch batch_id) >>= λ response.
        lift (object_of invalid_status (response.json))

    -- The loop, until the batch is in a final state; with it the batch as it was last reported.
    unfoldable pub wait_loop :
        (fuel : ℕ)
        → (batch_id : String) → (deadline : ℕ) → (batch : Fields) → (state : String)
        → Run ExecutorError W (Fields × String)
    wait_loop zero batch_id deadline batch state w = (err out_of_fuel, w)
    wait_loop (suc f) batch_id deadline batch state w = elim (is_final state) [
      | true ↦ (ok (batch, state), w)
      | false ↦ and_then (env.should_cancel w) (λ asked w'. elim asked [
        | true ↦ stop_batch batch_id canceled w'
        | false ↦ elim (leb deadline (env.clock w')) [
          | true ↦ stop_batch batch_id timed_out w'
          | false ↦
              and_then (poll_batch batch_id (env.sleep (s.livy_poll_ms) w'))
                (λ next. wait_loop f batch_id deadline next (state_of "unknown" next))
        ]
      ])
    ]

    unfoldable pub livy_entry :
        (batch_id : Value) → (batch : Fields) → (state : String) → List String → Value
    livy_entry batch_id batch state lines = obj (
        field "batch_id" batch_id (
          field "app_id" (get_null "appId" batch)
            (field "state" (text state) (field "log_tail" (arr (args_of (last_lines lines))) end))))

    unfoldable pub fail_batch : (state : String) → List String → Run ExecutorError W Fields
    fail_batch state lines w =
        let e = finished_as state (last_chars 4000 (join "\n" (last_lines lines))) in
        if state =ₛ "killed"
        then and_then (env.should_cancel w)
            (λ asked w'. (if asked then err canceled else err e, w'))
        else (err e, w)

    -- What follows the loop.
    unfoldable pub finish_batch :
        (id_value : Value) → (batch_id : String) → Fields × String → Run ExecutorError W Fields
    finish_batch id_value batch_id (batch, state) = logs str env s batch_id >>= λ lines.
        (if one_of state failure_states
          then fail_batch state lines
          else lift (
              result_from_logs strip decode lines >>=ₒ λ result.
              ok (put_field "livy" (livy_entry id_value batch state lines) result)))

    unfoldable pub wait_for_batch :
        (fuel : ℕ)
        → (id_value : Value) → (batch_id : String) → (batch : Fields) → (deadline : ℕ)
        → Run ExecutorError W Fields
    wait_for_batch fuel id_value batch_id batch deadline =
        wait_loop fuel batch_id deadline batch (state_of "starting" batch)
        >>= finish_batch id_value batch_id

    unfoldable pub submission_details : Fields → Fields
    submission_details batch =
        field "batchId" (get_null "id" batch)
          (field "appId" (get_null "appId" batch) (field "state" (get_null "state" batch) end))

    -- The batch that was submitted, and the text of its identifier.
    unfoldable pub submitted_batch : Response → Outcome ExecutorError (Fields × String)
    submitted_batch response = object_of invalid_submission (response.json) >>=ₒ λ batch.
        or_raise (id_of batch) invalid_submission >>=ₒ λ batch_id. ok (batch, batch_id)

    -- What follows the submission.
    unfoldable pub watch_batch : (fuel deadline : ℕ) → Fields × String → Run ExecutorError W Fields
    watch_batch fuel deadline (batch, batch_id) =
        env.on_submitted (external_id batch_id) (submission_details batch) >>= λ noted.
        wait_for_batch fuel (get_null "id" batch) batch_id batch deadline

    unfoldable pub execute :
        (id_text : ℕ → String) (dumps : Fields → String)
        → (fuel : ℕ) → Payload
        → Run ExecutorError W Fields
    execute id_text dumps fuel payload w =
        (lift (batch_payload id_text dumps s payload) >>= λ json.
        request str env "Livy" (post_batch json) >>= λ response.
        lift (submitted_batch response) >>= λ batch.
        watch_batch fuel (env.clock w + s.timeout_ms) batch)
          w

    unfoldable pub resume : (fuel : ℕ) → (external : String) → Run ExecutorError W Fields
    resume fuel external w = elim (batch_of external) [
      | none ↦ (err (unsupported_external_id external), w)
      | some n ↦
          (poll_batch (int_text (pos n)) >>= λ batch.
          wait_for_batch fuel (int (pos n)) (int_text (pos n)) batch (env.clock w + s.timeout_ms))
            w
    ]
