-- ===== src/Executors/Logs.antt =====
-- `logs` and `result_from_logs` of `LivyBatchExecutor`, and `emit_result` of
-- spark-jobs/iceberg_maintenance.py, which writes what the latter reads.
pub mod Slices
pub mod Found
use Prim.Native.String.{◌++◌ as ◌+++◌}
use iceberg_rest_catalog.Common.{
  ℕ, zero, suc, ◌+◌, String, Bool, true, false, Option, none, some, List, [], ◌∷◌, ◌++◌, Outcome,
  ok, err, ltb, leb, length, take, if◌then◌else◌,
}
use iceberg_rest_catalog.Common.Effects.{Run, ◌>>=◌, and_then, return, raise}
use iceberg_rest_catalog.Json.{Value, Items, Fields, obj, arr, nil, cons, get_or, null}
use iceberg_rest_catalog.Text.{after_marker}
use iceberg_rest_catalog.Executors.{
  ExecutorSettings, Env, ExecutorError, invalid_log, invalid_marker, result_not_object, no_marker,
  not_json, request, Response, get_log,
}

-- `RESULT_MARKER`, of both files
abbrev pub result_marker : String
result_marker = "ICEBERG_OPS_RESULT="

-- `min(1000, livy_log_max_lines)`
unfoldable pub page_size : ExecutorSettings → ℕ
page_size s = if leb (s.livy_log_max_lines) 1000 then s.livy_log_max_lines else 1000

module _ (str : Value → String) where
  unfoldable pub texts_of : Items → List String
  texts_of nil = []
  texts_of (cons line rest) = str line ∷ texts_of rest

  unfoldable pub list_lines : (page : Value) → Outcome ExecutorError (List String)
  list_lines (arr page) = ok (texts_of page)
  list_lines _ = err invalid_log

  -- The lines of one page.
  unfoldable pub page_lines : Option Value → Outcome ExecutorError (List String)
  page_lines none = err not_json
  page_lines (some (obj payload)) = list_lines (get_or "log" (arr nil) payload)
  page_lines (some v) = ok []

  module _ {W : Type 0} (env : Env W) (s : ExecutorSettings) (batch_id : String) where
    unfoldable pub log_page : (offset : ℕ) → Run ExecutorError W (List String)
    log_page offset =
        request str env "Livy" (get_log batch_id offset (page_size s)) >>= λ response w.
        (page_lines (response.json), w)

    -- The loop, with the lines that it has and the offset it reads at.
    unfoldable pub log_pages :
        (fuel : ℕ) → List String → (offset : ℕ) → Run ExecutorError W (List String)
    log_pages zero lines offset w = (ok lines, w)
    log_pages (suc f) lines offset w = elim (ltb (length lines) (s.livy_log_max_lines)) [
      | false ↦ (ok lines, w)
      | true ↦ and_then (log_page offset w) (λ page w'. elim (ltb (length page) (page_size s)) [
        | true ↦ (ok (lines ++ page), w')
        | false ↦ log_pages f (lines ++ page) (offset + length page) w'
      ])
    ]

    -- Each round but the last adds a line at least, so that as many rounds as lines are enough.
    unfoldable pub logs : Run ExecutorError W (List String)
    logs = log_pages (s.livy_log_max_lines) [] 0 >>= λ lines.
        return (take (s.livy_log_max_lines) lines)

abbrev pub backwards : List String → List String
backwards [] = []
backwards (line ∷ lines) = backwards lines ++ line ∷ []

unfoldable pub decoded_result : Option Value → Outcome ExecutorError Fields
decoded_result none = err invalid_marker
decoded_result (some (obj result)) = ok result
decoded_result (some _) = err result_not_object

-- `strip` is Python's, `decode` is base64 and then JSON, and gives nothing where one of them raises.
module _ (strip : String → String) (decode : String → Option Value) where
  unfoldable pub read_result : (encoded : String) → Outcome ExecutorError Fields
  read_result encoded = decoded_result (decode (strip encoded))

  unfoldable pub last_result : (from_last : List String) → Outcome ExecutorError Fields
  last_result [] = err no_marker
  last_result (line ∷ lines) = elim (after_marker result_marker line) [
    | none ↦ last_result lines
    | some encoded ↦ read_result encoded
  ]

  unfoldable pub result_from_logs : List String → Outcome ExecutorError Fields
  result_from_logs lines = last_result (backwards lines)

-- The line that the job prints; `encode` is JSON and then base64.
unfoldable pub emit_result : (encode : Fields → String) → Fields → String
emit_result encode result = result_marker +++ encode result
