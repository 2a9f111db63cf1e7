-- ===== src/Executors/Livy/Ends/Steps.antt =====
-- The steps of the wait end by themselves, and the clock does not go back in them.
use iceberg_rest_catalog.Common.{
  ◌=ₛ◌, ℕ, zero, suc, ◌+◌, ◌≤◌, ◌≡◌, ◌≢◌, String, Option, none, some, List, [], ◌∷◌, ◌++◌, Outcome,
  ok, err, refl, arith, ltb, length, Bool-cases, Option-cases, inl, inr, one_of,
}
use iceberg_rest_catalog.Common.Effects.{Run, and_then}
use iceberg_rest_catalog.Json.{Value, Fields, obj, arr, get_or, nil}
use iceberg_rest_catalog.Text.{after_marker}
use iceberg_rest_catalog.Executors.{
  ExecutorSettings, Env, ExecutorError, HttpRequest, Response, out_of_fuel, answered, request,
  invalid_status, get_log, get_batch,
}
use iceberg_rest_catalog.Executors.Logs.{
  page_size, list_lines, page_lines, log_page, log_pages, logs, read_result, last_result,
  result_from_logs, result_marker, decoded_result, backwards,
}
use iceberg_rest_catalog.Executors.Livy.{
  object_of, poll_batch, fail_batch, finish_batch, failure_states,
}

-- The code has ended by itself, well or by an exception.
abbrev pub HasEnded : {A : Type 0} → Outcome ExecutorError A → Type 0
HasEnded m = m ≢ err out_of_fuel

pub and_then-HasEnded :
    {W A B : Type 0} (ended : Outcome ExecutorError A × W) (next : A → Run ExecutorError W B)
    → HasEnded ended.0
    → ((a : A) → HasEnded (next a ended.1).0)
    → HasEnded (and_then ended next).0
and_then-HasEnded (ok a, w) next h k = k a
and_then-HasEnded (err e, w) next h k = λ g. h (ground (arith, g))

-- The clock never goes back, and a sleep takes its time; the callback raises only its own errors.
pub record KeepsTime {W : Type 0} (env : Env W) : Type 0 where
  pub sends : (r : HttpRequest) (w : W) → env.clock w ≤ env.clock (env.send r w).1
  pub asks : (w : W) → env.clock w ≤ env.clock (env.should_cancel w).1
  pub asks_end : (w : W) → HasEnded (env.should_cancel w).0
  pub sleeps : (n : ℕ) (w : W) → env.clock w + n ≤ env.clock (env.sleep n w)
  pub notes :
      (external : String) (details : Fields) (w : W)
      → env.clock w ≤ env.clock (env.on_submitted external details w).1
  pub notes_end :
      (external : String) (details : Fields) (w : W)
      → HasEnded (env.on_submitted external details w).0

module _ (str : Value → String) {W : Type 0} (env : Env W) (time : KeepsTime env) where
  answered-HasEnded :
      (service : String) (answer : Option Response × W) → HasEnded (answered str service answer).0
  answered-HasEnded service (none, w) = ground arith
  answered-HasEnded service (some r, w) = ground arith

  answered_world :
      (service : String) (answer : Option Response × W) → (answered str service answer).1 ≡ answer.1
  answered_world service (none, w) = refl
  answered_world service (some r, w) = ground arith

  pub request-HasEnded :
      (service : String) (r : HttpRequest) (w : W) → HasEnded (request str env service r w).0
  unfolding request
  request-HasEnded service r w = answered-HasEnded service (env.send r w)

  pub request_later :
      (service : String) (r : HttpRequest) (w : W)
      → env.clock w ≤ env.clock (request str env service r w).1
  unfolding request
  request_later service r w = rw (answered_world service (env.send r w)) (time.sends r w)

  pub and_then_world :
      {A B : Type 0} (ended : Outcome ExecutorError A × W) (f : A → Outcome ExecutorError B)
      → (and_then ended (λ a w. (f a, w))).1 ≡ ended.1
  and_then_world (ok a, w) f = refl
  and_then_world (err e, w) f = refl

  module _ (lower strip : String → String) (decode : String → Option Value)
      (s : ExecutorSettings) where
    pub object_of-HasEnded :
        (e : ExecutorError) (body : Option Value)
        → e ≢ out_of_fuel
        → HasEnded (object_of str lower strip decode e body)
    unfolding object_of
    object_of-HasEnded e none h = ground arith
    object_of-HasEnded e (some (obj batch)) h = ground arith
    object_of-HasEnded e (some _) h = λ g. h (ground (arith, g))

    list_lines-HasEnded : (v : Value) → HasEnded (list_lines str v)
    unfolding list_lines
    list_lines-HasEnded (arr page) = ground arith
    list_lines-HasEnded _ = ground arith

    page_lines-HasEnded : (body : Option Value) → HasEnded (page_lines str body)
    unfolding page_lines
    page_lines-HasEnded none = ground arith
    page_lines-HasEnded (some (obj payload)) = list_lines-HasEnded (get_or "log" (arr nil) payload)
    page_lines-HasEnded (some _) = ground arith

    log_page-HasEnded :
        (batch_id : String) (offset : ℕ) (w : W) → HasEnded (log_page str env s batch_id offset w).0
    unfolding log_page
    log_page-HasEnded batch_id offset w =
        and_then-HasEnded _ _ (request-HasEnded "Livy" (get_log batch_id offset (page_size s)) w)
          (λ r. page_lines-HasEnded (r.json))

    log_pages-HasEnded :
        (f : ℕ) (batch_id : String) (lines : List String) (offset : ℕ) (w : W)
        → HasEnded (log_pages str env s batch_id f lines offset w).0
    unfolding log_pages
    log_pages-HasEnded zero batch_id lines offset w = ground arith
    log_pages-HasEnded (suc f) batch_id lines offset w =
        elim (Bool-cases (ltb (length lines) (s.livy_log_max_lines))) [
          | inr enough ↦ rw (log_pages, enough) (ground arith)
          | inl more ↦
              rw (log_pages, more)
                (and_then-HasEnded _ _ (log_page-HasEnded batch_id offset w) (λ page.
                  elim (Bool-cases (ltb (length page) (page_size s))) [
                    | inl short ↦ rw short (ground arith)
                    | inr full ↦
                        rw full
                          (log_pages-HasEnded f batch_id (lines ++ page) (offset + length page) _)
                  ]))
        ]

    logs-HasEnded : (batch_id : String) (w : W) → HasEnded (logs str env s batch_id w).0
    unfolding logs
    logs-HasEnded batch_id w =
        and_then-HasEnded _ _ (log_pages-HasEnded (s.livy_log_max_lines) batch_id [] 0 w)
          (λ lines. ground arith)

    decoded_result-HasEnded : (v : Option Value) → HasEnded (decoded_result v)
    unfolding decoded_result
    decoded_result-HasEnded none = ground arith
    decoded_result-HasEnded (some (obj result)) = ground arith
    decoded_result-HasEnded (some _) = ground arith

    last_result-HasEnded : (lines : List String) → HasEnded (last_result strip decode lines)
    unfolding last_result read_result
    last_result-HasEnded [] = ground arith
    last_result-HasEnded (line ∷ lines) = elim (Option-cases (after_marker result_marker line)) [
      | inl plain ↦ rw (last_result, plain) (last_result-HasEnded lines)
      | inr (encoded, found) ↦
          rw (last_result, found) (decoded_result-HasEnded (decode (strip encoded)))
    ]

    fail_batch-HasEnded :
        (state : String) (lines : List String) (w : W)
        → HasEnded (fail_batch str lower strip decode env s state lines w).0
    unfolding fail_batch
    fail_batch-HasEnded state lines w = elim (Bool-cases (state =ₛ "killed")) [
      | inl killed ↦
          rw (killed, fail_batch)
            (and_then-HasEnded _ _ (time.asks_end w) (λ asked. elim (Bool-cases asked) [
              | inl is_asked ↦ rw is_asked (ground arith)
              | inr not_asked ↦ rw not_asked (ground arith)
            ]))
      | inr other ↦ rw (other, fail_batch) (ground arith)
    ]

    pub finish_batch-HasEnded :
        (v : Value) (batch_id : String) (last : Fields × String) (w : W)
        → HasEnded (finish_batch str lower strip decode env s v batch_id last w).0
    unfolding finish_batch result_from_logs
    finish_batch-HasEnded v batch_id (batch, state) w =
        and_then-HasEnded _ _ (logs-HasEnded batch_id w) (λ lines.
          elim (Bool-cases (one_of state failure_states)) [
            | inl failed ↦ rw failed (fail_batch-HasEnded state lines _)
            | inr succeeded ↦ rw succeeded (ground (arith, last_result-HasEnded (backwards lines)))
          ])

    pub poll_batch-HasEnded :
        (batch_id : String) (w : W)
        → HasEnded (poll_batch str lower strip decode env s batch_id w).0
    unfolding poll_batch
    poll_batch-HasEnded batch_id w =
        and_then-HasEnded _ _ (request-HasEnded "Livy" (get_batch batch_id) w)
          (λ r. object_of-HasEnded invalid_status (r.json) (ground arith))

    pub poll_batch_later :
        (batch_id : String) (w : W)
        → env.clock w ≤ env.clock (poll_batch str lower strip decode env s batch_id w).1
    unfolding poll_batch
    poll_batch_later batch_id w =
        rw
          (and_then_world (request str env "Livy" (get_batch batch_id) w)
            (λ r. object_of str lower strip decode invalid_status (r.json)))
          (request_later "Livy" (get_batch batch_id) w)
