-- ===== src/Executors/Livy/Ends.antt =====
-- The wait for a batch ends: when the clock runs, a number of rounds that covers the timeout is enough.
pub mod Steps
use iceberg_rest_catalog.Common.{
  ℕ, zero, suc, ◌+◌, ◌*◌, ◌≤◌, ◌≡◌, ◌≢◌, String, Bool, true, false, Option, none, some, List, [],
  ◌∷◌, ◌++◌, Outcome, ok, err, refl, ◌∙◌, ap, sym, arith, ltb, leb, length, Bool-cases,
  Option-cases, inl, inr, one_of, ◌=ₛ◌,
}
use iceberg_rest_catalog.Common.Effects.{Run, and_then}
use iceberg_rest_catalog.Json.{Value, Fields, int}
use iceberg_rest_catalog.Common.Int.{pos}
use iceberg_rest_catalog.Text.{int_text}
use iceberg_rest_catalog.Worker.{Payload}
use iceberg_rest_catalog.Executors.{
  ExecutorSettings, Env, ExecutorError, HttpRequest, Response, out_of_fuel, is_error, answered,
  request, invalid_status, invalid_submission, canceled, timed_out, get_log, post_batch, get_batch,
}
use iceberg_rest_catalog.Executors.Batch.{batch_payload, batch_conf}
use iceberg_rest_catalog.Executors.Logs.{
  page_size, list_lines, page_lines, log_page, log_pages, logs, read_result, last_result,
  result_from_logs, result_marker, decoded_result, backwards,
}
use iceberg_rest_catalog.Executors.Livy.{
  is_final, id_of, state_of, object_of, stop_batch, poll_batch, wait_loop, fail_batch, finish_batch,
  wait_for_batch, submitted_batch, watch_batch, external_id, submission_details, execute, resume,
  failure_states, batch_of,
}
use iceberg_rest_catalog.Executors.Livy.Ends.Steps.{
  HasEnded, KeepsTime, and_then-HasEnded, request-HasEnded, request_later, object_of-HasEnded,
  finish_batch-HasEnded, poll_batch-HasEnded, poll_batch_later, and_then_world,
}

module _ (str : Value → String) (lower strip : String → String) (decode : String → Option Value)
    {W : Type 0} (env : Env W) (s : ExecutorSettings) (time : KeepsTime env) where
  -- One round, when what follows it ends.
  round-HasEnded :
      (f : ℕ) (batch_id : String) (deadline : ℕ) (batch : Fields) (state : String) (w : W)
      → (env.clock w + 1 ≤ deadline
          → (next : Fields) (w' : W) → env.clock w + s.livy_poll_ms ≤ env.clock w'
          → HasEnded
              (wait_loop str lower strip decode env s f batch_id deadline next
                (state_of str lower strip decode "unknown" next)
                w').0)
      → HasEnded (wait_loop str lower strip decode env s (suc f) batch_id deadline batch state w).0
  unfolding wait_loop stop_batch
  round-HasEnded f batch_id deadline batch state w next = elim (Bool-cases (is_final state)) [
    | inl final ↦ rw (wait_loop, final) (ground arith)
    | inr running ↦
        rw (wait_loop, running)
          (and_then-HasEnded _ _ (time.asks_end w) (λ asked. elim (Bool-cases asked) [
            | inl is_asked ↦ rw is_asked (ground arith)
            | inr not_asked ↦
                rw not_asked (elim (Bool-cases (leb deadline (env.clock (env.should_cancel w).1))) [
                  | inl late ↦ rw late (ground arith)
                  | inr early ↦ rw early (
                      and_then-HasEnded _ _
                        (poll_batch-HasEnded str env time lower strip decode s batch_id
                          (env.sleep (s.livy_poll_ms) (env.should_cancel w).1))
                        (λ batch'. next (ground (arith, early, time.asks w)) batch' _ (
                          omega (
                            arith,
                            time.asks w,
                            time.sleeps (s.livy_poll_ms) (env.should_cancel w).1,
                            poll_batch_later str env time lower strip decode s batch_id
                                (env.sleep (s.livy_poll_ms) (env.should_cancel w).1),
                          ))))
                ])
          ]))
  ]

  -- Where the rounds that are left cover the time that is left, the loop ends.
  wait_loop-HasEnded :
      (rounds : ℕ) (batch_id : String) (deadline : ℕ) (batch : Fields) (state : String) (w : W)
      → deadline ≤ env.clock w + rounds * s.livy_poll_ms
      → HasEnded
          (wait_loop str lower strip decode env s (suc rounds) batch_id deadline batch state w).0
  wait_loop-HasEnded zero batch_id deadline batch state w h =
      round-HasEnded 0 batch_id deadline batch state w (λ early. absurd (omega arith))
  wait_loop-HasEnded (suc rounds) batch_id deadline batch state w h =
      round-HasEnded (suc rounds) batch_id deadline batch state w (λ early next w' later.
        wait_loop-HasEnded rounds batch_id deadline next
          (state_of str lower strip decode "unknown" next) w' (omega arith))

  wait_for_batch-HasEnded :
      (rounds : ℕ) (v : Value) (batch_id : String) (batch : Fields) (deadline : ℕ) (w : W)
      → deadline ≤ env.clock w + rounds * s.livy_poll_ms
      → HasEnded
          (wait_for_batch str lower strip decode env s (suc rounds) v batch_id batch deadline w).0
  unfolding wait_for_batch
  wait_for_batch-HasEnded rounds v batch_id batch deadline w h =
      and_then-HasEnded _ _ (wait_loop-HasEnded rounds batch_id deadline batch _ w h)
        (λ last. finish_batch-HasEnded str env time lower strip decode s v batch_id last _)

  batch_payload-HasEnded :
      (id_text : ℕ → String) (dumps : Fields → String) (payload : Payload)
      → HasEnded (batch_payload id_text dumps s payload)
  unfolding batch_payload batch_conf
  batch_payload-HasEnded id_text dumps payload = ground arith

  submitted_batch-HasEnded :
      (r : Response) → HasEnded (submitted_batch str lower strip decode env s r)
  unfolding submitted_batch
  submitted_batch-HasEnded r =
      ground
        (arith, object_of-HasEnded str env time lower strip decode s invalid_submission (r.json))

  watch_batch-HasEnded :
      (rounds deadline : ℕ) (batch : Fields × String) (w : W)
      → deadline ≤ env.clock w + rounds * s.livy_poll_ms
      → HasEnded (watch_batch str lower strip decode env s (suc rounds) deadline batch w).0
  unfolding watch_batch
  watch_batch-HasEnded rounds deadline (batch, batch_id) w h =
      and_then-HasEnded _ _ (time.notes_end _ _ w) (λ noted.
        wait_for_batch-HasEnded rounds _ batch_id batch deadline _ (
          omega (
            arith,
            time.notes (external_id batch_id)
                (submission_details str lower strip decode env s batch) w,
          )))

  -- When the clock runs and the callbacks end, a run of the executor ends, with a result or an exception of
  -- its own: one round more than the polls that cover the timeout is enough, whatever Livy answers.
  pub execute-HasEnded :
      (id_text : ℕ → String) (dumps : Fields → String) (rounds : ℕ) (payload : Payload) (w : W)
      → s.timeout_ms ≤ rounds * s.livy_poll_ms
      → HasEnded (execute str lower strip decode env s id_text dumps (suc rounds) payload w).0
  unfolding execute
  execute-HasEnded id_text dumps rounds payload w h =
      and_then-HasEnded _ _ (batch_payload-HasEnded id_text dumps payload) (λ json.
        and_then-HasEnded _ _ (request-HasEnded str env time "Livy" (post_batch json) w)
          (λ response. and_then-HasEnded _ _ (submitted_batch-HasEnded response) (λ batch.
            watch_batch-HasEnded rounds _ batch _
              (omega (arith, request_later str env time "Livy" (post_batch json) w)))))

  pub resume-HasEnded :
      (rounds : ℕ) (external : String) (w : W)
      → s.timeout_ms ≤ rounds * s.livy_poll_ms
      → HasEnded (resume str lower strip decode env s (suc rounds) external w).0
  unfolding resume
  resume-HasEnded rounds external w h = elim (Option-cases (batch_of external)) [
    | inl unread ↦ rw (resume, unread) (ground arith)
    | inr (n, found) ↦
        rw (resume, found)
          (and_then-HasEnded _ _
            (poll_batch-HasEnded str env time lower strip decode s (int_text (pos n)) w)
            (λ batch. wait_for_batch-HasEnded rounds (int (pos n)) (int_text (pos n)) batch _ _ (
              omega
                (arith, poll_batch_later str env time lower strip decode s (int_text (pos n)) w))))
  ]
