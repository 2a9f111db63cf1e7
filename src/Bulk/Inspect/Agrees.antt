-- ===== src/Bulk/Inspect/Agrees.antt =====
-- The two places that work out how a job has ended agree: `finish_job` of the bulk worker and
-- `_refresh_bulk_job` of the services.
use iceberg_rest_catalog.Common.{
  ◌+◌, ◌≤◌, ◌≡◌, ◌≢◌, refl, true, List, [], ◌∷◌, arith, length, tally, every,
}
use iceberg_rest_catalog.Store.{State}
use iceberg_rest_catalog.Bulk.{is_terminal, is_succeeded, is_canceled, closed_state, job_state}
use iceberg_rest_catalog.Bulk.Inspect.{finished_state}

apart : (states : List State) → tally is_succeeded states + tally is_canceled states ≤ length states
unfolding is_succeeded is_canceled
apart [] = omega arith
apart (s ∷ ss) = ground (arith, apart ss)

positive : (s : State) (ss : List State) → 1 ≤ length (s ∷ ss)
positive s ss = omega arith

-- The state in which the bulk worker leaves a job with items, all of which are over, is the one that
-- the services derive from them.
pub finished_state-job_state :
    (states : List State)
    → states ≢ []
    → every is_terminal states ≡ true
    → finished_state states ≡ job_state states
unfolding finished_state job_state closed_state
finished_state-job_state [] some_item over = absurd (some_item refl)
finished_state-job_state (s ∷ ss) some_item over = ground (arith, apart (s ∷ ss), positive s ss)
