-- ===== src/Worker/Run.antt =====
-- `execute_claim` of backend/app/worker.py: the executor runs a claim, and the outcome is recorded.
-- Every recording is a transaction of its own, and other transactions commit between them: `env k`
-- is what they do to the database before the k-th of this worker.
pub mod Bookkeeping
pub mod Ends
use iceberg_rest_catalog.Common.{ℕ, String, Option, none, some, Outcome, ok, err}
use iceberg_rest_catalog.Common.Int.{ℤ}
use iceberg_rest_catalog.Json.{Fields}
use iceberg_rest_catalog.Store.Jobs.{Db}
use iceberg_rest_catalog.Verify.{WorkerError}
use iceberg_rest_catalog.Worker.{Settings}
use iceberg_rest_catalog.Worker.Marks.{
  mark_submitted, mark_verifying, mark_succeeded, mark_failed, mark_canceled,
}

-- How a call of the executor ends: with a result, by `OperationCanceled`, or by another exception.
pub data ExecutorEnd : Type 0 where
  finished : Fields → ExecutorEnd
  was_canceled : String → ExecutorEnd
  raised : String → ExecutorEnd

-- A run of the executor: the identifier that it reported, if it did, and its end. A resumed
-- execution reports none.
pub record ExecutorRun : Type 0 where
  pub submitted : Option String
  pub end_of_run : ExecutorEnd

-- `on_submitted`
unfoldable pub reported : (execution : ℕ) → Option String → Db → Db
reported execution none db = db
reported execution (some external_id) db = mark_submitted execution external_id db

-- `describe` gives the texts of the exceptions.
module _ (int_of_text int_of_real : String → Option ℤ) (describe : WorkerError → String)
    (s : Settings) (env : ℕ → Db → Db) (now operation execution : ℕ) where
  -- An exception of `mark_verifying` or `mark_succeeded` is caught, and recorded on the database as
  -- it was before.
  unfoldable pub or_fail : (k : ℕ) → (before : Db) → Outcome WorkerError Db → Db
  or_fail k before (ok db) = db
  or_fail k before (err e) = mark_failed s now operation execution (describe e) (env k before)

  unfoldable pub succeed_after : Fields → (before : Db) → Outcome WorkerError Db → Db
  unfolding or_fail
  succeed_after result before (ok db) =
      or_fail 3 (env 2 db)
        (mark_succeeded int_of_text int_of_real s now operation execution result (env 2 db))
  succeed_after result before (err e) =
      mark_failed s now operation execution (describe e) (env 2 before)

  unfoldable pub after_run : ExecutorEnd → Db → Db
  unfolding succeed_after
  after_run (finished result) db =
      succeed_after result (env 1 db)
        (mark_verifying int_of_text int_of_real now execution result (env 1 db))
  after_run (was_canceled message) db = mark_canceled s now operation execution message (env 1 db)
  after_run (raised message) db = mark_failed s now operation execution message (env 1 db)

  unfoldable pub execute_claim : ExecutorRun → Db → Db
  unfolding after_run reported
  execute_claim run db = after_run run.end_of_run (reported execution run.submitted (env 0 db))
