-- ===== src/Worker/Run/Ends.antt =====
-- However an execution goes, its request ends and gives its table back.
use iceberg_rest_catalog.Common.{ℕ, String, ◌≡◌, refl, Option, Outcome, ok, err}
use iceberg_rest_catalog.Common.Int.{ℤ}
use iceberg_rest_catalog.Json.{Fields}
use iceberg_rest_catalog.Store.Jobs.{Db, operation_row, execution_row}
use iceberg_rest_catalog.Verify.{WorkerError}
use iceberg_rest_catalog.Worker.{Settings}
use iceberg_rest_catalog.Worker.Run.{
  ExecutorEnd, finished, was_canceled, raised, ExecutorRun, or_fail, succeed_after, after_run,
  execute_claim,
}
use iceberg_rest_catalog.Worker.Run.Bookkeeping.{
  IsEnded, HasRows, mark_failed-IsEnded, mark_canceled-IsEnded, reported-HasRows,
  mark_verifying-HasRows, mark_succeeded-IsEnded,
}

module _ (int_of_text int_of_real : String → Option ℤ) (describe : WorkerError → String)
    (s : Settings) (env : ℕ → Db → Db) (now operation execution : ℕ)
    (kept : (k : ℕ) (db : Db)
      → HasRows operation execution db
      → HasRows operation execution (env k db)) where
  abbrev Goal : Db → Type 0
  Goal db = IsEnded operation db

  or_fail-IsEnded :
      (k : ℕ) (before : Db) (m : Outcome WorkerError Db)
      → HasRows operation execution before
      → ((db : Db) → m ≡ ok db → Goal db)
      → Goal (or_fail int_of_text int_of_real describe s env now operation execution k before m)
  unfolding or_fail
  or_fail-IsEnded k before (ok db) h good = good db refl
  or_fail-IsEnded k before (err e) h good =
      mark_failed-IsEnded s now operation execution (describe e) (env k before)
        (kept k before h).has_operation

  succeed_after-IsEnded :
      (result : Fields) (before : Db) (m : Outcome WorkerError Db)
      → HasRows operation execution before
      → ((db : Db) → m ≡ ok db → HasRows operation execution db)
      → Goal (
          succeed_after int_of_text int_of_real describe s env now operation execution result before
            m)
  unfolding succeed_after
  succeed_after-IsEnded result before (ok db) h rows =
      let h₂ = kept 2 db (rows db refl) in
      or_fail-IsEnded 3 (env 2 db) _ h₂ (λ db' done.
        mark_succeeded-IsEnded int_of_text int_of_real s now operation execution result (env 2 db)
          db' h₂ done)
  succeed_after-IsEnded result before (err e) h rows =
      mark_failed-IsEnded s now operation execution (describe e) (env 2 before)
        (kept 2 before h).has_operation

  after_run-IsEnded :
      (e : ExecutorEnd) (db : Db)
      → HasRows operation execution db
      → Goal (after_run int_of_text int_of_real describe s env now operation execution e db)
  unfolding after_run
  after_run-IsEnded (finished result) db h =
      let h₁ = kept 1 db h in
      succeed_after-IsEnded result (env 1 db) _ h₁ (λ db' done.
        mark_verifying-HasRows int_of_text int_of_real s now operation execution result (env 1 db)
          db' h₁ done)
  after_run-IsEnded (was_canceled message) db h =
      mark_canceled-IsEnded s now operation execution message (env 1 db) (kept 1 db h).has_operation
  after_run-IsEnded (raised message) db h =
      mark_failed-IsEnded s now operation execution message (env 1 db) (kept 1 db h).has_operation

  -- Whatever the executor returns or raises, and whatever is found in its result, the request of a
  -- claim ends succeeded, failed or canceled, and owns no lock. Other transactions may do anything
  -- in between but delete the two rows of the claim.
  pub execute_claim-IsEnded :
      (run : ExecutorRun) (db : Db)
      → HasRows operation execution db
      → IsEnded operation
          (execute_claim int_of_text int_of_real describe s env now operation execution run db)
  unfolding execute_claim
  execute_claim-IsEnded run db h = after_run-IsEnded run.end_of_run _ (
      reported-HasRows int_of_text int_of_real s now operation execution run.submitted (env 0 db)
        (kept 0 db h))
