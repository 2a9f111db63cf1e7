-- ===== src/Examples/Executions.antt =====
-- Examples of the worker: a claim, the verification of a result, the end of an execution, a recovery.
use iceberg_rest_catalog.Common.{
  keep, ap, true, ℕ, ◌+◌, ◌≤◌, String, ◌≡◌, ◌≢◌, ◌⊎◌, inl, false, refl, none, some, [], ◌∷◌, ok,
  All,
}
use iceberg_rest_catalog.Common.Rows.{find, IsKeyed}
use iceberg_rest_catalog.Json.{Fields, get, get_null, is_null, as_fields}
use iceberg_rest_catalog.Json.Equality.{eq_value, as_number}
use iceberg_rest_catalog.Params.{rewrite_data_files}
use iceberg_rest_catalog.Store.{
  queued, running, succeeded, ManagedTable, Operation, Execution, TableLock,
}
use iceberg_rest_catalog.Store.Jobs.{Db, table_row, operation_row, execution_row, lock_row}
use iceberg_rest_catalog.Store.Locks.{Owns}
use iceberg_rest_catalog.Verify.{WorkerError, verify_result, to_int}
use iceberg_rest_catalog.Verify.Sound.{IsVerified, verify-IsVerified}
use iceberg_rest_catalog.Worker.{operation_payload}
use iceberg_rest_catalog.Worker.Claim.{
  is_queued, runs_on_spark, in_scope, lock_free_or_own, claimable, oldest, last_attempt,
  engine_named, lock_claimed, new_execution, Claim, start, claim_chosen, claim_operation,
  selectable,
}
use iceberg_rest_catalog.Worker.Claim.Chosen.{IsClaimable, claim-IsClaimable, claim_oldest}
use iceberg_rest_catalog.Worker.Marks.{mark_succeeded, observed, observe, write_success}
use iceberg_rest_catalog.Worker.Marks.Verified.{mark_succeeded-IsVerified}
use iceberg_rest_catalog.Worker.Recover.{recover_stale_executions}
use iceberg_rest_catalog.Worker.Recover.{is_foreign}
use iceberg_rest_catalog.Worker.Recover.Steps.{IsHandled}
use iceberg_rest_catalog.Worker.Recover.Handled.{recover-IsHandled}
use iceberg_rest_catalog.Worker.Run.{ExecutorRun, finished, execute_claim}
use iceberg_rest_catalog.Worker.Run.Bookkeeping.{IsEnded, HasRows}
use iceberg_rest_catalog.Worker.Run.Ends.{execute_claim-IsEnded}
use iceberg_rest_catalog.Examples.{
  orders, parameters, request_in, lock_by, attempt_in, database, settings, undisturbed, no_number,
  good_result,
}

abbrev queued_db : Db
queued_db = database (request_in queued ∷ []) (lock_by 1 ∷ []) []

abbrev started : Claim × Db
started = start settings 50 120 (request_in queued) orders (lock_by 1 ∷ []) queued_db

claims_one : claim_operation settings undisturbed 50 120 queued_db ≡ ok (some started.0, started.1)
unfolding claim_operation oldest claimable is_queued runs_on_spark in_scope lock_free_or_own find
    selectable claim_chosen lock_claimed start operation_payload new_execution last_attempt
    engine_named
claims_one = refl

one-IsKeyed : IsKeyed queued_db.operations
unfolding find
one-IsKeyed = (refl, tt)

unused_execution : find 50 queued_db.executions ≡ none
unfolding find
unused_execution = refl

claim-IsClaimable_example :
    (op : Operation) × (find started.0.0 queued_db.operations ≡ some op)
    × IsClaimable settings undisturbed queued_db op
    × (find started.0.0 started.1.operations
        ≡ some (record op { state = running; updated_at = 120 }))
    × (Owns started.1.locks started.0.0 op.table_id
        ⊎ ((l : TableLock) × (find op.table_id (undisturbed.committed queued_db.locks) ≡ some l)
            × (l.operation_request_id ≢ op.id)))
    × ((x : Execution) × (find started.0.1 started.1.executions ≡ some x)
        × (x.operation_request_id ≡ started.0.0)
        × (x.state ≡ running)
        × (x.attempt ≡ last_attempt started.0.0 queued_db.executions + 1)
        × (x.planned_snapshot_id ≡ op.planned_snapshot_id))
claim-IsClaimable_example =
    claim-IsClaimable settings undisturbed 50 120 queued_db started.0 started.1 one-IsKeyed
      unused_execution claims_one

claim_oldest_example :
    (op : Operation) × (find started.0.0 queued_db.operations ≡ some op)
    × All
        (λ o. op.created_at ≤ o.created_at)
        (keep (selectable settings undisturbed queued_db) queued_db.operations)
claim_oldest_example =
    claim_oldest settings undisturbed 50 120 queued_db started.0 started.1 one-IsKeyed claims_one

result_good : verify_result no_number no_number rewrite_data_files good_result parameters ≡ ok tt
unfolding verify_result get_null get is_null as_fields eq_value to_int as_number
result_good = refl

verify-IsVerified_example :
    (before after : Fields) × (as_fields (get_null "before" good_result) ≡ some before)
    × (as_fields (get_null "after" good_result) ≡ some after)
    × IsVerified no_number no_number rewrite_data_files before after parameters
verify-IsVerified_example =
    verify-IsVerified no_number no_number rewrite_data_files good_result parameters result_good

abbrev running_db : Db
running_db = database (request_in running ∷ []) (lock_by 1 ∷ []) (attempt_in running ∷ [])

abbrev run_well : ExecutorRun
run_well = record { submitted = some "batch-9"; end_of_run = finished good_result }

both_rows : HasRows 1 50 running_db
unfolding find
both_rows = record { has_operation = λ e. cc; has_execution = λ e. cc }

abbrev nothing_else : ℕ → Db → Db
nothing_else k db = db

rows_kept : (k : ℕ) (db : Db) → HasRows 1 50 db → HasRows 1 50 (nothing_else k db)
rows_kept k db h = h

abbrev message : WorkerError → String
message e = "failed"

execute_claim-IsEnded_example :
    IsEnded 1
      (execute_claim no_number no_number message settings nothing_else 130 1 50 run_well running_db)
execute_claim-IsEnded_example =
    execute_claim-IsEnded no_number no_number message settings nothing_else 130 1 50 rows_kept
      run_well running_db both_rows

abbrev seen_orders : ManagedTable
seen_orders = record orders {
  current_snapshot_id = some 41;
  total_files = 3;
  observed_at = some 130;
}

abbrev done_db : Db
done_db =
    write_success settings 130 (request_in running) (attempt_in running) seen_orders running_db

run_succeeds :
    mark_succeeded no_number no_number settings 130 1 50 good_result running_db ≡ ok done_db
unfolding mark_succeeded find verify_result get_null get is_null as_fields eq_value to_int as_number
    observed observe
run_succeeds = refl

execution_found : find 50 running_db.executions ≡ some (attempt_in running)
unfolding find
execution_found = refl

request_found : find 1 running_db.operations ≡ some (request_in running)
unfolding find
request_found = refl

mark_succeeded-IsVerified_example :
    ((before after : Fields) × (as_fields (get_null "before" good_result) ≡ some before)
      × (as_fields (get_null "after" good_result) ≡ some after)
      × IsVerified no_number no_number rewrite_data_files before after parameters)
    × ((op' : Operation) × (find 1 done_db.operations ≡ some op') × (op'.state ≡ succeeded))
    × ((table : ℕ) → ¬ Owns done_db.locks 1 table)
mark_succeeded-IsVerified_example =
    mark_succeeded-IsVerified no_number no_number settings 130 1 50 good_result running_db done_db
      (attempt_in running) (request_in running) execution_found request_found run_succeeds

-- The execution of a worker that is gone.
abbrev foreign : Execution
foreign = record (attempt_in running) { worker_id = some "worker-0" }

abbrev left_db : Db
left_db = database (request_in running ∷ []) (lock_by 1 ∷ []) (foreign ∷ [])

not_mine : foreign.worker_id ≢ some settings.worker_id
unfolding is_foreign
not_mine same = let e : true ≡ false = ap (is_foreign settings) same in cc e

foreign_found : find 50 left_db.executions ≡ some foreign
unfolding find
foreign_found = refl

left-IsKeyed : IsKeyed left_db.executions
unfolding find
left-IsKeyed = (refl, tt)

recover-IsHandled_example :
    IsHandled settings 140 foreign (recover_stale_executions settings 140 left_db)
recover-IsHandled_example =
    recover-IsHandled settings 140 left_db foreign left-IsKeyed foreign_found (inl refl) not_mine
