-- ===== src/Examples/Services.antt =====
-- Examples of the services on requests.
use iceberg_rest_catalog.Common.{
  ℕ, ◌+◌, String, ◌≡◌, ◌≢◌, ◌⊎◌, ◌↔◌, inl, inr, refl, true, false, none, some, [], ◌∷◌, ok, err,
  arith, ◌=ₛ◌,
}
use iceberg_rest_catalog.Common.Rows.{find, add}
use iceberg_rest_catalog.Json.{get}
use iceberg_rest_catalog.Params.{
  rewrite_data_files, all_known, command_parameters, checked, is_int_between, is_bool,
  validate_parameters,
}
use iceberg_rest_catalog.Store.{
  waiting_approval, queued, running, cancel_requested, succeeded, failed, rejected, canceled,
  approved, State, Operation, ManagedTable, TableLock,
}
use iceberg_rest_catalog.Store.Jobs.{Db, table_row, operation_row, lock_row}
use iceberg_rest_catalog.Store.Locks.{Owns, insert_lock}
use iceberg_rest_catalog.Requests.{
  lock_owned, not_waiting, self_approval, version_changed, already_terminal, key_reused, acquire,
}
use iceberg_rest_catalog.Requests.Create.{
  RequestCreate, with_key, answer_existing, create_operation,
}
use iceberg_rest_catalog.Requests.Create.Idempotent.{create-repeat, create-key_reused}
use iceberg_rest_catalog.Requests.Decide.{
  decision_word, is_waiting, is_failed, lock_for, write_decision, decide_operation, write_retry,
  retry_operation,
}
use iceberg_rest_catalog.Requests.Decide.Effects.{
  LocksDecided, decide_committed, decide_approval, decide_locked, decide_refused, retry_committed,
}
use iceberg_rest_catalog.Requests.Cancel.{version_differs, cancel_operation}
use iceberg_rest_catalog.Requests.Cancel.Effects.{cancel_unbegun, cancel_begun, cancel_refused}
use iceberg_rest_catalog.Examples.{
  orders, parameters, wish, request_in, lock_by, database, same_text,
}

abbrev waiting_db : Db
waiting_db = database (request_in waiting_approval ∷ []) [] []

abbrev approved_result : Operation × Db
approved_result =
    write_decision 110 1 "bob" approved none (request_in waiting_approval) (lock_by 1 ∷ [])
      waiting_db

bob_approves :
    decide_operation same_text same_text false 110 1 "bob" "APPROVED" none waiting_db
    ≡ ok approved_result
unfolding decide_operation find is_waiting decision_word lock_for acquire insert_lock add
bob_approves = refl

decide_committed_example :
    (op : Operation) × (find 1 waiting_db.operations ≡ some op)
    × (op.state ≡ waiting_approval)
    × ((same_text op.requester =ₛ same_text "bob") ≡ false)
    × (find 1 approved_result.1.operations ≡ some approved_result.0)
    × (approved_result.0.version ≡ op.version + 1)
    × LocksDecided waiting_db approved_result.1 1 op approved_result.0.state
decide_committed_example =
    decide_committed same_text same_text false 110 1 "bob" "APPROVED" none waiting_db
      approved_result.0 approved_result.1 bob_approves

one_found : find 1 waiting_db.operations ≡ some (request_in waiting_approval)
unfolding find
one_found = refl

approved_word : decision_word "APPROVED" ≡ some approved
unfolding decision_word
approved_word = refl

no_lock : find {A = TableLock} 7 [] ≡ none
unfolding find
no_lock = refl

decide_approval_example :
    (result : Operation × Db) × (decide_operation same_text same_text false 110 1 "bob" "APPROVED"
        none waiting_db
      ≡ ok result)
    × (result.0.state ≡ queued)
decide_approval_example =
    decide_approval same_text same_text 110 1 "bob" "APPROVED" none waiting_db
      (request_in waiting_approval) one_found refl refl approved_word no_lock refl

abbrev taken_db : Db
taken_db = database (request_in waiting_approval ∷ []) (lock_by 2 ∷ []) []

other_lock : find 7 taken_db.locks ≡ some (lock_by 2)
unfolding find
other_lock = refl

two_not_one : ◌≢◌ {A = ℕ} 2 1
two_not_one e = omega arith

decide_locked_example :
    decide_operation same_text same_text false 110 1 "bob" "APPROVED" none taken_db ≡ err lock_owned
decide_locked_example =
    decide_locked same_text same_text false 110 1 "bob" "APPROVED" none taken_db
      (request_in waiting_approval) (lock_by 2) one_found refl refl approved_word other_lock
      two_not_one

decide_refused_example :
    ((decide_operation same_text same_text false 110 1 "ann" "APPROVED" none waiting_db
        ≡ err not_waiting)
      ↔ (◌≢◌ {A = State} waiting_approval waiting_approval))
    × ((decide_operation same_text same_text false 110 1 "ann" "APPROVED" none waiting_db
          ≡ err self_approval)
        ↔ (◌≡◌ {A = State} waiting_approval waiting_approval
            × ((same_text "ann" =ₛ same_text "ann") ≡ true)))
decide_refused_example =
    decide_refused same_text same_text false 110 1 "ann" "APPROVED" none waiting_db
      (request_in waiting_approval) one_found

abbrev failed_db : Db
failed_db = database (request_in failed ∷ []) [] []

abbrev retried_result : Operation × Db
retried_result = write_retry 110 1 "bob" (request_in failed) orders (lock_by 1 ∷ []) failed_db

bob_retries : retry_operation false 110 1 "bob" failed_db ≡ ok retried_result
unfolding retry_operation find is_failed acquire insert_lock add
bob_retries = refl

retry_committed_example :
    (op : Operation) × (table : ManagedTable) × (find 1 failed_db.operations ≡ some op)
    × (op.state ≡ failed)
    × (find op.table_id failed_db.tables ≡ some table)
    × (find 1 retried_result.1.operations ≡ some retried_result.0)
    × (retried_result.0.state ≡ queued)
    × (retried_result.0.planned_snapshot_id ≡ table.current_snapshot_id)
    × (retried_result.0.cancellation_requested_at ≡ none)
    × Owns retried_result.1.locks 1 op.table_id
retry_committed_example =
    retry_committed false 110 1 "bob" failed_db retried_result.0 retried_result.1 bob_retries

abbrev queued_db : Db
queued_db = database (request_in queued ∷ []) (lock_by 1 ∷ []) []

queued_found : find 1 queued_db.operations ≡ some (request_in queued)
unfolding find
queued_found = refl

cancel_unbegun_example :
    (op' : Operation) × (db' : Db) × (cancel_operation 110 1 "ann" (some 1) queued_db
      ≡ ok (op', db'))
    × (find 1 db'.operations ≡ some op')
    × (op'.state ≡ canceled)
    × (op'.version ≡ 1 + 1)
    × ((table : ℕ) → ¬ Owns db'.locks 1 table)
cancel_unbegun_example =
    cancel_unbegun 110 1 "ann" (some 1) queued_db (request_in queued) queued_found (inr refl) refl

abbrev running_db : Db
running_db = database (request_in running ∷ []) (lock_by 1 ∷ []) []

running_found : find 1 running_db.operations ≡ some (request_in running)
unfolding find
running_found = refl

cancel_begun_example :
    (op' : Operation) × (db' : Db) × (cancel_operation 110 1 "ann" none running_db ≡ ok (op', db'))
    × (find 1 db'.operations ≡ some op')
    × (op'.state ≡ cancel_requested)
    × (op'.version ≡ 1 + 1)
    × (db'.locks ≡ running_db.locks)
cancel_begun_example =
    cancel_begun 110 1 "ann" none running_db (request_in running) running_found (inl refl) refl

cancel_refused_example :
    ((cancel_operation 110 1 "ann" (some 3) running_db ≡ err version_changed)
      ↔ (version_differs 1 (some 3) ≡ true))
    × ((cancel_operation 110 1 "ann" (some 3) running_db ≡ err already_terminal) ↔ (
        (version_differs 1 (some 3) ≡ false)
        × ((◌≡◌ {A = State} running succeeded)
            ⊎ (◌≡◌ {A = State} running failed)
            ⊎ (◌≡◌ {A = State} running rejected))))
cancel_refused_example =
    cancel_refused 110 1 "ann" (some 3) running_db (request_in running) running_found

abbrev by_reason : RequestCreate → String
by_reason r = r.reason

-- The request was committed before, with the key and its fingerprint.
abbrev stored : Operation
stored = record (request_in waiting_approval) { request_fingerprint = some "too many small files" }

abbrev stored_db : Db
stored_db = database (stored ∷ []) [] []

found_again :
    create_operation by_reason false 2 120 wish (some "k1") stored_db ≡ ok (stored, stored_db)
unfolding create_operation validate_parameters all_known command_parameters checked get
    is_int_between is_bool with_key answer_existing
found_again = refl

create-repeat_example :
    create_operation by_reason false 3 130 wish (some "k1") stored_db ≡ ok (stored, stored_db)
create-repeat_example =
    create-repeat by_reason false 2 120 3 130 wish "k1" stored_db stored stored_db found_again

abbrev other_wish : RequestCreate
other_wish = record wish { reason = "another reason" }

wish_valid : validate_parameters rewrite_data_files parameters ≡ ok tt
unfolding validate_parameters all_known command_parameters checked get is_int_between is_bool
wish_valid = refl

other_fingerprint : by_reason wish ≢ by_reason other_wish
other_fingerprint e = cc

create-key_reused_example :
    create_operation by_reason false 3 130 other_wish (some "k1") stored_db ≡ err key_reused
create-key_reused_example =
    create-key_reused by_reason false 2 120 3 130 wish other_wish "k1" stored_db stored stored_db
      found_again wish_valid other_fingerprint
