-- ===== src/Examples/Traces.antt =====
-- A run of the whole: a request is created, approved by another person, and claimed by the worker.
use iceberg_rest_catalog.Common.{ℕ, String, ◌≡◌, refl, true, false, none, some, [], ◌∷◌, ok}
use iceberg_rest_catalog.Common.Rows.{find, put, add}
use iceberg_rest_catalog.Json.{get}
use iceberg_rest_catalog.Params.{
  validate_parameters, all_known, command_parameters, checked, is_int_between, is_bool,
  engine_capable, command_risk,
}
use iceberg_rest_catalog.Plan.{
  plan_table, int_parameter, estimate, rewrite_estimate, plan_item, qualified_name,
}
use iceberg_rest_catalog.Store.{
  running, approved, few_small_files, never_observed, Operation, PlanItem,
}
use iceberg_rest_catalog.Store.Jobs.{Db, table_row, operation_row, lock_row, execution_row}
use iceberg_rest_catalog.Store.Locks.{Owns, insert_lock}
use iceberg_rest_catalog.Requests.{acquire}
use iceberg_rest_catalog.Requests.Create.{
  RequestCreate, with_key, insert_operation, new_operation, write_creation, create_operation,
}
use iceberg_rest_catalog.Requests.Decide.{
  decision_word, is_waiting, lock_for, decided_row, write_decision, decide_operation,
}
use iceberg_rest_catalog.Worker.{operation_payload}
use iceberg_rest_catalog.Worker.Claim.{
  is_queued, runs_on_spark, in_scope, lock_free_or_own, claimable, oldest, last_attempt,
  engine_named, lock_claimed, new_execution, Claim, start, claim_chosen, claim_operation,
  selectable,
}
use iceberg_rest_catalog.System.{
  Host, System, Step, Reach, here, next, created, decided, claimed, IsCalm, IsCalmRun,
}
use iceberg_rest_catalog.System.Locked.{is_active, is_executing}
use iceberg_rest_catalog.System.Safety.{IsSafe}
use iceberg_rest_catalog.System.Reached.{
  Step-IsSafe, Reach-IsSafe, Reach-exclusive, Reach-claim-Owns,
}
use iceberg_rest_catalog.Examples.{
  orders, wish, plan, lock_by, database, settings, undisturbed, no_number, same_text,
}

abbrev by_reason : RequestCreate → String
by_reason r = r.reason

abbrev host : Host
host = record {
  fingerprint = by_reason;
  bulk_fingerprint = λ r. r.reason;
  item_key = λ k t. k;
  upper = same_text;
  casefold = same_text;
  int_of_text = no_number;
  int_of_real = no_number;
  settings = settings;
}

abbrev empty : System
empty = record { db = database [] [] []; claim = none }

empty-IsSafe : IsSafe empty
unfolding find
empty-IsSafe = record {
  keyed = tt;
  locked = record { held = λ id op f a. cc };
  running = λ o e c. cc;
}

abbrev planned_orders : PlanItem
planned_orders = record plan { warnings = few_small_files ∷ never_observed ∷ [] }

abbrev creation : Operation × Db
creation = write_creation 1 100 none "too many small files" wish orders planned_orders empty.db

wish_created : create_operation by_reason false 1 100 wish none empty.db ≡ ok creation
unfolding create_operation validate_parameters all_known command_parameters checked get
    is_int_between is_bool with_key insert_operation engine_capable command_risk find plan_table
    int_parameter estimate rewrite_estimate plan_item qualified_name
wish_created = refl

abbrev requested : System
requested = record empty { db = creation.1 }

no_request : find 1 empty.db.operations ≡ none
unfolding find
no_request = refl

abbrev creates : Step host empty requested
creates = created false 1 100 wish none no_request wish_created

abbrev decision : Operation × Db
decision = write_decision 110 1 "bob" approved none creation.0 (lock_by 1 ∷ []) requested.db

bob_approves :
    decide_operation same_text same_text false 110 1 "bob" "APPROVED" none requested.db
    ≡ ok decision
unfolding decide_operation write_creation find add new_operation is_waiting decision_word lock_for
    acquire insert_lock
bob_approves = refl

abbrev ready : System
ready = record requested { db = decision.1 }

abbrev approves : Step host requested ready
approves = decided false 110 1 "bob" "APPROVED" none bob_approves

abbrev first_claim : Claim × Db
first_claim = start settings 50 120 decision.0 orders (lock_by 1 ∷ []) ready.db

claims_one :
    claim_operation settings undisturbed 50 120 ready.db ≡ ok (some first_claim.0, first_claim.1)
unfolding claim_operation write_decision write_creation find put add new_operation decided_row
    oldest claimable is_queued runs_on_spark in_scope lock_free_or_own selectable claim_chosen
    lock_claimed start operation_payload new_execution last_attempt engine_named
claims_one = refl

abbrev at_work : System
at_work = record { db = first_claim.1; claim = some (first_claim.0.0, first_claim.0.1) }

no_execution : find 50 ready.db.executions ≡ none
unfolding find write_decision write_creation
no_execution = refl

abbrev claims : Step host ready at_work
claims = claimed undisturbed 50 120 refl no_execution claims_one

abbrev run : Reach host empty at_work
run = next (next (next here creates) approves) claims

run-IsCalm : IsCalmRun run
unfolding IsCalmRun IsCalm
run-IsCalm = (((tt, tt), tt), λ locks. refl)

ready-IsSafe : IsSafe ready
unfolding IsCalmRun IsCalm
ready-IsSafe =
    Reach-IsSafe host empty ready (next (next here creates) approves) ((tt, tt), tt) empty-IsSafe

Step-IsSafe_example : IsSafe at_work
unfolding IsCalm
Step-IsSafe_example = Step-IsSafe host ready at_work claims (λ locks. refl) ready-IsSafe

request_found :
    find 1 at_work.db.operations ≡ some (record decision.0 { state = running; updated_at = 120 })
unfolding start write_decision write_creation find put add decided_row new_operation
request_found = refl

Reach-exclusive_example : ◌≡◌ {A = ℕ} 1 1
unfolding is_active
Reach-exclusive_example =
    Reach-exclusive host empty at_work 1 1 (record decision.0 { state = running; updated_at = 120 })
      (record decision.0 { state = running; updated_at = 120 }) empty-IsSafe run run-IsCalm
      request_found request_found refl refl refl

claim_is_one : at_work.claim ≡ some (1, 50)
unfolding start write_decision decided_row write_creation new_operation
claim_is_one = refl

Reach-claim-Owns_example :
    (x : Operation) × (find 1 at_work.db.operations ≡ some x)
    × (is_executing x.state ≡ true)
    × Owns at_work.db.locks 1 x.table_id
Reach-claim-Owns_example =
    Reach-claim-Owns host empty at_work 1 50 empty-IsSafe run run-IsCalm claim_is_one
