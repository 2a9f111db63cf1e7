-- ===== src/Requests/Create/Inversion.antt =====
-- What `create_operation` has found when it commits.
use iceberg_rest_catalog.Common.{
  ℕ, String, ◌≡◌, ◌⊎◌, inl, inr, refl, Bool, true, false, Option, none, some, ok, arith, not,
  or_raise, raise_if, >>=-eq-ok, is_none, if◌then◌else◌, Option-cases,
}
use iceberg_rest_catalog.Common.Rows.{find}
use iceberg_rest_catalog.Params.{engine_capable}
use iceberg_rest_catalog.Store.{ManagedTable, PlanItem, Operation}
use iceberg_rest_catalog.Store.Jobs.{Db, table_row, operation_row}
use iceberg_rest_catalog.Requests.{
  table_not_found, not_supported, not_executable, integrity_error, validated, planned,
}
use iceberg_rest_catalog.Requests.Create.{
  RequestCreate, with_key, insert_operation, answer_existing, write_creation, create_operation,
}
use iceberg_rest_catalog.Requests.Decide.Inversion.{found_row, raised_nothing}

-- A request was inserted.
pub record Inserted (fresh now : ℕ) (key : Option String) (fingerprint : String)
    (request : RequestCreate) (db : Db) (result : Operation × Db) : Type 0 where
  pub table : ManagedTable
  pub plan : PlanItem
  pub has_table : find request.table_id db.tables ≡ some table
  pub capable : engine_capable request.preferred_engine request.command ≡ true
  pub has_plan : planned table request.command request.parameters ≡ ok plan
  pub executable : plan.executable ≡ true
  pub free_key : with_key key db.operations ≡ none
  pub written : result ≡ write_creation fresh now key fingerprint request table plan db

not-false : (b : Bool) → not b ≡ false → b ≡ true
not-false b h = ground arith

is_none-none {ℓ} : {A : Type ℓ} (o : Option A) → not (is_none o) ≡ false → o ≡ none
is_none-none none h = refl
is_none-none (some a) h = cc

pub insert-Inserted :
    (fresh now : ℕ) (key : Option String) (fingerprint : String) (request : RequestCreate) (db : Db)
    (result : Operation × Db)
    → insert_operation fresh now key fingerprint request db ≡ ok result
    → Inserted fresh now key fingerprint request db result
unfolding insert_operation
insert-Inserted fresh now key fingerprint request db result h =
    let (table, t, h₁) =
      >>=-eq-ok (or_raise (find request.table_id db.tables) table_not_found) _ h in
    let (_, c, h₂) =
      >>=-eq-ok
        (raise_if (not (engine_capable request.preferred_engine request.command)) not_supported) _
        h₁ in
    let (plan, p, h₃) = >>=-eq-ok (planned table request.command request.parameters) _ h₂ in
    let (_, x, h₄) = >>=-eq-ok (raise_if (not plan.executable) not_executable) _ h₃ in
    let (_, k, h₅) =
      >>=-eq-ok (raise_if (not (is_none (with_key key db.operations))) integrity_error) _ h₄ in
    record {
      table = table;
      plan = plan;
      has_table = found_row _ table_not_found t;
      capable = not-false _ (raised_nothing _ not_supported c);
      has_plan = p;
      executable = not-false _ (raised_nothing _ not_executable x);
      free_key = is_none-none _ (raised_nothing _ integrity_error k);
      written = cc h₅;
    }

-- A creation that commits found the request that its key names, or inserted one.
pub create_cases :
    (fingerprint_of : RequestCreate → String) (raced : Bool) (fresh now : ℕ)
    (request : RequestCreate) (key : Option String) (db : Db) (result : Operation × Db)
    → create_operation fingerprint_of raced fresh now request key db ≡ ok result
    → (result.1 ≡ db) ⊎ Inserted fresh now key (fingerprint_of request) request db result
unfolding create_operation answer_existing
create_cases fingerprint_of raced fresh now request key db result h =
    let (_, v, h₁) = >>=-eq-ok (validated request.command request.parameters) _ h in
    elim (Option-cases (if raced then none else with_key key db.operations)) [
      | inl free ↦
          inr (
            insert-Inserted fresh now key (fingerprint_of request) request db result (ground arith))
      | inr (existing, found) ↦ inl (ground arith)
    ]
