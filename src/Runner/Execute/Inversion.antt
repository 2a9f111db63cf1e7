-- ===== src/Runner/Execute/Inversion.antt =====
-- What the steps of `execute_operation` have passed when they end with a result.
use Prim.Native.String.{◌++◌ as ◌+++◌}
use iceberg_rest_catalog.Common.{
  ℕ, ◌≡◌, String, true, false, sym, ap, ◌∙◌, >>=-eq-ok, Option, none, some, Outcome, ok, err, arith,
  eq_iff,
}
use iceberg_rest_catalog.Common.Effects.{and_then-eq-ok, guard-eq-ok}
use iceberg_rest_catalog.Json.{
  Value, Fields, Items, null, bool, int, real, text, arr, obj, get_null,
}
use iceberg_rest_catalog.Common.Int.{ℤ, pos, negsuc, eq_ℤ}
use iceberg_rest_catalog.Sql.Agrees.{
  identifier-same, identifier-agrees, namespace_identifier-same, namespace_identifier-agrees,
}
use iceberg_rest_catalog.Sql.{BadCall}
use iceberg_rest_catalog.Sql.Runner.{
  OperationExecuteRequest, procedure_sql, identifier, namespace_identifier,
}
use iceberg_rest_catalog.Runner.{SparkApi, snapshot_changed}
use iceberg_rest_catalog.Runner.Execute.{
  verify_operation_token, snapshot_differs, is_snapshot, run_call, result_of, call_on, refused_call,
  checked_call,
}

pub token-eq :
    (expected : String) (token : Option String)
    → verify_operation_token expected token ≡ ok tt
    → token ≡ some expected
unfolding verify_operation_token
token-eq expected none h = cc
token-eq expected (some given) h = ground (arith, eq_iff given expected)

pub refused_call-ok :
    {A : Type 0} (m : Outcome BadCall A) {a : A} → refused_call m ≡ ok a → m ≡ ok a
refused_call-ok (ok a) h = ground (arith, h)
refused_call-ok (err e) h = cc

eq_ℤ-eq : (a b : ℤ) → eq_ℤ a b ≡ true → a ≡ b
eq_ℤ-eq (pos a) (pos b) h = ground arith
eq_ℤ-eq (negsuc a) (negsuc b) h = ground arith
eq_ℤ-eq (pos a) (negsuc b) h = cc
eq_ℤ-eq (negsuc a) (pos b) h = cc

is_snapshot-eq : (expected : ℤ) (v : Value) → is_snapshot expected v ≡ true → v ≡ int expected
unfolding is_snapshot
is_snapshot-eq expected null h = cc
is_snapshot-eq expected (bool b) h = cc
is_snapshot-eq expected (int n) h = ap int (eq_ℤ-eq n expected h)
is_snapshot-eq expected (real x) h = cc
is_snapshot-eq expected (text x) h = cc
is_snapshot-eq expected (arr x) h = cc
is_snapshot-eq expected (obj x) h = cc

-- `f"{catalog}.{namespace}.{table}"`
abbrev pub table_of : OperationExecuteRequest → String
table_of request = request.catalog +++ "." +++ request.namespace_name +++ "." +++ request.table

pub expected_snapshot :
    (wanted : Option ℤ) (before : Fields)
    → snapshot_differs wanted before ≡ false
    → (expected : ℤ) → wanted ≡ some expected
    → get_null "snapshot_id" before ≡ int expected
unfolding snapshot_differs
expected_snapshot none before h expected e = cc
expected_snapshot (some a) before h expected e =
    let same : a ≡ expected = ground arith in
    rw (sym same) (is_snapshot-eq a (get_null "snapshot_id" before) (ground arith))

module _ (timestamp_before : ℕ → String) (urlparse : String → String × String)
    (lower : String → String) {S W : Type 0} (spark : SparkApi S W) (duration_ms : ℕ) where
  -- The world in which the call runs.
  abbrev pub grouped : S → OperationExecuteRequest → (full_table : String) → W → W
  grouped session request full_table w =
      spark.set_job_group session (request.operation_id)
        ("Iceberg Ops " +++ request.command +++ " on " +++ full_table) w

  pub call_on-eq-ok :
      (session : S) (request : OperationExecuteRequest) (sql full_table : String) (before : Fields)
      (w : W) (result : Fields)
      → (call_on timestamp_before urlparse lower spark duration_ms session request sql full_table
          before w).0
        ≡ ok result
      → (snapshot_differs (request.expected_snapshot_id) before ≡ false)
        × (ended : Items × Fields) × ((run_call timestamp_before urlparse lower spark duration_ms
              session sql full_table
              (grouped session request full_table w)).0
            ≡ ok ended)
        × (result
            ≡ result_of timestamp_before urlparse lower spark duration_ms request sql full_table
                before ended)
  unfolding call_on
  call_on-eq-ok session request sql full_table before w result h =
      let (same, went) =
        guard-eq-ok (snapshot_differs (request.expected_snapshot_id) before) snapshot_changed w _
          h in
      let (ended, ran, answer) =
        and_then-eq-ok
          (run_call timestamp_before urlparse lower spark duration_ms session sql full_table
            (grouped session request full_table w))
          _ went in
      (same, ended, ran, ground (arith, answer))

  pub run_call-eq-ok :
      (session : S) (sql full_table : String) (w : W) (output : Items) (after : Fields)
      → (run_call timestamp_before urlparse lower spark duration_ms session sql full_table w).0
        ≡ ok (output, after)
      → ((spark.run_sql session sql 1000 w).0 ≡ ok output)
        × ((spark.table_state session full_table (spark.run_sql session sql 1000 w).1).0 ≡ ok after)
  unfolding run_call
  run_call-eq-ok session sql full_table w output after h =
      let (rows, ran, h1) = and_then-eq-ok (spark.run_sql session sql 1000 w) _ h in
      let (state, read, h2) =
        and_then-eq-ok (spark.table_state session full_table (spark.run_sql session sql 1000 w).1) _
          h1 in
      (ground (arith, ran, h2), ground (arith, read, h2))

  pub checked_call-eq-ok :
      (request : OperationExecuteRequest) (sql catalog full_table : String)
      → checked_call timestamp_before urlparse lower spark duration_ms request
        ≡ ok (sql, catalog, full_table)
      → (procedure_sql timestamp_before request ≡ ok sql) × (full_table ≡ table_of request)
  unfolding checked_call
  checked_call-eq-ok request sql catalog full_table h =
      let (q, called, h1) = >>=-eq-ok (procedure_sql timestamp_before request) _ h in
      let (c, is_c, h2) = >>=-eq-ok (identifier (request.catalog)) _ h1 in
      let (n, is_n, h3) = >>=-eq-ok (namespace_identifier (request.namespace_name)) _ h2 in
      let (t, is_t, h4) = >>=-eq-ok (identifier (request.table)) _ h3 in
      let same_c =
        identifier-same (request.catalog) (sym (identifier-agrees (request.catalog)) ∙ is_c) in
      let same_n =
        namespace_identifier-same (request.namespace_name)
          (sym (namespace_identifier-agrees (request.namespace_name)) ∙ is_n) in
      let same_t =
        identifier-same (request.table) (sym (identifier-agrees (request.table)) ∙ is_t) in
      (ground (arith, called, h4), ground (arith, h4, same_c, same_n, same_t))
