-- ===== src/Runner/Execute/Guarded.antt =====
-- What a request to the runner has passed when it is answered with a result.
use iceberg_rest_catalog.Common.{ℕ, ◌≡◌, String, sym, ap, ◌∙◌, Option, some, ok}
use iceberg_rest_catalog.Common.Effects.{and_then-eq-ok}
use iceberg_rest_catalog.Json.{Fields, Items, int, text, arr, obj, get, get_null}
use iceberg_rest_catalog.Common.Int.{ℤ}
use iceberg_rest_catalog.Sql.Runner.{OperationExecuteRequest, procedure_sql}
use iceberg_rest_catalog.Runner.{Runner, SparkApi}
use iceberg_rest_catalog.Runner.Session.{get_spark}
use iceberg_rest_catalog.Runner.Catalogs.{configure_hadoop_catalog}
use iceberg_rest_catalog.Runner.Execute.{
  verify_operation_token, result_of, execute_on, execute_call, refused_call, checked_call,
  execute_operation,
}
use iceberg_rest_catalog.Runner.Execute.Inversion.{
  token-eq, refused_call-ok, expected_snapshot, table_of, grouped, call_on-eq-ok, run_call-eq-ok,
  checked_call-eq-ok,
}

module _ (timestamp_before : ℕ → String) (urlparse : String → String × String)
    (lower : String → String) {S W : Type 0} (spark : SparkApi S W) (duration_ms : ℕ) where
  -- The world and the values that a request has gone through when it is answered.
  pub record IsGuarded (expected_token : String) (request : OperationExecuteRequest)
      (token : Option String) (r : Runner S W) (result : Fields) : Type 0 where
    pub token_right : token ≡ some expected_token
    pub sql : String
    pub call_accepted : procedure_sql timestamp_before request ≡ ok sql
    pub session : S
    pub served : (get_spark spark r).0 ≡ ok session
    pub world : W
    pub before : Fields
    pub read_before : (spark.table_state session (table_of request) world).0 ≡ ok before
    pub unchanged :
        (expected : ℤ)
        → request.expected_snapshot_id ≡ some expected
        → get_null "snapshot_id" before ≡ int expected
    pub output : Items
    pub ran :
        (spark.run_sql session sql 1000 (
          grouped timestamp_before urlparse lower spark duration_ms session request
            (table_of request)
            (spark.table_state session (table_of request) world).1)).0
        ≡ ok output
    pub after : Fields
    pub read_after :
        (spark.table_state session
          (table_of request)
          (spark.run_sql session sql 1000 (
            grouped timestamp_before urlparse lower spark duration_ms session request
              (table_of request)
              (spark.table_state session (table_of request) world).1)).1).0
        ≡ ok after
    pub reported_before : get "before" result ≡ some (obj before)
    pub reported_after : get "after" result ≡ some (obj after)
    pub reported_output : get "output" result ≡ some (arr output)
    pub reported_table : get "table" result ≡ some (text (table_of request))
    pub reported_command : get "command" result ≡ some (text (request.command))
    pub reported_request : get "operation_id" result ≡ some (text (request.operation_id))

  -- When a request is answered with a result: it came with the runner's token; its call was accepted;
  -- the session is the one that `get_spark` gave out; the state of the request's table was read, and had
  -- the snapshot that the request expected, if it expected one; the call was then run under the
  -- request's job group, and the state read again; and the result reports the first state as that
  -- before, the second as that after, what the call returned, and the request.
  pub execute_operation-IsGuarded :
      (expected_token : String) (request : OperationExecuteRequest) (token : Option String)
      (r : Runner S W) (result : Fields)
      → (execute_operation timestamp_before urlparse lower spark duration_ms expected_token request
          token r).0
        ≡ ok result
      → IsGuarded expected_token request token r result
  unfolding execute_operation execute_call execute_on result_of get
  execute_operation-IsGuarded expected_token request token r result h =
      let (u, verified, h1) = and_then-eq-ok (verify_operation_token expected_token token, r) _ h in
      let ((sql, catalog, full_table), accepted, h2) =
        and_then-eq-ok
          (refused_call (checked_call timestamp_before urlparse lower spark duration_ms request), r)
          _ h1 in
      let (session, served, h3) = and_then-eq-ok (get_spark spark r) _ h2 in
      let (configured, set, h4) =
        and_then-eq-ok
          (configure_hadoop_catalog urlparse lower spark session catalog (request.warehouse)
            (get_spark spark r).1.world)
          _ h3 in
      let w =
        (configure_hadoop_catalog urlparse lower spark session catalog (request.warehouse)
          (get_spark spark r).1.world).1 in
      let (before, read, h5) = and_then-eq-ok (spark.table_state session full_table w) _ h4 in
      let (differs, (output, after), ran, answer) =
        call_on-eq-ok timestamp_before urlparse lower spark duration_ms session request sql
          full_table before _ result h5 in
      let (called, named) =
        checked_call-eq-ok timestamp_before urlparse lower spark duration_ms request sql catalog
          full_table (refused_call-ok _ accepted) in
      let (ran', read_after) =
        run_call-eq-ok timestamp_before urlparse lower spark duration_ms session sql full_table _
          output after ran in
      record {
        token_right = token-eq expected_token token verified;
        sql = sql;
        call_accepted = called;
        session = session;
        served = served;
        world = w;
        before = before;
        read_before = rw (sym named) read;
        unchanged = λ expected e.
            expected_snapshot (request.expected_snapshot_id) before differs expected e;
        output = output;
        ran = rw (sym named) ran';
        after = after;
        read_after = rw (sym named) read_after;
        reported_before = ap (get "before") answer;
        reported_after = ap (get "after") answer;
        reported_output = ap (get "output") answer;
        reported_table = ap (get "table") answer ∙ ap (λ t. some (text t)) named;
        reported_command = ap (get "command") answer;
        reported_request = ap (get "operation_id") answer;
      }
