-- ===== src/Runner/Inspect.antt =====
-- The other requests of playground/spark/app/main.py that run on the session: `query`, `inspect_table` and
-- `inspect_tables`.
use Prim.Native.String.{◌++◌ as ◌+++◌}
use iceberg_rest_catalog.Common.{
  ℕ, zero, suc, ◌+◌, ◌≡◌, String, Bool, not, List, [], ◌∷◌, Outcome, ok, err, refl, arith, ltb,
  length, keep, ◌=ₛ◌,
}
use iceberg_rest_catalog.Common.Effects.{Run, ◌>>=◌, lift, return}
use iceberg_rest_catalog.Json.{Fields, Items, nil, cons}
use iceberg_rest_catalog.Params.{length_items}
use iceberg_rest_catalog.Sql.Runner.{identifier, identifiers, namespace_identifier}
use iceberg_rest_catalog.Runner.{Runner, SparkApi, RunnerError, in_world}
use iceberg_rest_catalog.Runner.Session.{get_spark}
use iceberg_rest_catalog.Runner.Catalogs.{configure_hadoop_catalog}
use iceberg_rest_catalog.Runner.Execute.{refused_call}

unfoldable pub take_items : ℕ → Items → Items
take_items zero rows = nil
take_items (suc n) nil = nil
take_items (suc n) (cons row rows) = cons row (take_items n rows)

pub record QueryAnswer : Type 0 where
  pub rows : Items
  pub row_count : ℕ
  pub truncated : Bool

-- One row more than the maximum is read, to see whether the answer is cut.
unfoldable pub answer_of : (max_rows : ℕ) → (collected : Items) → QueryAnswer
answer_of max_rows collected = record {
  rows = take_items max_rows collected;
  row_count = length_items (take_items max_rows collected);
  truncated = ltb max_rows (length_items collected);
}

-- `list(dict.fromkeys(…))`: each name once, where it first stands.
unfoldable pub distinct_names : List String → List String
distinct_names [] = []
distinct_names (name ∷ names) =
    let rest = distinct_names names in name ∷ keep (λ other. not (other =ₛ name)) rest

-- What one table's inspection adds: the table's details, or the text of its error.
pub record BulkInspection : Type 0 where
  pub tables : List (String × Fields)
  pub errors : List (String × String)
  pub requested_count : ℕ

abbrev pub with_outcome : String → Outcome String Fields → BulkInspection → BulkInspection
with_outcome table (ok details) i = record i { tables = (table, details) ∷ i.tables }
with_outcome table (err detail) i = record i { errors = (table, detail) ∷ i.errors }

-- One more table counts once.
with_outcome_adds_up :
    (table : String) (o : Outcome String Fields) (i : BulkInspection) (tables : List String)
    → (length (i.tables) + length (i.errors) ≡ length tables) × (i.requested_count ≡ length tables)
    → (let next = with_outcome table o (record i { requested_count = suc (i.requested_count) }) in
        (length (next.tables) + length (next.errors) ≡ suc (length tables))
        × (next.requested_count ≡ suc (length tables)))
with_outcome_adds_up table (ok details) i tables (h, g) = (omega (arith, h), omega (arith, g))
with_outcome_adds_up table (err detail) i tables (h, g) = (omega (arith, h), omega (arith, g))

-- `describe` gives the text of an exception, `validate_sql` is `validate_read_only_sql`.
module _ (urlparse : String → String × String) (lower : String → String)
    (validate_sql : String → Outcome RunnerError String) (describe : RunnerError → String)
    {S W : Type 0} (spark : SparkApi S W) where
  unfoldable pub query :
      (sql : String)
      → (max_rows : ℕ) → (catalog warehouse : String) → Run RunnerError (Runner S W) QueryAnswer
  query sql max_rows catalog warehouse = lift (validate_sql sql) >>= λ statement.
      get_spark spark >>= λ session.
      in_world (
        configure_hadoop_catalog urlparse lower spark session catalog warehouse >>= λ configured.
        spark.run_sql session statement (max_rows + 1))
      >>= λ collected. return (answer_of max_rows collected)

  abbrev pub described : Outcome RunnerError Fields → Outcome String Fields
  described (ok details) = ok details
  described (err e) = err (describe e)

  -- The loop over the tables, none of whose errors ends it.
  unfoldable pub inspect_each : S → (prefix : String) → List String → W → BulkInspection × W
  inspect_each session prefix [] w = (record { tables = []; errors = []; requested_count = 0 }, w)
  inspect_each session prefix (table ∷ tables) w =
      let one = spark.table_details session (prefix +++ "." +++ table) w in
      let rest = inspect_each session prefix tables one.1 in
      (
        with_outcome table (described one.0)
            (record (rest.0) { requested_count = suc (rest.0).requested_count }),
        rest.1,
      )

  unfoldable pub inspect_all :
      S → (catalog namespace_name : String) → List String → Run RunnerError W BulkInspection
  inspect_all session catalog namespace_name tables w = (
    ok (inspect_each session (catalog +++ "." +++ namespace_name) tables w).0,
    (inspect_each session (catalog +++ "." +++ namespace_name) tables w).1,
  )

  unfoldable pub inspect_tables :
      (catalog warehouse namespace_name : String)
      → (tables : List String) → Run RunnerError (Runner S W) BulkInspection
  inspect_tables catalog warehouse namespace_name tables =
      lift (refused_call (identifier catalog)) >>= λ catalog_name.
      lift (refused_call (namespace_identifier namespace_name)) >>= λ checked_namespace.
      lift (refused_call (identifiers tables)) >>= λ names. get_spark spark >>= λ session.
      in_world (
        configure_hadoop_catalog urlparse lower spark session catalog_name warehouse
        >>= λ configured. inspect_all session catalog_name checked_namespace (distinct_names names))

  -- Every table that was asked for is among the inspected ones or among the errors, and in one of them only:
  -- their numbers add up.
  pub inspect_each_adds_up :
      (session : S) (prefix : String) (tables : List String) (w : W)
      → (length (inspect_each session prefix tables w).0.tables
            + length (inspect_each session prefix tables w).0.errors
          ≡ length tables)
        × ((inspect_each session prefix tables w).0.requested_count ≡ length tables)
  unfolding inspect_each
  inspect_each_adds_up session prefix [] w = (refl, refl)
  inspect_each_adds_up session prefix (table ∷ tables) w =
      with_outcome_adds_up table
        (described (spark.table_details session (prefix +++ "." +++ table) w).0)
        (inspect_each session prefix tables
          (spark.table_details session (prefix +++ "." +++ table) w).1).0
        tables
        (inspect_each_adds_up session prefix tables
          (spark.table_details session (prefix +++ "." +++ table) w).1)
