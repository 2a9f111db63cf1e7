-- ===== src/Examples/Calls.antt =====
-- Examples of the procedure calls and of the literals in them.
use iceberg_rest_catalog.Common.{ℕ, String, ◌≡◌, refl, none, ok}
use iceberg_rest_catalog.Json.{get, get_or}
use iceberg_rest_catalog.Params.{
  rewrite_data_files, engine_capable, validate_parameters, is_int_between, is_bool, checked,
  command_parameters, all_known,
}
use iceberg_rest_catalog.Text.{split, join}
use iceberg_rest_catalog.Sql.{command_text}
use iceberg_rest_catalog.Sql.Job
use iceberg_rest_catalog.Sql.Runner
use iceberg_rest_catalog.Sql.Agrees.{procedure_sql-agrees}
use iceberg_rest_catalog.Sql.Total.{IsCallable, procedure_sql-IsOk}
use iceberg_rest_catalog.Sql.Total.Options.{IsOk, columns_nul_free}
use iceberg_rest_catalog.Examples.{parameters}

-- A clock's text, the same for each number of hours.
abbrev stamp : (hours : ℕ) → String
stamp hours = "2026-08-20 00:00:00.000"

abbrev call : Runner.OperationExecuteRequest
call = record {
  operation_id = "op-1";
  catalog = "lake";
  namespace_name = "sales.eu";
  table = "orders";
  command = "REWRITE_DATA_FILES";
  parameters = parameters;
  expected_snapshot_id = none;
  warehouse = "hdfs://namenode:8020/warehouse";
}

procedure_sql-agrees_example :
    Runner.procedure_sql stamp call
    ≡ Job.procedure_sql stamp "lake" "sales.eu" "orders" "REWRITE_DATA_FILES" parameters
procedure_sql-agrees_example = procedure_sql-agrees stamp call

name_ok : (Job.identifier "lake" ≡ ok "lake") × (Job.identifier "orders" ≡ ok "orders")
unfolding Job.identifier Job.is_identifier Job.continues_name
name_ok = (refl, refl)

namespace-IsOk : IsOk (Job.namespace_identifier "sales.eu")
unfolding Job.namespace_identifier Job.identifiers Job.identifier Job.is_identifier
    Job.continues_name split join
namespace-IsOk = ("sales.eu", refl)

callable : IsCallable rewrite_data_files parameters
unfolding validate_parameters all_known command_parameters checked get is_int_between is_bool
    engine_capable get_or columns_nul_free
callable = record {
  accepted = refl;
  on_spark = refl;
  snapshot_named = λ e. cc;
  columns_readable = refl;
}

procedure_sql-IsOk_example : IsOk (
    Job.procedure_sql stamp "lake" "sales.eu" "orders" (command_text rewrite_data_files) parameters)
procedure_sql-IsOk_example =
    procedure_sql-IsOk stamp "lake" "sales.eu" "orders" rewrite_data_files parameters
      ("lake", name_ok.0) namespace-IsOk ("orders", name_ok.1) callable

-- The call of the sample, spelled out.
sample_call :
    Job.rewrite_data_files_sql "lake" "'sales.orders'" parameters
    ≡ ok
        "CALL lake.system.rewrite_data_files(table => 'sales.orders', options => map('min-input-files', '5', 'rewrite-all', 'true'))"
unfolding Job.rewrite_data_files_sql Job.rewrite_options Job.int_entry Job.bool_entry Job.int_option
    Job.bool_option Job.suffix_of Job.options_sql Job.option_sql Job.sql_literal Job.doubled join
    get iceberg_rest_catalog.Text.decimal iceberg_rest_catalog.Text.digits
    iceberg_rest_catalog.Text.digit
sample_call = refl
