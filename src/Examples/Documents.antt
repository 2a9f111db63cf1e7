-- ===== src/Examples/Documents.antt =====
-- Examples of the checks of parameters, of plans, and of the redaction of metric reports.
use mathlib.Core.Path.{subst}
use iceberg_rest_catalog.Common.{
  sym, ℕ, ◌*◌, ◌-◌, ◌≤◌, ◌<◌, String, ◌≡◌, ◌≢◌, ◌⊎◌, ◌↔◌, refl, true, none, some, ok, arith,
}
use iceberg_rest_catalog.Json.{Fields, end, field, text, obj, arr, cons, nil, get}
use iceberg_rest_catalog.Json.Redact.{is_sensitive, redact_metric_payload}
use iceberg_rest_catalog.Json.Redact.Clean.{
  OccursFields, IsClean, redact-not_Occurs, redact-IsClean,
}
use iceberg_rest_catalog.Params.{
  rewrite_data_files, validate_parameters, is_int_between, is_bool, checked, command_parameters,
  all_known,
}
use iceberg_rest_catalog.Params.Bounds.{IsValidated, validate_exact}
use iceberg_rest_catalog.Store.{PlanItem}
use iceberg_rest_catalog.Plan.{plan_table, rewrite_estimate}
use iceberg_rest_catalog.Plan.Estimates.{plan_table-total, rewrite_estimate_exact}
use iceberg_rest_catalog.Examples.{orders, parameters}

validate_exact_example :
    (validate_parameters rewrite_data_files parameters ≡ ok tt)
    ↔ IsValidated rewrite_data_files parameters
validate_exact_example = validate_exact rewrite_data_files parameters

parameters_valid : validate_parameters rewrite_data_files parameters ≡ ok tt
unfolding validate_parameters all_known command_parameters checked get is_int_between is_bool
parameters_valid = refl

plan_table-total_example :
    (item : PlanItem) × (plan_table orders rewrite_data_files parameters ≡ ok item)
    × ((item.executable ≡ true) ↔ (orders.current_snapshot_id ≢ none))
plan_table-total_example = plan_table-total orders rewrite_data_files parameters parameters_valid

three_files : (rewrite_estimate orders 134217728).output_files ≡ some 3
unfolding rewrite_estimate
three_files = refl

rewrite_estimate_exact_example :
    (300000000 ≤ 3 * 134217728) × (◌≡◌ {A = ℕ} 3 1 ⊎ ((3 - 1) * 134217728 < 300000000))
rewrite_estimate_exact_example = rewrite_estimate_exact orders 134217728 3 (omega arith) three_files

abbrev report : Fields
report =
    field "table" (text "orders")
      (field "scan" (arr (cons (obj (field "filter" (text "id = 3") end)) nil)) end)

filter_sensitive : is_sensitive "filter" ≡ true
unfolding is_sensitive
filter_sensitive = refl

redact-not_Occurs_example : ¬ OccursFields "filter" (redact_metric_payload report)
redact-not_Occurs_example = redact-not_Occurs "filter" report filter_sensitive

abbrev clean_report : Fields
clean_report = field "table" (text "orders") end

sensitive_not_table : (k : String) → is_sensitive k ≡ true → ¬ ("table" ≡ k)
unfolding is_sensitive
sensitive_not_table k s e = cc (subst (λ n. is_sensitive n ≡ true) (sym e) s)

clean : IsClean clean_report
clean k s o = ground (arith, sensitive_not_table k s)

redact-IsClean_example : redact_metric_payload clean_report ≡ clean_report
redact-IsClean_example = redact-IsClean clean_report clean
