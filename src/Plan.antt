-- ===== src/Plan.antt =====
-- `plan_table` of backend/app/services.py: the estimate that goes with a request, and whether the
-- table can be worked on at all.
pub mod Estimates
use Prim.Native.Nat.{min, max}
use Prim.Native.String.{◌++◌ as ◌+++◌}
use iceberg_rest_catalog.Common.{
  ℕ, ◌+◌, ◌-◌, ◌*◌, ◌/◌, String, Bool, true, false, Option, none, some, List, [], ◌∷◌, ◌++◌, not,
  Outcome, ok, err, ◌>>=◌, if◌then◌else◌, ltb, ◌==◌, is_none,
}
use iceberg_rest_catalog.Common.Int.{ℤ, pos, negsuc}
use iceberg_rest_catalog.Json.{
  Value, Items, Fields, null, bool, int, real, text, arr, obj, nil, cons, end, field, get,
}
use iceberg_rest_catalog.Params.{
  Command, compute_stats, rewrite_manifests, rewrite_data_files, rewrite_position_deletes,
  expire_snapshots, remove_orphan_files, storage_migration, rollback, command_risk,
}
use iceberg_rest_catalog.Store.{
  ManagedTable, PlanItem, Warning, few_small_files, nothing_to_expire, permanent_delete,
  lineage_check, no_snapshot, never_observed,
}

-- What `int(…)` raises on a parameter that is no number. The callers validate the parameters first,
-- and then it does not happen (`Plan.Estimates`). So it is also used for a negative number and for a
-- text, which `int` would take, and which are refused before.
pub data NotInteger : Type 0 where
  not_integer : NotInteger

-- `int(parameters.get(name, default))`
unfoldable pub int_parameter : String → ℕ → Fields → Outcome NotInteger ℕ
int_parameter name default ps = elim (get name ps) [
  | none ↦ ok default
  | some v ↦ elim v [
    | int z ↦ elim z [ pos n ↦ ok n | negsuc n ↦ err not_integer ]
    | other ↦ err not_integer
  ]
]

-- Whether Python takes a value for true. A number with a fraction counts as true.
pub truthy : Value → Bool
truthy null = false
truthy (bool b) = b
truthy (int (pos n)) = not (n == 0)
truthy (int (negsuc n)) = true
truthy (real r) = true
truthy (text String.[]) = false
truthy (text (String.◌∷◌ c s)) = true
truthy (arr nil) = false
truthy (arr (cons v xs)) = true
truthy (obj end) = false
truthy (obj (field k v fs)) = true

-- The estimates that depend on the command.
pub record Estimate : Type 0 where
  pub rewrite_bytes : ℕ
  pub output_files : Option ℕ
  pub affected_snapshots : Option ℕ
  pub warnings : List Warning

abbrev no_estimate : List Warning → Estimate
no_estimate ws = record {
  rewrite_bytes = 0;
  output_files = none;
  affected_snapshots = none;
  warnings = ws;
}

-- `float(table.small_file_ratio) < 0.1`, in hundred-thousandths
abbrev below_tenth : Option ℕ → Bool
below_tenth none = false
below_tenth (some r) = ltb r 10000

abbrev only_if : Bool → Warning → List Warning
only_if b w = if b then w ∷ [] else []

unfoldable pub rewrite_estimate : ManagedTable → ℕ → Estimate
rewrite_estimate table target_size = record {
  rewrite_bytes = table.total_bytes;
  output_files = some (max 1 ((table.total_bytes + target_size - 1) / target_size));
  affected_snapshots = none;
  warnings = only_if (below_tenth table.small_file_ratio) few_small_files;
}

expire_estimate : ManagedTable → ℕ → Estimate
expire_estimate table retain_last =
    let affected = table.snapshot_count - retain_last in
    record {
      rewrite_bytes = 0;
      output_files = none;
      affected_snapshots = some affected;
      warnings = only_if (affected == 0) nothing_to_expire;
    }

-- `not parameters.get("dryRun", True)`
abbrev wet_run : Fields → Bool
wet_run ps = elim (get "dryRun" ps) [ none ↦ false | some v ↦ not (truthy v) ]

unfoldable pub estimate : ManagedTable → Command → Fields → ℕ → Outcome NotInteger Estimate
unfolding rewrite_estimate expire_estimate
estimate table rewrite_data_files ps target_size = ok (rewrite_estimate table target_size)
estimate table rewrite_position_deletes ps target_size = ok (rewrite_estimate table target_size)
estimate table rewrite_manifests ps target_size = ok (record (no_estimate []) {
  rewrite_bytes = min table.total_bytes (table.total_files * 8388608);
})
estimate table expire_snapshots ps target_size = do
  retain_last ← int_parameter "retainLast" 1 ps
  ok (expire_estimate table retain_last)
estimate table remove_orphan_files ps target_size =
    ok (no_estimate (only_if (wet_run ps) permanent_delete))
estimate table rollback ps target_size = ok (no_estimate (lineage_check ∷ []))
estimate table _ ps target_size = ok (no_estimate [])

-- `f"{catalog}.{namespace}.{table}"`
unfoldable pub qualified_name : ManagedTable → String
qualified_name t = t.catalog.name +++ "." +++ t.namespace_name +++ "." +++ t.table_name

unfoldable pub plan_item : ManagedTable → Command → Estimate → PlanItem
plan_item table command e = record {
  table_id = table.id;
  qualified_table_name = qualified_name table;
  current_snapshot_id = table.current_snapshot_id;
  total_files = table.total_files;
  total_bytes = table.total_bytes;
  estimated_rewrite_bytes = e.rewrite_bytes;
  estimated_output_files = e.output_files;
  affected_snapshots = e.affected_snapshots;
  risk = command_risk command;
  warnings =
      e.warnings
      ++ (only_if (is_none table.current_snapshot_id) no_snapshot
          ++ only_if (is_none table.observed_at) never_observed);
  executable = not (is_none table.current_snapshot_id);
}

unfoldable pub plan_table : ManagedTable → Command → Fields → Outcome NotInteger PlanItem
unfolding int_parameter estimate plan_item
plan_table table command ps = do
  target_size ← int_parameter "targetFileSizeBytes" 134217728 ps
  e ← estimate table command ps target_size
  ok (plan_item table command e)
