-- ===== src/Sql/Total.antt =====
-- Which requests the job of Livy can turn into a procedure call.
pub mod Options
use Prim.Native.String.{count, ◌++◌ as ◌+++◌}
use iceberg_rest_catalog.Common.{
  ℕ, ◌≡◌, ◌≢◌, String, Bool, true, false, Option, none, some, Option-cases, Bool-cases, inl, inr,
  refl, ◌∙◌, ap, sym, arith, Outcome, ok, err, ◌>>=◌, ◌>>◌, raise_if, or_raise, leb, ltb, ◌&&◌,
  ◌||◌, ◌=ₛ◌, eq_iff, not, All, List, [], ◌∷◌, ◌++◌,
}
use iceberg_rest_catalog.Common.Int.{pos, negsuc}
use iceberg_rest_catalog.Json.{
  Value, Items, Fields, null, bool, int, text, arr, real, obj, nil, cons, get, get_or,
}
use iceberg_rest_catalog.Params.{
  Command, compute_stats, rewrite_manifests, rewrite_data_files, rewrite_position_deletes,
  expire_snapshots, remove_orphan_files, storage_migration, rollback, Engine, spark, engine_capable,
  validate_parameters, is_int_between, is_bool, is_columns, is_column, every_item, length_items,
}
use iceberg_rest_catalog.Params.Bounds.{Passes, IsValidated, validate-IsValidated}
use iceberg_rest_catalog.Text.{decimal, read_decimal}
use iceberg_rest_catalog.Text.Laws.{read_decimal-decimal}
use iceberg_rest_catalog.Sql.{BadCall, bad_columns, command_text}
use iceberg_rest_catalog.Sql.Job.{
  identifier, namespace_identifier, sql_literal, bool_option, int_option, int_entry, bool_entry,
  rewrite_options, has_nul, column_sql, columns_sql, hours_option, rewrite_data_files_sql,
  rewrite_manifests_sql, rewrite_position_deletes_sql, compute_stats_sql, expire_snapshots_sql,
  remove_orphan_files_sql, rollback_sql, command_sql, procedure_sql,
}
use iceberg_rest_catalog.Sql.Total.Options.{
  IsOk, columns_nul_free, then-IsOk, bool_option-IsOk, int_option-Ok, hours_option-IsOk,
  get_or-Passes, int_entry-IsOk, bool_entry-IsOk, compute_stats_sql-IsOk, not_spark,
}

-- What a payload has that the services have accepted, beyond `IsValidated`: a rollback names its snapshot.
pub record IsCallable (command : Command) (ps : Fields) : Type 0 where
  pub accepted : validate_parameters command ps ≡ ok tt
  pub on_spark : engine_capable spark command ≡ true
  pub snapshot_named : command ≡ rollback → get "snapshotId" ps ≢ none
  pub columns_readable : columns_nul_free (get_or "columns" null ps) ≡ true

module _ (timestamp_before : ℕ → String) (c t : String) (ps : Fields) where
  abbrev Call : Command → Type 0
  Call command = IsOk (command_sql timestamp_before (command_text command) c t ps)

  data_files-IsOk : IsValidated rewrite_data_files ps → Call rewrite_data_files
  unfolding command_sql command_text rewrite_data_files_sql rewrite_options
  data_files-IsOk v =
      then-IsOk (rewrite_options ps) _
        (then-IsOk _ _ (int_entry-IsOk ps _ _ 1048576 10737418240 v.target_size) (λ a.
          then-IsOk _ _ (int_entry-IsOk ps _ _ 1 10000 v.min_files) (λ b.
            then-IsOk _ _ (int_entry-IsOk ps _ _ 1048576 109951162777600 v.group_size) (λ d.
              then-IsOk _ _ (bool_entry-IsOk ps _ _ v.rewrite_all)
                (λ e. then-IsOk _ _ (bool_entry-IsOk ps _ _ v.dangling) (λ f. (_, refl)))))))
        (λ options. (_, refl))

  manifests-IsOk : IsValidated rewrite_manifests ps → Call rewrite_manifests
  unfolding command_sql command_text rewrite_manifests_sql is_bool
  manifests-IsOk v =
      then-IsOk _ _
        (bool_option-IsOk _ "useCaching"
          (get_or-Passes is_bool "useCaching" (bool false) ps v.caching refl))
        (λ b. (_, refl))

  deletes-IsOk : IsValidated rewrite_position_deletes ps → Call rewrite_position_deletes
  unfolding command_sql command_text rewrite_position_deletes_sql
  deletes-IsOk v = then-IsOk _ _ (bool_entry-IsOk ps _ _ v.rewrite_all) (λ b. (_, refl))

  stats-IsOk :
      IsValidated compute_stats ps
      → columns_nul_free (get_or "columns" null ps) ≡ true
      → Call compute_stats
  unfolding command_sql command_text is_columns
  stats-IsOk v g =
      compute_stats_sql-IsOk c t _ (get_or-Passes is_columns "columns" null ps v.columns refl) g

  expire-IsOk : IsValidated expire_snapshots ps → Call expire_snapshots
  unfolding command_sql command_text expire_snapshots_sql is_int_between
  expire-IsOk v =
      then-IsOk _ _
        (hours_option-IsOk _ "olderThanHours" 120 87600 (
          get_or-Passes (is_int_between 120 87600) "olderThanHours" (int (pos 168)) ps
            (v.expire_hours refl) refl))
        (λ hours.
          then-IsOk _ _
            (int_option-Ok _ "retainLast" 1 10000
              (get_or-Passes (is_int_between 1 10000) "retainLast" (int (pos 1)) ps v.retain refl))
            (λ retain. (_, refl)))

  orphans-IsOk : IsValidated remove_orphan_files ps → Call remove_orphan_files
  unfolding command_sql command_text remove_orphan_files_sql is_int_between is_bool
  orphans-IsOk v =
      then-IsOk _ _
        (hours_option-IsOk _ "olderThanHours" 72 87600 (
          get_or-Passes (is_int_between 72 87600) "olderThanHours" (int (pos 72)) ps
            (v.orphan_hours refl) refl))
        (λ hours.
          then-IsOk _ _
            (bool_option-IsOk _ "dryRun"
              (get_or-Passes is_bool "dryRun" (bool true) ps v.dry_run refl))
            (λ dry_run. (_, refl)))

  rollback-IsOk : IsValidated rollback ps → get "snapshotId" ps ≢ none → Call rollback
  unfolding command_sql command_text rollback_sql get_or
  rollback-IsOk v named = elim (Option-cases (get "snapshotId" ps)) [
    | inl missing ↦ absurd (named missing)
    | inr (s, found) ↦
        then-IsOk _ _
          (int_option-Ok _ "snapshotId" 1 9223372036854775807
            (rw (get_or, found) (v.snapshot s found)))
          (λ snapshot. (_, refl))
  ]

  command_sql-IsOk : (command : Command) → IsCallable command ps → Call command
  command_sql-IsOk command h = by_command command (validate-IsValidated command ps h.accepted) h
    where
      by_command : (k : Command) → IsValidated k ps → IsCallable k ps → Call k
      by_command compute_stats v g = stats-IsOk v g.columns_readable
      by_command rewrite_manifests v g = manifests-IsOk v
      by_command rewrite_data_files v g = data_files-IsOk v
      by_command rewrite_position_deletes v g = deletes-IsOk v
      by_command expire_snapshots v g = expire-IsOk v
      by_command remove_orphan_files v g = orphans-IsOk v
      by_command storage_migration v g = absurd (not_spark g.on_spark)
      by_command rollback v g = rollback-IsOk v (g.snapshot_named refl)

-- The job builds a procedure call for every request that Spark is capable of and whose parameters the
-- services accept, when the catalog, the parts of the namespace and the table are identifiers, a rollback
-- names its snapshot, and no column's name has a character of code 0.
pub procedure_sql-IsOk :
    (timestamp_before : ℕ → String) (catalog namespace_name table : String) (command : Command)
    (ps : Fields)
    → IsOk (identifier catalog)
    → IsOk (namespace_identifier namespace_name)
    → IsOk (identifier table)
    → IsCallable command ps
    → IsOk (procedure_sql timestamp_before catalog namespace_name table (command_text command) ps)
unfolding procedure_sql
procedure_sql-IsOk timestamp_before catalog namespace_name table command ps a b d h =
    then-IsOk _ _ a (λ catalog_id.
      then-IsOk _ _ b
        (λ n. then-IsOk _ _ d (λ t. command_sql-IsOk timestamp_before catalog_id _ ps command h)))
