-- ===== src/Sql/Runner.antt =====
-- `procedure_sql` of playground/spark/app/main.py and the helpers it calls: the runner's own copies.
use Prim.Native.Char.{Char, char, code}
use Prim.Native.String.{count, ◌++◌ as ◌+++◌}
use iceberg_rest_catalog.Common.{
  ℕ, String, Bool, true, false, ◌&&◌, ◌||◌, not, Option, none, some, List, [], ◌∷◌, ◌++◌, map,
  Outcome, ok, err, ◌>>=◌, ◌>>◌, raise_if, or_raise, if◌then◌else◌, leb, ltb, ◌==◌, ◌=ₛ◌,
}
use iceberg_rest_catalog.Common.Int.{ℤ, pos}
use iceberg_rest_catalog.Json.{
  Value, Items, Fields, null, bool, int, text, arr, nil, cons, get, get_or,
}
use iceberg_rest_catalog.Params.{length_items}
use iceberg_rest_catalog.Text.{is_digit, decimal, read_decimal, split, join}
use iceberg_rest_catalog.Sql.{
  BadCall, unsupported_identifier, not_boolean, not_between, unsupported_command, invalid_literal,
  bad_columns, bad_column_name,
}

-- `OperationExecuteRequest`
pub record OperationExecuteRequest : Type 0 where
  pub operation_id : String
  pub catalog : String
  pub namespace_name : String
  pub table : String
  pub command : String
  pub parameters : Fields
  pub expected_snapshot_id : Option ℤ
  pub warehouse : String

-- `[A-Za-z_]`
abbrev pub begins_name : Char → Bool
begins_name c =
    (leb 65 (code c) && leb (code c) 90) || (leb 97 (code c) && leb (code c) 122) || code c == 95

-- `[A-Za-z0-9_]*`
unfoldable pub continues_name : String → Bool
continues_name String.[] = true
continues_name (String.◌∷◌ c s) = (begins_name c || is_digit c) && continues_name s

-- `re.fullmatch(r"[A-Za-z_][A-Za-z0-9_]*", value)`
unfoldable pub is_identifier : String → Bool
is_identifier String.[] = false
is_identifier (String.◌∷◌ c s) = begins_name c && continues_name s

unfoldable pub identifier : String → Outcome BadCall String
identifier value = if is_identifier value then ok value else err (unsupported_identifier value)

-- The parts, each of which is an identifier.
unfoldable pub identifiers : List String → Outcome BadCall (List String)
identifiers [] = ok []
identifiers (part ∷ parts) = identifier part >>= λ p. identifiers parts >>= λ ps. ok (p ∷ ps)

unfoldable pub namespace_identifier : String → Outcome BadCall String
namespace_identifier value = identifiers (split (char 46 tt) value) >>= λ parts. ok (join "." parts)

-- `value.replace("'", "''")`
unfoldable pub doubled : String → String
doubled String.[] = String.[]
doubled (String.◌∷◌ c s) =
    let rest = doubled s in
    if code c == 39 then String.◌∷◌ c (String.◌∷◌ c rest) else String.◌∷◌ c rest

unfoldable pub sql_literal : String → String
sql_literal value = "'" +++ doubled value +++ "'"

unfoldable pub bool_option : Value → (name : String) → Outcome BadCall String
bool_option (bool b) name = ok (if b then "true" else "false")
bool_option _ name = err (not_boolean name)

-- Each minimum that is passed is positive, so that a negative number is out of range.
unfoldable pub int_option : Value → (name : String) → (minimum maximum : ℕ) → Outcome BadCall String
int_option (int (pos n)) name minimum maximum =
    if leb minimum n && leb n maximum
    then ok (decimal n)
    else err (not_between name minimum maximum)
int_option _ name minimum maximum = err (not_between name minimum maximum)

-- A dictionary of texts is its entries, in order.
abbrev pub Options : Type 0
Options = List (String × String)

unfoldable pub option_sql : (String × String) → String
option_sql (key, value) = sql_literal key +++ ", " +++ sql_literal value

unfoldable pub options_sql : Options → String
options_sql options = "map(" +++ join ", " (map option_sql options) +++ ")"

-- `f", options => {options_sql(options)}" if options else ""`
unfoldable pub suffix_of : Options → String
suffix_of [] = ""
suffix_of options = ", options => " +++ options_sql options

-- `if source in parameters: options[target] = int_option(…)`
unfoldable pub int_entry :
    Fields → (source target : String) → (minimum maximum : ℕ) → Outcome BadCall Options
int_entry ps source target minimum maximum = elim (get source ps) [
  | none ↦ ok []
  | some v ↦ int_option v source minimum maximum >>= λ value. ok ((target, value) ∷ [])
]

-- `if source in parameters: options[target] = bool_option(…)`
unfoldable pub bool_entry : Fields → (source target : String) → Outcome BadCall Options
bool_entry ps source target = elim (get source ps) [
  | none ↦ ok []
  | some v ↦ bool_option v source >>= λ value. ok ((target, value) ∷ [])
]

unfoldable pub rewrite_options : Fields → Outcome BadCall Options
rewrite_options ps =
    int_entry ps "targetFileSizeBytes" "target-file-size-bytes" 1048576 10737418240 >>= λ size.
    int_entry ps "minInputFiles" "min-input-files" 1 10000 >>= λ least.
    int_entry ps "maxFileGroupSizeBytes" "max-file-group-size-bytes" 1048576 109951162777600
    >>= λ group. bool_entry ps "rewriteAll" "rewrite-all" >>= λ all.
        bool_entry ps "removeDanglingDeletes" "remove-dangling-deletes" >>= λ dangling.
        ok (size ++ least ++ group ++ all ++ dangling)

-- `"\x00" in column`
unfoldable pub has_nul : String → Bool
has_nul String.[] = false
has_nul (String.◌∷◌ c s) = code c == 0 || has_nul s

unfoldable pub column_sql : Value → Outcome BadCall String
column_sql (text column) =
    if column =ₛ "" || ltb 500 (count column) || has_nul column
    then err bad_column_name
    else ok (sql_literal column)
column_sql _ = err bad_column_name

unfoldable pub columns_sql : Items → Outcome BadCall (List String)
columns_sql nil = ok []
columns_sql (cons column rest) =
    column_sql column >>= λ value. columns_sql rest >>= λ values. ok (value ∷ values)

-- `int(int_option(…))`
unfoldable pub hours_option : Value → (name : String) → (minimum maximum : ℕ) → Outcome BadCall ℕ
hours_option v name minimum maximum = int_option v name minimum maximum >>= λ value.
    or_raise (read_decimal value) (invalid_literal value)

-- The calls, one function for each branch on the command. The first argument is the catalog's name.
unfoldable pub rewrite_data_files_sql :
    (catalog_name table_arg : String) → Fields → Outcome BadCall String
rewrite_data_files_sql catalog_name table_arg ps = rewrite_options ps >>= λ options. ok (
    "CALL "
    +++ catalog_name
    +++ ".system.rewrite_data_files(table => "
    +++ table_arg
    +++ suffix_of options
    +++ ")")

unfoldable pub rewrite_manifests_sql :
    (catalog_name table_arg : String) → Fields → Outcome BadCall String
rewrite_manifests_sql catalog_name table_arg ps =
    bool_option (get_or "useCaching" (bool false) ps) "useCaching" >>= λ use_caching. ok (
      "CALL " +++ catalog_name +++ ".system.rewrite_manifests(table => " +++ table_arg
      +++ ", use_caching => " +++ use_caching +++ ")")

unfoldable pub rewrite_position_deletes_sql :
    (catalog_name table_arg : String) → Fields → Outcome BadCall String
rewrite_position_deletes_sql catalog_name table_arg ps =
    bool_entry ps "rewriteAll" "rewrite-all" >>= λ options. ok (
      "CALL "
      +++ catalog_name
      +++ ".system.rewrite_position_delete_files(table => "
      +++ table_arg
      +++ suffix_of options
      +++ ")")

-- A missing list of columns is a null.
unfoldable pub compute_stats_sql :
    (catalog_name table_arg : String) → (columns : Value) → Outcome BadCall String
compute_stats_sql catalog_name table_arg null =
    ok ("CALL " +++ catalog_name +++ ".system.compute_table_stats(table => " +++ table_arg +++ ")")
compute_stats_sql catalog_name table_arg (arr columns) =
    raise_if (not (leb 1 (length_items columns) && leb (length_items columns) 100)) bad_columns
    >> (columns_sql columns >>= λ values. ok (
        "CALL "
        +++ catalog_name
        +++ ".system.compute_table_stats(table => "
        +++ table_arg
        +++ ", columns => array("
        +++ join ", " values
        +++ "))"))
compute_stats_sql catalog_name table_arg _ = err bad_columns

unfoldable pub rollback_sql : (catalog_name table_arg : String) → Fields → Outcome BadCall String
rollback_sql catalog_name table_arg ps =
    int_option (get_or "snapshotId" null ps) "snapshotId" 1 9223372036854775807 >>= λ snapshot. ok (
      "CALL " +++ catalog_name +++ ".system.rollback_to_snapshot(table => " +++ table_arg
      +++ ", snapshot_id => " +++ snapshot +++ ")")

-- The text of the time that lies so many hours back, to the millisecond, is a parameter.
module _ (timestamp_before : (hours : ℕ) → String) where
  unfoldable pub expire_snapshots_sql :
      (catalog_name table_arg : String) → Fields → Outcome BadCall String
  expire_snapshots_sql catalog_name table_arg ps =
      hours_option (get_or "olderThanHours" (int (pos 168)) ps) "olderThanHours" 120 87600
      >>= λ hours.
          int_option (get_or "retainLast" (int (pos 1)) ps) "retainLast" 1 10000 >>= λ retain. ok (
            "CALL "
            +++ catalog_name
            +++ ".system.expire_snapshots(table => "
            +++ table_arg
            +++ ", older_than => TIMESTAMP "
            +++ sql_literal (timestamp_before hours)
            +++ ", retain_last => "
            +++ retain
            +++ ", stream_results => true)")

  unfoldable pub remove_orphan_files_sql :
      (catalog_name table_arg : String) → Fields → Outcome BadCall String
  remove_orphan_files_sql catalog_name table_arg ps =
      hours_option (get_or "olderThanHours" (int (pos 72)) ps) "olderThanHours" 72 87600
      >>= λ hours. bool_option (get_or "dryRun" (bool true) ps) "dryRun" >>= λ dry_run. ok (
          "CALL "
          +++ catalog_name
          +++ ".system.remove_orphan_files(table => "
          +++ table_arg
          +++ ", older_than => TIMESTAMP "
          +++ sql_literal (timestamp_before hours)
          +++ ", dry_run => "
          +++ dry_run
          +++ ", stream_results => true)")

  unfoldable pub command_sql :
      (command catalog_name table_arg : String) → Fields → Outcome BadCall String
  command_sql command catalog_name table_arg ps =
      if command =ₛ "REWRITE_DATA_FILES"
      then rewrite_data_files_sql catalog_name table_arg ps
      else if command =ₛ "REWRITE_MANIFESTS"
      then rewrite_manifests_sql catalog_name table_arg ps
      else if command =ₛ "REWRITE_POSITION_DELETES"
      then rewrite_position_deletes_sql catalog_name table_arg ps
      else if command =ₛ "COMPUTE_STATS"
      then compute_stats_sql catalog_name table_arg (get_or "columns" null ps)
      else if command =ₛ "EXPIRE_SNAPSHOTS"
      then expire_snapshots_sql catalog_name table_arg ps
      else if command =ₛ "REMOVE_ORPHAN_FILES"
      then remove_orphan_files_sql catalog_name table_arg ps
      else if command =ₛ "ROLLBACK"
      then rollback_sql catalog_name table_arg ps
      else err (unsupported_command command)

  -- The table is named by what the checks return.
  unfoldable pub procedure_sql : OperationExecuteRequest → Outcome BadCall String
  procedure_sql request = identifier (request.catalog) >>= λ catalog.
      namespace_identifier (request.namespace_name) >>= λ namespace_name.
      identifier (request.table) >>= λ table.
      command_sql (request.command) catalog (sql_literal (namespace_name +++ "." +++ table))
        (request.parameters)
