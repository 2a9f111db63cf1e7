-- ===== src/Sql/Agrees.antt =====
-- The runner and the job of Livy build the same procedure calls: the helpers one by one, then `procedure_sql`.
use Prim.Native.Char.{char}
use Prim.Native.String.{◌++◌ as ◌+++◌}
use iceberg_rest_catalog.Common.{
  ℕ, ◌≡◌, String, true, false, Option-cases, List, [], ◌∷◌, map, Outcome, ok, err, inl, inr, arith,
  refl, >>=-eq-ok, ◌>>=◌,
}
use iceberg_rest_catalog.Common.Int.{pos, negsuc}
use iceberg_rest_catalog.Json.{
  Value, Items, Fields, null, bool, int, text, arr, nil, cons, get, get_or,
}
use iceberg_rest_catalog.Text.{split}
use iceberg_rest_catalog.Text.Laws.{join-split}
use iceberg_rest_catalog.Sql.{BadCall}
use iceberg_rest_catalog.Sql.Job
use iceberg_rest_catalog.Sql.Runner

continues_name-agrees : (s : String) → Runner.continues_name s ≡ Job.continues_name s
unfolding Runner.continues_name Job.continues_name
continues_name-agrees String.[] = refl
continues_name-agrees (String.◌∷◌ c s) = rw (continues_name-agrees s)

pub identifier-agrees : (s : String) → Runner.identifier s ≡ Job.identifier s
unfolding Runner.identifier Job.identifier Runner.is_identifier Job.is_identifier
identifier-agrees String.[] = refl
identifier-agrees (String.◌∷◌ c s) = rw (continues_name-agrees s)

identifiers-agrees : (parts : List String) → Runner.identifiers parts ≡ Job.identifiers parts
unfolding Runner.identifiers Job.identifiers
identifiers-agrees [] = refl
identifiers-agrees (p ∷ ps) = rw (identifier-agrees p, identifiers-agrees ps)

pub namespace_identifier-agrees :
    (s : String) → Runner.namespace_identifier s ≡ Job.namespace_identifier s
unfolding Runner.namespace_identifier Job.namespace_identifier
namespace_identifier-agrees s = rw (identifiers-agrees (split _ s))

doubled-agrees : (s : String) → Runner.doubled s ≡ Job.doubled s
unfolding Runner.doubled Job.doubled
doubled-agrees String.[] = refl
doubled-agrees (String.◌∷◌ c s) = rw (doubled-agrees s)

sql_literal-agrees : (s : String) → Runner.sql_literal s ≡ Job.sql_literal s
unfolding Runner.sql_literal Job.sql_literal
sql_literal-agrees s = rw (doubled-agrees s)

sql_literal-same : Runner.sql_literal ≡ Job.sql_literal
sql_literal-same = λ i s. sql_literal-agrees s i

bool_option-agrees :
    (v : Value) (name : String) → Runner.bool_option v name ≡ Job.bool_option v name
unfolding Runner.bool_option Job.bool_option
bool_option-agrees (bool b) name = refl
bool_option-agrees _ name = refl

int_option-agrees :
    (v : Value) (name : String) (minimum maximum : ℕ)
    → Runner.int_option v name minimum maximum ≡ Job.int_option v name minimum maximum
unfolding Runner.int_option Job.int_option
int_option-agrees (int (pos n)) name minimum maximum = refl
int_option-agrees (int (negsuc n)) name minimum maximum = refl
int_option-agrees _ name minimum maximum = refl

option_sql-agrees : (o : String × String) → Runner.option_sql o ≡ Job.option_sql o
unfolding Runner.option_sql Job.option_sql
option_sql-agrees (key, value) = rw (sql_literal-agrees key, sql_literal-agrees value)

map-option_sql : (os : List (String × String)) → map Runner.option_sql os ≡ map Job.option_sql os
map-option_sql [] = refl
map-option_sql (o ∷ os) = rw (option_sql-agrees o, map-option_sql os)

suffix_of-agrees : (os : List (String × String)) → Runner.suffix_of os ≡ Job.suffix_of os
unfolding Runner.suffix_of Job.suffix_of Runner.options_sql Job.options_sql
suffix_of-agrees [] = refl
suffix_of-agrees (o ∷ os) = rw (map-option_sql (o ∷ os))

int_entry-agrees :
    (ps : Fields) (source target : String) (minimum maximum : ℕ)
    → Runner.int_entry ps source target minimum maximum
      ≡ Job.int_entry ps source target minimum maximum
unfolding Runner.int_entry Job.int_entry
int_entry-agrees ps source target minimum maximum = elim (Option-cases (get source ps)) [
  | inl missing ↦ ground arith
  | inr (v, found) ↦ ground (arith, int_option-agrees v source minimum maximum)
]

bool_entry-agrees :
    (ps : Fields) (source target : String)
    → Runner.bool_entry ps source target ≡ Job.bool_entry ps source target
unfolding Runner.bool_entry Job.bool_entry
bool_entry-agrees ps source target = elim (Option-cases (get source ps)) [
  | inl missing ↦ ground arith
  | inr (v, found) ↦ ground (arith, bool_option-agrees v source)
]

rewrite_options-agrees : (ps : Fields) → Runner.rewrite_options ps ≡ Job.rewrite_options ps
unfolding Runner.rewrite_options Job.rewrite_options
rewrite_options-agrees ps = rw (
  int_entry-agrees ps "targetFileSizeBytes" "target-file-size-bytes" 1048576 10737418240,
  int_entry-agrees ps "minInputFiles" "min-input-files" 1 10000,
  int_entry-agrees ps "maxFileGroupSizeBytes" "max-file-group-size-bytes" 1048576 109951162777600,
  bool_entry-agrees ps "rewriteAll" "rewrite-all",
  bool_entry-agrees ps "removeDanglingDeletes" "remove-dangling-deletes",
)

has_nul-agrees : (s : String) → Runner.has_nul s ≡ Job.has_nul s
unfolding Runner.has_nul Job.has_nul
has_nul-agrees String.[] = refl
has_nul-agrees (String.◌∷◌ c s) = rw (has_nul-agrees s)

column_sql-agrees : (v : Value) → Runner.column_sql v ≡ Job.column_sql v
unfolding Runner.column_sql Job.column_sql
column_sql-agrees (text s) = rw (has_nul-agrees s, sql_literal-agrees s)
column_sql-agrees _ = refl

columns_sql-agrees : (xs : Items) → Runner.columns_sql xs ≡ Job.columns_sql xs
unfolding Runner.columns_sql Job.columns_sql
columns_sql-agrees nil = refl
columns_sql-agrees (cons v xs) = rw (column_sql-agrees v, columns_sql-agrees xs)

hours_option-agrees :
    (v : Value) (name : String) (minimum maximum : ℕ)
    → Runner.hours_option v name minimum maximum ≡ Job.hours_option v name minimum maximum
unfolding Runner.hours_option Job.hours_option
hours_option-agrees v name minimum maximum = rw (int_option-agrees v name minimum maximum)

compute_stats_sql-agrees :
    (c t : String) (v : Value) → Runner.compute_stats_sql c t v ≡ Job.compute_stats_sql c t v
unfolding Runner.compute_stats_sql Job.compute_stats_sql
compute_stats_sql-agrees c t null = refl
compute_stats_sql-agrees c t (arr xs) = rw (columns_sql-agrees xs)
compute_stats_sql-agrees c t _ = refl

pub identifier-same : (s : String) {w : String} → Job.identifier s ≡ ok w → w ≡ s
unfolding Job.identifier
identifier-same s h = ground arith

identifiers-same :
    (parts : List String) {ws : List String} → Job.identifiers parts ≡ ok ws → ws ≡ parts
unfolding Job.identifiers
identifiers-same [] h = ground arith
identifiers-same (p ∷ ps) h =
    let (w, one, h') = >>=-eq-ok (Job.identifier p) _ h in
    let (ws, others, last) = >>=-eq-ok (Job.identifiers ps) _ h' in
    ground (arith, identifier-same p one, identifiers-same ps others)

-- A namespace that is accepted is returned as it was given.
pub namespace_identifier-same :
    (s : String) {w : String} → Job.namespace_identifier s ≡ ok w → w ≡ s
unfolding Job.namespace_identifier
namespace_identifier-same s h =
    let (parts, accepted, last) = >>=-eq-ok (Job.identifiers (split _ s)) _ h in
    ground (arith, identifiers-same (split _ s) accepted, join-split (char 46 tt) s)

>>=-agrees :
    {A : Type 0} (m : Outcome BadCall A) {f g : A → Outcome BadCall String}
    → ((a : A) → m ≡ ok a → f a ≡ g a)
    → (m >>= f) ≡ (m >>= g)
>>=-agrees (ok a) h = h a refl
>>=-agrees (err e) h = refl

module _ (c t : String) (ps : Fields) where
  data_files-agrees : Runner.rewrite_data_files_sql c t ps ≡ Job.rewrite_data_files_sql c t ps
  unfolding Runner.rewrite_data_files_sql Job.rewrite_data_files_sql
  data_files-agrees =
      rw (rewrite_options-agrees ps)
        (>>=-agrees (Job.rewrite_options ps) (λ options given. rw (suffix_of-agrees options)))

  deletes-agrees :
      Runner.rewrite_position_deletes_sql c t ps ≡ Job.rewrite_position_deletes_sql c t ps
  unfolding Runner.rewrite_position_deletes_sql Job.rewrite_position_deletes_sql
  deletes-agrees = rw (bool_entry-agrees ps "rewriteAll" "rewrite-all") (
      >>=-agrees (Job.bool_entry ps "rewriteAll" "rewrite-all")
        (λ options given. rw (suffix_of-agrees options)))

  manifests-agrees : Runner.rewrite_manifests_sql c t ps ≡ Job.rewrite_manifests_sql c t ps
  unfolding Runner.rewrite_manifests_sql Job.rewrite_manifests_sql
  manifests-agrees = rw (bool_option-agrees (get_or "useCaching" (bool false) ps) "useCaching")

  rollback-agrees : Runner.rollback_sql c t ps ≡ Job.rollback_sql c t ps
  unfolding Runner.rollback_sql Job.rollback_sql
  rollback-agrees =
      rw (int_option-agrees (get_or "snapshotId" null ps) "snapshotId" 1 9223372036854775807)

module _ (timestamp_before : ℕ → String) (c t : String) (ps : Fields) where
  expire-agrees :
      Runner.expire_snapshots_sql timestamp_before c t ps
      ≡ Job.expire_snapshots_sql timestamp_before c t ps
  unfolding Runner.expire_snapshots_sql Job.expire_snapshots_sql
  expire-agrees = rw (
    hours_option-agrees (get_or "olderThanHours" (int (pos 168)) ps) "olderThanHours" 120 87600,
    int_option-agrees (get_or "retainLast" (int (pos 1)) ps) "retainLast" 1 10000,
    sql_literal-same,
  )

  orphans-agrees :
      Runner.remove_orphan_files_sql timestamp_before c t ps
      ≡ Job.remove_orphan_files_sql timestamp_before c t ps
  unfolding Runner.remove_orphan_files_sql Job.remove_orphan_files_sql
  orphans-agrees = rw (
    hours_option-agrees (get_or "olderThanHours" (int (pos 72)) ps) "olderThanHours" 72 87600,
    bool_option-agrees (get_or "dryRun" (bool true) ps) "dryRun",
    sql_literal-same,
  )

  command_sql-agrees :
      (command : String)
      → Runner.command_sql timestamp_before command c t ps
        ≡ Job.command_sql timestamp_before command c t ps
  unfolding Runner.command_sql Job.command_sql
  command_sql-agrees command = rw (
    data_files-agrees c t ps,
    manifests-agrees c t ps,
    deletes-agrees c t ps,
    compute_stats_sql-agrees c t (get_or "columns" null ps),
    expire-agrees,
    orphans-agrees,
    rollback-agrees c t ps,
  )

-- For the same request the runner and the job of Livy build the same procedure call, or refuse it with the
-- same message, although the runner names the table by the namespace that its check returns and the job by
-- the namespace that it was given.
pub procedure_sql-agrees :
    (timestamp_before : ℕ → String) (request : Runner.OperationExecuteRequest)
    → Runner.procedure_sql timestamp_before request
      ≡ Job.procedure_sql timestamp_before
          (request.catalog)
          (request.namespace_name)
          (request.table)
          (request.command)
          (request.parameters)
unfolding Runner.procedure_sql Job.procedure_sql
procedure_sql-agrees timestamp_before request =
    rw
      (
        identifier-agrees (request.catalog),
        namespace_identifier-agrees (request.namespace_name),
        identifier-agrees (request.table),
      )
      (>>=-agrees (Job.identifier (request.catalog)) (λ catalog_id a.
        >>=-agrees (Job.namespace_identifier (request.namespace_name)) (λ checked_namespace b.
          >>=-agrees (Job.identifier (request.table)) (λ checked_table c. rw (
            command_sql-agrees timestamp_before catalog_id _ (request.parameters) (request.command),
            sql_literal-agrees (checked_namespace +++ "." +++ checked_table),
            namespace_identifier-same (request.namespace_name) b,
            identifier-same (request.table) c,
          )))))
