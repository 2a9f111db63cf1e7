-- ===== src/Params/Bounds.antt =====
-- What a request has passed when `validate_parameters` accepts it, key by key.
use iceberg_rest_catalog.Common.{
  ℕ, String, ◌≡◌, refl, Bool, true, Option-cases, some, List, ok, arith, one_of, inl, inr, ◌↔◌,
  eq_iff,
}
use iceberg_rest_catalog.Json.{Value, Fields, end, field, get, has}
use iceberg_rest_catalog.Params.{
  Command, expire_snapshots, remove_orphan_files, BadParameter, must_be_boolean, must_be_integer,
  bad_columns, checked, is_int_between, is_bool, is_columns, all_known, command_parameters, hours,
  validate_parameters,
}

-- The value at a key, if there is one, passes a test.
abbrev pub Passes : (Value → Bool) → String → Fields → Type 0
Passes p k ps = (v : Value) → get k ps ≡ some v → p v ≡ true

checked-Passes :
    (p : Value → Bool) (e : BadParameter) (k : String) (ps : Fields)
    → checked p e (get k ps) ≡ ok tt
    → Passes p k ps
unfolding checked
checked-Passes p e k ps h v g = ground arith

-- The fewest hours that a command may be told to keep.
abbrev pub least_hours : Command → ℕ
least_hours expire_snapshots = 120
least_hours remove_orphan_files = 72
least_hours _ = 0

pub record IsValidated (command : Command) (ps : Fields) : Type 0 where
  pub known : (k : String) → has k ps ≡ true → one_of k (command_parameters command) ≡ true
  pub rewrite_all : Passes is_bool "rewriteAll" ps
  pub dangling : Passes is_bool "removeDanglingDeletes" ps
  pub caching : Passes is_bool "useCaching" ps
  pub dry_run : Passes is_bool "dryRun" ps
  pub target_size : Passes (is_int_between 1048576 10737418240) "targetFileSizeBytes" ps
  pub min_files : Passes (is_int_between 1 10000) "minInputFiles" ps
  pub group_size : Passes (is_int_between 1048576 109951162777600) "maxFileGroupSizeBytes" ps
  pub retain : Passes (is_int_between 1 10000) "retainLast" ps
  pub snapshot : Passes (is_int_between 1 9223372036854775807) "snapshotId" ps
  pub expire_hours :
      command ≡ expire_snapshots → Passes (is_int_between 120 87600) "olderThanHours" ps
  pub orphan_hours :
      command ≡ remove_orphan_files → Passes (is_int_between 72 87600) "olderThanHours" ps
  pub columns : Passes is_columns "columns" ps

all_known-has :
    (k : String) (known : List String) (ps : Fields)
    → all_known known ps ≡ true
    → has k ps ≡ true
    → one_of k known ≡ true
unfolding all_known has
all_known-has k known end h g = cc
all_known-has k known (field j v fs) h g = ground (arith, eq_iff j k, all_known-has k known fs)

-- Accepted parameters are known to the command, have the types that it expects, and lie in range.
pub validate-IsValidated :
    (command : Command) (ps : Fields)
    → validate_parameters command ps ≡ ok tt
    → IsValidated command ps
unfolding validate_parameters
validate-IsValidated command ps h = record {
  known = λ k. all_known-has k (command_parameters command) ps (ground arith);
  rewrite_all = checked-Passes _ (must_be_boolean "rewriteAll") _ ps (ground arith);
  dangling = checked-Passes _ (must_be_boolean "removeDanglingDeletes") _ ps (ground arith);
  caching = checked-Passes _ (must_be_boolean "useCaching") _ ps (ground arith);
  dry_run = checked-Passes _ (must_be_boolean "dryRun") _ ps (ground arith);
  target_size = checked-Passes _ (must_be_integer "targetFileSizeBytes") _ ps (ground arith);
  min_files = checked-Passes _ (must_be_integer "minInputFiles") _ ps (ground arith);
  group_size = checked-Passes _ (must_be_integer "maxFileGroupSizeBytes") _ ps (ground arith);
  retain = checked-Passes _ (must_be_integer "retainLast") _ ps (ground arith);
  snapshot = checked-Passes _ (must_be_integer "snapshotId") _ ps (ground arith);
  expire_hours = λ c. checked-Passes _ (must_be_integer "olderThanHours") _ ps (ground arith);
  orphan_hours = λ c. checked-Passes _ (must_be_integer "olderThanHours") _ ps (ground arith);
  columns = checked-Passes _ bad_columns _ ps (ground arith);
}

Passes-checked :
    (p : Value → Bool) (e : BadParameter) (k : String) (ps : Fields)
    → Passes p k ps
    → checked p e (get k ps) ≡ ok tt
unfolding checked
Passes-checked p e k ps h = elim (Option-cases (get k ps)) [
  | inl missing ↦ rw missing
  | inr (v, found) ↦ rw found (rw (h v found))
]

has-all_known :
    (known : List String) (ps : Fields)
    → ((k : String) → has k ps ≡ true → one_of k known ≡ true)
    → all_known known ps ≡ true
unfolding all_known has
has-all_known known end h = refl
has-all_known known (field j v fs) h =
    ground (arith, eq_iff j j, h j, has-all_known known fs (λ k g. h k (ground arith)))

hours-of : (command : Command) (ps : Fields) → IsValidated command ps → hours command ps ≡ ok tt
unfolding hours
hours-of expire_snapshots ps h =
    Passes-checked _ (must_be_integer "olderThanHours") _ ps (h.expire_hours refl)
hours-of remove_orphan_files ps h =
    Passes-checked _ (must_be_integer "olderThanHours") _ ps (h.orphan_hours refl)
hours-of _ ps h = refl

IsValidated-validate :
    (command : Command) (ps : Fields)
    → IsValidated command ps
    → validate_parameters command ps ≡ ok tt
unfolding validate_parameters
IsValidated-validate command ps h = ground (
  arith,
  has-all_known (command_parameters command) ps h.known,
  Passes-checked is_bool (must_be_boolean "rewriteAll") "rewriteAll" ps h.rewrite_all,
  Passes-checked is_bool (must_be_boolean "removeDanglingDeletes") "removeDanglingDeletes" ps
      h.dangling,
  Passes-checked is_bool (must_be_boolean "useCaching") "useCaching" ps h.caching,
  Passes-checked is_bool (must_be_boolean "dryRun") "dryRun" ps h.dry_run,
  Passes-checked (is_int_between 1048576 10737418240) (must_be_integer "targetFileSizeBytes")
      "targetFileSizeBytes" ps h.target_size,
  Passes-checked (is_int_between 1 10000) (must_be_integer "minInputFiles") "minInputFiles" ps
      h.min_files,
  Passes-checked (is_int_between 1048576 109951162777600) (must_be_integer "maxFileGroupSizeBytes")
      "maxFileGroupSizeBytes" ps h.group_size,
  Passes-checked (is_int_between 1 10000) (must_be_integer "retainLast") "retainLast" ps h.retain,
  Passes-checked (is_int_between 1 9223372036854775807) (must_be_integer "snapshotId") "snapshotId"
      ps h.snapshot,
  Passes-checked is_columns bad_columns "columns" ps h.columns,
  hours-of command ps h,
)

-- Parameters are accepted exactly when they are known to the command, well typed and in range.
pub validate_exact :
    (command : Command) (ps : Fields)
    → (validate_parameters command ps ≡ ok tt) ↔ IsValidated command ps
validate_exact command ps = (validate-IsValidated command ps, IsValidated-validate command ps)
