-- ===== src/Params.antt =====
-- Maintenance commands and engines (backend/app/schemas.py) and the check of a request's
-- parameters (backend/app/services.py).
pub mod Bounds
use Prim.Native.String.{count}
use iceberg_rest_catalog.Common.{
  ℕ, String, Bool, true, false, Option, none, some, List, [], ◌∷◌, ◌&&◌, ◌||◌, not, Outcome, ok,
  err, ◌>>◌, ◌>>=◌, raise_if, leb, if◌then◌else◌, one_of, ◌=ₛ◌,
}
use iceberg_rest_catalog.Common.Int.{ℤ, pos, negsuc}
use iceberg_rest_catalog.Json.{
  Value, Items, Fields, null, bool, int, real, text, arr, obj, nil, cons, end, field, get, has,
}

-- `MaintenanceCommand`
pub data Command : Type 0 where
  compute_stats rewrite_manifests rewrite_data_files rewrite_position_deletes : Command
  expire_snapshots remove_orphan_files storage_migration rollback : Command

-- `EngineType`
pub data Engine : Type 0 where
  auto spark trino flink : Engine

pub data Risk : Type 0 where
  low medium high very_high : Risk

-- `COMMAND_RISK`
unfoldable pub command_risk : Command → Risk
command_risk compute_stats = low
command_risk rewrite_manifests = medium
command_risk rewrite_data_files = medium
command_risk rewrite_position_deletes = medium
command_risk expire_snapshots = high
command_risk remove_orphan_files = very_high
command_risk storage_migration = very_high
command_risk rollback = very_high

-- `RISK_ORDER`
unfoldable pub risk_order : Risk → ℕ
risk_order low = 0
risk_order medium = 1
risk_order high = 2
risk_order very_high = 3

-- `command in ENGINE_CAPABILITIES[engine]`
unfoldable pub engine_capable : Engine → Command → Bool
engine_capable auto storage_migration = false
engine_capable auto _ = true
engine_capable spark storage_migration = false
engine_capable spark _ = true
engine_capable trino storage_migration = false
engine_capable trino rewrite_position_deletes = false
engine_capable trino rollback = false
engine_capable trino _ = true
engine_capable flink rewrite_data_files = true
engine_capable flink expire_snapshots = true
engine_capable flink remove_orphan_files = true
engine_capable flink _ = false

-- `COMMAND_PARAMETERS.get(command, set())`
unfoldable pub command_parameters : Command → List String
command_parameters rewrite_data_files =
    "targetFileSizeBytes" ∷ "minInputFiles" ∷ "maxFileGroupSizeBytes" ∷ "rewriteAll"
    ∷ "removeDanglingDeletes" ∷ []
command_parameters rewrite_manifests = "useCaching" ∷ []
command_parameters rewrite_position_deletes = "rewriteAll" ∷ []
command_parameters compute_stats = "columns" ∷ []
command_parameters expire_snapshots = "olderThanHours" ∷ "retainLast" ∷ []
command_parameters remove_orphan_files = "olderThanHours" ∷ "dryRun" ∷ []
command_parameters rollback = "snapshotId" ∷ []
command_parameters storage_migration = []

-- What `validate_parameters` raises, by the message of the exception.
pub data BadParameter : Type 0 where
  unsupported_parameters bad_columns : BadParameter
  must_be_integer must_be_boolean : String → BadParameter

-- `isinstance(value, int)`, no Boolean, `minimum <= value <= maximum`
unfoldable pub is_int_between : ℕ → ℕ → Value → Bool
is_int_between minimum maximum (int (pos n)) = leb minimum n && leb n maximum
is_int_between minimum maximum v = false

unfoldable pub is_bool : Value → Bool
is_bool (bool b) = true
is_bool v = false

-- A key that is there has a value of the kind; a missing key passes.
unfoldable pub checked :
    (Value → Bool) → BadParameter → Option Value → Outcome BadParameter (Unit {0})
checked p e none = ok tt
checked p e (some v) = if p v then ok tt else err e

integer : String → ℕ → ℕ → Fields → Outcome BadParameter (Unit {0})
integer name minimum maximum ps =
    checked (is_int_between minimum maximum) (must_be_integer name) (get name ps)

boolean : String → Fields → Outcome BadParameter (Unit {0})
boolean name ps = checked is_bool (must_be_boolean name) (get name ps)

-- One column name: a text of 1 to 500 characters.
unfoldable pub is_column : Value → Bool
is_column (text s) = leb 1 (count s) && leb (count s) 500
is_column v = false

unfoldable pub every_item : (Value → Bool) → Items → Bool
every_item p nil = true
every_item p (cons v xs) = p v && every_item p xs

unfoldable pub length_items : Items → ℕ
length_items nil = 0
length_items (cons v xs) = Prim.Native.Nat.suc (length_items xs)

-- `columns is not None and (…)`, turned round
unfoldable pub is_columns : Value → Bool
is_columns null = true
is_columns (arr xs) =
    leb 1 (length_items xs) && leb (length_items xs) 100 && every_item is_column xs
is_columns v = false

-- `set(parameters) - COMMAND_PARAMETERS.get(command, set())` is empty
unfoldable pub all_known : List String → Fields → Bool
all_known known end = true
all_known known (field k v fs) = one_of k known && all_known known fs

hours : Command → Fields → Outcome BadParameter (Unit {0})
unfolding integer
hours expire_snapshots ps = integer "olderThanHours" 120 87600 ps
hours remove_orphan_files ps = integer "olderThanHours" 72 87600 ps
hours _ ps = ok tt

-- The source walks the names of the Boolean parameters as a set, in no fixed order.
unfoldable pub validate_parameters : Command → Fields → Outcome BadParameter (Unit {0})
unfolding integer boolean hours
validate_parameters command ps = do
  raise_if (not (all_known (command_parameters command) ps)) unsupported_parameters
  boolean "rewriteAll" ps
  boolean "removeDanglingDeletes" ps
  boolean "useCaching" ps
  boolean "dryRun" ps
  integer "targetFileSizeBytes" 1048576 10737418240 ps
  integer "minInputFiles" 1 10000 ps
  integer "maxFileGroupSizeBytes" 1048576 109951162777600 ps
  integer "retainLast" 1 10000 ps
  integer "snapshotId" 1 9223372036854775807 ps
  hours command ps
  checked is_columns bad_columns (get "columns" ps)
